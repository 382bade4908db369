-- ===== src/Lib.antt =====
-- The DIA oracle: a Substrate pallet that stores prices, and a server that it asks for them.
--
-- The program has two halves. dia-batching-server (Rust, one process) asks the API of DIA for
-- quotations in rounds, converts them to prices in units of 10^-12, keeps them in a map, and
-- answers HTTP requests from this map. The pallet pallets/dia-oracle (in the runtime of a chain)
-- keeps authorized accounts, supported currencies, the server's endpoint and the coin infos. Its
-- off-chain worker posts the supported currencies to the server, and submits the answer on chain
-- as the call `set_updated_coin_infos` of an authorized account. Other pallets read the prices
-- through the trait `DiaOracle`.
--
-- Files, with the code that they model:
--   Prelude, Text, Result, Dict: shared helpers; the functions of Rust's standard library on
--     lists, bytes, results and hash maps that the program calls.
--   Frame: the storage maps of FRAME, an interface with its laws. Dict/Lawful implements it.
--   Pallet/Types, Pallet/Config: the data and the storage of pallets/dia-oracle/src/dia.rs and
--     src/lib.rs. A call is a function of the storage and returns a result with the new storage.
--   Pallet/Calls: the calls of src/lib.rs, `dispatch` by call index. Spec is a table of what each
--     sender may do and what each call changes; Refinement compares the code with it; History
--     replays the events; Authority has what holds after any calls, and Stored a rule for the
--     properties of the stored infos.
--   Pallet/Oracle: `get_coin_info` and `get_value`. Pallet/Genesis: `GenesisConfig` and `build`.
--   Pallet/Worker: `update_prices` and `offchain_worker`. Request is the text that is posted,
--     Json a reader of such texts, Outcome the results of a run, Delivery its way to the chain.
--   Pallet/Benchmarking: src/benchmarking.rs, the setup and the measured call of each benchmark;
--     Measures compares what they do with the weights.
--   Pallet/Mock: a small runtime in the place of src/mock.rs, which instantiates the parameters.
--   Wire: the JSON between the worker and the server, by the serde attributes of the structs on
--     both sides. Answer and Found say what is read of an answer; Served joins the two halves of
--     the program: the server's map, the worker's run and the prices on chain, and Quoted starts
--     at a round of the updater. Mock is a small pair of JSON libraries.
--   Node/Signing: `create_transaction` of runtime/src/lib.rs.
--   Node/Benchmarking: the extrinsics of node/src/benchmarking.rs; Eras compares their lifetime,
--     and that of the worker's transactions, with the block hashes that the chain keeps.
--   Node/Service: node/src/service.rs, Partial with `new_partial` and Full with `new_full`. Plan is
--     read off the configuration, Follows and Started compare a run with it.
--   Node/Command: `run` of node/src/command.rs, with the subcommands of node/src/cli.rs; Performs
--     and Jobs say what each of them does.
--   Server/Convert: `convert_decimal_to_u128` and `convert_to_coin_info` of
--     dia-batching-server/src/price_updater.rs, over Server/Decimal, an interface for the decimals
--     of the crate rust_decimal, which Server/Decimal/Fixed implements. A panic is `none`.
--   Server/Storage, Server/Handlers: storage.rs and handlers.rs.
--   Server/Updater: `update_prices` and `run_update_prices_loop`, over `DiaApi`. Rounds describes
--     a round, Served what is answered after it, Stopped what a panic does, Pace and Clock its calls
--     and its time, and Unordered that the supported currencies count as a set.
--   Server/Dia: dia.rs, an implementation of `DiaApi` over an HTTP client that is a parameter.
--     Special has the two quotations that DIA does not give.
--   Server/Args, Server/Main: args.rs and main.rs. Supported has the set of supported
--     currencies, Entries reads an argument by what it is written with, and Sets takes the
--     set as a quotient of lists.
--   Server/Mock: `MockDia` of the tests.
--   Pallet/Price: the decimal text of `PriceInfo` of src/dia.rs, over Text/Number.
--   Pallet/Weights: src/weights.rs of the pallet, and the weights that its calls declare.
--   Node/ChainSpec: node/src/chain_spec.rs and `load_spec` of node/src/command.rs; Governed follows
--     a specification to the pallet's first storage and beyond.
--   Node/Rpc: pallets/dia-oracle/rpc/src/lib.rs over the runtime API of runtime/src/lib.rs. Full is
--     node/src/rpc.rs, which puts the methods of a node together, and Methods says what it serves.
--   Runtime: runtime/src/lib.rs, its constants; Calls the pallets that it composes and where their
--     calls go, and Api its runtime APIs, over the executive and the pallets of FRAME. Executive
--     says what is documented of these, and which calls of the oracle blocks make; Replays and
--     Blocks compare blocks with these calls alone, Rootless says that none is the root's, and
--     Governed starts blocks at a genesis.
--   System: the updater, the workers and the calls of anybody as steps of one transition system,
--     in any order. Its `IsTrusted` says of a call that it leaves the prices to the workers, and
--     the workers to the server: an authorized account can do otherwise, with an update of its
--     own or by `set_batching_api`. Updates and Answers follow an info from DIA to a worker,
--     Submits and Endpoint on to the chain, and Invariant through all runs of such calls. Provenance says where the prices on chain come from,
--     Refresh how new ones get there, and Stuck what one quotation that is too large does to all.
--   Files named Tests: tests of the source on the model, and theorems at concrete inputs.
--
-- Bounds: a `u128` or `u64` is a number; the only sum, `saturating_add`, has its limit written
-- out, and the decimals have theirs in the laws of the interface. The one endless loop, that of
-- the updater, takes a number of rounds, and the theorems hold for every number; every other loop
-- is a recursion on a list, but the 31 doublings that reach 2^31, the last power of two that a
-- `u32` holds. A `u128` is written with at most 39 digits, and 2^128 is below 10^39.
--
-- Not modelled: logging, the encoding of storage and calls, the client libraries under the node
-- (networking, consensus, the transaction pool), which are parameters of Node/Service, the lists
-- of types that configure the runtime's pallets, its metadata and session keys, the web framework,
-- the texts of JSON beyond what each side reads and writes, and the clocks except for the delays
-- of the updater. The storage of the server is replaced whole, so that an answer between two rounds
-- reads one map.
pub mod Prelude
pub mod Text
pub mod Wire
pub mod Frame
pub mod Result
pub mod Dict
pub mod Pallet
pub mod Server
pub mod Node
pub mod System
pub mod Runtime
