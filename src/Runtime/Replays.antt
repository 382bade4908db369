-- ===== src/Runtime/Replays.antt =====
-- Runs of the oracle's own calls, against what can be read of its storage.
use oracle_pallet.Prelude.{◌≡◌, refl, sym, ◌∙◌, ap, List, [], ◌∷◌, ◌++◌, if◌then◌else◌}
use oracle_pallet.Pallet.Config.{Config, Storage, IsLawfulConfig}
use oracle_pallet.Pallet.Calls
use oracle_pallet.Pallet.Calls.Spec.{View, sender, view, permitted, effect}
use oracle_pallet.Pallet.Calls.Refinement.{view-dispatch}
use oracle_pallet.Pallet.Calls.History.{Extrinsic, run}

-- What can be read of the oracle afterwards is what these calls, in this order and each from its
-- origin, make of what could be read before.
pub record Replays (C : Config) (calls : List (Extrinsic C)) (before after : Storage C)
    : Type 0 where
  pub reads : view C after ≡ view C (run C calls before)

module _ (C : Config) (L : IsLawfulConfig C) where
  -- What can be read after calls depends on what could be read before.
  view-run :
      (txs : List (Extrinsic C)) (s t : Storage C)
      → view C s ≡ view C t
      → view C (run C txs s) ≡ view C (run C txs t)
  unfolding run
  view-run [] s t h = h
  view-run ((c, o) ∷ rest) s t h =
      view-run rest (Calls.dispatch C c o s).1 (Calls.dispatch C c o t).1 (
        view-dispatch C L c o s
        ∙ ap (λ (v : View C.AccountId). if permitted C v (sender C o) c then effect C c v else v) h
        ∙ sym (view-dispatch C L c o t))

  run-append :
      (xs ys : List (Extrinsic C)) (s : Storage C) → run C (xs ++ ys) s ≡ run C ys (run C xs s)
  unfolding run
  run-append [] ys s = refl
  run-append ((c, o) ∷ xs) ys s = run-append xs ys (Calls.dispatch C c o s).1

  pub Replays-same : (s t : Storage C) → view C t ≡ view C s → Replays C [] s t
  unfolding run
  Replays-same s t h = record { reads = h }

  pub Replays-then :
      (xs ys : List (Extrinsic C)) (s t u : Storage C)
      → Replays C xs s t
      → Replays C ys t u
      → Replays C (xs ++ ys) s u
  Replays-then xs ys s t u a b = record {
    reads = b.reads ∙ view-run ys t (run C xs s) a.reads ∙ sym (ap (view C) (run-append xs ys s));
  }
