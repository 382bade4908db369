-- ===== src/System/Endpoint.antt =====
-- Where the workers post, in every storage that calls leave.
use oracle_pallet.Prelude.{
  ◌≡◌, refl, ap, Bool, true, false, some, none, Option, arith, Bool-cases, ◌⊎◌, inl, inr, nat_eq,
}
use oracle_pallet.Pallet.Types.{Bytes, Call}
use oracle_pallet.Pallet.Config.{Config, Storage, IsLawfulConfig}
use oracle_pallet.Pallet.Calls.{dispatch}
use oracle_pallet.Pallet.Calls.Spec.{View, sender, view, permitted, effect}
use oracle_pallet.Pallet.Calls.Refinement.{view-dispatch}
use oracle_pallet.Pallet.Calls.Stored.{is_update}
use oracle_pallet.Pallet.Worker.{batching_endpoint_fallback}
use oracle_pallet.System.{posts_to, redirects}

pub update-stays :
    {AccountId : Type 0} (server : Bytes → Bool) (c : Call AccountId)
    → is_update c ≡ true
    → redirects server c ≡ false
update-stays server (Call.set_updated_coin_infos cs) h = refl
update-stays server (Call.set_batching_api api) h = cc
update-stays server c h = ground arith

-- Where the workers post stays an endpoint of the server, unless a permitted call changes it to
-- another.
module _ (C : Config) (CL : IsLawfulConfig C) (server : Bytes → Bool) where
  effect-posts_to :
      (c : Call C.AccountId) (api : Option Bytes) (s : Storage C)
      → redirects server c ≡ false
      → server (posts_to s) ≡ true
      → api ≡ (effect C c (view C s)).batching_api
      → server (elim api [ none ↦ batching_endpoint_fallback | some x ↦ x ]) ≡ true
  effect-posts_to c api s safe here e = ground arith

  pub dispatch-posts_to :
      (c : Call C.AccountId) (o : C.Origin) (s : Storage C)
      → (permitted C (view C s) (sender C o) c ≡ false) ⊎ (redirects server c ≡ false)
      → server (posts_to s) ≡ true
      → server (posts_to (dispatch C c o s).1) ≡ true
  dispatch-posts_to c o s safe here =
      let after = ap (λ (v : View C.AccountId). v.batching_api) (view-dispatch C CL c o s) in
      elim safe [
        | inl refused ↦ ground arith
        | inr kept ↦ elim (Bool-cases (permitted C (view C s) (sender C o) c)) [
          | inl yes_ ↦
              effect-posts_to c (dispatch C c o s).1.batching_api s kept here (ground arith)
          | inr no_ ↦ ground arith
        ]
      ]
