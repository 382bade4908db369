-- ===== src/Node/Service/Follows.antt =====
-- Runs that start what a plan says: how the steps of a run and those of its parts go together.
use mathlib.Core.List.{append_assoc, append-nil}
use mathlib.Core.Path.{subst}
use oracle_pallet.Prelude.{
  ◌≡◌, refl, sym, ap, ◌∙◌, Bool, true, false, none, some, List, [], ◌∷◌, ◌++◌, map, if◌then◌else◌,
  is_some, ◌⊎◌, inl, inr, arith,
}
use oracle_pallet.Result.{Result, ok, err, Result-cases, is_ok, pure, lift, ◌>>=◌, ◌>>◌}
use oracle_pallet.Node.Service.{
  Parts, Action, Failure, Run, started, attempt, service_error, started_network,
}
use oracle_pallet.Node.Service.Plan.{Step, step, network_start, when}

-- A run starts what the plan says, in its order, and if it fails a beginning of it.
pub record Follows {P : Parts} {A : Type 0} (m : Run P A) (plan : List Step) : Type 0 where
  pub steps :
      (log : List (Action P))
      → (before after : List Step) × (map step (m log).1 ≡ map step log ++ before)
        × (plan ≡ before ++ after)
        × (is_ok (m log).0 ≡ true → after ≡ [])

map-append :
    {P : Parts} (xs ys : List (Action P)) → map step (xs ++ ys) ≡ map step xs ++ map step ys
map-append [] ys = refl
map-append (x ∷ xs) ys = ap (λ r. step x ∷ r) (map-append xs ys)

module _ {P : Parts} where
  pub Follows-pure :
      {A : Type 0} (a : A) → Follows (pure {S = List (Action P)} {E = Failure P} a) []
  Follows-pure a = record { steps = λ log. ([], [], sym (append-nil _), refl, λ h. refl) }

  pub Follows-fail :
      {A : Type 0} (e : Failure P) (plan : List Step) → Follows {A = A} (λ log. (err e, log)) plan
  Follows-fail e plan = record {
    steps = λ log. ([], plan, sym (append-nil _), refl, λ bad. absurd (ground arith));
  }

  pub Follows-started :
      {B : Type 0} (a : Action P) (k : Run P B) (plan : List Step)
      → Follows k plan
      → Follows (started P a >> k) (step a ∷ plan)
  Follows-started a k plan h = record {
    steps = λ log.
        let (before, after, e, p, done) = h.steps (log ++ (a ∷ [])) in
        (
          step a ∷ before,
          after,
          rw e (rw (map-append log (a ∷ [])) (append_assoc (map step log) (step a ∷ []) before)),
          ap (λ x. step a ∷ x) p,
          done,
        );
  }

  bind-ok :
      {A B : Type 0} (m : Run P A) (f : A → Run P B) (log : List (Action P)) (a : A)
      → (m log).0 ≡ ok a
      → (m >>= f) log ≡ f a (m log).1
  bind-ok m f log a h = ground arith

  bind-err :
      {A B : Type 0} (m : Run P A) (f : A → Run P B) (log : List (Action P)) (e : Failure P)
      → (m log).0 ≡ err e
      → (m >>= f) log ≡ (err e, (m log).1)
  bind-err m f log e h = ground arith

  pub Follows-bind :
      {A B : Type 0} (m : Run P A) (f : A → Run P B) (plan more : List Step)
      → Follows m plan
      → ((a : A) (log : List (Action P)) → (m log).0 ≡ ok a → Follows (f a) more)
      → Follows (m >>= f) (plan ++ more)
  Follows-bind m f plan more h k = record {
    steps = λ log.
        let (before, after, e, p, done) = h.steps log in
        elim (Result-cases (m log).0) [
          | inl (a, good) ↦
              let (next, left, e', p', done') = (k a log good).steps (m log).1 in
              let none_left : after ≡ [] = done (rw good refl) in
              let whole : plan ≡ before = p ∙ ap (λ x. before ++ x) none_left ∙ append-nil before in
              (
                before ++ next,
                left,
                rw (bind-ok m f log a good)
                    (e' ∙ ap (λ x. x ++ next) e ∙ append_assoc (map step log) before next),
                ap (λ x. x ++ more) whole
                    ∙ ap (λ x. before ++ x) p'
                    ∙ sym (append_assoc before next left),
                rw (bind-ok m f log a good) done',
              )
          | inr (x, bad) ↦ (
            before,
            after ++ more,
            rw (bind-err m f log x bad) e,
            ap (λ x. x ++ more) p ∙ append_assoc before after more,
            λ h. absurd (ground arith),
          )
        ];
  }

  pub Follows-lift : {A : Type 0} (r : Result (Failure P) A) → Follows {P = P} (lift r) []
  Follows-lift (ok a) = Follows-pure a
  Follows-lift (err e) = Follows-fail e []

  pub Follows-attempt : {A : Type 0} (r : Result P.Error A) → Follows (attempt P r) []
  Follows-attempt (ok a) = Follows-pure a
  Follows-attempt (err e) = Follows-fail (service_error e) []

  pub Follows-action : (a : Action P) → Follows (started P a) (step a ∷ [])
  Follows-action a = record {
    steps = λ log. (step a ∷ [], [], map-append log (a ∷ []), refl, λ h. refl);
  }

  pub Follows-when :
      (b : Bool) (m : Run P (Unit {0})) (plan : List Step)
      → Follows m plan
      → Follows (if b then m else pure tt) (when b plan)
  Follows-when true m plan h = h
  Follows-when false m plan h = Follows-pure tt

  -- A call that may fail comes first.
  pub Follows-after :
      {A B : Type 0} (r : Result P.Error A) (f : A → Run P B) (plan : List Step)
      → ((a : A) → r ≡ ok a → Follows (f a) plan)
      → Follows (attempt P r >>= f) plan
  Follows-after (ok a) f plan h = h a refl
  Follows-after (err e) f plan h = Follows-fail (service_error e) plan

  pub Follows-eq :
      {A : Type 0} (m : Run P A) (plan plan' : List Step)
      → plan ≡ plan'
      → Follows m plan
      → Follows m plan'
  Follows-eq m plan plan' e h = subst (Follows m) e h

  -- A preparation, and the start of the network if it ends well.
  pub started_or_not :
      {A B : Type 0} (m : Run P A) (starter : A → P.NetworkStarter) (f : A → B) (plan : List Step)
      → Follows m plan
      → let full = m >>= λ a. started P (started_network (starter a)) >> pure (f a) in
        ((is_ok (full []).0 ≡ true) × (map step (full []).1 ≡ plan ++ network_start ∷ []))
        ⊎ ((is_ok (full []).0 ≡ false)
            × ((rest : List Step) × (plan ≡ map step (full []).1 ++ rest)))
  started_or_not m starter f plan h =
      let (before, after, e, p, done) = h.steps [] in
      elim (Result-cases (m []).0) [
        | inl (a, good) ↦
            let none_left : after ≡ [] = done (rw good refl) in
            let whole : plan ≡ before = p ∙ ap (λ x. before ++ x) none_left ∙ append-nil before in
            inl (
              rw (bind-ok m _ [] a good) refl,
              rw (bind-ok m _ [] a good) (
                  map-append (m []).1 (_ ∷ []) ∙ ap (λ x. x ++ network_start ∷ []) (e ∙ sym whole)),
            )
        | inr (x, bad) ↦ inr (
          rw (bind-err m _ [] x bad) refl,
          (after, rw (bind-err m _ [] x bad) (p ∙ ap (λ y. y ++ after) (sym e))),
        )
      ]

pub is_some-if : {A : Type 0} (b : Bool) (a : A) → is_some (if b then some a else none) ≡ b
is_some-if true a = refl
is_some-if false a = refl
