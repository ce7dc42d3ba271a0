-- ===== src/Store/Quiet.antt =====
-- Actions that only read: they leave the worker as it is.
use cic_stack_v.Prelude.{◌≡◌, inl, inr, arith}
use cic_stack_v.Store.{Worker, Result-cases, Action, ◌>>=◌}

unfoldable pub Quiet : {A : Type 0} → Action A → Type 0
Quiet m = (w : Worker) → (m w).1 ≡ w

module _ {A B : Type 0} where
  pub bind-Quiet :
      (m : Action A) (f : A → Action B) → Quiet m → ((a : A) → Quiet (f a)) → Quiet (m >>= f)
  unfolding Quiet
  bind-Quiet m f q qs w = elim (Result-cases (m w).0) [
    | inl (a, e) ↦ ground (arith, e, q w, qs a w)
    | inr (x, e) ↦ ground (arith, e, q w)
  ]
