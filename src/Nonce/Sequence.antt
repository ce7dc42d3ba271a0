-- ===== src/Nonce/Sequence.antt =====
-- Any sequence of calls of `Nonce.next`, for any mix of addresses.
use cic_stack_v.Prelude.{
  ℕ, zero, suc, ◌+◌, ◌≡◌, refl, false, List, [], ◌∷◌, arith, ◌==◌, if◌then◌else◌,
}
use cic_stack_v.Store.Rows.{Text}
use cic_stack_v.Store.Session.{given}
use cic_stack_v.Store.{Worker, Action, ok, ◌>>=◌, pure}
use cic_stack_v.Nonce.{next}
use cic_stack_v.Nonce.Effect.{
  upcoming, after_next, next-given, upcoming-after_next, upcoming-after_next_ne,
}

-- The calls in turn, each in the caller's session, with the nonces that they return.
pub serve : List Text → Action (List (Text × ℕ))
serve [] = pure []
serve (address ∷ rest) = do
  n ← next address 0 given
  served ← serve rest
  pure ((address, n) ∷ served)

-- The nonces that went to one address, in order.
pub nonces_for : Text → List (Text × ℕ) → List ℕ
nonces_for a [] = []
nonces_for a ((b, n) ∷ served) = let rest = nonces_for a served in if b == a then n ∷ rest else rest

pub requests_of : Text → List Text → ℕ
requests_of a [] = 0
requests_of a (b ∷ rest) = let n = requests_of a rest in if b == a then suc n else n

-- `start`, `start + 1`, and so on, `count` numbers.
pub range : ℕ → ℕ → List ℕ
range start zero = []
range start (suc count) = start ∷ range (start + 1) count

-- Whatever the mix of addresses, every call succeeds, and an address that asks k times is given the k
-- nonces that follow its stored one, in order: none twice, none left out.
pub serve_consecutive :
    (addresses : List Text) (a : Text) (w : Worker)
    → w.registered ≡ false
    → (served : List (Text × ℕ)) × (w' : Worker) × (serve addresses w ≡ (ok served, w'))
      × (nonces_for a served ≡ range (upcoming a 0 w.work) (requests_of a addresses))
unfolding serve nonces_for requests_of range
serve_consecutive [] a w h = ([], w, refl, refl)
serve_consecutive (b ∷ rest) a w h =
    let w₁ : Worker = record w { work = after_next b 0 w.work } in
    let (served, w', e, ih) = serve_consecutive rest a w₁ h in
    (
      (b, upcoming b 0 w.work) ∷ served,
      w',
      ground (arith, next-given b 0 w h, e),
      ground (arith, ih, upcoming-after_next b 0 0 w.work, upcoming-after_next_ne b a 0 0 w.work),
    )
