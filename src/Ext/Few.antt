-- ===== src/Ext/Few.antt =====
-- How many transactions the filters can bring to light.
use cic_stack_v.Prelude.{
  ℕ, zero, suc, ◌+◌, ◌-◌, ◌≤◌, ◌≡◌, refl, Bool, true, false, none, some, List, [], ◌∷◌, arith,
  length, subst, ap,
}
use cic_stack_v.Store.Rows.{Text}
use cic_stack_v.Store.{Action, Worker, Result, ok, err, from_result, pure, ◌>>=◌}
use cic_stack_v.External.{Encoding}
use cic_stack_v.Balance.{put}
use cic_stack_v.Upcoming.Answer.{length-put}
use cic_stack_v.CicCache.Bloom.{to_bytes}
use cic_stack_v.Ext.{
  Lookup, BloomSpec, Entry, range_from, overflow_or, visit, scan_block, scan_if, scan_blocks,
  list_tx_by_bloom,
}

-- An answer, if it is one, has no more than so many entries.
abbrev AtMost : ℕ → Result (List (Text × Entry)) → Type 0
AtMost n (ok txs) = length txs ≤ n
AtMost n (err e) = Unit {0}

case-AtMost :
    {A : Type 0} (n : ℕ) (f : A → Action (List (Text × Entry))) (r : Result A) (v : Worker)
    → ((a : A) → r ≡ ok a → AtMost n (f a v).0)
    → AtMost n
        (elim r as (λ x. Result (List (Text × Entry)) × Worker) [
          | ok a ↦ f a v
          | err e ↦ (err e, v)
        ]).0
case-AtMost n f (ok a) v h = h a refl
case-AtMost n f (err e) v h = tt

-- A bound on what follows is a bound on the whole.
bind-AtMost :
    {A : Type 0} (n : ℕ) (m : Action A) (f : A → Action (List (Text × Entry))) (w : Worker)
    → ((a : A) → (m w).0 ≡ ok a → AtMost n (f a (m w).1).0)
    → AtMost n ((m >>= f) w).0
bind-AtMost n m f w h = case-AtMost n f (m w).0 (m w).1 h

AtMost-mono : (n k : ℕ) (r : Result (List (Text × Entry))) → n ≤ k → AtMost n r → AtMost k r
AtMost-mono n k (ok txs) h below = omega (arith, below, h)
AtMost-mono n k (err e) h below = tt

module _ (enc : Encoding) (lookup : Lookup) (spec : BloomSpec) (address : Text) where
  scan_block-AtMost :
      (bytes : List ℕ) (hash : Text) (indices : List ℕ) (txs : List (Text × Entry)) (w : Worker)
      → AtMost (length txs + 1) (scan_block enc lookup spec address bytes hash indices txs w).0
  unfolding scan_block
  scan_block-AtMost bytes hash [] txs w = omega arith
  scan_block-AtMost bytes hash (index ∷ indices) txs w =
      bind-AtMost (length txs + 1) (visit enc lookup spec address bytes hash index)
        (λ found. elim found [
          | none ↦ scan_block enc lookup spec address bytes hash indices txs
          | some e ↦ pure (put (enc.strip_0x e.hash) e txs)
        ])
        w
        (λ found answered.
          elim found
            as (λ o.
              AtMost (length txs + 1)
                ((elim o as (λ x. Action (List (Text × Entry))) [
                  | none ↦ scan_block enc lookup spec address bytes hash indices txs
                  | some e ↦ pure (put (enc.strip_0x e.hash) e txs)
                ])
                  (visit enc lookup spec address bytes hash index w).1).0) [
                    | none ↦
                        scan_block-AtMost bytes hash indices txs
                          (visit enc lookup spec address bytes hash index w).1
                    | some e ↦ length-put (enc.strip_0x e.hash) e txs
                  ])

  scan_if-AtMost :
      (matches : Bool) (bytes : List ℕ) (height : ℕ) (txs : List (Text × Entry)) (w : Worker)
      → AtMost (length txs + 1) (scan_if enc lookup matches spec address bytes height txs w).0
  unfolding scan_if
  scan_if-AtMost false bytes height txs w = omega arith
  scan_if-AtMost true bytes height txs w =
      bind-AtMost (length txs + 1) (from_result (lookup.block_by_number height))
        (λ block. scan_block enc lookup spec address bytes block.0 (range_from 0 block.1) txs) w
        (λ block answered. scan_block-AtMost bytes block.0 (range_from 0 block.1) txs w)

  -- One block, and then the others.
  scan_rest-AtMost :
      (height : ℕ) (heights : List ℕ) (txs : List (Text × Entry)) (bytes : List ℕ) (v : Worker)
      → ((txs' : List (Text × Entry)) (v' : Worker)
          → AtMost
              (length txs' + length heights)
              (scan_blocks enc lookup spec address heights txs' v').0)
      → AtMost
          (length txs + length (height ∷ heights))
          ((scan_if enc lookup (spec.block_filter bytes) spec address bytes height txs >>= λ txs.
              scan_blocks enc lookup spec address heights txs)
            v).0
  scan_rest-AtMost height heights txs bytes v rest =
      let one = scan_if enc lookup (spec.block_filter bytes) spec address bytes height txs in
      bind-AtMost (length txs + length (height ∷ heights)) one
        (λ txs. scan_blocks enc lookup spec address heights txs) v
        (λ txs' answered.
          let more : length txs' ≤ length txs + 1 =
            subst (AtMost (length txs + 1)) answered
              (scan_if-AtMost (spec.block_filter bytes) bytes height txs v) in
          AtMost-mono (length txs' + length heights) (length txs + length (height ∷ heights))
            (scan_blocks enc lookup spec address heights txs' (one v).1).0 (omega (arith, more))
            (rest txs' (one v).1))

  scan_blocks-AtMost :
      (heights : List ℕ) (txs : List (Text × Entry)) (w : Worker)
      → AtMost (length txs + length heights) (scan_blocks enc lookup spec address heights txs w).0
  unfolding scan_blocks
  scan_blocks-AtMost [] txs w = omega arith
  scan_blocks-AtMost (height ∷ heights) txs w =
      bind-AtMost (length txs + length (height ∷ heights)) (overflow_or (to_bytes height))
        (λ bytes.
          scan_if enc lookup (spec.block_filter bytes) spec address bytes height txs >>= λ txs.
          scan_blocks enc lookup spec address heights txs)
        w
        (λ bytes fits.
          scan_rest-AtMost height heights txs bytes (overflow_or (to_bytes height) w).1
            (scan_blocks-AtMost heights))

  length-range_from : (start n : ℕ) → length (range_from start n) ≡ n
  unfolding range_from
  length-range_from start zero = refl
  length-range_from start (suc n) = omega (arith, length-range_from (start + 1) n)

  -- Whenever the external transactions of an account are listed, there are no more of them than blocks
  -- from `low` to the one before `high`: one for each block at most, and none of the highest block,
  -- whatever the filters hold.
  pub list_tx_by_bloom-few :
      (w : Worker) (txs : List (Text × Entry)) (v : Worker)
      → list_tx_by_bloom enc lookup spec address w ≡ (ok txs, v)
      → length txs ≤ spec.high - spec.low
  unfolding list_tx_by_bloom
  list_tx_by_bloom-few w txs v answered =
      let heights = range_from spec.low (spec.high - spec.low) in
      let bound : AtMost (length heights) (ok txs) =
        subst (AtMost (length heights))
          (ap (λ (o : Result (List (Text × Entry)) × Worker). o.0) answered)
          (AtMost-mono (0 + length heights) (length heights)
            (scan_blocks enc lookup spec address heights [] w).0 (omega arith)
            (scan_blocks-AtMost heights [] w)) in
      omega (arith, bound, length-range_from spec.low (spec.high - spec.low))
