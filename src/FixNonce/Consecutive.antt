-- ===== src/FixNonce/Consecutive.antt =====
-- The nonces that transactions are to have.
use cic_stack_v.Prelude.{
  ℕ, zero, suc, ◌+◌, ◌-◌, ◌<◌, ◌≤◌, ◌≡◌, refl, inl, inr, Bool-cases, Option, none, some, List, [],
  ◌∷◌, arith, ltb, All, All-weaken, Option-cases, subst, sym, map,
}
use cic_stack_v.Store.Rows.{Text}
use cic_stack_v.Balance.{put, lookup}
use cic_stack_v.Ext.{range_from}
use cic_stack_v.FixNonce.{
  Gaps, no_gaps, Move, after_last, gaps_from, new_delta, move_if, moves_over, moves_of, moves,
}
use cic_stack_v.FixNonce.Kept.{below, Kept, near-Kept, gap-Kept}

-- Each nonce is above the one before.
unfoldable pub Rises : ℕ → List (ℕ × Text) → Type 0
Rises l [] = Unit
Rises l ((n, raw) ∷ rows) = (l < n) × Rises n rows

-- The nonces of the rows, before those seen already.
seen_after : List (ℕ × Text) → List ℕ → List ℕ
seen_after [] seen = seen
seen_after ((n, raw) ∷ rows) seen = seen_after rows (n ∷ seen)

below-seen_after :
    (i : ℕ) (rows : List (ℕ × Text)) (seen : List ℕ)
    → below i (seen_after rows seen) ≡ below i (map (λ r. r.0) rows) + below i seen
unfolding below seen_after
below-seen_after i [] seen = omega arith
below-seen_after i ((n, raw) ∷ rows) seen = omega (arith, below-seen_after i rows (n ∷ seen))

after_last-Kept :
    (first l n : ℕ) (raw : Text) (seen : List ℕ) (s : Gaps)
    → Kept first seen s l
    → l < n
    → Kept first (n ∷ seen) (after_last s s.last_nonce n raw) n
unfolding after_last
after_last-Kept first l n raw seen s kept rises =
    subst (λ o. Kept first (n ∷ seen) (after_last s o n raw) n) (sym kept.at_last)
      (elim (Bool-cases (ltb n (l + 2))) [
        | inl near ↦
            let same : record s { last_nonce = some n; txs = put n raw s.txs }
                ≡ after_last s (some l) n raw =
              ground (arith, near) in
            subst (λ t. Kept first (n ∷ seen) t n) same
              (near-Kept first l n raw seen s kept rises near)
        | inr far ↦ gap-Kept first l n raw seen s kept rises far
      ])

gaps_from-Kept :
    (rows : List (ℕ × Text)) (first l : ℕ) (seen : List ℕ) (s : Gaps)
    → Kept first seen s l
    → Rises l rows
    → (l' : ℕ) × Kept first (seen_after rows seen) (gaps_from s rows) l'
unfolding gaps_from seen_after Rises
gaps_from-Kept [] first l seen s kept rises = (l, kept)
gaps_from-Kept ((n, raw) ∷ rows) first l seen s kept rises =
    gaps_from-Kept rows first n (n ∷ seen) (after_last s s.last_nonce n raw)
      (after_last-Kept first l n raw seen s kept rises.0) rises.1

-- The first row.
first-Kept : (n : ℕ) (raw : Text) → Kept n (n ∷ []) (after_last no_gaps none n raw) n
unfolding after_last below put lookup
first-Kept n raw = record {
  at_last = refl;
  missing = ground arith;
  deltas_count = λ i d e. ground (arith, e);
  follows = λ i r free there h. ground (arith, there, h);
  last_there = (raw, ground arith);
  txs_up_to = λ i r e. ground (arith, e);
  above = λ i h. ground (arith, h);
  gap_first = inl (refl, refl);
}

module _ (first l : ℕ) (seen : List ℕ) (s : Gaps) (kept : Kept first seen s l) where
  -- A move to the nonce that makes the nonces consecutive.
  IsNext : Move → Type 0
  IsNext m = m.new_nonce ≡ first + below m.old_nonce seen

  move_if-IsNext :
      (i d : ℕ) (o : Option Text) (rest : List Move)
      → ((raw : Text) → o ≡ some raw → first + d + below i seen ≡ i)
      → All IsNext rest
      → All IsNext (move_if s i d o rest)
  unfolding move_if IsNext
  move_if-IsNext i d none rest counts hs = hs
  move_if-IsNext i d (some raw) rest counts hs = (omega (arith, counts raw refl), hs)

  moves_over-IsNext :
      (k i delta : ℕ)
      → first ≤ i
      → ((raw : Text)
          → lookup i s.deltas ≡ none
          → lookup i s.txs ≡ some raw
          → first + delta + below i seen ≡ i)
      → All IsNext (moves_over s delta (range_from i k))
  unfolding moves_over move_if new_delta range_from IsNext
  moves_over-IsNext zero i delta h carried = tt
  moves_over-IsNext (suc k) i delta h carried =
      let d = new_delta delta (lookup i s.deltas) in
      let counts : (raw : Text) → lookup i s.txs ≡ some raw → first + d + below i seen ≡ i =
        λ raw there. elim (Option-cases (lookup i s.deltas)) [
          | inl free ↦ ground (arith, free, carried raw free there)
          | inr (d', found) ↦ ground (arith, found, (kept.deltas_count i d' found).1)
        ] in
      let rest = moves_over-IsNext k (i + 1) d (omega (arith, h)) (λ raw free there.
        let ((r, before), next) = kept.follows i raw free there h in
        omega (arith, counts r before, next)) in
      move_if-IsNext i d (lookup i s.txs) (moves_over s d (range_from (i + 1) k)) counts rest

  moves_of-All :
      (ds : List (ℕ × ℕ))
      → All IsNext (moves_over s 0 (range_from s.first_gap (l - s.first_gap)))
      → All IsNext (moves_of s (some l) ds)
  unfolding moves_of
  moves_of-All [] hs = tt
  moves_of-All (d ∷ ds) hs = hs

  moves_of-IsNext : All IsNext (moves_of s (some l) s.deltas)
  unfolding moves_of
  moves_of-IsNext = elim kept.gap_first [
    | inl (none_yet, zero_yet) ↦ subst (λ d. All IsNext (moves_of s (some l) d)) (sym none_yet) tt
    | inr (d, found, higher) ↦ moves_of-All s.deltas (
        moves_over-IsNext (l - s.first_gap) s.first_gap 0 (omega (arith, higher))
          (λ raw free there. ground (arith, free, found)))
  ]

-- Where the nonces of the rows rise, each transaction that is to be made again is to have the nonce that
-- leaves no gap: the first nonce and as many more as there are transactions before it.
pub moves-IsNext :
    (n : ℕ) (raw : Text) (rows : List (ℕ × Text))
    → Rises n rows
    → All
        (λ m. m.new_nonce ≡ n + below m.old_nonce (map (λ r. r.0) ((n, raw) ∷ rows)))
        (moves ((n, raw) ∷ rows))
unfolding moves gaps_from IsNext below
moves-IsNext n raw rows rises =
    let s = after_last no_gaps none n raw in
    let (l, kept) = gaps_from-Kept rows n n (n ∷ []) s (first-Kept n raw) rises in
    let s' = gaps_from s rows in
    let listed : All (IsNext n l (seen_after rows (n ∷ [])) s' kept)
        (moves_of s' s'.last_nonce s'.deltas) =
      subst (λ o. All (IsNext n l (seen_after rows (n ∷ [])) s' kept) (moves_of s' o s'.deltas))
        (sym kept.at_last) (moves_of-IsNext n l (seen_after rows (n ∷ [])) s' kept) in
    All-weaken (IsNext n l (seen_after rows (n ∷ [])) s' kept)
      (λ m. m.new_nonce ≡ n + below m.old_nonce (map (λ r. r.0) ((n, raw) ∷ rows)))
      (λ m h. omega (arith, h, below-seen_after m.old_nonce rows (n ∷ [])))
      (moves_of s' s'.last_nonce s'.deltas) listed
