-- ===== src/FixNonce/Kept.antt =====
-- What the loop over the rows keeps.
use cic_stack_v.Prelude.{
  ℕ, ◌+◌, ◌-◌, ◌<◌, ◌≤◌, ◌≡◌, refl, ◌⊎◌, inl, inr, true, false, Bool-cases, none, some, List, [],
  ◌∷◌, arith, ltb, ◌==◌, if◌then◌else◌, subst, sym, ap, ◌∙◌,
}
use cic_stack_v.Store.Rows.{Text}
use cic_stack_v.Balance.{put, lookup}
use cic_stack_v.Balance.Assembled.{lookup-put_self, lookup-put_apart}
use cic_stack_v.FixNonce.{Gaps, after_last}

-- How many of some nonces are below another.
unfoldable pub below : ℕ → List ℕ → ℕ
below i [] = 0
below i (n ∷ ns) = (if ltb n i then 1 else 0) + below i ns

-- What the loop over rows with ascending nonces keeps, for the nonces it has seen from the first one on:
-- its delta is the number of nonces missing below the last.
pub record Kept (first : ℕ) (seen : List ℕ) (s : Gaps) (l : ℕ) : Type 0 where
  pub at_last : s.last_nonce ≡ some l
  pub missing : first + s.current_delta + below l seen ≡ l
  -- each delta is the number of nonces missing below
  pub deltas_count :
      (i d : ℕ) → lookup i s.deltas ≡ some d → (i ≤ l) × (first + d + below i seen ≡ i)
  -- a nonce without a delta comes right after another
  pub follows :
      (i : ℕ) (raw : Text)
      → lookup (i + 1) s.deltas ≡ none
      → lookup (i + 1) s.txs ≡ some raw
      → first ≤ i
      → ((r : Text) × (lookup i s.txs ≡ some r)) × (below (i + 1) seen ≡ below i seen + 1)
  pub last_there : (r : Text) × (lookup l s.txs ≡ some r)
  pub txs_up_to : (i : ℕ) (raw : Text) → lookup i s.txs ≡ some raw → i ≤ l
  pub above : (i : ℕ) → l < i → below i seen ≡ below l seen + 1
  pub gap_first :
      ((s.deltas ≡ []) × (s.first_gap ≡ 0))
      ⊎ ((d : ℕ) × (lookup s.first_gap s.deltas ≡ some d) × (first < s.first_gap))

unequal : (i n : ℕ) → i < n → (i == n) ≡ false
unequal i n h = ground (arith, h)

pub below-cons_low : (i n : ℕ) (seen : List ℕ) → i ≤ n → below i (n ∷ seen) ≡ below i seen
unfolding below
below-cons_low i n seen h = ground (arith, h)

pub below-cons_high : (i n : ℕ) (seen : List ℕ) → n < i → below i (n ∷ seen) ≡ below i seen + 1
unfolding below
below-cons_high i n seen h = ground (arith, h)

module _ (first l n : ℕ) (raw : Text) (seen : List ℕ) (s : Gaps) (kept : Kept first seen s l)
    (rises : l < n) where
  open kept use {at_last, missing, deltas_count, follows, last_there, txs_up_to, above, gap_first}

  txs_apart : (i : ℕ) → i ≤ l → lookup i (put n raw s.txs) ≡ lookup i s.txs
  txs_apart i h = lookup-put_apart i n raw s.txs (unequal i n (omega (arith, h, rises)))

  above_self : (i : ℕ) → n < i → below i (n ∷ seen) ≡ below n (n ∷ seen) + 1
  above_self i h = omega (
    arith,
    below-cons_high i n seen h,
    below-cons_low n n seen (omega arith),
    above i (omega (arith, h, rises)),
    above n rises,
  )

  txs_up_to-put : (i : ℕ) (r : Text) → lookup i (put n raw s.txs) ≡ some r → i ≤ n
  txs_up_to-put i r e = elim (Bool-cases (i == n)) [
    | inl same ↦ ground (arith, same)
    | inr apart ↦
        let old = txs_up_to i r (sym (lookup-put_apart i n raw s.txs apart) ∙ e) in
        omega (arith, old, rises)
  ]

  -- A nonce whose place is not new keeps what is before it.
  follows_old :
      (i : ℕ) (r : Text)
      → ((i + 1) == n) ≡ false
      → lookup (i + 1) s.deltas ≡ none
      → lookup (i + 1) (put n raw s.txs) ≡ some r
      → first ≤ i
      → ((r' : Text) × (lookup i (put n raw s.txs) ≡ some r'))
        × (below (i + 1) (n ∷ seen) ≡ below i (n ∷ seen) + 1)
  follows_old i r apart free there h =
      let e = sym (lookup-put_apart (i + 1) n raw s.txs apart) ∙ there in
      let up = txs_up_to (i + 1) r e in
      let ((r', found), counts) = follows i r free e h in
      (
        (r', txs_apart i (omega (arith, up)) ∙ found),
        omega (
          arith,
          counts,
          below-cons_low (i + 1) n seen (omega (arith, up, rises)),
          below-cons_low i n seen (omega (arith, up, rises)),
        ),
      )

  pub near-Kept :
      ltb n (l + 2) ≡ true
      → Kept first (n ∷ seen) (record s { last_nonce = some n; txs = put n raw s.txs }) n
  near-Kept near =
      let next : n ≡ l + 1 = ground (arith, near, rises) in
      record {
        at_last = refl;
        missing =
            omega (arith, missing, next, below-cons_low n n seen (omega arith), above n rises);
        deltas_count = λ i d e.
            let (up, counts) = deltas_count i d e in
            (
              omega (arith, up, rises),
              omega (arith, counts, below-cons_low i n seen (omega (arith, up, rises))),
            );
        follows = λ i r free there h. elim (Bool-cases ((i + 1) == n)) [
          | inr apart ↦ follows_old i r apart free there h
          | inl same ↦
              let i-l : i ≡ l = ground (arith, same, next) in
              (
                (
                  last_there.0,
                  ap (λ k. lookup k (put n raw s.txs)) i-l
                      ∙ txs_apart l (omega arith)
                      ∙ last_there.1,
                ),
                omega (
                  arith,
                  i-l,
                  next,
                  below-cons_low (i + 1) n seen (omega (arith, i-l, next)),
                  below-cons_low i n seen (omega (arith, i-l, next)),
                  above (i + 1) (omega (arith, i-l)),
                  ap (λ k. below k seen) i-l,
                ),
              )
        ];
        last_there = (raw, lookup-put_self n raw s.txs);
        txs_up_to = txs_up_to-put;
        above = above_self;
        gap_first = gap_first;
      }

  -- The delta of the new nonce.
  delta_at : ℕ
  delta_at = s.current_delta + (n - l - 1)

  deltas_apart : (i : ℕ) → i ≤ l → lookup i (put n delta_at s.deltas) ≡ lookup i s.deltas
  deltas_apart i h = lookup-put_apart i n delta_at s.deltas (unequal i n (omega (arith, h, rises)))

  delta_at_counts : first + delta_at + below n (n ∷ seen) ≡ n
  unfolding delta_at
  delta_at_counts =
      omega (arith, missing, rises, below-cons_low n n seen (omega arith), above n rises)

  deltas_count-put :
      (i d : ℕ)
      → lookup i (put n delta_at s.deltas) ≡ some d
      → (i ≤ n) × (first + d + below i (n ∷ seen) ≡ i)
  deltas_count-put i d e = elim (Bool-cases (i == n)) [
    | inl same ↦
        let i-n : i ≡ n = ground (arith, same) in
        let d-at : d ≡ delta_at = ground (
          arith,
          e,
          ap (λ k. lookup k (put n delta_at s.deltas)) i-n ∙ lookup-put_self n delta_at s.deltas,
        ) in
        (
          omega (arith, i-n),
          omega (arith, d-at, i-n, delta_at_counts, ap (λ k. below k (n ∷ seen)) i-n),
        )
    | inr apart ↦
        let (up, counts) =
          deltas_count i d (sym (lookup-put_apart i n delta_at s.deltas apart) ∙ e) in
        (
          omega (arith, up, rises),
          omega (arith, counts, below-cons_low i n seen (omega (arith, up, rises))),
        )
  ]

  first_below : first < n
  first_below = omega (arith, missing, rises)

  after_gap : Gaps
  after_gap = record s {
    last_nonce = some n;
    current_delta = delta_at;
    deltas = put n delta_at s.deltas;
    first_gap = if s.first_gap == 0 then n else s.first_gap;
    txs = put n raw s.txs;
  }

  gap_first-put :
      (d : ℕ) × (lookup after_gap.first_gap (put n delta_at s.deltas) ≡ some d)
      × (first < after_gap.first_gap)
  unfolding after_gap
  gap_first-put = elim gap_first [
    | inl (none_yet, zero_yet) ↦
        let here : n ≡ (if s.first_gap == 0 then n else s.first_gap) = ground (arith, zero_yet) in
        (
          delta_at,
          ap (λ k. lookup k (put n delta_at s.deltas)) (sym here)
              ∙ lookup-put_self n delta_at s.deltas,
          omega (arith, here, first_below),
        )
    | inr (d, found, higher) ↦
        let here : s.first_gap ≡ (if s.first_gap == 0 then n else s.first_gap) =
          ground (arith, higher) in
        (
          d,
          ap (λ k. lookup k (put n delta_at s.deltas)) (sym here)
              ∙ deltas_apart s.first_gap (deltas_count s.first_gap d found).0
              ∙ found,
          omega (arith, here, higher),
        )
  ]

  follows-put :
      (i : ℕ) (r : Text)
      → lookup (i + 1) (put n delta_at s.deltas) ≡ none
      → lookup (i + 1) (put n raw s.txs) ≡ some r
      → first ≤ i
      → ((r' : Text) × (lookup i (put n raw s.txs) ≡ some r'))
        × (below (i + 1) (n ∷ seen) ≡ below i (n ∷ seen) + 1)
  follows-put i r free there h = elim (Bool-cases ((i + 1) == n)) [
    | inr apart ↦
        follows_old i r apart (sym (lookup-put_apart (i + 1) n delta_at s.deltas apart) ∙ free)
          there h
    | inl same ↦
        let i-n : i + 1 ≡ n = ground (arith, same) in
        ground (
          arith,
          free,
          ap (λ k. lookup k (put n delta_at s.deltas)) i-n ∙ lookup-put_self n delta_at s.deltas,
        )
  ]

  pub gap-Kept : ltb n (l + 2) ≡ false → Kept first (n ∷ seen) (after_last s (some l) n raw) n
  unfolding after_last after_gap delta_at
  gap-Kept far =
      let whole : Kept first (n ∷ seen) after_gap n = record {
        at_last = refl;
        missing = delta_at_counts;
        deltas_count = deltas_count-put;
        follows = follows-put;
        last_there = (raw, lookup-put_self n raw s.txs);
        txs_up_to = txs_up_to-put;
        above = above_self;
        gap_first = inr gap_first-put;
      } in
      let same : after_gap ≡ after_last s (some l) n raw = ground (arith, far) in
      subst (λ t. Kept first (n ∷ seen) t n) same whole
