-- ===== src/Ext/Collate/Order.antt =====
-- The order of the combined list.
use cic_stack_v.Prelude.{
  ℕ, zero, suc, ◌+◌, ◌-◌, ◌*◌, ◌/◌, ◌%◌, ◌<◌, ◌≡◌, refl, Bool, true, false, Bool-cases, inl, inr,
  Option, none, some, Option-cases, List, [], ◌∷◌, ◌++◌, arith, ltb, All, if◌then◌else◌, ◌∙◌,
}
use cic_stack_v.Store.Table.{count}
use cic_stack_v.Store.{Worker, ok, err, unknown_contract}
use cic_stack_v.External.{Encoding}
use cic_stack_v.Sql.{IsOrdered, order_by, order_by-IsOrdered, count-order_by, All-order_by}
use cic_stack_v.Ext.Collate.{
  Chars, Row, Item, Sources, digits_within, le_text, reversed, arrange, collect, listing,
  tx_collate, verify_and_expand, and_rest, normal,
}

le_text_total : (xs ys : Chars) → le_text xs ys ≡ false → le_text ys xs ≡ true
unfolding le_text
le_text_total [] ys e = ground (arith, e)
le_text_total (x ∷ xs) [] e = refl
le_text_total (x ∷ xs) (y ∷ ys) e = ground (arith, e, le_text_total xs ys)

le_text_trans :
    (xs ys zs : Chars) → le_text xs ys ≡ true → le_text ys zs ≡ true → le_text xs zs ≡ true
unfolding le_text
le_text_trans [] ys zs e f = refl
le_text_trans (x ∷ xs) [] zs e f = ground (arith, e)
le_text_trans (x ∷ xs) (y ∷ ys) [] e f = ground (arith, f)
le_text_trans (x ∷ xs) (y ∷ ys) (z ∷ zs) e f = ground (arith, e, f, le_text_trans xs ys zs)

-- The number that decimal digits stand for, after another.
value : ℕ → Chars → ℕ
value acc [] = acc
value acc (c ∷ cs) = value (10 * acc + (c - 48)) cs

value-snoc :
    (acc : ℕ) (cs : Chars) (c : ℕ) → value acc (cs ++ c ∷ []) ≡ 10 * value acc cs + (c - 48)
unfolding value
value-snoc acc [] c = refl
value-snoc acc (d ∷ cs) c = value-snoc (10 * acc + (d - 48)) cs c

-- A number has fewer digits than it counts: the digits stand for it.
value-digits_within : (fuel n : ℕ) → n < fuel → value 0 (digits_within fuel n) ≡ n
unfolding value digits_within
value-digits_within zero n h = omega (arith, h)
value-digits_within (suc fuel) n h = elim (Bool-cases (ltb n 10)) [
  | inl small ↦ ground (arith, small)
  | inr large ↦
      let rest : value 0 (digits_within fuel (n / 10)) ≡ n / 10 =
        value-digits_within fuel (n / 10) (ground (arith, h, large)) in
      ground (arith, large, rest, value-snoc 0 (digits_within fuel (n / 10)) (48 + n % 10))
]

module _ {A : Type 0} where
  All-snoc : (P : A → Type 0) (xs : List A) (x : A) → All P xs → P x → All P (xs ++ x ∷ [])
  All-snoc P [] x hs h = (h, tt)
  All-snoc P (y ∷ ys) x hs h = (hs.0, All-snoc P ys x hs.1 h)

  All-reversed : (P : A → Type 0) (xs : List A) → All P xs → All P (reversed xs)
  unfolding reversed
  All-reversed P [] hs = tt
  All-reversed P (x ∷ xs) hs = All-snoc P (reversed xs) x (All-reversed P xs hs.1) hs.0

  snoc-IsOrdered :
      (le : A → A → Bool) (xs : List A) (x : A)
      → IsOrdered le xs
      → All (λ y. le y x ≡ true) xs
      → IsOrdered le (xs ++ x ∷ [])
  snoc-IsOrdered le [] x h below = (tt, tt)
  snoc-IsOrdered le (y ∷ ys) x h below =
      (All-snoc (λ z. le y z ≡ true) ys x h.0 below.0, snoc-IsOrdered le ys x h.1 below.1)

  reversed-IsOrdered :
      (le : A → A → Bool) (xs : List A) → IsOrdered le xs → IsOrdered (λ a b. le b a) (reversed xs)
  unfolding reversed
  reversed-IsOrdered le [] h = tt
  reversed-IsOrdered le (x ∷ xs) h =
      snoc-IsOrdered (λ a b. le b a) (reversed xs) x (reversed-IsOrdered le xs h.1)
        (All-reversed (λ y. le x y ≡ true) xs h.0)

  count-snoc :
      (p : A → Bool) (xs : List A) (x : A)
      → count p (xs ++ x ∷ []) ≡ (if p x then 1 else 0) + count p xs
  unfolding count
  count-snoc p [] x = refl
  count-snoc p (y ∷ ys) x = omega (arith, count-snoc p ys x)

  count-reversed : (p : A → Bool) (xs : List A) → count p (reversed xs) ≡ count p xs
  unfolding reversed count
  count-reversed p [] = refl
  count-reversed p (x ∷ xs) = omega (arith, count-snoc p (reversed xs) x, count-reversed p xs)

-- The order asked for.
pub by_key : Bool → Chars × Row → Chars × Row → Bool
by_key true a b = le_text b.0 a.0
by_key false a b = le_text a.0 b.0

arranged : Bool → List (Chars × Row) → List (Chars × Row)
arranged newest_first rows = arrange newest_first (order_by (λ a b. le_text a.0 b.0) rows)

sorted-IsOrdered :
    (rows : List (Chars × Row))
    → IsOrdered (λ a b. le_text a.0 b.0) (order_by (λ a b. le_text a.0 b.0) rows)
sorted-IsOrdered rows =
    order_by-IsOrdered (λ a b. le_text a.0 b.0) (λ a b. le_text_total a.0 b.0)
      (λ a b c. le_text_trans a.0 b.0 c.0) rows

arranged-IsOrdered :
    (newest_first : Bool) (rows : List (Chars × Row))
    → IsOrdered (by_key newest_first) (arranged newest_first rows)
unfolding arranged arrange by_key
arranged-IsOrdered true rows =
    reversed-IsOrdered (λ a b. le_text a.0 b.0) (order_by (λ a b. le_text a.0 b.0) rows)
      (sorted-IsOrdered rows)
arranged-IsOrdered false rows = sorted-IsOrdered rows

count-arranged :
    (p : Chars × Row → Bool) (newest_first : Bool) (rows : List (Chars × Row))
    → count p (arranged newest_first rows) ≡ count p rows
unfolding arranged arrange
count-arranged p true rows =
    count-reversed p (order_by (λ a b. le_text a.0 b.0) rows)
    ∙ count-order_by p (λ a b. le_text a.0 b.0) rows
count-arranged p false rows = count-order_by p (λ a b. le_text a.0 b.0) rows

arranged-All :
    (P : Chars × Row → Type 0) (newest_first : Bool) (rows : List (Chars × Row))
    → All P rows
    → All P (arranged newest_first rows)
unfolding arranged arrange
arranged-All P true rows h =
    All-reversed P (order_by (λ a b. le_text a.0 b.0) rows)
      (All-order_by P (λ a b. le_text a.0 b.0) rows h)
arranged-All P false rows h = All-order_by P (λ a b. le_text a.0 b.0) rows h

module _ (enc : Encoding) (sources : Sources) (verify_contracts : Bool)
    (shown : Row → Option Row) where
  -- What is shown of a transaction: with its contracts verified, if that is asked for, or nothing, where
  -- a contract is unknown.
  unfoldable pub IsShown : Chars × Row → Type 0
  IsShown (k, row) =
      (if verify_contracts then verify_and_expand enc sources row else ok row)
      ≡ elim (shown row) [ some r ↦ ok r | none ↦ err unknown_contract ]

  -- The accounts in the form of the queue.
  pub answer : List (Chars × Row) → List Row
  answer [] = []
  answer ((k, row) ∷ rows) = elim (shown row) [
    | none ↦ answer rows
    | some r ↦
        record r {
          recipient = enc.wallet_address r.recipient;
          sender = enc.wallet_address r.sender;
        }
        ∷ answer rows
  ]

  listing-answer :
      (rows : List (Chars × Row))
      → All IsShown rows
      → listing enc sources verify_contracts rows ≡ ok (answer rows)
  unfolding listing and_rest normal IsShown answer
  listing-answer [] h = refl
  listing-answer ((k, row) ∷ rows) h = elim (Option-cases (shown row)) [
    | inl e ↦ ground (arith, e, h.0, listing-answer rows h.1)
    | inr (r, e) ↦ ground (arith, e, h.0, listing-answer rows h.1)
  ]

  -- Where the transactions are gathered by key, and each has its contracts verified or unknown (or that
  -- is not asked for), the answer of tx_collate has what is shown of them, in the order of the texts of
  -- their keys or the reverse of it: each as often as it was gathered, but for those of unknown
  -- contracts, and whatever the offset and the limit are. What was not committed in the session is
  -- dropped.
  pub tx_collate-IsOrdered :
      (items : List Item) (offset limit : ℕ) (newest_first : Bool) (w v : Worker)
      (found : List (Chars × Row))
      → collect enc sources items [] (record w { work = w.committed; registered = false })
        ≡ (ok found, v)
      → All IsShown found
      → (rows : List (Chars × Row)) × (tx_collate enc sources items offset limit newest_first
            verify_contracts w
          ≡ (ok (answer rows), record v { work = v.committed }))
        × IsOrdered (by_key newest_first) rows
        × ((p : Chars × Row → Bool) → count p rows ≡ count p found)
  unfolding tx_collate arranged
  tx_collate-IsOrdered items offset limit newest_first w v found gathered known = (
    arranged newest_first found,
    ground (
      arith,
      gathered,
      listing-answer (arranged newest_first found) (arranged-All IsShown newest_first found known),
    ),
    arranged-IsOrdered newest_first found,
    λ p. count-arranged p newest_first found,
  )
