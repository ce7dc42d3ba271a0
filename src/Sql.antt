-- ===== src/Sql.antt =====
-- `ORDER BY`, `LIMIT` and `OFFSET`: a stable sort by insertion, and a window of its result. Rows that
-- the order does not tell apart come in the order of their table.
use cic_stack_v.Prelude.{
  ℕ, ◌+◌, ◌≤◌, ◌≡◌, refl, ap, sym, ◌∙◌, Bool, true, false, List, [], ◌∷◌, ◌++◌, arith,
  if◌then◌else◌, if_intro, take, drop, All, All-take, All-drop, length, select, zero, suc,
}
use cic_stack_v.Store.Table.{count}

suc_move : (o n : ℕ) → suc o + n ≡ suc (o + n)
suc_move o n = omega arith

zero_add : (n : ℕ) → n ≡ 0 + n
zero_add n = omega arith

module _ {ℓ} {A : Type ℓ} where
  unfoldable pub place : (A → A → Bool) → A → List A → List A
  place le x [] = x ∷ []
  place le x (y ∷ ys) = let rest = place le x ys in if le x y then x ∷ y ∷ ys else y ∷ rest

  unfoldable pub order_by : (A → A → Bool) → List A → List A
  unfolding place
  order_by le [] = []
  order_by le (x ∷ xs) = place le x (order_by le xs)

  unfoldable pub window : ℕ → ℕ → List A → List A
  window offset limit xs = take limit (drop offset xs)

  pub length-window : (offset limit : ℕ) (xs : List A) → length (window offset limit xs) ≤ limit
  unfolding window
  length-window offset limit xs = length-take limit (drop offset xs)
    where
      length-take : (n : ℕ) (ys : List A) → length (take n ys) ≤ n
      length-take zero ys = omega arith
      length-take (suc n) [] = omega arith
      length-take (suc n) (y ∷ ys) = omega (arith, length-take n ys)

  take-nil : (n : ℕ) → take {A = A} n [] ≡ []
  take-nil zero = refl
  take-nil (suc n) = refl

  take-append : (n m : ℕ) (xs : List A) → take n xs ++ take m (drop n xs) ≡ take (n + m) xs
  take-append zero m xs = ap (λ k. take k xs) (zero_add m)
  take-append (suc n) m [] = ground (arith, take-nil m, take-nil (suc n + m))
  take-append (suc n) m (x ∷ xs) =
      ap (λ ys. x ∷ ys) (take-append n m xs) ∙ ap (λ k. take k (x ∷ xs)) (sym (suc_move n m))

  -- Two windows that follow each other are one window.
  pub window-append :
      (offset n m : ℕ) (xs : List A)
      → window offset n xs ++ window (offset + n) m xs ≡ window offset (n + m) xs
  unfolding window
  window-append zero n m xs =
      ap (λ k. take n xs ++ take m (drop k xs)) (sym (zero_add n)) ∙ take-append n m xs
  window-append (suc o) n m [] =
      ap (λ k. take n [] ++ take m (drop k [])) (suc_move o n)
      ∙ ground (arith, take-nil n, take-nil m, take-nil (n + m))
  window-append (suc o) n m (x ∷ xs) =
      ap (λ k. take n (drop o xs) ++ take m (drop k (x ∷ xs))) (suc_move o n)
      ∙ window-append o n m xs

  -- Each row stands before the rows after it.
  abbrev pub IsOrdered : (A → A → Bool) → List A → Type ℓ
  IsOrdered le [] = Unit
  IsOrdered le (x ∷ xs) = All (λ y. le x y ≡ true) xs × IsOrdered le xs

  count-place :
      (p : A → Bool) (le : A → A → Bool) (x : A) (ys : List A)
      → count p (place le x ys) ≡ (if p x then 1 else 0) + count p ys
  unfolding place count
  count-place p le x [] = refl
  count-place p le x (y ∷ ys) = ground (arith, count-place p le x ys)

  -- A sort keeps how often a row occurs.
  pub count-order_by :
      (p : A → Bool) (le : A → A → Bool) (xs : List A) → count p (order_by le xs) ≡ count p xs
  unfolding order_by count
  count-order_by p le [] = refl
  count-order_by p le (x ∷ xs) =
      ground (arith, count-place p le x (order_by le xs), count-order_by p le xs)

  module _ {κ} (P : A → Type κ) (le : A → A → Bool) where
    All-place : (x : A) (ys : List A) → P x → All P ys → All P (place le x ys)
    unfolding place
    All-place x [] h hs = (h, tt)
    All-place x (y ∷ ys) h hs =
        if_intro (All P) (le x y) (x ∷ y ∷ ys) (y ∷ place le x ys) (λ e. (h, hs))
          (λ e. (hs.0, All-place x ys h hs.1))

    pub All-order_by : (xs : List A) → All P xs → All P (order_by le xs)
    unfolding order_by
    All-order_by [] h = tt
    All-order_by (x ∷ xs) h = All-place x (order_by le xs) h.0 (All-order_by xs h.1)

    pub All-window : (offset limit : ℕ) (xs : List A) → All P xs → All P (window offset limit xs)
    unfolding window
    All-window offset limit xs h = All-take P limit (drop offset xs) (All-drop P offset xs h)

  module _ (le : A → A → Bool) (total : (a b : A) → le a b ≡ false → le b a ≡ true)
      (trans : (a b c : A) → le a b ≡ true → le b c ≡ true → le a c ≡ true) where
    All-below :
        (x y : A) (ys : List A)
        → le x y ≡ true
        → All (λ z. le y z ≡ true) ys
        → All (λ z. le x z ≡ true) ys
    All-below x y [] h hs = tt
    All-below x y (z ∷ zs) h hs = (trans x y z h hs.0, All-below x y zs h hs.1)

    place-IsOrdered : (x : A) (ys : List A) → IsOrdered le ys → IsOrdered le (place le x ys)
    unfolding place
    place-IsOrdered x [] h = (tt, tt)
    place-IsOrdered x (y ∷ ys) h =
        if_intro (IsOrdered le) (le x y) (x ∷ y ∷ ys) (y ∷ place le x ys)
          (λ e. ((e, All-below x y ys e h.0), h))
          (λ e.
            (All-place (λ z. le y z ≡ true) le x ys (total x y e) h.0, place-IsOrdered x ys h.1))

    pub order_by-IsOrdered : (xs : List A) → IsOrdered le (order_by le xs)
    unfolding order_by
    order_by-IsOrdered [] = tt
    order_by-IsOrdered (x ∷ xs) = place-IsOrdered x (order_by le xs) (order_by-IsOrdered xs)

  drop-IsOrdered :
      (le : A → A → Bool) (n : ℕ) (xs : List A) → IsOrdered le xs → IsOrdered le (drop n xs)
  drop-IsOrdered le zero xs h = h
  drop-IsOrdered le (suc n) [] h = tt
  drop-IsOrdered le (suc n) (x ∷ xs) h = drop-IsOrdered le n xs h.1

  take-IsOrdered :
      (le : A → A → Bool) (n : ℕ) (xs : List A) → IsOrdered le xs → IsOrdered le (take n xs)
  take-IsOrdered le zero xs h = tt
  take-IsOrdered le (suc n) [] h = tt
  take-IsOrdered le (suc n) (x ∷ xs) h =
      (All-take (λ y. le x y ≡ true) n xs h.0, take-IsOrdered le n xs h.1)

  pub window-IsOrdered :
      (le : A → A → Bool) (offset limit : ℕ) (xs : List A)
      → IsOrdered le xs
      → IsOrdered le (window offset limit xs)
  unfolding window
  window-IsOrdered le offset limit xs h =
      take-IsOrdered le limit (drop offset xs) (drop-IsOrdered le offset xs h)

  pub All-select : (p : A → Bool) (xs : List A) → All (λ x. p x ≡ true) (select p xs)
  All-select p [] = tt
  All-select p (x ∷ xs) =
      let rest = All-select p xs in
      if_intro (All (λ y. p y ≡ true)) (p x) (x ∷ select p xs) (select p xs) (λ e. (e, rest))
        (λ e. rest)
