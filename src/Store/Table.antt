-- ===== src/Store/Table.antt =====
-- A database table as a list of rows in insertion order, with the operations that the models of
-- cic_eth/db/models make of it: `q.filter(..).first()`, a change of the row found, its deletion,
-- and an insertion.
use cic_stack_v.Prelude.{
  ℕ, ◌+◌, ◌≤◌, ◌≡◌, refl, Bool, true, false, Option, none, some, List, [], ◌∷◌, ◌++◌, arith,
  if◌then◌else◌, Bool-cases, inl, inr, All, subst,
}

module _ {ℓ} {A : Type ℓ} where
  -- `q.filter(p).first()`
  unfoldable pub first : (A → Bool) → List A → Option A
  first p [] = none
  first p (x ∷ xs) = let rest = first p xs in if p x then some x else rest

  -- The row that `first` finds, changed.
  unfoldable pub change : (A → Bool) → (A → A) → List A → List A
  change p f [] = []
  change p f (x ∷ xs) = let rest = change p f xs in if p x then f x ∷ xs else x ∷ rest

  -- The row that `first` finds, deleted.
  unfoldable pub delete : (A → Bool) → List A → List A
  delete p [] = []
  delete p (x ∷ xs) = let rest = delete p xs in if p x then xs else x ∷ rest

  abbrev pub insert : A → List A → List A
  insert r xs = xs ++ r ∷ []

  pub first_sound : (p : A → Bool) (xs : List A) (x : A) → first p xs ≡ some x → p x ≡ true
  unfolding first
  first_sound p [] x e = cc
  first_sound p (y ∷ ys) x e = elim (Bool-cases (p y)) [
    | inl hit ↦ ground arith
    | inr miss ↦ first_sound p ys x (ground arith)
  ]

  pub first-All {κ} :
      (P : A → Type κ) (p : A → Bool) (xs : List A) (x : A) → All P xs → first p xs ≡ some x → P x
  unfolding first
  first-All P p [] x h e = cc
  first-All P p (y ∷ ys) x h e = elim (Bool-cases (p y)) [
    | inl hit ↦ subst P (ground arith) h.0
    | inr miss ↦ first-All P p ys x h.1 (ground arith)
  ]

  pub first-insert_old :
      (p : A → Bool) (r : A) (xs : List A) (x : A)
      → first p xs ≡ some x
      → first p (insert r xs) ≡ some x
  unfolding first
  first-insert_old p r [] x e = cc
  first-insert_old p r (y ∷ ys) x e = ground (arith, first-insert_old p r ys x)

  pub first-insert_new :
      (p : A → Bool) (r : A) (xs : List A)
      → first p xs ≡ none
      → first p (insert r xs) ≡ (if p r then some r else none)
  unfolding first
  first-insert_new p r [] e = refl
  first-insert_new p r (y ∷ ys) e = ground (arith, first-insert_new p r ys)

  pub first-insert_miss :
      (p : A → Bool) (r : A) (xs : List A) → p r ≡ false → first p (insert r xs) ≡ first p xs
  unfolding first
  first-insert_miss p r [] e = ground arith
  first-insert_miss p r (y ∷ ys) e = ground (arith, first-insert_miss p r ys e)

  pub first-change_self :
      (p : A → Bool) (f : A → A) (xs : List A) (x : A)
      → first p xs ≡ some x
      → p (f x) ≡ true
      → first p (change p f xs) ≡ some (f x)
  unfolding first change
  first-change_self p f [] x e h = cc
  first-change_self p f (y ∷ ys) x e h = ground (arith, first-change_self p f ys x)

  -- Deleting the one row that was inserted brings the table back.
  pub delete-insert :
      (p : A → Bool) (r : A) (xs : List A)
      → first p xs ≡ none
      → p r ≡ true
      → delete p (insert r xs) ≡ xs
  unfolding first delete
  delete-insert p r [] e h = ground arith
  delete-insert p r (y ∷ ys) e h = ground (arith, delete-insert p r ys)

  -- A change or a deletion of one row is not seen by a test that the row fails.
  module _ (p q : A → Bool) (apart : (x : A) → p x ≡ true → q x ≡ false) where
    pub first-change_apart :
        (f : A → A) (keeps : (x : A) → q (f x) ≡ q x) (xs : List A)
        → first q (change p f xs) ≡ first q xs
    unfolding first change
    first-change_apart f keeps [] = refl
    first-change_apart f keeps (y ∷ ys) =
        ground (arith, apart y, keeps y, first-change_apart f keeps ys)

    pub first-delete_apart : (xs : List A) → first q (delete p xs) ≡ first q xs
    unfolding first delete
    first-delete_apart [] = refl
    first-delete_apart (y ∷ ys) = ground (arith, apart y, first-delete_apart ys)

  -- How many rows pass `p`.
  unfoldable pub count : (A → Bool) → List A → ℕ
  count p [] = 0
  count p (x ∷ xs) = (if p x then 1 else 0) + count p xs

  pub count-insert :
      (p : A → Bool) (r : A) (xs : List A)
      → count p (insert r xs) ≡ (if p r then 1 else 0) + count p xs
  unfolding count
  count-insert p r [] = refl
  count-insert p r (y ∷ ys) = ground (arith, count-insert p r ys)

  -- Deleting the row that `q` finds takes it from every count that it was in.
  pub count-delete :
      (p q : A → Bool) (xs : List A) (x : A)
      → first q xs ≡ some x
      → count p (delete q xs) + (if p x then 1 else 0) ≡ count p xs
  unfolding first delete count
  count-delete p q [] x e = cc
  count-delete p q (y ∷ ys) x e = ground (arith, count-delete p q ys x)

  -- A change that keeps the test keeps the count.
  pub count-change :
      (p q : A → Bool) (f : A → A) (keeps : (x : A) → p (f x) ≡ p x) (xs : List A)
      → count p (change q f xs) ≡ count p xs
  unfolding change count
  count-change p q f keeps [] = refl
  count-change p q f keeps (y ∷ ys) = ground (arith, keeps y, count-change p q f keeps ys)

  pub first-eq-none : (p : A → Bool) (xs : List A) → count p xs ≡ 0 → first p xs ≡ none
  unfolding first count
  first-eq-none p [] h = refl
  first-eq-none p (y ∷ ys) h = ground (arith, first-eq-none p ys)

  pub count-eq-zero : (p : A → Bool) (xs : List A) → first p xs ≡ none → count p xs ≡ 0
  unfolding first count
  count-eq-zero p [] h = refl
  count-eq-zero p (y ∷ ys) h = ground (arith, count-eq-zero p ys)

  -- A row that was the only one to pass the test is gone once it is deleted.
  pub first-delete_self :
      (p : A → Bool) (xs : List A) (x : A)
      → count p xs ≤ 1
      → first p xs ≡ some x
      → first p (delete p xs) ≡ none
  first-delete_self p xs x single e =
      ground (arith, first_sound p xs x e, count-delete p p xs x e, first-eq-none p (delete p xs))
