-- ===== src/CicCache/Listing/Laws.antt =====
-- What the queries of cic_cache/db/list.py return.
use cic_stack_v.Prelude.{
  ℕ, ◌+◌, ◌≤◌, ◌<◌, ◌≡◌, ◌⊎◌, inl, inr, Bool-cases, ltb, zero, suc, none, some, [], ◌∷◌, ◌==◌, refl,
  ap, sym, select, ◌∙◌, Bool, true, false, ◌&&◌, Option, List, ◌++◌, map, arith, All, All-weaken,
  length,
}
use mathlib.Core.List.{map-append}
use cic_stack_v.Store.Rows.{Text}
use cic_stack_v.CicCache.{CacheDb, TxRow}
use cic_stack_v.Sql.{
  order_by, window, window-append, window-IsOrdered, order_by-IsOrdered, All-order_by, All-window,
  All-select, IsOrdered, length-window,
}
use cic_stack_v.CicCache.Listing.{
  Tagged, by_block, ascending, in_range, fetch, of_account, position, left_join,
  list_transactions_mined, list_transactions_mined_with_data,
  list_transactions_mined_with_data_index, list_transactions_account_mined_with_data,
}

by_block-total :
    (oldest : Bool) (a b : TxRow) → by_block oldest a b ≡ false → by_block oldest b a ≡ true
unfolding by_block ascending
by_block-total true a b e = ground arith
by_block-total false a b e = ground arith

by_block_trans :
    (oldest : Bool) (a b c : TxRow)
    → by_block oldest a b ≡ true
    → by_block oldest b c ≡ true
    → by_block oldest a c ≡ true
unfolding by_block ascending
by_block_trans true a b c e f = ground arith
by_block_trans false a b c e f = ground arith

-- What a fetch answers with: rows that pass the test, in order, no more than the limit.
abbrev pub IsAnswer : {A : Type 0} → (A → TxRow) → (TxRow → Bool) → ℕ → Bool → List A → Type 0
IsAnswer get p limit oldest rows =
    All (λ a. p (get a) ≡ true) rows
    × IsOrdered (λ a b. by_block oldest (get a) (get b)) rows
    × (length rows ≤ limit)

module _ {A : Type 0} (get : A → TxRow) (p : TxRow → Bool) (offset limit : ℕ) (oldest : Bool) where
  pub fetch-IsAnswer :
      (rows : List A) → IsAnswer get p limit oldest (fetch get p offset limit oldest rows)
  fetch-IsAnswer rows =
      let le = λ (a b : A). by_block oldest (get a) (get b) in
      let sorted = order_by le (select (λ a. p (get a)) rows) in
      (
        All-window (λ a. p (get a) ≡ true) le offset limit sorted
            (All-order_by (λ a. p (get a) ≡ true) le (select (λ a. p (get a)) rows)
              (All-select (λ a. p (get a)) rows)),
        window-IsOrdered le offset limit sorted (
            order_by-IsOrdered le (λ a b. by_block-total oldest (get a) (get b))
              (λ a b c. by_block_trans oldest (get a) (get b) (get c))
              (select (λ a. p (get a)) rows)),
        length-window offset limit sorted,
      )

-- Two rows in the order asked for: by block and then by the place in the block, or the reverse of it.
abbrev pub Precedes : Bool → TxRow → TxRow → Type 0
Precedes true a b =
    (a.block_number < b.block_number)
    ⊎ ((a.block_number ≡ b.block_number) × (a.tx_index ≤ b.tx_index))
Precedes false a b =
    (b.block_number < a.block_number)
    ⊎ ((b.block_number ≡ a.block_number) × (b.tx_index ≤ a.tx_index))

-- Each row in order with all that follow it.
pub InOrder : Bool → List Tagged → Type 0
InOrder oldest [] = Unit
InOrder oldest (r ∷ rows) =
    All (λ (s : Tagged). Precedes oldest r.tx s.tx) rows × InOrder oldest rows

-- A row of the account, at or above a first block that is given and not 0, and then at or below a last
-- block that is given and not 0.
pub record Listed (address : Text) (first_block last_block : Option ℕ) (r : TxRow) : Type 0 where
  pub account : (r.sender ≡ address) ⊎ (r.recipient ≡ address)
  pub above : (n : ℕ) → first_block ≡ some n → n ≤ r.block_number
  pub below :
      (n m : ℕ) → first_block ≡ some n → 0 < n → last_block ≡ some m → 0 < m → r.block_number ≤ m

in_range-above :
    (first_block last_block : Option ℕ) (r : TxRow) (n : ℕ)
    → in_range first_block last_block r ≡ true
    → first_block ≡ some n
    → n ≤ r.block_number
unfolding in_range
in_range-above none last_block r n e given = cc
in_range-above (some zero) last_block r n e given = ground (arith, given)
in_range-above (some (suc k)) none r n e given = ground (arith, e, given)
in_range-above (some (suc k)) (some zero) r n e given = ground (arith, e, given)
in_range-above (some (suc k)) (some (suc m)) r n e given = ground (arith, e, given)

in_range-below :
    (first_block last_block : Option ℕ) (r : TxRow) (n m : ℕ)
    → in_range first_block last_block r ≡ true
    → first_block ≡ some n
    → 0 < n
    → last_block ≡ some m
    → 0 < m
    → r.block_number ≤ m
unfolding in_range
in_range-below none last_block r n m e given some_n until some_m = cc
in_range-below (some zero) last_block r n m e given some_n until some_m =
    ground (arith, given, some_n)
in_range-below (some (suc k)) none r n m e given some_n until some_m = cc
in_range-below (some (suc k)) (some zero) r n m e given some_n until some_m =
    ground (arith, until, some_m)
in_range-below (some (suc k)) (some (suc l)) r n m e given some_n until some_m =
    ground (arith, e, until)

of_account-Listed :
    (address : Text) (first_block last_block : Option ℕ) (r : TxRow)
    → (in_range first_block last_block r && of_account address r) ≡ true
    → Listed address first_block last_block r
unfolding of_account
of_account-Listed address first_block last_block r e =
    let ranged : in_range first_block last_block r ≡ true = ground (arith, e) in
    record {
      account = elim (Bool-cases (r.sender == address)) [
        | inl sent ↦ inl (ground (arith, sent))
        | inr other ↦ inr (ground (arith, e, other))
      ];
      above = λ n given. in_range-above first_block last_block r n ranged given;
      below = λ n m. in_range-below first_block last_block r n m ranged;
    }

by_block-Precedes : (oldest : Bool) (a b : TxRow) → by_block oldest a b ≡ true → Precedes oldest a b
unfolding by_block ascending
by_block-Precedes true a b e = elim (Bool-cases (ltb a.block_number b.block_number)) [
  | inl less ↦ inl (ground (arith, less))
  | inr same ↦ inr (ground (arith, e, same), ground (arith, e, same))
]
by_block-Precedes false a b e = elim (Bool-cases (ltb b.block_number a.block_number)) [
  | inl less ↦ inl (ground (arith, less))
  | inr same ↦ inr (ground (arith, e, same), ground (arith, e, same))
]

IsOrdered-InOrder :
    (oldest : Bool) (rows : List Tagged)
    → IsOrdered (λ (a b : Tagged). by_block oldest a.tx b.tx) rows
    → InOrder oldest rows
unfolding InOrder
IsOrdered-InOrder oldest [] h = tt
IsOrdered-InOrder oldest (r ∷ rows) h = (
  All-weaken (λ (s : Tagged). by_block oldest r.tx s.tx ≡ true) (λ s. Precedes oldest r.tx s.tx)
      (λ s. by_block-Precedes oldest r.tx s.tx) rows h.0,
  IsOrdered-InOrder oldest rows h.1,
)

-- Every row that the query for an account returns has the account for its sender or its recipient. No
-- row is below the first block, if one is given; and none is above the last block, if one is given that
-- is not 0 and so is the first. The rows are in the order of block and index, or in the reverse of it,
-- and are no more than the limit.
pub list_transactions_account_mined_with_data-IsAnswer :
    (db : CacheDb) (address : Text) (offset limit : ℕ) (first_block last_block : Option ℕ)
    (oldest : Bool)
    → let rows =
        list_transactions_account_mined_with_data db address offset limit first_block last_block
          oldest in
      All (λ (r : Tagged). Listed address first_block last_block r.tx) rows
      × InOrder oldest rows
      × (length rows ≤ limit)
unfolding list_transactions_account_mined_with_data
list_transactions_account_mined_with_data-IsAnswer db address offset limit first_block last_block
      oldest =
    let p = λ (r : TxRow). in_range first_block last_block r && of_account address r in
    let (passing, ordered, short) =
      fetch-IsAnswer (λ (r : Tagged). r.tx) p offset limit oldest
        (left_join db.tags db.links db.txs) in
    let rows =
      fetch (λ (r : Tagged). r.tx) p offset limit oldest (left_join db.tags db.links db.txs) in
    (
      All-weaken (λ (r : Tagged). p r.tx ≡ true) (λ r. Listed address first_block last_block r.tx)
          (λ r. of_account-Listed address first_block last_block r.tx) rows passing,
      IsOrdered-InOrder oldest rows ordered,
      short,
    )

pub list_transactions_mined_with_data-IsAnswer :
    (db : CacheDb) (offset limit : ℕ) (first_block last_block : Option ℕ) (oldest : Bool)
    → IsAnswer
        (λ (r : Tagged). r.tx)
        (in_range first_block last_block)
        limit
        oldest
        (list_transactions_mined_with_data db offset limit first_block last_block oldest)
unfolding list_transactions_mined_with_data
list_transactions_mined_with_data-IsAnswer db offset limit first_block last_block oldest =
    fetch-IsAnswer (λ (r : Tagged). r.tx) (in_range first_block last_block) offset limit oldest
      (left_join db.tags db.links db.txs)

-- A client that asks for a page of `n` rows and then, from where it ends, for a page of `m` rows gets
-- what one page of `n + m` rows has: no row twice, and none left out.
pub list_transactions_mined-pages :
    (db : CacheDb) (offset n m : ℕ) (first_block last_block : Option ℕ) (oldest : Bool)
    → list_transactions_mined db offset n first_block last_block oldest
        ++ list_transactions_mined db (offset + n) m first_block last_block oldest
      ≡ list_transactions_mined db offset (n + m) first_block last_block oldest
unfolding list_transactions_mined
list_transactions_mined-pages db offset n m first_block last_block oldest =
    let sorted =
      order_by (λ a b. by_block oldest a b) (select (in_range first_block last_block) db.txs) in
    sym (map-append position (window offset n sorted) (window (offset + n) m sorted))
    ∙ ap (map position) (window-append offset n m sorted)

-- The query by index takes its `offset` for the number of rows and its `end` for where they begin:
-- it is the query with data, asked with the two exchanged.
pub list_transactions_mined_with_data_index-swaps :
    (db : CacheDb) (offset end : ℕ) (first_block last_block : Option ℕ) (oldest : Bool)
    → list_transactions_mined_with_data_index db offset end first_block last_block oldest
      ≡ list_transactions_mined_with_data db end offset first_block last_block oldest
unfolding list_transactions_mined_with_data_index list_transactions_mined_with_data
list_transactions_mined_with_data_index-swaps db offset end first_block last_block oldest = refl
