-- ===== src/CicCache/Listing.antt =====
-- The queries of cic_cache/db/list.py. Each is a selection of rows, ordered by block and index in the
-- block, of which a window is returned; the text of the SQL is written out as that.
pub mod Laws
use cic_stack_v.Prelude.{
  ℕ, zero, suc, Bool, true, false, ◌&&◌, ◌||◌, Option, none, some, List, [], ◌∷◌, ◌++◌, map, ltb,
  leb, ◌==◌, if◌then◌else◌, select,
}
use cic_stack_v.Store.Rows.{Text}
use cic_stack_v.Store.Table.{first}
use cic_stack_v.CicCache.{CacheDb, TxRow, TagRow, LinkRow}
use cic_stack_v.Sql.{order_by, window}

-- A row of `tx LEFT JOIN tag_tx_link ... LEFT JOIN tag`: `none` for the NULL columns of a tag.
pub record Tagged : Type 0 where
  pub tx : TxRow
  pub tag : Option TagRow

tags_of : List TagRow → List LinkRow → TxRow → List Tagged
tags_of tags [] r = []
tags_of tags (l ∷ ls) r =
    let rest = tags_of tags ls r in
    if l.tx_id == r.id
    then record { tx = r; tag = first (λ t. t.id == l.tag_id) tags } ∷ rest
    else rest

or_untagged : TxRow → List Tagged → List Tagged
or_untagged r [] = record { tx = r; tag = none } ∷ []
or_untagged r (x ∷ xs) = x ∷ xs

pub left_join : List TagRow → List LinkRow → List TxRow → List Tagged
unfolding tags_of or_untagged
left_join tags links [] = []
left_join tags links (r ∷ rs) = or_untagged r (tags_of tags links r) ++ left_join tags links rs

-- `block_number ASC, tx_index ASC`
unfoldable pub ascending : TxRow → TxRow → Bool
ascending a b =
    ltb a.block_number b.block_number
    || ((a.block_number == b.block_number) && leb a.tx_index b.tx_index)

unfoldable pub by_block : Bool → TxRow → TxRow → Bool
unfolding ascending
by_block true a b = ascending a b
by_block false a b = ascending b a

-- The condition on blocks: both tests are on the truth of the number, so that zero is as good as none,
-- and without a first block the last block is not looked at.
unfoldable pub in_range : Option ℕ → Option ℕ → TxRow → Bool
in_range none last r = true
in_range (some zero) last r = true
in_range (some (suc n)) none r = leb (suc n) r.block_number
in_range (some (suc n)) (some zero) r = leb (suc n) r.block_number
in_range (some (suc n)) (some (suc m)) r = leb (suc n) r.block_number && leb r.block_number (suc m)

unfoldable pub of_account : Text → TxRow → Bool
of_account address r = (r.sender == address) || (r.recipient == address)

abbrev pub fetch : {A : Type 0} → (A → TxRow) → (TxRow → Bool) → ℕ → ℕ → Bool → List A → List A
fetch get p offset limit oldest rows =
    window offset limit
      (order_by (λ a b. by_block oldest (get a) (get b)) (select (λ a. p (get a)) rows))

abbrev pub position : TxRow → ℕ × ℕ
position r = (r.block_number, r.tx_index)

module _ (db : CacheDb) where
  pub list_transactions_mined : ℕ → ℕ → Option ℕ → Option ℕ → Bool → List (ℕ × ℕ)
  list_transactions_mined offset limit block_offset block_limit oldest =
      map position (fetch (λ r. r) (in_range block_offset block_limit) offset limit oldest db.txs)

  pub list_transactions_mined_with_data : ℕ → ℕ → Option ℕ → Option ℕ → Bool → List Tagged
  list_transactions_mined_with_data offset limit block_offset block_limit oldest =
      fetch (λ r. r.tx) (in_range block_offset block_limit) offset limit oldest
        (left_join db.tags db.links db.txs)

  -- Here `LIMIT` is given the offset and `OFFSET` the end.
  pub list_transactions_mined_with_data_index : ℕ → ℕ → Option ℕ → Option ℕ → Bool → List Tagged
  list_transactions_mined_with_data_index offset end block_offset block_limit oldest =
      fetch (λ r. r.tx) (in_range block_offset block_limit) end offset oldest
        (left_join db.tags db.links db.txs)

  pub list_transactions_account_mined_with_data_index :
      Text → ℕ → ℕ → Option ℕ → Option ℕ → Bool → List Tagged
  list_transactions_account_mined_with_data_index address offset limit block_offset block_limit
        oldest =
      fetch (λ r. r.tx) (λ r. in_range block_offset block_limit r && of_account address r) offset
        limit oldest (left_join db.tags db.links db.txs)

  pub list_transactions_account_mined_with_data :
      Text → ℕ → ℕ → Option ℕ → Option ℕ → Bool → List Tagged
  list_transactions_account_mined_with_data address offset limit block_offset block_limit oldest =
      fetch (λ r. r.tx) (λ r. in_range block_offset block_limit r && of_account address r) offset
        limit oldest (left_join db.tags db.links db.txs)

  unfoldable pub list_transactions_account_mined :
      Text → ℕ → ℕ → Option ℕ → Option ℕ → Bool → List (ℕ × ℕ)
  list_transactions_account_mined address offset limit block_offset block_limit oldest =
      map position (
        fetch (λ r. r) (λ r. in_range block_offset block_limit r && of_account address r) offset
          limit oldest db.txs)
