-- ===== src/CicCache/Data.antt =====
-- `DataCache` of cic_cache/cache.py. The date of a row is kept as it is read: the text that SQLite
-- has for it and its conversion are not modelled.
pub mod Bounds
use cic_stack_v.Prelude.{ℕ, Bool, Option, none, some, List, [], ◌∷◌, ◌==◌, if◌then◌else◌}
use cic_stack_v.Store.Rows.{Text}
use cic_stack_v.CicCache.{CacheDb, TxRow, TagRow}
use cic_stack_v.CicCache.Listing.{
  Tagged, list_transactions_mined_with_data, list_transactions_account_mined_with_data,
}
use cic_stack_v.CicCache.Bloom.{extend}

abbrev pub default_limit : ℕ
default_limit = 100

-- `'unknown'`, or `'{}.{}'` of a domain and a value.
pub data TxType : Type 0 where
  unknown : TxType
  tagged : Option Text → Text → TxType

pub record Entry : Type 0 where
  pub tx : TxRow
  pub tx_type : TxType

unfoldable pub tx_type_of : Option TagRow → TxType
tx_type_of none = unknown
tx_type_of (some t) = tagged t.domain t.value

-- The bounds of the blocks, and the entries.
unfoldable pub process_rows : Bool → Option (ℕ × ℕ) → List Tagged → Option (ℕ × ℕ) × List Entry
unfolding extend tx_type_of
process_rows oldest blocks [] = (blocks, [])
process_rows oldest blocks (r ∷ rs) =
    let (blocks', rest) = process_rows oldest (extend oldest r.tx.block_number blocks) rs in
    (blocks', record { tx = r.tx; tx_type = tx_type_of r.tag } ∷ rest)

unfoldable pub effective_limit : ℕ → ℕ
effective_limit limit = if limit == 0 then default_limit else limit

module _ (db : CacheDb) where
  pub load_transactions_with_data : ℕ → ℕ → Option ℕ → Option ℕ → Bool → Option (ℕ × ℕ) × List Entry
  unfolding process_rows effective_limit
  load_transactions_with_data offset limit block_offset block_limit oldest =
      process_rows oldest none (
        list_transactions_mined_with_data db offset (effective_limit limit) block_offset block_limit
          oldest)

  pub load_transactions_account_with_data :
      Text → ℕ → ℕ → Option ℕ → Option ℕ → Bool → Option (ℕ × ℕ) × List Entry
  unfolding process_rows effective_limit
  load_transactions_account_with_data address offset limit block_offset block_limit oldest =
      process_rows oldest none (
        list_transactions_account_mined_with_data db address offset (effective_limit limit)
          block_offset block_limit oldest)
