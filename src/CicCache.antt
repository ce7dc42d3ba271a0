-- ===== src/CicCache.antt =====
-- cic_cache of apps/cic-cache: the tables of mined transactions and their tags.
pub mod Listing
pub mod Tagging
pub mod Bloom
pub mod Data
pub mod Requests
pub mod Watch
use cic_stack_v.Prelude.{ℕ, Bool, Option, List}
use cic_stack_v.Store.Rows.{Text}

-- A row of the table `tx`.
pub record TxRow : Type 0 where
  pub id : ℕ
  pub tx_hash : Text
  pub block_number : ℕ
  pub tx_index : ℕ
  pub sender : Text
  pub recipient : Text
  pub source_token : Text
  pub destination_token : Text
  pub from_value : ℕ
  pub to_value : ℕ
  pub success : Bool
  pub date_block : ℕ

pub record TagRow : Type 0 where
  pub id : ℕ
  pub domain : Option Text
  pub value : Text

pub record LinkRow : Type 0 where
  pub tag_id : ℕ
  pub tx_id : ℕ

pub record CacheDb : Type 0 where
  pub txs : List TxRow
  pub tags : List TagRow
  pub links : List LinkRow
