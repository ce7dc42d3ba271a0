-- ===== src/Store/Rows.antt =====
-- The rows of the tables that cic_eth reads and writes: those of cic_eth/db/models, and the columns
-- of the chainqueue library's `otx` and `tx_cache` that the queries of cic_eth name.
use cic_stack_v.Prelude.{ℕ, Option}

-- A hexadecimal address or hash, a role tag, a task key or a chain specification. The code only
-- compares such texts and hands them on, so each is a number that stands for one text.
abbrev pub Text : Type 0
Text = ℕ

-- `ZERO_ADDRESS`, and `'::'`, the chain that is named where no chain specification is given.
abbrev pub zero_address : Text
zero_address = 0

abbrev pub no_chain : Text
no_chain = 0

-- The role tags that the code names.
abbrev pub gas_gifter : Text
gas_gifter = 1

abbrev pub account_registry_writer : Text
account_registry_writer = 2

abbrev pub default_role : Text
default_role = 3

-- The task names `cic_eth.eth.gas.cache_gas_data`, `cic_eth.eth.account.cache_account_data` and
-- `cic_eth.eth.account.cache_gift_data`.
abbrev pub gas_cache_task : Text
gas_cache_task = 4

abbrev pub account_cache_task : Text
account_cache_task = 5

abbrev pub gift_cache_task : Text
gift_cache_task = 6

-- `cache_transfer_data`, `cache_transfer_from_data` and `cache_approve_data` of cic_eth.eth.erc20.
abbrev pub transfer_cache_task : Text
transfer_cache_task = 7

abbrev pub transfer_from_cache_task : Text
transfer_from_cache_task = 8

abbrev pub approve_cache_task : Text
approve_cache_task = 9

pub record NonceRow : Type 0 where
  pub address_hex : Text
  pub nonce : ℕ

pub record Reservation : Type 0 where
  pub address_hex : Text
  pub nonce : ℕ
  pub key : Text

pub record LockRow : Type 0 where
  pub blockchain : Text
  pub address : Text
  pub flags : ℕ
  pub otx_id : Option ℕ

pub record RoleRow : Type 0 where
  pub tag : Text
  pub address_hex : Text

pub record GasRow : Type 0 where
  pub address : Text
  pub method : Text
  pub value : ℕ
  pub tx_hash : Text

pub record Otx : Type 0 where
  pub id : ℕ
  pub nonce : ℕ
  pub tx_hash : Text
  pub signed_tx : Text
  pub status : ℕ

pub record TxCacheRow : Type 0 where
  pub otx_id : ℕ
  pub sender : Text
  pub recipient : Text
  pub source_token : Text
  pub destination_token : Text
  pub from_value : ℕ
  pub to_value : ℕ
  pub date_checked : ℕ
