-- ===== src/Store/Tasks.antt =====
-- The celery tasks that the code submits. A call that a link feeds has no first argument of its own:
-- it takes the result of the task before it.
use cic_stack_v.Prelude.{ℕ, Bool, Option, List}
use cic_stack_v.Store.Rows.{Text}

-- What `token_info` tells of a token.
pub record TokenInfo : Type 0 where
  pub address : Text
  pub symbol : Text
  pub name : Text
  pub decimals : ℕ
  pub proofs : List Text
  pub converters : List Text

-- A number of Python that is not negative: an int, or a float by its 64 bits.
pub data Number : Type 0 where
  whole float : ℕ → Number

-- What an address table tells of a token: its address, symbol, name and decimals.
pub record TokenLabel : Type 0 where
  pub address : Text
  pub symbol : Text
  pub name : Text
  pub decimals : ℕ

-- `ExtendedTx`, when it is reported: `status_code` is 0 for success.
pub record ExtendedTx : Type 0 where
  pub hash : Text
  pub sender : Text
  pub recipient : Text
  pub sender_label : Option Text
  pub recipient_label : Option Text
  pub source_token : TokenLabel
  pub destination_token : TokenLabel
  pub source_token_value : ℕ
  pub destination_token_value : ℕ
  pub status_code : ℕ

pub data TransferType : Type 0 where
  transfer_type transferfrom_type tokengift_type : TransferType

pub data Call : Type 0 where
  -- chained input, chain, signer
  reserve_nonce : Text → Text → Option Text → Call
  -- chain, immediate_gas
  refill_gas : Text → ℕ → Call
  -- transaction hashes, chain, signed transactions, holder, gas
  check_gas : Option (List Text) → Text → List Text → Text → Option Number → Call
  -- chain, transaction hash
  set_waitforgas set_ready set_fubar set_manual set_checked : Text → Text → Call
  -- chain, transaction hash, failed
  set_sent : Text → Text → Bool → Call
  -- chain, transaction hash, block, index in the block, failed
  set_final : Text → Text → ℕ → ℕ → Bool → Call
  -- chain, transaction hash, whether the transaction is final
  obsolete : Text → Text → Bool → Call
  -- chain, address
  unlock_send unlock_queue : Text → Text → Call
  -- passed value, chain, flags, address
  check_lock : List Text → Text → ℕ → Text → Call
  -- the transactions, or none where a link feeds them; chain
  send : Option (List Text) → Text → Call
  -- name of the task, transaction hash, signed transaction, chain
  cache_tx : Text → Text → Text → Text → Call
  -- transaction hash, chain
  resend_with_higher_gas : Text → Text → Call
  -- chain, gas price, factor; the transaction hash is fed by a link
  resend_at : Text → Option ℕ → Number → Call
  -- chain, transaction hash
  shift_nonce : Text → Option Text → Call
  -- chain, address, flags
  lock_for unlock_for : Text → Text → Option ℕ → Call
  -- tag, address, chain
  set_role : Text → Text → Text → Call
  -- address or tag, chain
  role role_account : Text → Text → Call
  -- address, method, value, transaction hash
  apply_gas_value_cache : Text → Text → ℕ → Text → Call
  -- chain
  gift : Text → Call
  -- holder, spender, value, chain
  approve : Text → Text → ℕ → Text → Call
  -- tag of the failure, transaction hash
  debug_add : Text → Text → Call
  shutdown : Call
  -- the parameter of the caller, and 0 for success or 1 for an error
  callback : Text → ℕ → Call
  -- what a transaction of a block did, its kind, and 0 for success or 1 for an error
  transfer_callback : ExtendedTx → TransferType → ℕ → Call
  -- token, subject, proofs, chain
  verify_proofs : TokenInfo → Text → List Text → Text → Call

-- `s.link(t)`, `s.on_error(t)` and `celery.group(s, t)`.
pub data Task : Type 0 where
  call : Call → Task
  link : Task → Task → Task
  on_error : Task → Task → Task
  group : Task → Task → Task
