-- ===== src/Send.antt =====
-- `send`, `sync_tx` and `hashes_to_txs` of cic_eth/eth/tx.py. The node and the hash of a transaction's text are
-- arguments.
pub mod Drain
pub mod Custom
use cic_stack_v.Prelude.{
  ℕ, Bool, true, false, not, Option, none, some, List, [], ◌∷◌, ◌==◌, ◌||◌, map, select,
  if◌then◌else◌,
}
use cic_stack_v.Store.Rows.{Text, Otx}
use cic_stack_v.Store.Session.{create_session, close}
use cic_stack_v.Store.Tasks.{Task, call, set_sent, set_final, debug_add, send as send_call}
use cic_stack_v.Store.{
  Action, Result, ok, err, ⊤, value_error, eth_error, ◌>>=◌, ◌>>◌, pure, raise, query, submit,
  from_result,
}
use cic_stack_v.External.{Encoding}

-- What the node tells of a transaction that is mined.
pub record Receipt : Type 0 where
  pub status : ℕ
  pub block_number : ℕ
  pub transaction_index : ℕ

-- `raw`, `transaction` and `receipt` of a node, with `keccak256_hex_to_hex`. A JSON-RPC error is
-- `eth_error`; a transaction that is not found has no receipt.
pub record Network : Type 0 where
  pub keccak : Text → Text
  pub raw : Text → Result ⊤
  pub transaction : Text → Result ⊤
  pub receipt : Text → Result (Option Receipt)

module _ (enc : Encoding) (network : Network) (debug_log : Bool) where
  -- `err_state`, after the debug log of a JSON-RPC error; any other exception is not caught.
  unfoldable pub sent_state : Text → Text → Result ⊤ → Action Bool
  sent_state chain tx_hash (ok _) = pure false
  sent_state chain tx_hash (err eth_error) = do
    if debug_log then submit (call (debug_add chain tx_hash)) else pure tt
    pure true
  sent_state chain tx_hash (err e) = raise e

  unfoldable pub send_tail : List Text → Text → Action ⊤
  send_tail [] chain = pure tt
  send_tail (tx ∷ txs) chain = submit (call (send_call (some (tx ∷ txs)) chain))

  -- The task.
  unfoldable pub send : List Text → Text → Action Text
  unfolding sent_state send_tail
  send [] chain = raise value_error
  send (tx ∷ tx_tail) chain = do
    let tx_hex = enc.add_0x tx
    let tx_hash = enc.add_0x (network.keccak tx_hex)
    err_state ← sent_state chain tx_hash (network.raw tx_hex)
    submit (call (set_sent chain tx_hash err_state))
    send_tail tx_tail chain
    pure tx_hash

  status_task : Text → Text → Option Receipt → Task
  status_task chain tx_hash none = call (set_sent chain tx_hash false)
  status_task chain tx_hash (some r) =
      call (set_final chain tx_hash r.block_number r.transaction_index (not (r.status == 1)))

  -- The task.
  pub sync_tx : Text → Text → Action ⊤
  unfolding status_task
  sync_tx tx_hash chain = do
    tx ← from_result (network.transaction tx_hash)
    rcpt ← from_result (network.receipt tx_hash)
    submit (status_task chain tx_hash rcpt)

unfoldable pub is_among : Text → List Text → Bool
is_among hash [] = false
is_among hash (h ∷ hashes) = (hash == h) || is_among hash hashes

module _ (enc : Encoding) where
  -- The texts come in the order of the table, and a hash that is not there is passed over.
  pub hashes_to_txs : List Text → Action (List Text)
  unfolding is_among
  hashes_to_txs [] = raise value_error
  hashes_to_txs (h ∷ hashes) = do
    create_session
    otxs ← query (λ db. select (λ o. is_among o.tx_hash (map enc.strip_0x (h ∷ hashes))) db.otxs)
    close
    pure (map (λ o. o.signed_tx) otxs)
