-- ===== src/Admin.antt =====
-- `AdminApi` of cic_eth/api/admin.py. What it asks of the workers and waits for, the entries of the
-- queue, is an argument; what it starts is submitted.
pub mod Blocking
pub mod Listing
use cic_stack_v.Prelude.{
  ℕ, ◌+◌, Bool, true, false, not, ◌&&◌, ◌||◌, Option, none, some, List, [], ◌∷◌, ◌++◌, ltb, ◌==◌,
  bit_and, if◌then◌else◌,
}
use cic_stack_v.Store.Rows.{Text}
use cic_stack_v.Store.Tasks.{
  Number, Task, call, link, set_manual, resend_at, unlock_send, shift_nonce, lock_for, unlock_for,
  set_role, role, role_account,
}
use cic_stack_v.Store.Session.{create_session, close}
use cic_stack_v.Store.{
  Action, Result, ⊤, ok, err, tx_state_change, not_implemented, ◌>>=◌, ◌>>◌, pure, raise, submit,
  from_result, raise_if,
}

-- What `get_tx_cache` and `get_tx` tell of an entry.
pub record QueueTx : Type 0 where
  pub tx_hash : Text
  pub nonce : ℕ
  pub status : ℕ
  pub sender : Text
  pub recipient : Text
  pub signed_tx : Text
  pub date_updated : ℕ

pub record Workers : Type 0 where
  -- `get_account_tx`: the hashes of the transactions of an account; whether as recipient too
  pub account_txs : Text → Bool → Result (List Text)
  -- `get_latest_txs`
  pub latest_txs : Result (List Text)
  pub get_tx : Text → Result QueueTx
  -- `unpack`: the sender of a signed transaction
  pub sender_of : Text → Result Text
  -- of chainqueue
  pub is_alive : ℕ → Bool
  pub local_fail : ℕ
  -- of hexathon
  pub add_0x : Option Text → Result Text
  pub uniform : Text → Text

-- The nonce of the last transaction looked at, and what blocks the sender.
pub record Scan : Type 0 where
  pub queue : ℕ
  pub blocking : Option (Text × ℕ)

-- What `check_nonce` returns.
pub record NonceReport : Type 0 where
  pub queue : ℕ
  pub blocking_nonce : Option ℕ
  pub blocking_tx : Text

-- An entry of a list, with whether its errors have 'nonce'.
pub record Listed : Type 0 where
  pub nonce : ℕ
  pub tx_hash : Text
  pub status : ℕ
  pub date_updated : ℕ
  pub nonce_gap : Bool

unfoldable pub hash_of : Option (Text × ℕ) → Option Text
hash_of none = none
hash_of (some (k, n)) = some k

unfoldable pub nonce_of : Option (Text × ℕ) → Option ℕ
nonce_of none = none
nonce_of (some (k, n)) = some n

unfoldable pub listed : QueueTx → Bool → Listed
listed tx gap = record {
  nonce = tx.nonce;
  tx_hash = tx.tx_hash;
  status = tx.status;
  date_updated = tx.date_updated;
  nonce_gap = gap;
}

unfoldable pub prepend : List Listed → Result (List Listed) → Result (List Listed)
prepend rows (ok more) = ok (rows ++ more)
prepend rows (err e) = err e

module _ (workers : Workers) where
  pub unlock : Text → Text → Option ℕ → Action ⊤
  unlock chain address flags = submit (call (unlock_for chain address flags))

  pub lock : Text → Text → Option ℕ → Action ⊤
  lock chain address flags = submit (call (lock_for chain address flags))

  pub tag_account : Text → Text → Text → Action ⊤
  tag_account chain tag address = submit (call (set_role tag address chain))

  pub get_tag_account : Text → Text → Option Text → Action ⊤
  get_tag_account chain tag none = submit (call (role_account tag chain))
  get_tag_account chain tag (some address) = submit (call (role address chain))

  unlock_after : Text → Text → Bool → Task → Task
  unlock_after chain sender false s = s
  unlock_after chain sender true s = link s (call (unlock_send chain sender))

  pub resend : Text → Text → Bool → Bool → Option ℕ → Number → Bool → Action ⊤
  unfolding unlock_after
  resend chain tx_hash in_place unlocks gas_price gas_ratio force = do
    tx ← from_result (workers.get_tx tx_hash)
    raise_if (not force && not (workers.is_alive tx.status)) tx_state_change
    raise_if (not in_place) not_implemented
    submit (
        link (call (set_manual chain tx_hash))
          (unlock_after chain tx.sender unlocks (call (resend_at chain gas_price gas_ratio))))

  -- Whether a transaction failed for good.
  unfoldable pub is_failed : QueueTx → Bool
  is_failed tx = not (workers.is_alive tx.status) && ltb 0 (bit_and tx.status workers.local_fail)

  -- The loop of `check_nonce`. `expected` is one more than the last nonce, which is -1 at first; the
  -- loop ends at a gap.
  unfoldable pub scan : List Text → ℕ → Scan → Result Scan
  unfolding is_failed
  scan [] expected s = ok s
  scan (k ∷ ks) expected s = elim (workers.get_tx k) [
    | err e ↦ err e
    | ok tx ↦
        let found : Scan = record { queue = tx.nonce; blocking = some (k, tx.nonce) } in
        elim (is_failed tx) [
          | true ↦ scan ks (tx.nonce + 1) found
          | false ↦ elim (ltb expected tx.nonce) [
            | true ↦ elim (workers.sender_of tx.signed_tx) [ ok a ↦ ok found | err e ↦ err e ]
            | false ↦ scan ks (tx.nonce + 1) (record { queue = tx.nonce; blocking = s.blocking })
          ]
        ]
  ]

  pub check_nonce : Text → Action NonceReport
  unfolding scan hash_of nonce_of
  check_nonce address = do
    txs ← from_result (workers.account_txs address false)
    s ← from_result (scan txs 0 (record { queue = 0; blocking = none }))
    blocking ← from_result (workers.add_0x (hash_of s.blocking))
    pure (record { queue = s.queue; blocking_nonce = nonce_of s.blocking; blocking_tx = blocking })

  -- The last of the transactions with a nonce.
  with_nonce : List Text → ℕ → Option Text → Result (Option Text)
  with_nonce [] nonce found = ok found
  with_nonce (k ∷ ks) nonce found = elim (workers.get_tx k) [
    | err e ↦ err e
    | ok tx ↦ with_nonce ks nonce (if tx.nonce == nonce then some k else found)
  ]

  pub fix_nonce : Text → Text → ℕ → Action ⊤
  unfolding with_nonce
  fix_nonce chain address nonce = do
    txs ← from_result (workers.account_txs address false)
    create_session
    tx_hash ← from_result (with_nonce txs nonce none)
    close
    submit (call (shift_nonce chain tx_hash))

  -- What `account` lists of a transaction: one of the account's own, one to it, or another.
  unfoldable pub account_row : Text → Bool → Bool → QueueTx → Bool → List Listed
  unfolding listed
  account_row address include_sender include_recipient tx gap =
      if tx.sender == address
      then (if include_sender then listed tx gap ∷ [] else [])
      else (if (tx.recipient == address) && not include_recipient then [] else listed tx false ∷ [])

  -- `expected` is one more than the last nonce of the account's own.
  unfoldable pub account_rows : Text → Bool → Bool → ℕ → List Text → Result (List Listed)
  unfolding account_row
  account_rows address include_sender include_recipient expected [] = ok []
  account_rows address include_sender include_recipient expected (k ∷ ks) =
      elim (workers.get_tx k) [
        | err e ↦ err e
        | ok tx ↦
            prepend
              (account_row address include_sender include_recipient tx (ltb expected tx.nonce))
              (account_rows address include_sender include_recipient
                (if tx.sender == address then tx.nonce + 1 else expected) ks)
      ]

  -- `account`: what it returns, and what it writes with a renderer.
  pub account : Text → Bool → Bool → Bool → Action (List Listed × List Listed)
  unfolding account_rows
  account address include_sender include_recipient rendered = do
    txs ← from_result (workers.account_txs (workers.uniform address) true)
    rows ←
        from_result (account_rows (workers.uniform address) include_sender include_recipient 0 txs)
    pure (if rendered then ([], rows) else (rows, []))

  -- The nonces are compared whatever the senders are. The dates of creation are left out.
  latest_rows : ℕ → List Text → Result (List Listed)
  unfolding listed
  latest_rows expected [] = ok []
  latest_rows expected (k ∷ ks) = elim (workers.get_tx k) [
    | err e ↦ err e
    | ok tx ↦ prepend (listed tx (ltb expected tx.nonce) ∷ []) (latest_rows (tx.nonce + 1) ks)
  ]

  pub txs_latest : Bool → Action (List Listed × List Listed)
  unfolding latest_rows
  txs_latest rendered = do
    txs ← from_result workers.latest_txs
    rows ← from_result (latest_rows 0 txs)
    pure (if rendered then ([], rows) else (rows, []))
