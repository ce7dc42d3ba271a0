-- ===== src/QueueQuery.antt =====
-- cic_eth/queue/query.py.
use cic_stack_v.Prelude.{ℕ, Bool, Option}
use cic_stack_v.Store.Rows.{Text}
use cic_stack_v.Store.Session.{Session, fresh, bind_session, release_session, create_session, close}
use cic_stack_v.Store.{Action, ◌>>=◌, ◌>>◌, pure}
use cic_stack_v.External.{Encoding, Queue}

module _ (enc : Encoding) (queue : Queue) where
  pub get_tx_local : Text → Text → Session → Action Text
  get_tx_local chain tx_hash session = do
    bind_session session
    r ← queue.get_tx chain (enc.hash tx_hash)
    release_session
    pure r

  -- The task.
  pub get_tx : Text → Text → Action Text
  unfolding get_tx_local
  get_tx chain tx_hash = get_tx_local chain tx_hash fresh

-- `chainqueue.sql.query`, and what its decoder makes of a transaction. A selection has the status that
-- entries have, that which they do not have, and the first and the last entry asked for.
pub record Selection : Type 0 where
  pub status : Option ℕ
  pub not_status : Option ℕ
  pub offset : Option ℕ
  pub limit : Option ℕ

pub record Queries (A : Type 0) : Type 0 where
  -- chain, hash
  pub get_tx_cache : Text → Text → Action A
  -- chain, count
  pub get_latest_txs : Text → ℕ → Selection → Action A
  -- chain, address, as sender, as recipient, counterpart
  pub get_account_tx : Text → Text → Bool → Bool → Option Text → Selection → Action A
  -- chain, status, status not, recipient, before, limit
  pub get_upcoming_tx : Text → ℕ → Option ℕ → Text → Option ℕ → ℕ → Action A
  -- chain, status, sender
  pub get_paused_tx_cache : Text → Option ℕ → Text → Action A
  -- chain, nonce, sender
  pub get_nonce_tx_cache : Text → ℕ → Text → Action A

-- A query within a session of the caller's or one that is released after it.
within : {A : Type 0} → Session → Action A → Action A
within session call = do bind_session session; r ← call; release_session; pure r

module _ (enc : Encoding) {A : Type 0} (queries : Queries A) where
  get_tx_cache_local : Text → Text → Session → Action A
  unfolding within
  get_tx_cache_local chain tx_hash session =
      within session (queries.get_tx_cache chain (enc.hash tx_hash))

  -- The task.
  get_tx_cache : Text → Text → Action A
  unfolding get_tx_cache_local
  get_tx_cache chain tx_hash = get_tx_cache_local chain tx_hash fresh

  get_latest_txs_local : Text → ℕ → Selection → Session → Action A
  unfolding within
  get_latest_txs_local chain count selection session =
      within session (queries.get_latest_txs chain count selection)

  -- The task.
  get_latest_txs : Text → ℕ → Selection → Action A
  unfolding get_latest_txs_local
  get_latest_txs chain count selection = get_latest_txs_local chain count selection fresh

  get_account_tx_local : Text → Text → Bool → Bool → Option Text → Selection → Session → Action A
  unfolding within
  get_account_tx_local chain address as_sender as_recipient counterpart selection session =
      within session (
        queries.get_account_tx chain (enc.wallet_address address) as_sender as_recipient counterpart
          selection)

  -- The task.
  pub get_account_tx : Text → Text → Bool → Bool → Option Text → Selection → Action A
  unfolding get_account_tx_local
  get_account_tx chain address as_sender as_recipient counterpart selection =
      get_account_tx_local chain (enc.wallet_address address) as_sender as_recipient counterpart
        selection fresh

  get_upcoming_tx_nolock_local : Text → ℕ → Option ℕ → Text → Option ℕ → ℕ → Action A
  get_upcoming_tx_nolock_local chain status not_status recipient before limit = do
    create_session
    r ← queries.get_upcoming_tx chain status not_status (enc.wallet_address recipient) before limit
    close
    pure r

  -- The session of the caller's is handed on.
  get_paused_tx : Text → Option ℕ → Text → Action A
  get_paused_tx chain status sender =
      queries.get_paused_tx_cache chain status (enc.wallet_address sender)

  get_nonce_tx_local : Text → ℕ → Text → Action A
  get_nonce_tx_local chain nonce sender =
      queries.get_nonce_tx_cache chain nonce (enc.wallet_address sender)

  get_nonce_tx : Text → ℕ → Text → Action A
  unfolding get_nonce_tx_local
  get_nonce_tx chain nonce sender = get_nonce_tx_local chain nonce (enc.wallet_address sender)
