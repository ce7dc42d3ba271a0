-- ===== src/QueueState.antt =====
-- cic_eth/queue/state.py and cic_eth/queue/lock.py: the tasks that set the state of an entry, and the
-- list of the locks. What changes a state is the chainqueue library's.
use cic_stack_v.Prelude.{ℕ, Bool, Option, none, some, List, map, select, ◌==◌}
use cic_stack_v.Store.Rows.{Text, LockRow, Otx}
use cic_stack_v.Store.Session.{create_session, close}
use cic_stack_v.Store.Table.{first}
use cic_stack_v.Store.{Action, ◌>>=◌, ◌>>◌, pure, query}
use cic_stack_v.External.{Encoding}

-- `chainqueue.sql.state`: chain and hash come first; `A` is what a call returns.
pub record States (A : Type 0) : Type 0 where
  -- failed
  pub set_sent : Text → Text → Bool → Action A
  -- block, index in the block, failed
  pub set_final : Text → Text → Option ℕ → Option ℕ → Bool → Action A
  -- manual
  pub set_cancel : Text → Text → Bool → Action A
  pub set_rejected : Text → Text → Action A
  pub set_fubar : Text → Text → Action A
  pub set_manual : Text → Text → Action A
  pub set_ready : Text → Text → Action A
  pub set_reserved : Text → Text → Action A
  pub set_waitforgas : Text → Text → Action A
  pub set_checked : Text → Text → Action A
  pub get_state_log : Text → Text → Action A
  -- final
  pub obsolete_by_cache : Text → Text → Bool → Action A

-- A call within a session of its own, which is closed after it and is not committed here.
in_session : {A : Type 0} → Action A → Action A
in_session call = do create_session; r ← call; close; pure r

module _ (enc : Encoding) {A : Type 0} (states : States A) where
  set_sent : Text → Text → Bool → Action A
  unfolding in_session
  set_sent chain tx_hash fail = in_session (states.set_sent chain (enc.hash tx_hash) fail)

  set_final : Text → Text → Option ℕ → Option ℕ → Bool → Action A
  unfolding in_session
  set_final chain tx_hash block tx_index fail =
      in_session (states.set_final chain (enc.hash tx_hash) block tx_index fail)

  set_cancel : Text → Text → Bool → Action A
  unfolding in_session
  set_cancel chain tx_hash manual = in_session (states.set_cancel chain (enc.hash tx_hash) manual)

  set_rejected : Text → Text → Action A
  unfolding in_session
  set_rejected chain tx_hash = in_session (states.set_rejected chain (enc.hash tx_hash))

  set_manual : Text → Text → Action A
  unfolding in_session
  set_manual chain tx_hash = in_session (states.set_manual chain (enc.hash tx_hash))

  set_ready : Text → Text → Action A
  unfolding in_session
  set_ready chain tx_hash = in_session (states.set_ready chain (enc.hash tx_hash))

  set_reserved : Text → Text → Action A
  unfolding in_session
  set_reserved chain tx_hash = in_session (states.set_reserved chain (enc.hash tx_hash))

  set_waitforgas : Text → Text → Action A
  unfolding in_session
  set_waitforgas chain tx_hash = in_session (states.set_waitforgas chain (enc.hash tx_hash))

  set_checked : Text → Text → Action A
  unfolding in_session
  set_checked chain tx_hash = in_session (states.set_checked chain (enc.hash tx_hash))

  get_state_log : Text → Text → Action A
  unfolding in_session
  get_state_log chain tx_hash = in_session (states.get_state_log chain (enc.hash tx_hash))

  obsolete : Text → Text → Bool → Action A
  unfolding in_session
  obsolete chain tx_hash final =
      in_session (states.obsolete_by_cache chain (enc.hash tx_hash) final)

  -- The answer is put after a text, for which `prefix` stands: a TypeError unless it is a text too.
  set_fubar : (A → Action Text) → Text → Text → Action Text
  unfolding in_session
  set_fubar prefix chain tx_hash = do
    r ← in_session (states.set_fubar chain (enc.hash tx_hash))
    prefix r

-- A lock as `get_lock` tells of it, without its date.
pub record Locked : Type 0 where
  pub address : Text
  pub flags : ℕ
  pub tx_hash : Option Text

hash_in : List Otx → Option ℕ → Option Text
hash_in otxs none = none
hash_in otxs (some id) = hash_of (first (λ o. o.id == id) otxs)
  where
    hash_of : Option Otx → Option Text
    hash_of none = none
    hash_of (some o) = some o.tx_hash

locked_rows : List Otx → List LockRow → List Locked
unfolding hash_in
locked_rows otxs rows =
    map (λ r. record { address = r.address; flags = r.flags; tx_hash = hash_in otxs r.otx_id }) rows

module _ (enc : Encoding) where
  -- Of an address on any chain, or all, in the order in which they were made.
  get_lock : Option Text → Action (List Locked)
  unfolding locked_rows
  get_lock none = do
    create_session
    rows ← query (λ db. locked_rows db.otxs db.locks)
    close
    pure rows
  get_lock (some address) = do
    create_session
    rows ←
        query
          λ db. locked_rows db.otxs (select (λ l. l.address == enc.wallet_address address) db.locks)
    close
    pure rows
