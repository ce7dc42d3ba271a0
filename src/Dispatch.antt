-- ===== src/Dispatch.antt =====
-- One turn of `DispatchSyncer.loop` of cic_eth/runnable/daemons/dispatcher.py. `set_reserved` is
-- chainqueue's, and whether the node is reached is an argument.
pub mod Once
use cic_stack_v.Prelude.{ℕ, Bool, true, false, none, some, List, [], ◌∷◌, if◌then◌else◌}
use cic_stack_v.Store.Rows.{Text}
use cic_stack_v.Store.Session.{fresh, create_session, close}
use cic_stack_v.Store.Tasks.{Task, call, link, check_lock, send}
use cic_stack_v.Store.{
  Action, Error, Result, ok, err, ⊤, not_local_tx, name_error, ◌>>=◌, ◌>>◌, pure, catch, commit,
  rollback, submit,
}
use cic_stack_v.External.{Encoding, Queue}
use cic_stack_v.LockEnum
use cic_stack_v.Upcoming.{Asked, get_upcoming_tx}

-- The loop goes on after NotLocalTxError. Any other exception reaches the next handler, whose name
-- the module does not import.
not_reserved : Error → Result Bool
not_reserved not_local_tx = ok false
not_reserved e = err name_error

module _ (enc : Encoding) (queue : Queue) (chain : Text) where
  unfoldable pub hash_of : Text → Text
  hash_of raw = (queue.unpack (enc.strip_0x raw) chain).hash

  -- The check of the sender's lock, and then the sending.
  pub dispatch : Text → Task
  dispatch raw =
      link
        (call (
          check_lock (raw ∷ []) chain LockEnum.queue
            (queue.unpack (enc.strip_0x raw) chain).sender))
        (call (send none chain))

  module _ (set_reserved : Text → Text → Action ⊤) where
    -- `txs` is a dictionary of transactions by their hashes, in its order.
    process_txs : List (Text × Text) → Action ⊤
    unfolding not_reserved hash_of dispatch
    process_txs [] = pure tt
    process_txs ((k, raw) ∷ txs) = do
      reserved ← catch (do set_reserved chain (hash_of raw); commit; pure true) not_reserved
      if reserved then submit (dispatch raw) else rollback
      process_txs txs

    pub process : List (Text × Text) → Action ⊤
    unfolding process_txs
    process txs = do create_session; process_txs txs; close

    -- `StatusBits.QUEUED`; no ConnectionError but that of the connection to the node.
    turn : ℕ → ℕ → (ℕ → Bool) → (Text → Result ⊤) → ℕ → Bool → Action ⊤
    unfolding process
    turn queued pending is_alive decode now connects = do
      txs ←
          get_upcoming_tx enc pending is_alive now
            record {
              status = queued;
              not_status = none;
              recipient = none;
              before = none;
              limit = 0;
            }
            decode fresh
      if connects then process txs else pure tt
