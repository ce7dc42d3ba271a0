-- ===== src/QueueTx.antt =====
-- cic_eth/queue/tx.py: a signed transaction enters the queue, unless queueing is locked.
pub mod Locked
use cic_stack_v.Prelude.{ℕ, Option, none, some, ltb, if◌then◌else◌}
use cic_stack_v.Store.Rows.{Text}
use cic_stack_v.Store.Session.{Session, given, bind_session, release_session}
use cic_stack_v.Store.Tasks.{call, cache_tx}
use cic_stack_v.Store.{Action, ⊤, locked, ◌>>=◌, ◌>>◌, pure, raise, submit}
use cic_stack_v.External.{Encoding, Queue}
use cic_stack_v.Lock
use cic_stack_v.LockEnum

module _ (enc : Encoding) (queue : Queue) where
  create_entry : Text → ℕ → Text → Text → Text → Action Text
  create_entry chain nonce holder tx_hash signed_tx = do
    tx_hash ← queue.create chain nonce holder tx_hash signed_tx
    release_session
    pure tx_hash

  create_unlocked : ℕ → Text → ℕ → Text → Text → Text → Action Text
  create_unlocked lock chain nonce holder tx_hash signed_tx =
      if ltb 0 lock
      then (do release_session; raise (locked lock))
      else create_entry chain nonce holder tx_hash signed_tx

  -- The signed transaction goes through the normalizer of hashes.
  unfoldable pub queue_create : Text → ℕ → Text → Text → Text → Session → Action Text
  unfolding create_unlocked create_entry
  queue_create chain nonce holder tx_hash signed_tx session = do
    bind_session session
    lock ← Lock.check_aggregate chain LockEnum.queue (enc.wallet_address holder) given
    create_unlocked lock chain nonce (enc.wallet_address holder) (enc.hash tx_hash)
        (enc.hash signed_tx)

  submit_cache : Option Text → Text → Text → Text → Action ⊤
  submit_cache none tx_hash signed_tx chain = pure tt
  submit_cache (some task) tx_hash signed_tx chain =
      submit (call (cache_tx task tx_hash signed_tx chain))

  unfoldable pub register_tx : Text → Text → Text → Option Text → Session → Action ⊤
  unfolding submit_cache
  register_tx tx_hash signed_tx chain cache_task session = do
    let hash = enc.hash tx_hash
    let signed = enc.hash signed_tx
    let tx = queue.unpack signed chain
    r ← queue_create chain tx.nonce tx.sender hash signed session
    submit_cache cache_task hash signed chain
