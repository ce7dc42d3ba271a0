-- ===== src/QueueTx/Locked.antt =====
-- When the queue takes a transaction.
use cic_stack_v.Prelude.{
  ℕ, ◌≡◌, true, false, Option, arith, bit_and, ◌==◌, ◌||◌, if◌then◌else◌, Bool-cases, inl, inr,
  Bool,
}
use cic_stack_v.Store.Rows.{Text, zero_address}
use cic_stack_v.Store.Session.{given, release_session}
use cic_stack_v.Store.{Db, Worker, err, locked, ◌>>=◌, ◌>>◌, pure}
use cic_stack_v.External.{Encoding, Queue}
use cic_stack_v.Lock.Effect.{flags_at, IsKeyed}
use cic_stack_v.Lock.Check.{hit_aggregate_lem, check_aggregate-given}
use cic_stack_v.QueueTx.{queue_create, register_tx}
use cic_stack_v.LockEnum

-- Whether queueing is locked, for everyone or for the holder.
unfoldable pub is_locked : Text → Text → Db → Bool
is_locked chain holder db =
    (bit_and (flags_at chain zero_address db) LockEnum.queue == LockEnum.queue)
    || (bit_and (flags_at chain holder db) LockEnum.queue == LockEnum.queue)

module _ (enc : Encoding) (queue : Queue) (w : Worker) (foreign : w.registered ≡ false)
    (keyed : IsKeyed w.work.locks) where
  -- A locked queue refuses the transaction with `LockedError` and changes nothing; one that is not locked
  -- creates the entry.
  pub queue_create_lem :
      (chain : Text) (nonce : ℕ) (holder tx_hash signed_tx : Text)
      → queue_create enc queue chain nonce holder tx_hash signed_tx given w ≡ (
          if is_locked chain (enc.wallet_address holder) w.work
          then (err (locked LockEnum.queue), w)
          else (do
            r ←
                queue.create chain nonce
                  (enc.wallet_address holder)
                  (enc.hash tx_hash)
                  (enc.hash signed_tx)
            release_session
            pure r)
              w)
  unfolding queue_create is_locked
  queue_create_lem chain nonce holder tx_hash signed_tx =
      elim (Bool-cases (is_locked chain (enc.wallet_address holder) w.work)) [
        | inl e ↦ ground (
          arith,
          check_aggregate-given chain LockEnum.queue (enc.wallet_address holder) w foreign keyed,
          hit_aggregate_lem chain LockEnum.queue (enc.wallet_address holder) w.work,
        )
        | inr e ↦ ground (
          arith,
          check_aggregate-given chain LockEnum.queue (enc.wallet_address holder) w foreign keyed,
          hit_aggregate_lem chain LockEnum.queue (enc.wallet_address holder) w.work,
        )
      ]

  -- Then `register_tx` submits no task to fill the cache either.
  pub register_tx-locked :
      (tx_hash signed_tx chain : Text) (cache_task : Option Text)
      → is_locked chain (enc.wallet_address (queue.unpack (enc.hash signed_tx) chain).sender) w.work
        ≡ true
      → register_tx enc queue tx_hash signed_tx chain cache_task given w
        ≡ (err (locked LockEnum.queue), w)
  unfolding register_tx
  register_tx-locked tx_hash signed_tx chain cache_task e =
      let tx = queue.unpack (enc.hash signed_tx) chain in
      ground
        (arith, queue_create_lem chain tx.nonce tx.sender (enc.hash tx_hash) (enc.hash signed_tx))
