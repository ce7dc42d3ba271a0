-- ===== src/Send/Custom/Registered.antt =====
-- What `custom` leaves in the database, and which tasks it submits.
use mathlib.Core.List.{append_assoc}
use cic_stack_v.Prelude.{◌≡◌, refl, false, [], ◌∷◌, ◌++◌, arith}
use cic_stack_v.Store.Rows.{Text}
use cic_stack_v.Store.Tasks.{call, cache_tx, set_ready}
use cic_stack_v.Store.{Db, Worker, ok}
use cic_stack_v.External.{Encoding, Queue, Unsigned, Signing, signed}
use cic_stack_v.Lock.Effect.{IsKeyed}
use cic_stack_v.QueueTx.{register_tx}
use cic_stack_v.QueueTx.Locked.{is_locked, queue_create_lem}
use cic_stack_v.Enqueue.Effect.{sender_of, Creates}
use cic_stack_v.Send.Custom.{custom, custom_or_error}

-- Where the signer signs, queueing is not locked and the queue takes the entry in the session that it is
-- given, `custom` returns the hash and submits the filling of the cache and that the transaction is
-- ready to send. The entry is in the queue as the session sees it, and what is committed is what the
-- queue has committed.
pub custom-registers :
    (enc : Encoding) (queue : Queue) (create : Unsigned → Text → Signing) (tx : Unsigned)
    (payload chain cache_task tx_hash raw : Text) (w : Worker) (db kept : Db)
    → IsKeyed w.committed.locks
    → create tx payload ≡ signed tx_hash raw
    → is_locked chain (sender_of enc queue chain raw) w.committed ≡ false
    → let opened : Worker = record w { work = w.committed; registered = false } in
      Creates enc queue chain tx_hash raw opened db kept
      → custom enc queue create tx payload chain cache_task w ≡ (
        ok tx_hash,
        record w {
          work = db;
          committed = kept;
          registered = false;
          submitted =
              w.submitted
              ++ call (cache_tx cache_task (enc.hash tx_hash) (enc.hash raw) chain)
                ∷ call (set_ready chain tx_hash)
                ∷ [];
        },
      )
unfolding custom register_tx custom_or_error
custom-registers enc queue create tx payload chain cache_task tx_hash raw w db kept keyed built
      open_ created =
    let opened : Worker = record w { work = w.committed; registered = false } in
    let unpacked = queue.unpack (enc.hash raw) chain in
    ground (
      arith,
      built,
      queue_create_lem enc queue opened refl keyed chain unpacked.nonce unpacked.sender
          (enc.hash tx_hash) (enc.hash raw),
      append_assoc w.submitted
          (call (cache_tx cache_task (enc.hash tx_hash) (enc.hash raw) chain) ∷ [])
          (call (set_ready chain tx_hash) ∷ []),
    )
