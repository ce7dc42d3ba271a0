-- ===== src/Enqueue/Effect.antt =====
-- What `enqueue` does to the database and which tasks it submits.
use mathlib.Core.List.{append_assoc}
use cic_stack_v.Prelude.{ℕ, ◌*◌, ◌≡◌, true, false, some, List, [], ◌∷◌, ◌++◌, arith}
use cic_stack_v.Store.Rows.{Text}
use cic_stack_v.Store.Tasks.{Task, call, cache_tx}
use cic_stack_v.Store.{Db, Worker, ok, err, locked}
use cic_stack_v.External.{Encoding, Queue}
use cic_stack_v.Lock.Effect.{IsKeyed}
use cic_stack_v.LockEnum
use cic_stack_v.QueueTx.{register_tx}
use cic_stack_v.QueueTx.Locked.{is_locked, queue_create_lem, register_tx-locked}
use cic_stack_v.Gas.Check.{create_check_gas_task}
use cic_stack_v.Enqueue.{enqueue}

-- The sender of a signed transaction, as the queue decodes it.
abbrev pub sender_of : Encoding → Queue → Text → Text → Text
sender_of enc queue chain signed = enc.wallet_address (queue.unpack (enc.hash signed) chain).sender

-- The queue takes a transaction: its entry is in the database `db` that the session sees, and `kept` is
-- what is committed then, be it that the queue commits or that it leaves that to its caller.
abbrev pub Creates : Encoding → Queue → Text → Text → Text → Worker → Db → Db → Type 0
Creates enc queue chain tx_hash signed w db kept =
    queue.create chain (queue.unpack (enc.hash signed) chain).nonce
      (sender_of enc queue chain signed) (enc.hash (enc.hash tx_hash)) (enc.hash (enc.hash signed))
      w
    ≡ (ok (enc.hash tx_hash), record w { work = db; committed = kept })

abbrev pub Takes : Encoding → Queue → Text → Text → Text → Worker → Db → Type 0
Takes enc queue chain tx_hash signed w db =
    (kept : Db) × Creates enc queue chain tx_hash signed w db kept

module _ (enc : Encoding) (queue : Queue) (get_gas : Text → ℕ × ℕ)
    (chain holder cache_task tx_hash signed : Text) where
  unfoldable pub tasks : List Task
  tasks =
      call (cache_tx cache_task (enc.hash tx_hash) (enc.hash signed) chain)
      ∷ create_check_gas_task (signed ∷ []) chain holder
          (some ((get_gas signed).0 * (get_gas signed).1)) (some (tx_hash ∷ []))
      ∷ []

module _ (enc : Encoding) (queue : Queue) (get_gas : Text → ℕ × ℕ)
    (chain holder cache_task tx_hash signed : Text) (w : Worker) (foreign : w.registered ≡ false)
    (keyed : IsKeyed w.work.locks) where
  pub enqueue-locked :
      is_locked chain (sender_of enc queue chain signed) w.work ≡ true
      → enqueue enc queue get_gas chain holder cache_task tx_hash signed w
        ≡ (err (locked LockEnum.queue), w)
  unfolding enqueue
  enqueue-locked h =
      ground (
        arith,
        register_tx-locked enc queue w foreign keyed tx_hash signed chain (some cache_task) h,
      )

  -- Where the queue takes the transaction, what it did is committed.
  pub enqueue-open :
      (db : Db)
      → is_locked chain (sender_of enc queue chain signed) w.work ≡ false
      → Takes enc queue chain tx_hash signed w db
      → enqueue enc queue get_gas chain holder cache_task tx_hash signed w ≡ (
        ok tt,
        record w {
          work = db;
          committed = db;
          submitted = w.submitted ++ tasks enc queue get_gas chain holder cache_task tx_hash signed;
        },
      )
  unfolding enqueue register_tx tasks
  enqueue-open db h (kept, created) =
      let tx = queue.unpack (enc.hash signed) chain in
      ground (
        arith,
        queue_create_lem enc queue w foreign keyed chain tx.nonce tx.sender (enc.hash tx_hash)
            (enc.hash signed),
        append_assoc w.submitted
            (call (cache_tx cache_task (enc.hash tx_hash) (enc.hash signed) chain) ∷ [])
            (create_check_gas_task (signed ∷ []) chain holder
                (some ((get_gas signed).0 * (get_gas signed).1)) (some (tx_hash ∷ []))
              ∷ []),
      )
