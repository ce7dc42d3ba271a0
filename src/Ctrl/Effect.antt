-- ===== src/Ctrl/Effect.antt =====
-- Locks as a task sees them: what the lock tasks set stops it, and what the unlock tasks lift does not.
use cic_stack_v.Prelude.{ℕ, ◌≡◌, ◌≢◌, false, Option, none, some, arith, bit_and, inr}
use cic_stack_v.Bits.Laws.{bit_and-bit_or_self, bit_and-clear_self}
use cic_stack_v.Store.Rows.{Text, zero_address}
use cic_stack_v.Store.{Worker, ok, err, locked}
use cic_stack_v.External.{Encoding}
use cic_stack_v.Lock.Effect.{
  flags_at, IsKeyed, after_set, set-fresh, flags_at-set_self, after_set-IsKeyed,
}
use cic_stack_v.Lock.Reset.{
  after_reset, reset-fresh, flags_at-reset_self, flags_at-reset-Apart, after_reset-IsKeyed,
}
use cic_stack_v.Lock.Check.{hit_aggregate_lem}
use cic_stack_v.LockEnum
use cic_stack_v.Ctrl.{chain_str, lock, unlock, check_lock, lock_queue, lock_send}
use cic_stack_v.Ctrl.Check.{check_lock_lem}

module _ (enc : Encoding) {A : Type 0} (chained : A) (chain : Option Text) (address : Text)
    (flags : ℕ) (w : Worker) (keyed : IsKeyed w.committed.locks) (some_flag : flags ≢ 0) where
  -- A task that asks for flags is stopped, and told these flags, once they have been locked for its
  -- account.
  pub check_lock-lock :
      (tx_hash : Option Text)
      → (check_lock enc chained chain flags
          (some address)
          (lock enc chained chain address flags tx_hash w).1).0
        ≡ err (locked flags)
  unfolding lock
  check_lock-lock tx_hash =
      let db = after_set (chain_str chain) flags (enc.wallet_address address) tx_hash w.committed in
      let w' : Worker = record w { work = db; committed = db; registered = false } in
      ground (
        arith,
        set-fresh (chain_str chain) flags (enc.wallet_address address) tx_hash w,
        check_lock_lem enc chained chain flags (some address) w' (
            after_set-IsKeyed (chain_str chain) flags (enc.wallet_address address) tx_hash
              w.committed keyed),
        hit_aggregate_lem (chain_str chain) flags (enc.wallet_address address) db,
        flags_at-set_self (chain_str chain) flags (enc.wallet_address address) tx_hash w.committed,
        bit_and-bit_or_self (flags_at (chain_str chain) (enc.wallet_address address) w.committed)
            flags,
      )

  -- Once they have been lifted for its account, it passes, unless they are all locked for everyone.
  pub check_lock-unlock :
      enc.wallet_address address ≢ zero_address
      → bit_and (flags_at (chain_str chain) zero_address w.committed) flags ≢ flags
      → (check_lock enc chained chain flags
          (some address)
          (unlock enc chained chain address flags w).1).0
        ≡ ok chained
  unfolding unlock
  check_lock-unlock own unlocked =
      let a = enc.wallet_address address in
      let db = after_reset (chain_str chain) flags a w.committed in
      let w' : Worker = record w { work = db; committed = db; registered = false } in
      ground (
        arith,
        reset-fresh (chain_str chain) flags a w,
        check_lock_lem enc chained chain flags (some address) w'
            (after_reset-IsKeyed (chain_str chain) flags a w.committed keyed),
        hit_aggregate_lem (chain_str chain) flags a db,
        flags_at-reset_self (chain_str chain) flags a w.committed keyed,
        flags_at-reset-Apart (chain_str chain) flags a w.committed (chain_str chain) zero_address
            (inr own),
        bit_and-clear_self (flags_at (chain_str chain) a w.committed) flags,
      )

-- The tasks that lock queueing and sending, on the database that is committed.
pub lock_queue_lem :
    (enc : Encoding) {A : Type 0} (chained : A) (chain address : Text) (w : Worker)
    → let db = after_set chain LockEnum.queue (enc.wallet_address address) none w.committed in
      lock_queue enc chained chain address none w
      ≡ (ok chained, record w { work = db; committed = db; registered = false })
unfolding lock_queue
lock_queue_lem enc chained chain address w =
    ground (arith, set-fresh chain LockEnum.queue (enc.wallet_address address) none w)

pub lock_send_lem :
    (enc : Encoding) {A : Type 0} (chained : A) (chain address : Text) (w : Worker)
    → let db = after_set chain LockEnum.send (enc.wallet_address address) none w.committed in
      lock_send enc chained chain address none w
      ≡ (ok chained, record w { work = db; committed = db; registered = false })
unfolding lock_send
lock_send_lem enc chained chain address w =
    ground (arith, set-fresh chain LockEnum.send (enc.wallet_address address) none w)
