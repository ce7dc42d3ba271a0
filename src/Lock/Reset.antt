-- ===== src/Lock/Reset.antt =====
-- What `Lock.reset` returns and does to the table, where each key has one entry at most.
use cic_stack_v.Prelude.{
  ℕ, ◌≡◌, refl, false, Option, none, some, arith, Option-cases, inl, inr, if◌then◌else◌, ◌==◌,
}
use cic_stack_v.Bits.{clear}
use cic_stack_v.Bits.Laws.{zero-clear}
use cic_stack_v.Store.Rows.{Text, LockRow}
use cic_stack_v.Store.Table.{
  change, delete, first_sound, first-change_self, first-change_apart, first-delete_self,
  first-delete_apart, count-delete, count-change,
}
use cic_stack_v.Store.Session.{given, fresh}
use cic_stack_v.Store.{Db, Worker, ok}
use cic_stack_v.Lock.{locks, row, clear_flags, reset}
use cic_stack_v.Lock.Effect.{flags_at, IsKeyed, Apart, locks-Apart}

abbrev cleared : Option LockRow → Text → ℕ → Text → Db → Db
cleared none chain flags address db = db
cleared (some r) chain flags address db = record db {
  locks =
      if clear r.flags flags == 0
      then delete (locks chain address) db.locks
      else change (locks chain address) (clear_flags flags) db.locks;
}

pub after_reset : Text → ℕ → Text → Db → Db
after_reset chain flags address db = cleared (row chain address db) chain flags address db

-- Without an entry nothing happens, and nothing is committed.
pub reset-given_missing :
    (chain : Text) (flags : ℕ) (address : Text) (w : Worker)
    → w.registered ≡ false
    → row chain address w.work ≡ none
    → reset chain flags address given w ≡ (ok 0, w)
unfolding reset
reset-given_missing chain flags address w h e = ground arith

pub after_reset-missing :
    (chain : Text) (flags : ℕ) (address : Text) (db : Db)
    → row chain address db ≡ none
    → (c a : Text) → flags_at c a db ≡ flags_at c a (after_reset chain flags address db)
unfolding after_reset
after_reset-missing chain flags address db e c a = rw e

pub reset-given :
    (chain : Text) (flags : ℕ) (address : Text) (w : Worker) (r : LockRow)
    → w.registered ≡ false
    → row chain address w.work ≡ some r
    → let db = after_reset chain flags address w.work in
      reset chain flags address given w
      ≡ (ok (clear (flags_at chain address w.work) flags), record w { work = db; committed = db })
unfolding reset after_reset flags_at
reset-given chain flags address w r h e = ground arith

-- Without a session of the caller's, one is made, committed and taken from the registry.
pub reset-fresh :
    (chain : Text) (flags : ℕ) (address : Text) (w : Worker)
    → let db = after_reset chain flags address w.committed in
      reset chain flags address fresh w ≡ (
        ok (clear (flags_at chain address w.committed) flags),
        record w { work = db; committed = db; registered = false },
      )
unfolding reset after_reset flags_at
reset-fresh chain flags address w = elim (Option-cases (row chain address w.committed)) [
  | inl e ↦ ground (arith, zero-clear flags)
  | inr (r, e) ↦ ground arith
]

pub flags_at-reset_self :
    (chain : Text) (flags : ℕ) (address : Text) (db : Db)
    → IsKeyed db.locks
    → flags_at chain address (after_reset chain flags address db)
      ≡ clear (flags_at chain address db) flags
unfolding after_reset flags_at
flags_at-reset_self chain flags address db keyed = elim (Option-cases (row chain address db)) [
  | inl e ↦ ground (arith, zero-clear flags)
  | inr (r, e) ↦ ground (
    arith,
    first_sound (locks chain address) db.locks r e,
    first-change_self (locks chain address) (clear_flags flags) db.locks r e,
    first-delete_self (locks chain address) db.locks r (keyed chain address) e,
  )
]

pub flags_at-reset-Apart :
    (chain : Text) (flags : ℕ) (address : Text) (db : Db) (c a : Text)
    → Apart chain address c a
    → flags_at c a (after_reset chain flags address db) ≡ flags_at c a db
unfolding after_reset flags_at
flags_at-reset-Apart chain flags address db c a ne =
    let apart = λ (x : LockRow). locks-Apart chain address c a x ne in
    elim (Option-cases (row chain address db)) [
      | inl e ↦ ground arith
      | inr (r, e) ↦ ground (
        arith,
        first-change_apart (locks chain address) (locks c a) apart (clear_flags flags) (λ x. refl)
            db.locks,
        first-delete_apart (locks chain address) (locks c a) apart db.locks,
      )
    ]

pub after_reset-IsKeyed :
    (chain : Text) (flags : ℕ) (address : Text) (db : Db)
    → IsKeyed db.locks
    → IsKeyed (after_reset chain flags address db).locks
unfolding after_reset
after_reset-IsKeyed chain flags address db keyed c a = elim (Option-cases (row chain address db)) [
  | inl e ↦ ground (arith, keyed c a)
  | inr (r, e) ↦ ground (
    arith,
    keyed c a,
    count-delete (locks c a) (locks chain address) db.locks r e,
    count-change (locks c a) (locks chain address) (clear_flags flags) (λ x. refl) db.locks,
  )
]
