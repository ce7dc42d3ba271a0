-- ===== src/Lock/Effect.antt =====
-- What each method of `Lock` returns and does to the tables.
use cic_stack_v.Prelude.{
  ℕ, ◌≤◌, ◌≡◌, refl, true, false, Option, none, some, List, arith, Option-cases, inl, inr, bit_or,
  ◌≢◌, ◌⊎◌,
}
use cic_stack_v.Store.Rows.{Text, LockRow}
use cic_stack_v.Store.Table.{
  first, count, change, insert, first_sound, first-insert_new, first-change_self, first-insert_miss,
  first-change_apart, count-insert, count-change, count-eq-zero,
}
use cic_stack_v.Store.Session.{given, fresh}
use cic_stack_v.Store.{Db, Worker, ok}
use cic_stack_v.Lock.{locks, row, add_flags, find_otx, set}

-- The flags in force for an address on a chain: none without an entry.
unfoldable pub flags_at : Text → Text → Db → ℕ
flags_at chain address db = elim (row chain address db) [ none ↦ 0 | some r ↦ r.flags ]

-- One entry at most for each address on each chain.
abbrev pub IsKeyed : List LockRow → Type 0
IsKeyed ls = (chain address : Text) → count (locks chain address) ls ≤ 1

new_row : Text → ℕ → Text → Option Text → Db → LockRow
new_row chain flags address tx_hash db = record {
  blockchain = chain;
  address = address;
  flags = bit_or 0 flags;
  otx_id = find_otx tx_hash db;
}

written : Option LockRow → Text → ℕ → Text → Option Text → Db → Db
written none chain flags address tx_hash db = record db {
  locks = insert (new_row chain flags address tx_hash db) db.locks;
}
written (some r) chain flags address tx_hash db = record db {
  locks = change (locks chain address) (add_flags flags) db.locks;
}

pub after_set : Text → ℕ → Text → Option Text → Db → Db
unfolding written new_row
after_set chain flags address tx_hash db =
    written (row chain address db) chain flags address tx_hash db

pub after_set-otxs :
    (chain : Text) (flags : ℕ) (address : Text) (tx_hash : Option Text) (db : Db)
    → (after_set chain flags address tx_hash db).otxs ≡ db.otxs
unfolding after_set
after_set-otxs chain flags address tx_hash db = ground arith

pub after_set-tx_cache :
    (chain : Text) (flags : ℕ) (address : Text) (tx_hash : Option Text) (db : Db)
    → (after_set chain flags address tx_hash db).tx_cache ≡ db.tx_cache
unfolding after_set
after_set-tx_cache chain flags address tx_hash db = ground arith

-- Setting flags commits them together with all else that the session has pending.
pub set-given :
    (chain : Text) (flags : ℕ) (address : Text) (tx_hash : Option Text) (w : Worker)
    → w.registered ≡ false
    → let db = after_set chain flags address tx_hash w.work in
      set chain flags address given tx_hash w
      ≡ (ok (bit_or (flags_at chain address w.work) flags), record w { work = db; committed = db })
unfolding set after_set flags_at
set-given chain flags address tx_hash w h = elim (Option-cases (row chain address w.work)) [
  | inl e ↦ ground arith
  | inr (r, e) ↦ ground arith
]

-- Without a session of the caller's, one is made, committed and taken from the registry.
pub set-fresh :
    (chain : Text) (flags : ℕ) (address : Text) (tx_hash : Option Text) (w : Worker)
    → let db = after_set chain flags address tx_hash w.committed in
      set chain flags address fresh tx_hash w ≡ (
        ok (bit_or (flags_at chain address w.committed) flags),
        record w { work = db; committed = db; registered = false },
      )
unfolding set after_set flags_at
set-fresh chain flags address tx_hash w = elim (Option-cases (row chain address w.committed)) [
  | inl e ↦ ground arith
  | inr (r, e) ↦ ground arith
]

pub flags_at-set_self :
    (chain : Text) (flags : ℕ) (address : Text) (tx_hash : Option Text) (db : Db)
    → flags_at chain address (after_set chain flags address tx_hash db)
      ≡ bit_or (flags_at chain address db) flags
unfolding after_set flags_at first
flags_at-set_self chain flags address tx_hash db = elim (Option-cases (row chain address db)) [
  | inl e ↦ ground (
    arith,
    first-insert_new (locks chain address) (new_row chain flags address tx_hash db) db.locks e,
  )
  | inr (r, e) ↦ ground (
    arith,
    first_sound (locks chain address) db.locks r e,
    first-change_self (locks chain address) (add_flags flags) db.locks r e,
  )
]

-- Two keys that differ in the chain or in the address.
abbrev pub Apart : Text → Text → Text → Text → Type 0
Apart chain address c a = (chain ≢ c) ⊎ (address ≢ a)

pub locks-Apart :
    (chain address c a : Text) (r : LockRow)
    → Apart chain address c a
    → locks chain address r ≡ true
    → locks c a r ≡ false
locks-Apart chain address c a r (inl ne) h = ground arith
locks-Apart chain address c a r (inr ne) h = ground arith

pub flags_at-set-Apart :
    (chain : Text) (flags : ℕ) (address : Text) (tx_hash : Option Text) (db : Db) (c a : Text)
    → Apart chain address c a
    → flags_at c a (after_set chain flags address tx_hash db) ≡ flags_at c a db
unfolding after_set flags_at
flags_at-set-Apart chain flags address tx_hash db c a ne =
    elim (Option-cases (row chain address db)) [
      | inl e ↦ ground (
        arith,
        locks-Apart chain address c a (new_row chain flags address tx_hash db) ne,
        first-insert_miss (locks c a) (new_row chain flags address tx_hash db) db.locks,
      )
      | inr (r, e) ↦ ground (
        arith,
        first-change_apart (locks chain address) (locks c a)
            (λ x. locks-Apart chain address c a x ne) (add_flags flags) (λ x. refl) db.locks,
      )
    ]

pub after_set-IsKeyed :
    (chain : Text) (flags : ℕ) (address : Text) (tx_hash : Option Text) (db : Db)
    → IsKeyed db.locks
    → IsKeyed (after_set chain flags address tx_hash db).locks
unfolding after_set
after_set-IsKeyed chain flags address tx_hash db keyed c a =
    elim (Option-cases (row chain address db)) [
      | inl e ↦ ground (
        arith,
        keyed c a,
        count-insert (locks c a) (new_row chain flags address tx_hash db) db.locks,
        count-eq-zero (locks chain address) db.locks e,
      )
      | inr (r, e) ↦ ground (
        arith,
        keyed c a,
        count-change (locks c a) (locks chain address) (add_flags flags) (λ x. refl) db.locks,
      )
    ]
