-- ===== src/Lock/Check.antt =====
-- What `Lock.check` and `Lock.check_aggregate` see, where each key has one entry at most.
use cic_stack_v.Prelude.{
  ℕ, ◌≤◌, ◌≡◌, refl, false, none, some, List, [], ◌∷◌, arith, Option-cases, bit_and, bit_or,
  if◌then◌else◌, ◌==◌, ◌||◌,
}
use cic_stack_v.Bits.Laws.{zero-bit_and, zero-bit_or, bit_or_self, bit_or_comm}
use cic_stack_v.Store.Rows.{Text, LockRow, zero_address}
use cic_stack_v.Store.Table.{first, count}
use cic_stack_v.Store.Session.{given}
use cic_stack_v.Store.{Db, Worker, ok}
use cic_stack_v.Lock.{locks, row, check, check_aggregate, covers, matched}
use cic_stack_v.Lock.Effect.{flags_at, IsKeyed}

-- The flags asked for, if all of them are in force, and otherwise none.
unfoldable pub hit : Text → ℕ → Text → Db → ℕ
hit chain flags address db = if bit_and (flags_at chain address db) flags == flags then flags else 0

covers-none :
    (chain : Text) (flags : ℕ) (address : Text) (ls : List LockRow)
    → count (locks chain address) ls ≡ 0
    → first (covers chain flags address) ls ≡ none
unfolding first count
covers-none chain flags address [] h = refl
covers-none chain flags address (r ∷ ls) h = ground (arith, covers-none chain flags address ls)

first-covers :
    (chain : Text) (flags : ℕ) (address : Text) (ls : List LockRow)
    → count (locks chain address) ls ≤ 1
    → matched flags (first (covers chain flags address) ls)
      ≡ (elim (first (locks chain address) ls) [
        | none ↦ 0
        | some r ↦ if bit_and r.flags flags == flags then flags else 0
      ])
unfolding first count
first-covers chain flags address [] keyed = refl
first-covers chain flags address (r ∷ ls) keyed =
    ground (arith, covers-none chain flags address ls, first-covers chain flags address ls)

-- `check` returns the flags asked for if all of them are in force there, and 0 otherwise; it changes
-- nothing.
pub check-given :
    (chain : Text) (flags : ℕ) (address : Text) (w : Worker)
    → w.registered ≡ false
    → IsKeyed w.work.locks
    → check chain flags address given w ≡ (ok (hit chain flags address w.work), w)
unfolding check hit flags_at
check-given chain flags address w h keyed = ground (
  arith,
  first-covers chain flags address w.work.locks (keyed chain address),
  zero-bit_and flags,
  Option-cases (row chain address w.work),
)

-- The flags that hold for every account, and those of the account.
unfoldable pub hit_aggregate : Text → ℕ → Text → Db → ℕ
hit_aggregate chain flags address db =
    bit_or (hit chain flags zero_address db) (hit chain flags address db)

-- It is the flags asked for if one of the two has them all, and otherwise none.
pub hit_aggregate_lem :
    (chain : Text) (flags : ℕ) (address : Text) (db : Db)
    → hit_aggregate chain flags address db ≡ (
        if (bit_and (flags_at chain zero_address db) flags == flags)
          || (bit_and (flags_at chain address db) flags == flags)
        then flags
        else 0)
unfolding hit hit_aggregate
hit_aggregate_lem chain flags address db =
    ground (arith, bit_or_self flags, zero-bit_or flags, bit_or_comm flags 0, zero-bit_or 0)

pub check_aggregate-given :
    (chain : Text) (flags : ℕ) (address : Text) (w : Worker)
    → w.registered ≡ false
    → IsKeyed w.work.locks
    → check_aggregate chain flags address given w
      ≡ (ok (hit_aggregate chain flags address w.work), w)
unfolding check_aggregate hit_aggregate
check_aggregate-given chain flags address w h keyed = ground (
  arith,
  check-given chain flags zero_address w h keyed,
  check-given chain flags address w h keyed,
)
