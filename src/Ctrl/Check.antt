-- ===== src/Ctrl/Check.antt =====
-- When `check_lock` lets a task pass.
use mathlib.Core.Option
use mathlib.Core.Option.{Option}
use cic_stack_v.Prelude.{ℕ, ◌≡◌, refl, false, none, some, arith, ltb, if◌then◌else◌}
use cic_stack_v.Store.Rows.{Text, zero_address}
use cic_stack_v.Store.{Db, Worker, ok, err, locked}
use cic_stack_v.External.{Encoding}
use cic_stack_v.Lock.Effect.{IsKeyed}
use cic_stack_v.Lock.Check.{hit, hit_aggregate, check-given}
use cic_stack_v.Ctrl.{chain_str, check_lock}

-- The flags that stop a task: those of all accounts, and those of the account if one is named.
abbrev pub stopping : Text → ℕ → Option Text → Db → ℕ
stopping chain flags none db = hit chain flags zero_address db
stopping chain flags (some address) db = hit_aggregate chain flags address db

-- `check_lock` reads what is committed, and leaves the database alone. It raises `LockedError` with
-- the flags that are locked if the asked flags are locked for all accounts or for the account, and
-- returns its input otherwise.
pub check_lock_lem :
    (enc : Encoding) {A : Type 0} (chained : A) (chain : Option Text) (flags : ℕ)
    (address : Option Text) (w : Worker)
    → IsKeyed w.committed.locks
    → let r =
        stopping (chain_str chain) flags (Option.map enc.wallet_address address) w.committed in
      check_lock enc chained chain flags address w ≡ (
        if ltb 0 r then err (locked r) else ok chained,
        record w { work = w.committed; registered = false },
      )
unfolding check_lock hit_aggregate
check_lock_lem enc chained chain flags none w keyed =
    let w' : Worker = record w { work = w.committed; registered = false } in
    ground (arith, check-given (chain_str chain) flags zero_address w' refl keyed)
check_lock_lem enc chained chain flags (some address) w keyed =
    let w' : Worker = record w { work = w.committed; registered = false } in
    ground (
      arith,
      check-given (chain_str chain) flags zero_address w' refl keyed,
      check-given (chain_str chain) flags (enc.wallet_address address) w' refl keyed,
    )
