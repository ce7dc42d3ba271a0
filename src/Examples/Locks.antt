-- ===== src/Examples/Locks.antt =====
-- Runs with locks and roles.
use cic_stack_v.Prelude.{◌≡◌, refl, false, none, some, List, [], ◌∷◌, ltb, if◌then◌else◌}
use cic_stack_v.Store.Rows.{Text}
use cic_stack_v.Store.Table.{first}
use cic_stack_v.Store.Session.{given}
use cic_stack_v.Store.{ok, err, locked}
use cic_stack_v.LockEnum
use cic_stack_v.Lock.Effect.{flags_at}
use cic_stack_v.Lock.Refinement.{Op, sets, resets, run, spec, Shows, Switches, run-Shows}
use cic_stack_v.Ctrl.{lock, check_lock}
use cic_stack_v.Ctrl.Check.{stopping, check_lock_lem}
use cic_stack_v.Ctrl.Effect.{check_lock-lock}
use cic_stack_v.QueueTx.{register_tx}
use cic_stack_v.QueueTx.Locked.{is_locked, register_tx-locked}
use cic_stack_v.Examples.{enc, queue, worker, locked_worker, empty-IsKeyed, one-IsKeyed}

abbrev ops : List Op
ops = sets 9 16 21 none ∷ sets 9 8 21 none ∷ resets 9 16 21 ∷ []

abbrev no_flags : Switches
no_flags c a = 0

empty-Shows : Shows no_flags worker
unfolding flags_at first
empty-Shows = record { foreign = refl; keyed = empty-IsKeyed; shows = λ c a. refl }

run-Shows_example : Shows (spec ops no_flags) (run ops worker)
run-Shows_example = run-Shows ops no_flags worker empty-Shows

check_lock_lem_example : check_lock enc {A = Text} 41 (some 9) 16 (some 21) locked_worker ≡ (
  if ltb 0 (stopping 9 16 (some 21) locked_worker.committed)
      then err (locked (stopping 9 16 (some 21) locked_worker.committed))
      else ok 41,
  record locked_worker { work = locked_worker.committed; registered = false },
)
check_lock_lem_example =
    check_lock_lem enc {A = Text} 41 (some 9) 16 (some 21) locked_worker one-IsKeyed

check_lock-lock_example :
    (check_lock enc {A = Text} 41
      (some 9)
      8
      (some 21)
      (lock enc {A = Text} 41 (some 9) 21 8 none worker).1).0
    ≡ err (locked 8)
check_lock-lock_example =
    check_lock-lock enc {A = Text} 41 (some 9) 21 8 worker empty-IsKeyed (λ e. cc) none

register_tx-locked_example :
    register_tx enc queue 31 41 9 none given locked_worker
    ≡ (err (locked LockEnum.queue), locked_worker)
unfolding is_locked flags_at first
register_tx-locked_example =
    register_tx-locked enc queue locked_worker refl one-IsKeyed 31 41 9 none refl
