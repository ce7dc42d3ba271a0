-- ===== src/Examples/Accounts.antt =====
-- Runs of the account tasks.
use cic_stack_v.Prelude.{arith, ◌≡◌, refl, none, some, [], ◌∷◌}
use cic_stack_v.Store.Rows.{account_registry_writer, account_cache_task}
use cic_stack_v.Store.Table.{first}
use cic_stack_v.Store.{Db, ok}
use cic_stack_v.Role.Lookup.{address_for}
use cic_stack_v.Reservation.Effect.{after_release}
use cic_stack_v.Account.{register}
use cic_stack_v.Store.Tasks.{call, cache_tx}
use cic_stack_v.Gas.Check.{create_check_gas_task}
use cic_stack_v.Lock.Effect.{flags_at}
use cic_stack_v.QueueTx.Locked.{is_locked}
use cic_stack_v.Account.Registered.{register-signs}
use cic_stack_v.Examples.{enc, queue, contracts, db, worker_on, empty-IsKeyed}

-- Account 21 writes to the registry, and its nonce 5 is reserved for the task 71.
abbrev writer_db : Db
writer_db = record db {
  roles = record { tag = account_registry_writer; address_hex = 21 } ∷ [];
  reservations = record { key = 71; address_hex = 21; nonce = 5 } ∷ [];
}

register-signs_example : register enc queue contracts 30 9 none 71 (worker_on writer_db) ≡ (
  ok 30,
  record (worker_on writer_db) {
    work = after_release 21 71 writer_db;
    committed = after_release 21 71 writer_db;
    submitted =
        call (cache_tx account_cache_task 5 41 9)
        ∷ create_check_gas_task (41 ∷ []) 9 21 (some 105000) (some (5 ∷ []))
        ∷ [];
  },
)
unfolding first address_for is_locked flags_at
register-signs_example =
    register-signs enc queue contracts 30 9 71 (worker_on writer_db)
      (record { key = 71; address_hex = 21; nonce = 5 }) 61 5 41 (after_release 21 71 writer_db)
      (λ e. omega (arith, e)) refl refl refl empty-IsKeyed refl (writer_db, refl)
