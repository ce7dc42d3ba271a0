-- ===== src/Account/Registered.antt =====
-- Who registers an account, and with which nonce.
use cic_stack_v.Prelude.{◌*◌, ◌≡◌, ◌≢◌, refl, false, none, some, [], ◌∷◌, ◌++◌, arith}
use cic_stack_v.Store.Tasks.{call, cache_tx}
use cic_stack_v.Lock.Effect.{IsKeyed, flags_at}
use cic_stack_v.QueueTx.Locked.{is_locked}
use cic_stack_v.Gas.Check.{create_check_gas_task}
use cic_stack_v.Enqueue.Effect.{sender_of, Takes, tasks, enqueue-open}
use cic_stack_v.Store.Rows.{
  Text, Reservation as ReservationRow, zero_address, account_registry_writer, default_role,
  account_cache_task,
}
use cic_stack_v.Store.{Db, Worker, ok, err, role_missing, ◌>>◌, pure}
use cic_stack_v.External.{Encoding, Queue}
use cic_stack_v.Role.Lookup.{address_for, get_address-given}
use cic_stack_v.Reservation.{row}
use cic_stack_v.Reservation.Effect.{after_release}
use cic_stack_v.NonceTask.Transfer.{next_nonce-held}
use cic_stack_v.Account.{Contracts, register}
use cic_stack_v.Enqueue.{enqueue}

module _ (enc : Encoding) (queue : Queue) (contracts : Contracts) (account chain root : Text)
    (w : Worker) where
  opened : Worker
  opened = record w { work = w.committed; registered = false }

  abbrev pub writer : Text
  writer = address_for account_registry_writer w.committed

  -- Without a role for the writer nothing is registered.
  pub register-missing :
      writer ≡ zero_address
      → register enc queue contracts account chain none root w
        ≡ (err role_missing, record w { work = w.committed; registered = false })
  unfolding register opened
  register-missing missing =
      ground (arith, missing, get_address-given account_registry_writer opened refl)

  -- The worker once the nonce is taken up, and not yet committed.
  abbrev pub taken : Worker
  taken = record w {
    work = after_release (enc.wallet_address writer) root w.committed;
    registered = false;
  }

  register-enqueue :
      (r : ReservationRow) (registry tx_hash signed : Text)
      → writer ≢ zero_address
      → row (enc.wallet_address writer) root w.committed ≡ some r
      → contracts.account_registry (address_for default_role w.committed) ≡ ok registry
      → contracts.add registry writer account r.nonce ≡ ok (tx_hash, signed)
      → register enc queue contracts account chain none root w
        ≡ (do
          enqueue enc queue contracts.get_gas chain writer account_cache_task tx_hash signed
          pure account)
            taken
  unfolding register opened
  register-enqueue r registry tx_hash signed there held found built = ground (
    arith,
    there,
    get_address-given account_registry_writer opened refl,
    get_address-given default_role opened refl,
    next_nonce-held enc writer root opened r refl held,
    found,
    built,
  )

  -- With one, and a nonce reserved for it by the task, the transaction of the account registry is built
  -- with that nonce, which is taken up. Where queueing is not locked for its sender and the queue takes
  -- it, it is committed to the queue, the filling of the cache and the gas check are submitted, and the
  -- account is returned. The registry is looked up in the name of the default role whether or not that
  -- role is there.
  pub register-signs :
      (r : ReservationRow) (registry tx_hash signed : Text) (db : Db)
      → writer ≢ zero_address
      → row (enc.wallet_address writer) root w.committed ≡ some r
      → contracts.account_registry (address_for default_role w.committed) ≡ ok registry
      → contracts.add registry writer account r.nonce ≡ ok (tx_hash, signed)
      → IsKeyed w.committed.locks
      → is_locked chain (sender_of enc queue chain signed) w.committed ≡ false
      → Takes enc queue chain tx_hash signed taken db
      → register enc queue contracts account chain none root w ≡ (
        ok account,
        record w {
          work = db;
          committed = db;
          registered = false;
          submitted =
              w.submitted
              ++ call (cache_tx account_cache_task (enc.hash tx_hash) (enc.hash signed) chain)
                ∷ create_check_gas_task
                    (signed ∷ [])
                    chain
                    writer
                    (some ((contracts.get_gas signed).0 * (contracts.get_gas signed).1))
                    (some (tx_hash ∷ []))
                ∷ [];
        },
      )
  unfolding is_locked flags_at after_release tasks
  register-signs r registry tx_hash signed db there held found built keyed open_ created = ground (
    arith,
    register-enqueue r registry tx_hash signed there held found built,
    enqueue-open enc queue contracts.get_gas chain writer account_cache_task tx_hash signed taken
        refl keyed db open_ created,
  )
