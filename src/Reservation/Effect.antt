-- ===== src/Reservation/Effect.antt =====
-- What `next` and `release` do to the tables, on each branch.
use cic_stack_v.Prelude.{◌≡◌, refl, false, none, some, arith}
use cic_stack_v.Store.Rows.{Text, Reservation}
use cic_stack_v.Store.Table.{delete, insert, first_sound}
use cic_stack_v.Store.Session.{given, fresh}
use cic_stack_v.Store.{Db, Worker, ok, err, integrity}
use cic_stack_v.Nonce.Effect.{upcoming, after_next, next-given}
use cic_stack_v.Reservation.{reserved_for, row, next, release}

unfoldable pub after_reserve : Text → Text → Db → Db
after_reserve address key db =
    let db' = after_next address 0 db in
    record db' {
      reservations =
          insert (record { address_hex = address; nonce = upcoming address 0 db; key = key })
            db.reservations;
    }

unfoldable pub after_release : Text → Text → Db → Db
after_release address key db = record db {
  reservations = delete (reserved_for address key) db.reservations;
}

-- For a key that holds nothing for the address, the upcoming nonce is reserved and returned.
pub next-free :
    (address key : Text) (w : Worker)
    → w.registered ≡ false
    → row address key w.work ≡ none
    → next address key given w
      ≡ (ok (key, upcoming address 0 w.work), record w { work = after_reserve address key w.work })
unfolding next after_reserve after_next
next-free address key w h e = ground (arith, next-given address 0 w h)

-- A key that already holds a nonce for the address is refused, and nothing changes.
pub next-held :
    (address key : Text) (w : Worker) (r : Reservation)
    → w.registered ≡ false
    → row address key w.work ≡ some r
    → next address key given w ≡ (err integrity, w)
unfolding next
next-held address key w r h e = ground arith

pub release-held :
    (address key : Text) (w : Worker) (r : Reservation)
    → w.registered ≡ false
    → row address key w.work ≡ some r
    → release address key given w
      ≡ (ok (key, r.nonce), record w { work = after_release address key w.work })
unfolding release after_release
release-held address key w r h e =
    ground (arith, first_sound (reserved_for address key) w.work.reservations r e)

pub release-free :
    (address key : Text) (w : Worker)
    → w.registered ≡ false
    → row address key w.work ≡ none
    → release address key given w ≡ (err integrity, w)
unfolding release
release-free address key w h e = ground arith

-- With no session given, `next` returns the upcoming nonce, but the reservation stays in a session
-- that is no longer registered: nothing of it is committed.
pub next-fresh :
    (address key : Text) (w : Worker)
    → row address key w.committed ≡ none
    → next address key fresh w ≡ (
      ok (key, upcoming address 0 w.committed),
      record w { work = after_reserve address key w.committed; registered = false },
    )
unfolding next after_reserve after_next
next-fresh address key w e =
    ground (arith, next-given address 0 (record w { work = w.committed; registered = false }) refl)
