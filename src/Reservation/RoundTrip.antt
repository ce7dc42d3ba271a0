-- ===== src/Reservation/RoundTrip.antt =====
-- A task reserves a nonce and then takes it up.
use cic_stack_v.Prelude.{◌≡◌, refl, false, none, some, arith}
use cic_stack_v.Store.Rows.{Text, Reservation}
use cic_stack_v.Store.Table.{first-insert_new, delete-insert}
use cic_stack_v.Store.Session.{given}
use cic_stack_v.Store.{Db, Worker, ok, err, integrity}
use cic_stack_v.Nonce.Effect.{upcoming, after_next}
use cic_stack_v.Reservation.{reserved_for, row, next, release}
use cic_stack_v.Reservation.Effect.{
  after_reserve, after_release, next-free, release-held, release-free,
}

new_row : Text → Text → Db → Reservation
new_row address key db = record { address_hex = address; nonce = upcoming address 0 db; key = key }

pub row-reserve :
    (address key : Text) (db : Db)
    → row address key db ≡ none
    → row address key (after_reserve address key db)
      ≡ some (record { address_hex = address; nonce = upcoming address 0 db; key = key })
unfolding after_reserve after_next new_row
row-reserve address key db e =
    ground
      (arith, first-insert_new (reserved_for address key) (new_row address key db) db.reservations)

pub release-reserve :
    (address key : Text) (db : Db)
    → row address key db ≡ none
    → after_release address key (after_reserve address key db) ≡ after_next address 0 db
unfolding after_release after_reserve after_next new_row
release-reserve address key db e =
    ground
      (arith, delete-insert (reserved_for address key) (new_row address key db) db.reservations)

-- Taking up what has been reserved returns the nonce and leaves only the increment.
pub release-reserve_lem :
    (address key : Text) (db : Db) (w : Worker)
    → w.registered ≡ false
    → row address key db ≡ none
    → w.work ≡ after_reserve address key db
    → release address key given w
      ≡ (ok (key, upcoming address 0 db), record w { work = after_next address 0 db })
unfolding new_row
release-reserve_lem address key db w h e reserved = ground (
  arith,
  release-held address key w (new_row address key db) h,
  row-reserve address key db e,
  release-reserve address key db e,
)

-- A task that holds no nonce for the address reserves one and takes it up: it is given the upcoming
-- nonce both times, all that is left is the increment, and taking it up once more is refused.
pub release-next :
    (address key : Text) (w : Worker)
    → w.registered ≡ false
    → row address key w.work ≡ none
    → let (reserved, w₁) = next address key given w in
      let (taken, w₂) = release address key given w₁ in
      (reserved ≡ ok (key, upcoming address 0 w.work))
      × (taken ≡ reserved)
      × (w₂ ≡ record w { work = after_next address 0 w.work })
      × (release address key given w₂ ≡ (err integrity, w₂))
unfolding after_next
release-next address key w h e =
    let w₁ : Worker = record w { work = after_reserve address key w.work } in
    rw (next-free address key w h e, release-reserve_lem address key w.work w₁ h e refl)
      (
        refl,
        refl,
        refl,
        release-free address key (record w { work = after_next address 0 w.work }) h e,
      )
