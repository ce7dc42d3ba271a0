-- ===== src/Nonce/Effect.antt =====
-- What one call of `Nonce.next` does to the tables, in the words of the table alone.
use cic_stack_v.Prelude.{
  ℕ, ◌+◌, ◌≡◌, ◌≢◌, refl, true, false, Option, none, some, List, arith, Option-cases, inl, inr,
}
use cic_stack_v.Store.Rows.{Text, NonceRow, Reservation}
use cic_stack_v.Store.Table.{
  change, insert, first_sound, first-insert_new, first-insert_miss, first-change_self,
  first-change_apart,
}
use cic_stack_v.Store.Session.{given}
use cic_stack_v.Store.{Db, Worker, ok}
use cic_stack_v.Nonce.{holds, row, bump, next}

-- The nonce that the next call for an address returns.
unfoldable pub upcoming : Text → ℕ → Db → ℕ
upcoming address initial db = elim (row address db) [ none ↦ initial | some r ↦ r.nonce ]

issued : Option NonceRow → Text → ℕ → List NonceRow → List NonceRow
issued none address initial rows =
    change (holds address) bump (insert (record { address_hex = address; nonce = initial }) rows)
issued (some r) address initial rows = change (holds address) bump rows

-- The database after that call.
unfoldable pub after_next : Text → ℕ → Db → Db
unfolding issued
after_next address initial db = record db {
  nonces = issued (row address db) address initial db.nonces;
}

start_row : Text → ℕ → NonceRow
start_row address initial = record { address_hex = address; nonce = initial }

-- In a session of the caller's, one call returns the upcoming nonce and changes the nonce table only.
pub next-given :
    (address : Text) (initial : ℕ) (w : Worker)
    → w.registered ≡ false
    → next address initial given w ≡ (
      ok (upcoming address initial w.work),
      record w { work = after_next address initial w.work },
    )
unfolding next after_next start_row upcoming
next-given address initial w h = elim (Option-cases (row address w.work)) [
  | inl e ↦
      ground (arith, first-insert_new (holds address) (start_row address initial) w.work.nonces)
  | inr (r, e) ↦ ground arith
]

-- The address that asked has the returned nonce plus one stored.
pub upcoming-after_next :
    (address : Text) (initial other : ℕ) (db : Db)
    → upcoming address other (after_next address initial db) ≡ upcoming address initial db + 1
unfolding after_next start_row upcoming
upcoming-after_next address initial other db = elim (Option-cases (row address db)) [
  | inl e ↦ ground (
    arith,
    first-insert_new (holds address) (start_row address initial) db.nonces,
    first-change_self (holds address) bump (insert (start_row address initial) db.nonces)
        (start_row address initial),
  )
  | inr (r, e) ↦ ground (
    arith,
    first_sound (holds address) db.nonces r e,
    first-change_self (holds address) bump db.nonces r e,
  )
]

pub upcoming-after_next_ne :
    (address other : Text) (initial start : ℕ) (db : Db)
    → address ≢ other
    → upcoming other start (after_next address initial db) ≡ upcoming other start db
unfolding after_next start_row upcoming
upcoming-after_next_ne address other initial start db ne =
    let apart : (x : NonceRow) → holds address x ≡ true → holds other x ≡ false =
      λ x h. ground arith in
    elim (Option-cases (row address db)) [
      | inl e ↦ ground (
        arith,
        first-insert_miss (holds other) (start_row address initial) db.nonces,
        first-change_apart (holds address) (holds other) apart bump (λ x. refl)
            (insert (start_row address initial) db.nonces),
      )
      | inr (r, e) ↦
          ground (
            arith,
            first-change_apart (holds address) (holds other) apart bump (λ x. refl) db.nonces,
          )
    ]

-- The reservations play no part in it.
pub upcoming-reservations :
    (address : Text) (initial : ℕ) (db : Db) (rs : List Reservation)
    → upcoming address initial (record db { reservations = rs }) ≡ upcoming address initial db
unfolding upcoming
upcoming-reservations address initial db rs = refl
