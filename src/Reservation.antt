-- ===== src/Reservation.antt =====
-- `class NonceReservation` of cic_eth/db/models/nonce.py: a nonce set aside for the task whose root
-- id is the key, until the transaction of that task is built.
pub mod Effect
pub mod RoundTrip
pub mod Uniqueness
use cic_stack_v.Prelude.{ℕ, Bool, Option, none, some, ◌==◌, ◌&&◌}
use cic_stack_v.Store.Rows.{Text, Reservation}
use cic_stack_v.Store.Table.{first, delete, insert}
use cic_stack_v.Store.Session.{Session, given, bind_session, release_session}
use cic_stack_v.Store.{
  Db, Action, ⊤, integrity, type_error, ◌>>=◌, ◌>>◌, pure, raise, query, update,
}
use cic_stack_v.Nonce

-- The filter on `key` and `address_hex`.
abbrev pub reserved_for : Text → Text → Reservation → Bool
reserved_for address key r = (r.key == key) && (r.address_hex == address)

abbrev pub row : Text → Text → Db → Option Reservation
row address key db = first (reserved_for address key) db.reservations

abbrev pair_of : Option Reservation → Option (Text × ℕ)
pair_of none = none
pair_of (some r) = some (r.key, r.nonce)

pub peek : Text → Text → Session → Action (Option (Text × ℕ))
peek address key session = do
  bind_session session
  o ← query (row address key)
  release_session
  pure (pair_of o)

-- The second half of `release`: the row is read again and deleted.
take_row : Text → Text → Option Reservation → Action (Text × ℕ)
take_row address key none = raise type_error
take_row address key (some r) = do
  update λ db. record db { reservations = delete (reserved_for address key) db.reservations }
  release_session
  pure (r.key, r.nonce)

release_held : Text → Text → Option (Text × ℕ) → Action (Text × ℕ)
unfolding take_row
release_held address key none = do release_session; raise integrity
release_held address key (some _) = do o ← query (row address key); take_row address key o

pub release : Text → Text → Session → Action (Text × ℕ)
unfolding peek release_held
release address key session = do
  bind_session session
  o ← peek address key given
  release_held address key o

add_row : Text → Text → ℕ → Action ⊤
add_row address key nonce = update λ db. record db {
  reservations =
      insert (record { address_hex = address; nonce = nonce; key = key }) db.reservations;
}

next_free : Text → Text → Option (Text × ℕ) → Action (Text × ℕ)
unfolding add_row
next_free address key (some _) = raise integrity
next_free address key none = do
  nonce ← Nonce.next address 0 given
  add_row address key nonce
  release_session
  pure (key, nonce)

pub next : Text → Text → Session → Action (Text × ℕ)
unfolding peek next_free
next address key session = do
  bind_session session
  o ← peek address key given
  next_free address key o
