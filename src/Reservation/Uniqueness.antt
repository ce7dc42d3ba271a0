-- ===== src/Reservation/Uniqueness.antt =====
-- Tasks reserve nonces and take them up again in any order: no nonce of an address is taken twice.
use cic_stack_v.Prelude.{
  ℕ, ◌+◌, ◌≤◌, ◌≡◌, Bool, false, some, List, [], ◌∷◌, arith, ◌==◌, ◌&&◌, if◌then◌else◌,
  Option-cases, inl, inr,
}
use cic_stack_v.Store.Rows.{Text, Reservation}
use cic_stack_v.Store.Table.{count, count-insert, count-delete, first_sound}
use cic_stack_v.Store.Session.{given}
use cic_stack_v.Store.{Db, Worker, Result, ok, err}
use cic_stack_v.Nonce.Effect.{
  upcoming, after_next, upcoming-after_next, upcoming-after_next_ne, upcoming-reservations,
}
use cic_stack_v.Reservation.{reserved_for, row, next, release}
use cic_stack_v.Reservation.Effect.{
  after_reserve, after_release, next-free, next-held, release-free, release-held,
}

pub data Request : Type 0 where
  -- `NonceReservation.next`, by `reserve_nonce`
  reserve : Text → Text → Request
  -- `NonceReservation.release`, by the nonce oracle that builds a transaction
  take_up : Text → Text → Request

-- A nonce that a transaction was built with, behind its address.
abbrev pub Taken : Type 0
Taken = Text × ℕ

abbrev pub taken_by : Text → Result (Text × ℕ) → List Taken → List Taken
taken_by address (ok (key, n)) taken = (address, n) ∷ taken
taken_by address (err e) taken = taken

-- One task; one that fails leaves what it found.
pub serve : Request → Worker × List Taken → Worker × List Taken
serve (reserve address key) (w, taken) = ((next address key given w).1, taken)
serve (take_up address key) (w, taken) =
    let (r, w') = release address key given w in (w', taken_by address r taken)

pub history : List Request → Worker × List Taken → Worker × List Taken
history [] s = s
history (q ∷ qs) s = history qs (serve q s)

abbrev pub is_nonce : Text → ℕ → Taken → Bool
is_nonce a n t = (t.0 == a) && (t.1 == n)

abbrev pub holds_nonce : Text → ℕ → Reservation → Bool
holds_nonce a n r = (r.address_hex == a) && (r.nonce == n)

-- How often nonce `n` of address `a` is reserved or taken.
pub uses : Text → ℕ → Db → List Taken → ℕ
uses a n db taken = count (holds_nonce a n) db.reservations + count (is_nonce a n) taken

-- Each nonce is used once at most, and none from the upcoming one on.
pub record Inv (w : Worker) (taken : List Taken) : Type 0 where
  pub foreign : w.registered ≡ false
  pub single : (a n : ℕ) → uses a n w.work taken ≤ 1
  pub unused : (a n : ℕ) → upcoming a 0 w.work ≤ n → uses a n w.work taken ≡ 0

uses-reserve :
    (a n address key : ℕ) (db : Db) (taken : List Taken)
    → uses a n (after_reserve address key db) taken
      ≡ uses a n db taken + (if (address == a) && (upcoming address 0 db == n) then 1 else 0)
unfolding uses after_reserve
uses-reserve a n address key db taken = ground (
  arith,
  count-insert (holds_nonce a n)
      (record { address_hex = address; nonce = upcoming address 0 db; key = key }) db.reservations,
)

upcoming-reserve :
    (a address key : ℕ) (db : Db)
    → upcoming a 0 (after_reserve address key db)
      ≡ upcoming a 0 db + (if address == a then 1 else 0)
unfolding after_reserve
upcoming-reserve a address key db = ground (
  arith,
  upcoming-reservations a 0 (after_next address 0 db) (after_reserve address key db).reservations,
  upcoming-after_next address 0 0 db,
  upcoming-after_next_ne address a 0 0 db,
)

upcoming-release :
    (a address key : ℕ) (db : Db) → upcoming a 0 (after_release address key db) ≡ upcoming a 0 db
unfolding after_release
upcoming-release a address key db =
    upcoming-reservations a 0 db (after_release address key db).reservations

uses-release :
    (a n address key : ℕ) (db : Db) (taken : List Taken) (r : Reservation)
    → row address key db ≡ some r
    → uses a n (after_release address key db) ((address, r.nonce) ∷ taken) ≡ uses a n db taken
unfolding uses after_release count
uses-release a n address key db taken r e = ground (
  arith,
  first_sound (reserved_for address key) db.reservations r e,
  count-delete (holds_nonce a n) (reserved_for address key) db.reservations r e,
)

-- A history starts from a database where nothing is reserved.
pub start-Inv : (w : Worker) → w.registered ≡ false → w.work.reservations ≡ [] → Inv w []
unfolding uses count
start-Inv w h e = record {
  foreign = h;
  single = λ a n. ground arith;
  unused = λ a n p. ground arith;
}

reserve-Inv :
    (address key : Text) (w : Worker) (taken : List Taken)
    → Inv w taken
    → Inv (next address key given w).1 taken
reserve-Inv address key w taken v = elim (Option-cases (row address key w.work)) [
  | inl e ↦ rw (next-free address key w v.foreign e) (record {
    foreign = v.foreign;
    single = λ a n.
        ground (arith, uses-reserve a n address key w.work taken, v.single a n, v.unused a n);
    unused = λ a n p. ground (
      arith,
      uses-reserve a n address key w.work taken,
      upcoming-reserve a address key w.work,
      v.unused a n,
    );
  })
  | inr (r, e) ↦ rw (next-held address key w r v.foreign e) v
]

take_up-Inv :
    (address key : Text) (w : Worker) (taken : List Taken)
    → Inv w taken
    → let (r, w') = release address key given w in Inv w' (taken_by address r taken)
take_up-Inv address key w taken v = elim (Option-cases (row address key w.work)) [
  | inl e ↦ rw (release-free address key w v.foreign e) v
  | inr (r, e) ↦ rw (release-held address key w r v.foreign e) (record {
    foreign = v.foreign;
    single = λ a n. ground (arith, uses-release a n address key w.work taken r e, v.single a n);
    unused = λ a n p. ground (
      arith,
      uses-release a n address key w.work taken r e,
      v.unused a n,
      upcoming-release a address key w.work,
    );
  })
]

serve-Inv :
    (q : Request) (w : Worker) (taken : List Taken)
    → Inv w taken
    → Inv (serve q (w, taken)).0 (serve q (w, taken)).1
unfolding serve
serve-Inv (reserve address key) w taken v = reserve-Inv address key w taken v
serve-Inv (take_up address key) w taken v = take_up-Inv address key w taken v

-- Where each nonce is reserved or taken once at most, and none from the upcoming one of its address on,
-- it is so after any sequence of reservations and take-ups, and the session is still the caller's.
pub history-Inv :
    (qs : List Request) (w : Worker) (taken : List Taken)
    → Inv w taken
    → Inv (history qs (w, taken)).0 (history qs (w, taken)).1
unfolding history
history-Inv [] w taken v = v
history-Inv (q ∷ qs) w taken v =
    let (w', taken') = serve q (w, taken) in history-Inv qs w' taken' (serve-Inv q w taken v)

-- From a database where nothing is reserved, whatever tasks reserve nonces and take them up, in any
-- order and for any keys and addresses, no nonce of an address is taken twice, and one that is taken
-- is not reserved any more.
pub history_unique :
    (qs : List Request) (w : Worker) (a n : ℕ)
    → w.registered ≡ false
    → w.work.reservations ≡ []
    → let (w', taken) = history qs (w, []) in
      count (is_nonce a n) taken + count (holds_nonce a n) w'.work.reservations ≤ 1
unfolding uses
history_unique qs w a n h e =
    let v = history-Inv qs w [] (start-Inv w h e) in omega (arith, v.single a n)
