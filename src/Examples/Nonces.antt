-- ===== src/Examples/Nonces.antt =====
-- Runs with nonces: serving addresses, reserving, taking up.
use cic_stack_v.Prelude.{ℕ, ◌+◌, ◌≤◌, ◌≡◌, refl, false, none, List, [], ◌∷◌}
use cic_stack_v.Store.Rows.{Text}
use cic_stack_v.Store.Table.{count, first}
use cic_stack_v.Store.Session.{given, fresh}
use cic_stack_v.Store.{Worker, ok, err, integrity}
use cic_stack_v.Nonce.Effect.{upcoming}
use cic_stack_v.Nonce.Sequence.{serve, serve_consecutive, nonces_for, range, requests_of}
use cic_stack_v.Reservation
use cic_stack_v.Reservation.Effect.{after_reserve, next-fresh}
use cic_stack_v.Reservation.Uniqueness.{
  Request, reserve, take_up, history, history_unique, Inv, start-Inv, history-Inv, is_nonce,
  holds_nonce,
}
use cic_stack_v.NonceTask.{reserve_nonce, next_nonce}
use cic_stack_v.NonceTask.Transfer.{next_nonce-reserve_nonce}
use cic_stack_v.Examples.{enc, db, worker}

abbrev mixed : List Text
mixed = 21 ∷ 22 ∷ 21 ∷ []

serve_consecutive_example :
    (served : List (Text × ℕ)) × (w' : Worker) × (serve mixed worker ≡ (ok served, w'))
    × (nonces_for 21 served ≡ range (upcoming 21 0 worker.work) (requests_of 21 mixed))
serve_consecutive_example = serve_consecutive mixed 21 worker refl

abbrev tasks : List Request
tasks = reserve 21 71 ∷ reserve 21 72 ∷ reserve 21 71 ∷ take_up 21 72 ∷ take_up 21 71 ∷ []

history_unique_example :
    let (w', taken) = history tasks (worker, []) in
    count (is_nonce 21 5) taken + count (holds_nonce 21 5) w'.work.reservations ≤ 1
history_unique_example = history_unique tasks worker 21 5 refl refl

history-Inv_example : Inv (history tasks (worker, [])).0 (history tasks (worker, [])).1
history-Inv_example = history-Inv tasks worker [] (start-Inv worker refl refl)

next_nonce-reserve_nonce_example :
    let w₁ = (reserve_nonce enc 21 none 71 worker).1 in
    let (n, w₂) = next_nonce enc 21 71 given w₁ in
    (n ≡ ok (upcoming 21 0 db)) × ((next_nonce enc 21 71 given w₂).0 ≡ err integrity)
unfolding first
next_nonce-reserve_nonce_example = next_nonce-reserve_nonce enc 21 none 71 worker refl refl

next-fresh_example : Reservation.next 21 71 fresh worker ≡ (
  ok (71, upcoming 21 0 db),
  record worker { work = after_reserve 21 71 db; registered = false },
)
unfolding first
next-fresh_example = next-fresh 21 71 worker refl
