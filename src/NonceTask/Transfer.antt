-- ===== src/NonceTask/Transfer.antt =====
-- The nonce that `reserve_nonce` sets aside reaches the transaction of its task.
use cic_stack_v.Prelude.{
  ◌≡◌, refl, Bool, true, false, Option, none, some, arith, Option-cases, inl, inr, if◌then◌else◌,
}
use cic_stack_v.Store.Rows.{Text, Reservation}
use cic_stack_v.Store.Session.{given}
use cic_stack_v.Store.{Db, Worker, Result, ok, err, value_error, integrity}
use cic_stack_v.External.{Encoding}
use cic_stack_v.Nonce.Effect.{upcoming, after_next}
use cic_stack_v.Reservation.{row}
use cic_stack_v.Reservation.Effect.{
  after_reserve, after_release, next-free, next-held, release-free, release-held,
}
use cic_stack_v.Reservation.RoundTrip.{release-reserve_lem}
use cic_stack_v.Role.Lookup.{address_for, get_address-given}
use cic_stack_v.NonceTask.{next_nonce, signer_for, reserve_nonce}

-- The address that `reserve_nonce` works for.
abbrev pub signer : Encoding → Text → Option Text → Db → Text
signer enc chained none db = chained
signer enc chained (some s) db = if enc.is_address s then s else address_for s db

module _ (enc : Encoding) (chained : Text) (s : Option Text) (root : Text) (w : Worker) where
  abbrev pub account : Text
  account = enc.wallet_address (signer enc chained s w.committed)

  opened : Worker
  opened = record w { work = w.committed; registered = false }

  signer_lem : signer_for enc chained s opened ≡ (ok (signer enc chained s w.committed), opened)
  unfolding signer_for opened
  signer_lem =
      elim s
        as (λ t.
          signer_for enc chained t opened ≡ (ok (signer enc chained t w.committed), opened)) [
            | none ↦ refl
            | some t ↦ ground (arith, get_address-given t opened refl)
          ]

  -- The result, and what is committed with it, by whether the signer resolves to an address and by what
  -- the task holds for it.
  abbrev pub attempt : Bool → Option Reservation → Result Text × Db
  attempt false held = (err value_error, w.committed)
  attempt true (some r) = (err integrity, w.committed)
  attempt true none = (ok chained, after_reserve account root w.committed)

  -- `reserve_nonce` fails and commits nothing if the signer resolves to no address or the task already
  -- holds a nonce for it. Otherwise it commits the reservation of the upcoming nonce and the
  -- increment together, and returns its input.
  pub reserve_nonce-attempt :
      let (r, w') = reserve_nonce enc chained s root w in
      ((r, w'.committed)
        ≡ attempt
            (enc.is_address (signer enc chained s w.committed))
            (row account root w.committed))
      × (w'.submitted ≡ w.submitted)
  unfolding reserve_nonce opened
  reserve_nonce-attempt = elim (Option-cases (row account root w.committed)) [
    | inl e ↦ ground (arith, signer_lem, next-free account root opened refl e)
    | inr (r, e) ↦ ground (arith, signer_lem, next-held account root opened r refl e)
  ]

  -- The whole effect where nothing is held.
  pub reserve_nonce-free :
      enc.is_address (signer enc chained s w.committed) ≡ true
      → row account root w.committed ≡ none
      → let db = after_reserve account root w.committed in
        reserve_nonce enc chained s root w
        ≡ (ok chained, record w { work = db; committed = db; registered = false })
  unfolding reserve_nonce opened
  reserve_nonce-free valid e = ground (arith, signer_lem, next-free account root opened refl e)

  -- The nonce oracle of the same task then hands out the nonce that was upcoming, and a second oracle of
  -- that task gets none.
  pub next_nonce-reserve_nonce :
      enc.is_address (signer enc chained s w.committed) ≡ true
      → row account root w.committed ≡ none
      → let a = signer enc chained s w.committed in
        let w₁ = (reserve_nonce enc chained s root w).1 in
        let (n, w₂) = next_nonce enc a root given w₁ in
        (n ≡ ok (upcoming account 0 w.committed))
        × ((next_nonce enc a root given w₂).0 ≡ err integrity)
  unfolding reserve_nonce opened next_nonce after_next
  next_nonce-reserve_nonce valid e =
      let db = after_reserve account root w.committed in
      let w₁ : Worker = record w { work = db; committed = db; registered = false } in
      let w₂ : Worker = record w₁ { work = after_next account 0 w.committed } in
      ground (
        arith,
        signer_lem,
        next-free account root opened refl e,
        release-reserve_lem account root w.committed w₁ refl e refl,
        release-free account root w₂ refl e,
      )

-- The oracle takes up the nonce that its task holds, and the reservation is gone.
pub next_nonce-held :
    (enc : Encoding) (address root : Text) (w : Worker) (r : Reservation)
    → w.registered ≡ false
    → row (enc.wallet_address address) root w.work ≡ some r
    → next_nonce enc address root given w
      ≡ (ok r.nonce, record w { work = after_release (enc.wallet_address address) root w.work })
unfolding next_nonce
next_nonce-held enc address root w r h e =
    ground (arith, release-held (enc.wallet_address address) root w r h e)

-- A signer that is an address.
pub reserve_nonce-address :
    (enc : Encoding) (chained s root : Text) (w : Worker)
    → enc.is_address s ≡ true
    → row (enc.wallet_address s) root w.committed ≡ none
    → let db = after_reserve (enc.wallet_address s) root w.committed in
      reserve_nonce enc chained (some s) root w
      ≡ (ok chained, record w { work = db; committed = db; registered = false })
unfolding reserve_nonce signer_for
reserve_nonce-address enc chained s root w valid free =
    let w₁ : Worker = record w { work = w.committed; registered = false } in
    ground (arith, valid, next-free (enc.wallet_address s) root w₁ refl free)
