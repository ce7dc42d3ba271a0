-- ===== src/Account/Created.antt =====
-- A new account starts with nonce 0.
use cic_stack_v.Prelude.{◌≡◌, refl, true, false, none, arith}
use cic_stack_v.Store.Rows.{Text, NonceRow}
use cic_stack_v.Store.Table.{insert, first-insert_new}
use cic_stack_v.Store.Session.{given}
use cic_stack_v.Store.{Db, Worker, ok}
use cic_stack_v.External.{Encoding, Queue}
use cic_stack_v.Nonce.{row, holds, init}
use cic_stack_v.Nonce.Effect.{upcoming}
use cic_stack_v.Reservation
use cic_stack_v.NonceTask.{reserve_nonce, next_nonce}
use cic_stack_v.NonceTask.Transfer.{next_nonce-reserve_nonce}
use cic_stack_v.Account.{Contracts, made_account, create}

module _ (enc : Encoding) (queue : Queue) (contracts : Contracts) (a : Text) (w : Worker)
    (made : contracts.new_account ≡ made_account a)
    (new : row (enc.wallet_address a) w.committed ≡ none) where
  start : NonceRow
  start = record { address_hex = enc.wallet_address a; nonce = 0 }

  with_account : Db
  with_account = record w.committed { nonces = insert start w.committed.nonces }

  created : Worker
  created = record w { committed = with_account; work = with_account; registered = false }

  create-created : create enc queue contracts w ≡ (ok (enc.wallet_address a), created)
  unfolding create created with_account start init
  create-created = ground (arith, made, new)

  upcoming-with_account : upcoming (enc.wallet_address a) 0 with_account ≡ 0
  unfolding upcoming with_account start
  upcoming-with_account =
      ground (arith, first-insert_new (holds (enc.wallet_address a)) start w.committed.nonces new)

  created-committed : created.committed ≡ with_account
  unfolding created
  created-committed = refl

  reservations-with_account :
      (root : Text)
      → enc.wallet_address (enc.wallet_address a) ≡ enc.wallet_address a
      → Reservation.row (enc.wallet_address a) root w.committed ≡ none
      → Reservation.row (enc.wallet_address (enc.wallet_address a)) root created.committed ≡ none
  unfolding created with_account
  reservations-with_account root normal free = ground (arith, normal, free)

  -- Where the signer makes an account whose address, in a normal form that normalising keeps, is an
  -- address without a nonce, `create` returns it; and a task that then reserves a nonce for it, having
  -- none reserved, is given 0 by its nonce oracle.
  pub create-first_nonce :
      (root : Text)
      → enc.wallet_address (enc.wallet_address a) ≡ enc.wallet_address a
      → enc.is_address (enc.wallet_address a) ≡ true
      → Reservation.row (enc.wallet_address a) root w.committed ≡ none
      → let (r, w₁) = create enc queue contracts w in
        let w₂ = (reserve_nonce enc (enc.wallet_address a) none root w₁).1 in
        (r ≡ ok (enc.wallet_address a))
        × ((next_nonce enc (enc.wallet_address a) root given w₂).0 ≡ ok 0)
  create-first_nonce root normal valid free =
      let (n, _) =
        next_nonce-reserve_nonce enc (enc.wallet_address a) none root created valid
          (reservations-with_account root normal free) in
      ground (arith, create-created, n, normal, upcoming-with_account, created-committed)
