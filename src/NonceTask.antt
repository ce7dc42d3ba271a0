-- ===== src/NonceTask.antt =====
-- cic_eth/eth/nonce.py: a task reserves a nonce under its root id, and the nonce oracle of a later task
-- with the same root id takes it up.
pub mod Transfer
use cic_stack_v.Prelude.{ℕ, Bool, Option, none, some, not, if◌then◌else◌}
use cic_stack_v.Store.Rows.{Text}
use cic_stack_v.Store.Session.{Session, given, create_session, close}
use cic_stack_v.Store.{Action, value_error, ◌>>=◌, ◌>>◌, pure, raise_if, commit}
use cic_stack_v.External.{Encoding}
use cic_stack_v.Reservation
use cic_stack_v.Role

module _ (enc : Encoding) where
  -- `CustodialTaskNonceOracle.next_nonce`, for the oracle's address, root id and session.
  pub next_nonce : Text → Text → Session → Action ℕ
  next_nonce address uuid session = do
    r ← Reservation.release (enc.wallet_address address) uuid session
    pure r.1

  -- The signer: the chained input, an address, or the address of a role.
  pub signer_for : Text → Option Text → Action Text
  signer_for chained none = pure chained
  signer_for chained (some signer) =
      if enc.is_address signer then pure signer else Role.get_address signer given

  -- The task `reserve_nonce`, under its root id.
  pub reserve_nonce : Text → Option Text → Text → Action Text
  unfolding signer_for
  reserve_nonce chained signer root_id = do
    create_session
    address ← signer_for chained signer
    raise_if (not (enc.is_address address)) value_error
    r ← Reservation.next (enc.wallet_address address) root_id given
    commit
    close
    pure chained
