-- ===== src/Nonce.antt =====
-- `class Nonce` of cic_eth/db/models/nonce.py: the next unused nonce of each address.
pub mod Effect
pub mod Sequence
use cic_stack_v.Prelude.{ℕ, ◌+◌, Bool, Option, none, some, List, ◌==◌, if◌then◌else◌}
use cic_stack_v.Store.Rows.{Text, NonceRow}
use cic_stack_v.Store.Table.{first, change, insert}
use cic_stack_v.Store.Session.{Session, bind_session, release_session}
use cic_stack_v.Store.{
  Db, Action, ⊤, initialization, type_error, ◌>>=◌, ◌>>◌, pure, raise, query, update,
}

-- `Nonce.address_hex==address`
abbrev pub holds : Text → NonceRow → Bool
holds address r = r.address_hex == address

abbrev pub row : Text → Db → Option NonceRow
row address db = first (holds address) db.nonces

abbrev nonce_of : Option NonceRow → Option ℕ
nonce_of none = none
nonce_of (some r) = some r.nonce

pub get : Text → Session → Action (Option ℕ)
get address session = do
  bind_session session
  o ← query (row address)
  release_session
  pure (nonce_of o)

-- `Nonce.__get`, on the session at hand.
get_value : Text → Action (Option ℕ)
get_value address = do o ← query (row address); pure (nonce_of o)

-- `Nonce.__init`, an INSERT.
pub insert_nonce : Text → ℕ → Action ⊤
insert_nonce address nonce =
    update λ db. record db {
      nonces = insert (record { address_hex = address; nonce = nonce }) db.nonces;
    }

abbrev pub bump : NonceRow → NonceRow
bump r = record r { nonce = r.nonce + 1 }

-- `Nonce.__inc`: the nonce that was stored, and one more is stored.
increment : Text → Option NonceRow → Action ℕ
increment address none = raise type_error
increment address (some r) = do
  update λ db. record db { nonces = change (holds address) bump db.nonces }
  pure r.nonce

inc : Text → Action ℕ
unfolding increment
inc address = do o ← query (row address); increment address o

refuse_existing : Option NonceRow → Action ⊤
refuse_existing none = pure tt
refuse_existing (some r) = raise initialization

unfoldable pub init : Text → ℕ → Session → Action ⊤
unfolding refuse_existing insert_nonce
init address nonce session = do
  bind_session session
  o ← query (row address)
  refuse_existing o
  insert_nonce address nonce
  release_session

init_if_missing : Text → ℕ → Option ℕ → Action ⊤
init_if_missing address initial none = insert_nonce address initial
init_if_missing address initial (some n) = pure tt

pub next : Text → ℕ → Session → Action ℕ
unfolding get_value init_if_missing insert_nonce inc
next address initial session = do
  bind_session session
  nonce ← get_value address
  init_if_missing address initial nonce
  nonce ← inc address
  release_session
  pure nonce
