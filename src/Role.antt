-- ===== src/Role.antt =====
-- `class AccountRole` of cic_eth/db/models/role.py, a table of addresses by tag, and the role tasks of
-- cic_eth/eth/account.py.
pub mod Lookup
use cic_stack_v.Prelude.{ℕ, Bool, Option, none, some, List, [], ◌∷◌, map, not, ◌==◌}
use cic_stack_v.Store.Rows.{Text, RoleRow, zero_address}
use cic_stack_v.Store.Table.{first, change, insert}
use cic_stack_v.Store.Session.{
  Session, given, fresh, bind_session, release_session, create_session, close,
}
use cic_stack_v.Store.{
  Db, Action, ⊤, value_error, ◌>>=◌, ◌>>◌, pure, raise, raise_if, query, update, commit,
}
use cic_stack_v.External.{Encoding}

-- `AccountRole.tag==tag`
abbrev pub tagged : Text → RoleRow → Bool
tagged tag r = r.tag == tag

abbrev pub row : Text → Db → Option RoleRow
row tag db = first (tagged tag) db.roles

abbrev pair_of : RoleRow → Text × Text
pair_of r = (r.address_hex, r.tag)

pub all_roles : Session → Action (List (Text × Text))
all_roles session = do
  bind_session session
  pairs ← query (λ db. map pair_of db.roles)
  release_session
  pure pairs

abbrev address_of : Option RoleRow → Text
address_of none = zero_address
address_of (some r) = r.address_hex

refuse_fresh : Session → Action ⊤
refuse_fresh given = pure tt
refuse_fresh fresh = raise value_error

-- The zero address stands for a tag that is not known; without a session the call is refused.
pub get_address : Text → Session → Action Text
unfolding refuse_fresh
get_address tag session = do
  refuse_fresh session
  bind_session session
  role ← query (row tag)
  release_session
  pure (address_of role)

pub get_role : Text → Session → Action (Option RoleRow)
get_role tag session = do bind_session session; role ← query (row tag); release_session; pure role

-- The object that `set` returns: in the table, or made by the constructor and in no session yet.
pub data RoleObject : Type 0 where
  stored transient : RoleRow → RoleObject

set_address : Text → Text → Option RoleRow → Action RoleObject
set_address tag address none = pure (transient (record { tag = tag; address_hex = address }))
set_address tag address (some r) = do
  update λ db. record db {
    roles = change (tagged tag) (λ r. record r { address_hex = address }) db.roles;
  }
  pure (stored (record r { address_hex = address }))

pub set : Text → Text → Session → Action RoleObject
unfolding set_address
set tag address session = do
  bind_session session
  role ← query (row tag)
  role ← set_address tag address role
  release_session
  pure role

abbrev tag_of : Option RoleRow → Option Text
tag_of none = none
tag_of (some r) = some r.tag

pub role_for : Text → Session → Action (Option Text)
role_for address session = do
  bind_session session
  role ← query (λ db. first (λ r. r.address_hex == address) db.roles)
  release_session
  pure (tag_of role)

-- `session.add(role)`
add : RoleObject → Action ⊤
add (stored r) = pure tt
add (transient r) = update λ db. record db { roles = insert r db.roles }

-- The task `set_role`.
pub set_role : Encoding → Text → Text → Action Text
unfolding add
set_role enc tag address = do
  raise_if (not (enc.is_address address)) value_error
  create_session
  role ← set tag (enc.wallet_address address) given
  add role
  commit
  close
  pure tag

-- The task `role`.
pub role : Text → Action (List (Text × Option Text))
role address = do create_session; tag ← role_for address given; close; pure ((address, tag) ∷ [])

role_pairs : Option Text → Action (List (Text × Text))
role_pairs none = all_roles given
role_pairs (some tag) = do address ← get_address tag given; pure ((address, tag) ∷ [])

-- The task `role_account`.
pub role_account : Option Text → Action (List (Text × Text))
unfolding role_pairs
role_account tag = do create_session; pairs ← role_pairs tag; close; pure pairs
