-- ===== src/Role/Lookup.antt =====
-- What a tag stands for after it has been set.
use cic_stack_v.Prelude.{
  ◌≡◌, ◌≢◌, refl, true, false, none, some, [], ◌∷◌, arith, Option-cases, inl, inr,
}
use cic_stack_v.Store.Rows.{Text, RoleRow}
use cic_stack_v.Store.Table.{
  first_sound, first-insert_new, first-insert_miss, first-change_self, first-change_apart,
}
use cic_stack_v.Store.Session.{given}
use cic_stack_v.Store.{Db, Worker, ok, err, value_error}
use cic_stack_v.External.{Encoding}
use cic_stack_v.Role.{tagged, row, get_address, set, set_role, role_account, transient, address_of}

-- The address that a tag stands for.
unfoldable pub address_for : Text → Db → Text
address_for tag db = address_of (row tag db)

pub get_address-given :
    (tag : Text) (w : Worker)
    → w.registered ≡ false
    → get_address tag given w ≡ (ok (address_for tag w.work), w)
unfolding get_address address_for
get_address-given tag w h = ground arith

-- `set` does not put a new tag into the table: that is left to the caller.
pub set-new :
    (tag address : Text) (w : Worker)
    → w.registered ≡ false
    → row tag w.work ≡ none
    → set tag address given w ≡ (ok (transient (record { tag = tag; address_hex = address })), w)
unfolding set
set-new tag address w h e = ground arith

module _ (enc : Encoding) (tag address : Text) (w : Worker) where
  -- `set_role` refuses what is no address, and changes nothing.
  pub set_role-refused :
      enc.is_address address ≡ false → set_role enc tag address w ≡ (err value_error, w)
  unfolding set_role
  set_role-refused h = ground arith

  new_row : RoleRow
  new_row = record { tag = tag; address_hex = enc.wallet_address address }

  abbrev moved : RoleRow → RoleRow
  moved r = record r { address_hex = enc.wallet_address address }

  -- What it commits: the tag stands for the address in normal form, and every other tag for what it
  -- stood for.
  pub role_account-set_role :
      (other : Text)
      → enc.is_address address ≡ true
      → let w' = (set_role enc tag address w).1 in
        ((role_account (some tag) w').0 ≡ ok ((enc.wallet_address address, tag) ∷ []))
        × (other ≢ tag
            → (role_account (some other) w').0 ≡ ok ((address_for other w.committed, other) ∷ []))
  unfolding set_role set role_account get_address address_for new_row
  role_account-set_role other h =
      let apart : (r : RoleRow) → other ≢ tag → tagged tag r ≡ true → tagged other r ≡ false =
        λ r ne e. ground arith in
      elim (Option-cases (row tag w.committed)) [
        | inl e ↦ (
          ground (arith, first-insert_new (tagged tag) new_row w.committed.roles),
          λ ne. ground (arith, first-insert_miss (tagged other) new_row w.committed.roles),
        )
        | inr (r, e) ↦ (
          ground (
            arith,
            first_sound (tagged tag) w.committed.roles r e,
            first-change_self (tagged tag) moved w.committed.roles r e,
          ),
          λ ne. ground (
            arith,
            first-change_apart (tagged tag) (tagged other) (λ r. apart r ne) moved (λ r. refl)
                w.committed.roles,
          ),
        )
      ]
