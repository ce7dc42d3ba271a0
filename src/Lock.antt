-- ===== src/Lock.antt =====
-- `class Lock` of cic_eth/db/models/lock.py: flags that switch functions off, on each chain for every
-- account under the zero address, or for one account.
pub mod Effect
pub mod Reset
pub mod Check
pub mod Refinement
use cic_stack_v.Prelude.{ℕ, Bool, Option, none, some, bit_and, bit_or, ◌==◌, ◌&&◌, if◌then◌else◌}
use cic_stack_v.Bits.{clear}
use cic_stack_v.Store.Rows.{Text, LockRow, Otx, zero_address}
use cic_stack_v.Store.Table.{first, change, delete, insert}
use cic_stack_v.Store.Session.{
  Session, given, fresh, bind_session, release_session, create_session, close,
}
use cic_stack_v.Store.{Db, Action, ⊤, ◌>>=◌, ◌>>◌, pure, query, update, commit}

-- The filter on `address` and `blockchain`.
abbrev pub locks : Text → Text → LockRow → Bool
locks chain address r = (r.address == address) && (r.blockchain == chain)

abbrev pub row : Text → Text → Db → Option LockRow
row chain address db = first (locks chain address) db.locks

abbrev id_of : Option Otx → Option ℕ
id_of none = none
id_of (some o) = some o.id

-- The transaction that a new lock refers to, if the queue has it.
find_otx : Option Text → Db → Option ℕ
find_otx none db = none
find_otx (some hash) db = id_of (first (λ o. o.tx_hash == hash) db.otxs)

abbrev pub add_flags : ℕ → LockRow → LockRow
add_flags flags r = record r { flags = bit_or r.flags flags }

set_flags : Text → ℕ → Text → Option Text → Option LockRow → Action ℕ
set_flags chain flags address tx_hash none = do
  otx_id ← query (find_otx tx_hash)
  let new : LockRow = record {
    blockchain = chain;
    address = address;
    flags = bit_or 0 flags;
    otx_id = otx_id;
  }
  update λ db. record db { locks = insert new db.locks }
  pure (bit_or 0 flags)
set_flags chain flags address tx_hash (some r) = do
  update λ db. record db { locks = change (locks chain address) (add_flags flags) db.locks }
  pure (bit_or r.flags flags)

pub set : Text → ℕ → Text → Session → Option Text → Action ℕ
unfolding set_flags find_otx
set chain flags address session tx_hash = do
  bind_session session
  lock ← query (row chain address)
  r ← set_flags chain flags address tx_hash lock
  commit
  release_session
  pure r

abbrev pub clear_flags : ℕ → LockRow → LockRow
clear_flags flags r = record r { flags = clear r.flags flags }

-- An entry that no flag is left of is deleted.
reset_flags : Text → ℕ → Text → Option LockRow → Action ℕ
reset_flags chain flags address none = pure 0
reset_flags chain flags address (some r) = do
  update λ db. record db {
    locks =
        if clear r.flags flags == 0
        then delete (locks chain address) db.locks
        else change (locks chain address) (clear_flags flags) db.locks;
  }
  commit
  pure (if clear r.flags flags == 0 then 0 else clear r.flags flags)

pub reset : Text → ℕ → Text → Session → Action ℕ
unfolding reset_flags
reset chain flags address session = do
  bind_session session
  lock ← query (row chain address)
  r ← reset_flags chain flags address lock
  release_session
  pure r

-- The filter of `check`: all of the flags are set.
abbrev covers : Text → ℕ → Text → LockRow → Bool
covers chain flags address r = locks chain address r && (bit_and r.flags flags == flags)

abbrev matched : ℕ → Option LockRow → ℕ
matched flags none = 0
matched flags (some r) = bit_and r.flags flags

unfoldable pub check : Text → ℕ → Text → Session → Action ℕ
check chain flags address session = do
  bind_session session
  lock ← query (λ db. first (covers chain flags address) db.locks)
  release_session
  pure (matched flags lock)

-- A session that `check_aggregate` makes is not registered, and closed at the end.
open_local : Session → Action ⊤
open_local given = pure tt
open_local fresh = create_session

close_local : Session → Action ⊤
close_local given = pure tt
close_local fresh = close

unfoldable pub check_aggregate : Text → ℕ → Text → Session → Action ℕ
unfolding open_local close_local
check_aggregate chain flags address session = do
  open_local session
  r ← check chain flags zero_address given
  s ← check chain flags address given
  close_local session
  pure (bit_or r s)
