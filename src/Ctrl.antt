-- ===== src/Ctrl.antt =====
-- cic_eth/admin/ctrl.py: the celery tasks that set, lift and check locks.
pub mod Check
pub mod Effect
use mathlib.Core.Option
use mathlib.Core.Option.{Option}
use cic_stack_v.Prelude.{ℕ, none, some, bit_or, ltb, if◌then◌else◌}
use cic_stack_v.Store.Rows.{Text, zero_address, no_chain}
use cic_stack_v.Store.Session.{given, fresh, create_session, close}
use cic_stack_v.Store.{Action, locked, ◌>>=◌, ◌>>◌, pure, raise}
use cic_stack_v.External.{Encoding}
use cic_stack_v.Lock
use cic_stack_v.LockEnum

-- `str(ChainSpec.from_dict(chain_spec_dict))`, or `'::'` without one.
abbrev pub chain_str : Option Text → Text
chain_str none = no_chain
chain_str (some chain) = chain

-- The lock of the account, added to the lock `r` that holds for all.
check_account : Text → ℕ → Option Text → ℕ → Action ℕ
check_account chain flags none r = pure r
check_account chain flags (some address) r = do
  s ← Lock.check chain flags address given
  pure (bit_or r s)

refuse_locked : {A : Type 0} → A → ℕ → Action A
refuse_locked chained r = do close; if ltb 0 r then raise (locked r) else pure chained

module _ (enc : Encoding) {A : Type 0} where
  -- In each task the chained input comes first and is returned.
  pub lock : A → Option Text → Text → ℕ → Option Text → Action A
  lock chained chain address flags tx_hash = do
    r ← Lock.set (chain_str chain) flags (enc.wallet_address address) fresh tx_hash
    pure chained

  pub unlock : A → Option Text → Text → ℕ → Action A
  unlock chained chain address flags = do
    r ← Lock.reset (chain_str chain) flags (enc.wallet_address address) fresh
    pure chained

  pub lock_send : A → Text → Text → Option Text → Action A
  lock_send chained chain address tx_hash = do
    r ← Lock.set chain LockEnum.send (enc.wallet_address address) fresh tx_hash
    pure chained

  pub unlock_send : A → Text → Text → Action A
  unlock_send chained chain address = do
    r ← Lock.reset chain LockEnum.send (enc.wallet_address address) fresh
    pure chained

  pub lock_queue : A → Text → Text → Option Text → Action A
  lock_queue chained chain address tx_hash = do
    r ← Lock.set chain LockEnum.queue (enc.wallet_address address) fresh tx_hash
    pure chained

  pub unlock_queue : A → Text → Text → Action A
  unlock_queue chained chain address = do
    r ← Lock.reset chain LockEnum.queue (enc.wallet_address address) fresh
    pure chained

  pub check_lock : A → Option Text → ℕ → Option Text → Action A
  unfolding check_account refuse_locked
  check_lock chained chain flags address = do
    let account = Option.map enc.wallet_address address
    create_session
    r ← Lock.check (chain_str chain) flags zero_address given
    r ← check_account (chain_str chain) flags account r
    refuse_locked chained r
