-- ===== src/Account.antt =====
-- The tasks `create`, `register` and `gift` of cic_eth/eth/account.py. The signer's accounts, the
-- registry of contracts and the contracts' transactions are arguments.
pub mod Created
pub mod Registered
use cic_stack_v.Prelude.{
  ℕ, ◌*◌, Bool, true, false, Option, none, some, List, [], ◌∷◌, ◌==◌, if◌then◌else◌,
}
use cic_stack_v.Store.Rows.{
  Text, zero_address, account_registry_writer, default_role, account_cache_task, gift_cache_task,
}
use cic_stack_v.Store.Session.{given, create_session, close}
use cic_stack_v.Store.{
  Action, Error, Result, ok, err, ⊤, role_missing, signer, ◌>>=◌, ◌>>◌, pure, raise, commit, submit,
  from_result,
}
use cic_stack_v.External.{Encoding, Queue}
use cic_stack_v.Nonce
use cic_stack_v.Role
use cic_stack_v.NonceTask
use cic_stack_v.Enqueue.{enqueue}

-- What the signer answers to `new_account`: an address, None, a ConnectionError or FileNotFoundError,
-- or an exception that `create` does not handle.
pub data Made : Type 0 where
  made_account : Text → Made
  made_none unavailable : Made
  failed : Error → Made

made_address : Made → Result Text
made_address (made_account a) = ok a
made_address made_none = err signer
made_address unavailable = err signer
made_address (failed e) = err e

-- A transaction's hash and text, and the gas oracle's pair for the text.
pub record Contracts : Type 0 where
  pub new_account : Made
  -- `CICRegistry.by_name` of `AccountRegistry` and of `Faucet`, for the sender of the call
  pub account_registry : Text → Result Text
  pub faucet : Text → Result Text
  -- `AccountsIndex.add`: contract, writer, account, nonce
  pub add : Text → Text → Text → ℕ → Result (Text × Text)
  -- `Faucet.give_to`: contract, sender, beneficiary, nonce
  pub give_to : Text → Text → Text → ℕ → Result (Text × Text)
  pub get_gas : Text → ℕ × ℕ

module _ (enc : Encoding) (queue : Queue) (contracts : Contracts) where
  pub create : Action Text
  unfolding made_address
  create = do
    a ← from_result (made_address contracts.new_account)
    create_session
    Nonce.init (enc.wallet_address a) 0 given
    commit
    close
    pure (enc.wallet_address a)

  writer_for : Option Text → Action Text
  writer_for none = Role.get_address account_registry_writer given
  writer_for (some writer_address) = pure writer_address

  -- The test of the address for calls is on the writer's again.
  register_by : Text → Text → Text → Text → Action Text
  register_by account_address chain root_id writer_address =
      if writer_address == zero_address then (do close; raise role_missing) else (do
        call_address ← Role.get_address default_role given
        if writer_address == zero_address then (do close; raise role_missing) else pure tt
        registry ← from_result (contracts.account_registry call_address)
        nonce ← NonceTask.next_nonce enc writer_address root_id given
        signed ← from_result (contracts.add registry writer_address account_address nonce)
        enqueue enc queue contracts.get_gas chain writer_address account_cache_task signed.0
            signed.1
        pure account_address)

  pub register : Text → Text → Option Text → Text → Action Text
  unfolding writer_for register_by
  register account_address chain writer_address root_id = do
    create_session
    writer ← writer_for writer_address
    register_by account_address chain root_id writer

  normal_account : Text → Text
  normal_account a = if enc.is_address a then enc.wallet_address a else a

  pub gift : Text → Text → Text → Text → Action (List Text)
  unfolding normal_account
  gift account_address chain call_address root_id = do
    let account = normal_account account_address
    create_session
    faucet ← from_result (contracts.faucet call_address)
    nonce ← NonceTask.next_nonce enc account root_id given
    signed ← from_result (contracts.give_to faucet account account nonce)
    enqueue enc queue contracts.get_gas chain account gift_cache_task signed.0 signed.1
    pure (signed.1 ∷ [])
