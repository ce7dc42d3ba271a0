-- ===== src/Gas/Check.antt =====
-- `create_check_gas_task` and `check_gas` of cic_eth/eth/gas.py: transactions go on to be sent only if
-- their sender can pay for them; if not, gas is asked for and they wait.
pub mod Outcome
use cic_stack_v.Prelude.{
  ℕ, Bool, Option, none, some, List, [], ◌∷◌, map, not, ltb, ◌==◌, if◌then◌else◌,
}
use cic_stack_v.Store.Rows.{Text, gas_gifter}
use cic_stack_v.Store.Tasks.{
  Task, call, link, reserve_nonce, refill_gas, check_gas as check_gas_call, set_waitforgas,
  set_ready, Number, whole,
}
use cic_stack_v.Store.Session.{given, create_session, close}
use cic_stack_v.Store.{
  Action, Result, ok, err, Error, ⊤, out_of_gas, value_error, type_error, eth_error, name_error,
  ◌>>=◌, ◌>>◌, pure, raise, raise_if, submit, submit_all, from_result,
}
use cic_stack_v.External.{Encoding, Queue, Node}
use cic_stack_v.Role
use cic_stack_v.QueueQuery
use cic_stack_v.Gas.Limits.{Limits, maximum_fee_units}

whole_gas : Option ℕ → Option Number
whole_gas none = none
whole_gas (some gas) = some (whole gas)

-- The gas may be a float, where the price is one.
pub check_gas_task : List Text → Text → Text → Option Number → Option (List Text) → Task
check_gas_task signed chain holder gas tx_hashes =
    call (check_gas_call tx_hashes chain signed holder gas)

pub create_check_gas_task : List Text → Text → Text → Option ℕ → Option (List Text) → Task
unfolding check_gas_task whole_gas
create_check_gas_task signed chain holder gas tx_hashes =
    check_gas_task signed chain holder (whole_gas gas) tx_hashes

-- The request for gas from the gas gifter, which `check_gas` submits in two places.
refill_task : Text → Text → Text → ℕ → Task
refill_task address chain provider required =
    link (call (reserve_nonce address chain (some provider))) (call (refill_gas chain required))

refill_below : ℕ → ℕ → Task → Action ⊤
refill_below balance safe task = if ltb balance safe then submit task else pure tt

-- What follows once the balance is known.
settle : ℕ → Text → Text → List Text → List Text → ℕ → ℕ → Text → Action (List Text)
unfolding refill_task refill_below
settle safe chain address tx_hashes txs required balance provider =
    if ltb balance required
    then (do
      submit (refill_task address chain provider required)
      submit_all (map (λ h. call (set_waitforgas chain h)) tx_hashes)
      raise out_of_gas)
    else (do
      refill_below balance safe (refill_task address chain provider required)
      submit_all (map (λ h. call (set_ready chain h)) tx_hashes)
      pure txs)

-- The handler names `EthError`, which the module does not import.
abbrev not_imported : Result ℕ → Result ℕ
not_imported (ok b) = ok b
not_imported (err eth_error) = err name_error
not_imported (err e) = err e

abbrev pub required_or_most : Option ℕ → ℕ
required_or_most none = maximum_fee_units
required_or_most (some g) = g

same_sender : Option Text → Text → Action Text
same_sender none sender = pure sender
same_sender (some address) sender = if address == sender then pure address else raise value_error

or_type_error : Option Text → Action Text
or_type_error none = raise type_error
or_type_error (some a) = pure a

module _ (enc : Encoding) (queue : Queue) (node : Node) where
  normal_address : Option Text → Action (Option Text)
  normal_address none = pure none
  normal_address (some address) = do
    raise_if (not (enc.is_address address)) value_error
    pure (some (enc.add_0x (enc.wallet_address address)))

  -- Without transactions they are read from the queue, and have to have one sender.
  load_txs : Text → List Text → Option Text → Action (Option Text × List Text)
  unfolding same_sender
  load_txs chain [] address = pure (address, [])
  load_txs chain (h ∷ hs) address = do
    signed ← QueueQuery.get_tx enc queue chain h
    sender ← same_sender address (queue.unpack (enc.strip_0x signed) chain).sender
    loaded ← load_txs chain hs (some sender)
    pure (loaded.0, signed ∷ loaded.1)

  with_txs : Text → List Text → List Text → Option Text → Action (Option Text × List Text)
  unfolding load_txs
  with_txs chain tx_hashes [] address = load_txs chain tx_hashes address
  with_txs chain tx_hashes (tx ∷ txs) address = pure (address, tx ∷ txs)

  -- The task, where the worker goes by `limits`.
  pub check_gas :
      Limits → List Text → Text → List Text → Option Text → Option ℕ → Action (List Text)
  unfolding normal_address with_txs or_type_error settle
  check_gas limits tx_hashes chain txs address gas_required = do
    address ← normal_address address
    let hashes = map enc.hash tx_hashes
    loaded ← with_txs chain hashes (map enc.wire txs) address
    address ← or_type_error loaded.0
    balance ← from_result (not_imported (node.balance (enc.add_0x (enc.checksum address))))
    create_session
    provider ← Role.get_address gas_gifter given
    close
    settle limits.safe_gas_threshold_amount chain address hashes loaded.1
        (required_or_most gas_required) balance provider
