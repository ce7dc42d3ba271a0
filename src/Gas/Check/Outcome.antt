-- ===== src/Gas/Check/Outcome.antt =====
-- The outcome of `check_gas` by the balance of the sender.
use mathlib.Core.List.{append_assoc}
use cic_stack_v.Prelude.{
  ℕ, ◌≡◌, refl, false, true, false, Option, some, List, [], ◌∷◌, ◌++◌, map, arith, ltb,
  if◌then◌else◌,
}
use cic_stack_v.Store.Rows.{Text, gas_gifter}
use cic_stack_v.Store.Tasks.{Task, call, link, reserve_nonce, refill_gas, set_waitforgas, set_ready}
use cic_stack_v.Store.{Worker, Result, ok, err, out_of_gas, submit_all}
use cic_stack_v.External.{Encoding, Queue, Node}
use cic_stack_v.Role.Lookup.{address_for, get_address-given}
use cic_stack_v.Gas.Limits.{Limits}
use cic_stack_v.Gas.Check.{check_gas, required_or_most}

module _ (enc : Encoding) (queue : Queue) (node : Node) (limits : Limits) (hashes : List Text)
    (chain tx : Text) (txs : List Text) (address : Text) (gas : Option ℕ) (w : Worker) where
  abbrev pub sender : Text
  sender = enc.add_0x (enc.wallet_address address)

  -- The request for gas, in the name of the gas gifter.
  pub refill : Task
  refill =
      link (call (reserve_nonce sender chain (some (address_for gas_gifter w.committed))))
        (call (refill_gas chain (required_or_most gas)))

  -- The result, and the tasks that are submitted, at balance `b`.
  pub outcome : ℕ → Result (List Text) × List Task
  unfolding refill
  outcome b =
      if ltb b (required_or_most gas)
      then (err out_of_gas, refill ∷ map (λ h. call (set_waitforgas chain h)) (map enc.hash hashes))
      else (
        ok (map enc.wire (tx ∷ txs)),
        (if ltb b limits.safe_gas_threshold_amount then refill ∷ [] else [])
            ++ map (λ h. call (set_ready chain h)) (map enc.hash hashes),
      )

  pub outcome-enough :
      (b : ℕ) → ltb b (required_or_most gas) ≡ false → (outcome b).0 ≡ ok (map enc.wire (tx ∷ txs))
  unfolding outcome
  outcome-enough b enough = ground (arith, enough)

  -- For given transactions of an address whose balance the node tells. Below the gas that is required, gas
  -- is asked for, every transaction is set to wait for it, and `OutOfGasError` is raised. From there
  -- on, every transaction is set ready and the transactions are returned, and gas is asked for only
  -- below the safe threshold. The database is left alone.
  pub check_gas-outcome :
      (b : ℕ)
      → enc.is_address address ≡ true
      → node.balance (enc.add_0x (enc.checksum sender)) ≡ ok b
      → check_gas enc queue node limits hashes chain (tx ∷ txs) (some address) gas w ≡ (
        (outcome b).0,
        record w {
          work = w.committed;
          registered = false;
          submitted = w.submitted ++ (outcome b).1;
        },
      )
  unfolding check_gas outcome submit_all
  check_gas-outcome b valid e =
      let opened : Worker = record w { work = w.committed; registered = false } in
      ground (
        arith,
        get_address-given gas_gifter opened refl,
        append_assoc w.submitted (refill ∷ [])
            (map (λ h. call (set_waitforgas chain h)) (map enc.hash hashes)),
        append_assoc w.submitted (refill ∷ [])
            (map (λ h. call (set_ready chain h)) (map enc.hash hashes)),
      )
