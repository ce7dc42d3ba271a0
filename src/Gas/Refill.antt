-- ===== src/Gas/Refill.antt =====
-- `have_gas_minimum` and `refill_gas` of cic_eth/eth/gas.py: the gas gifter sends gas to an account.
pub mod Sends
use cic_stack_v.Prelude.{
  ℕ, ◌+◌, Bool, some, List, [], ◌∷◌, not, ltb, bit_and, bit_or, ◌==◌, ◌&&◌, if◌then◌else◌,
}
use cic_stack_v.Store.Rows.{Text, Otx, TxCacheRow, gas_gifter, gas_cache_task}
use cic_stack_v.Store.Table.{count}
use cic_stack_v.Store.Tasks.{call, set_ready}
use cic_stack_v.Store.Session.{given, create_session}
use cic_stack_v.Store.{
  Db, Action, Result, ok, err, signer, seppuku, name_error, ◌>>=◌, ◌>>◌, pure, raise_if, query,
  submit, from_result,
}
use cic_stack_v.External.{Encoding, Unsigned, Queue, StatusBits, Node}
use cic_stack_v.Role
use cic_stack_v.NonceTask
use cic_stack_v.QueueTx
use cic_stack_v.Gas.Limits.{Limits, maximum_fee_units}

-- A queue entry, with its row in the cache, that is not settled and carries value to the recipient.
abbrev fills : StatusBits → Text → Otx → TxCacheRow → Bool
fills bits recipient o t =
    (t.otx_id == o.id)
    && (bit_and o.status (bit_or bits.final bits.obsolete) == 0)
    && not (t.from_value == 0)
    && (t.recipient == recipient)

-- The join of `otx` and `tx_cache`, counted.
join_count : (Otx → TxCacheRow → Bool) → List Otx → List TxCacheRow → ℕ
join_count p [] ts = 0
join_count p (o ∷ os) ts = count (p o) ts + join_count p os ts

pub pending_refills : StatusBits → Text → Db → ℕ
unfolding join_count
pending_refills bits recipient db = join_count (fills bits recipient) db.otxs db.tx_cache

-- While a refill is on its way, only the immediate amount is sent.
pub refill_amount : ℕ → ℕ → ℕ → ℕ
refill_amount safe pending immediate = (if ltb 0 pending then 0 else safe) + immediate

-- The handler names `SignerError`, which the module does not import.
abbrev pub not_imported : {A : Type 0} → Result A → Result A
not_imported (ok a) = ok a
not_imported (err signer) = err name_error
not_imported (err e) = err e

module _ (enc : Encoding) (queue : Queue) (node : Node) where
  pub have_gas_minimum : Text → ℕ → Action Bool
  have_gas_minimum address min_gas = do
    balance ← from_result (node.balance (enc.add_0x address))
    pure (not (ltb balance min_gas))

  pub send_refill : Text → Unsigned → Action Text
  send_refill chain tx = do
    signed ← from_result (not_imported (node.sign tx))
    QueueTx.register_tx enc queue signed.0 signed.1 chain (some gas_cache_task) given
    submit (call (set_ready chain signed.0))
    pure signed.1

  -- The task, under its root id. Being below the balance that is safe for the gifter is only logged.
  pub refill_gas : Limits → Text → Text → ℕ → Text → Action Text
  unfolding have_gas_minimum
  refill_gas limits recipient chain immediate root_id = do
    let recipient = enc.wallet_address recipient
    create_session
    pending ← query (pending_refills queue.bits recipient)
    provider ← Role.get_address gas_gifter given
    enough ← have_gas_minimum provider limits.safe_gas_refill_amount
    raise_if (not enough) seppuku
    safe ← have_gas_minimum provider limits.safe_gas_gifter_balance
    nonce ← NonceTask.next_nonce enc provider root_id given
    send_refill chain (record {
      sender = provider;
      recipient = recipient;
      nonce = nonce;
      value = refill_amount limits.safe_gas_refill_amount pending immediate;
      gas = maximum_fee_units;
      gas_price = 1;
    })
