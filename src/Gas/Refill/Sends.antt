-- ===== src/Gas/Refill/Sends.antt =====
-- What `refill_gas` sends, and when it sends nothing.
use mathlib.Core.List.{append_assoc}
use cic_stack_v.Prelude.{
  ℕ, ◌+◌, ◌≤◌, ◌<◌, ◌≡◌, refl, Bool, false, some, arith, List, [], ◌∷◌, ◌++◌, ◌||◌, ◌&&◌, ◌==◌, ltb,
  bit_and, bit_or, if◌then◌else◌,
}
use cic_stack_v.Store.Table.{count}
use cic_stack_v.Store.Tasks.{call, cache_tx, set_ready}
use cic_stack_v.Lock.Effect.{IsKeyed, flags_at}
use cic_stack_v.QueueTx.{register_tx}
use cic_stack_v.QueueTx.Locked.{is_locked, queue_create_lem}
use cic_stack_v.Enqueue.Effect.{sender_of, Creates}
use cic_stack_v.Store.Rows.{Text, Reservation, Otx, TxCacheRow, gas_gifter, gas_cache_task}
use cic_stack_v.Store.{Db, Worker, ok, err, seppuku}
use cic_stack_v.External.{Encoding, Queue, Node, Unsigned, StatusBits}
use cic_stack_v.Reservation.{row}
use cic_stack_v.Reservation.Effect.{after_release}
use cic_stack_v.Role.Lookup.{address_for, get_address-given}
use cic_stack_v.NonceTask.Transfer.{next_nonce-held}
use cic_stack_v.Gas.Limits.{Limits, maximum_fee_units}
use cic_stack_v.Gas.Refill.{
  fills, join_count, pending_refills, refill_amount, send_refill, refill_gas,
}

unfoldable pub any : {A : Type 0} → (A → Bool) → List A → Bool
any p [] = false
any p (x ∷ xs) = p x || any p xs

-- A refill is on its way to an account: a row names it as the recipient of a value that is not 0, in an
-- entry that is neither final nor obsolete.
unfoldable pub is_awaited : StatusBits → Text → Db → Bool
unfolding any
is_awaited bits recipient db =
    any
      (λ (o : Otx).
        any
          (λ (t : TxCacheRow).
            (t.otx_id == o.id)
            && (t.recipient == recipient)
            && ltb 0 t.from_value
            && (bit_and o.status (bit_or bits.final bits.obsolete) == 0))
          db.tx_cache)
      db.otxs

count-any :
    {A : Type 0} (p q : A → Bool) (same : (x : A) → p x ≡ q x) (xs : List A)
    → ltb 0 (count p xs) ≡ any q xs
unfolding count any
count-any p q same [] = refl
count-any p q same (x ∷ xs) = ground (arith, same x, count-any p q same xs)

join_count-any :
    (p q : Otx → TxCacheRow → Bool) (same : (o : Otx) (t : TxCacheRow) → p o t ≡ q o t)
    (os : List Otx) (ts : List TxCacheRow)
    → ltb 0 (join_count p os ts) ≡ any (λ o. any (q o) ts) os
unfolding join_count any
join_count-any p q same [] ts = refl
join_count-any p q same (o ∷ os) ts =
    ground (arith, count-any (p o) (q o) (same o) ts, join_count-any p q same os ts)

pending_refills-is_awaited :
    (bits : StatusBits) (recipient : Text) (db : Db)
    → ltb 0 (pending_refills bits recipient db) ≡ is_awaited bits recipient db
unfolding pending_refills is_awaited
pending_refills-is_awaited bits recipient db =
    join_count-any (fills bits recipient)
      (λ o t.
        (t.otx_id == o.id)
        && (t.recipient == recipient)
        && ltb 0 t.from_value
        && (bit_and o.status (bit_or bits.final bits.obsolete) == 0))
      (λ o t. ground arith) db.otxs db.tx_cache

module _ (enc : Encoding) (queue : Queue) (node : Node) (limits : Limits) (recipient chain : Text)
    (immediate : ℕ) (root : Text) (w : Worker) (b : ℕ)
    (balance : node.balance (enc.add_0x (address_for gas_gifter w.committed)) ≡ ok b) where
  opened : Worker
  opened = record w { work = w.committed; registered = false }

  -- A gifter that has less than one refill makes the worker shut down; no nonce is used, and nothing is
  -- signed or submitted.
  pub refill_gas-broke :
      b < limits.safe_gas_refill_amount
      → refill_gas enc queue node limits recipient chain immediate root w
        ≡ (err seppuku, record w { work = w.committed; registered = false })
  unfolding refill_gas opened
  refill_gas-broke short = ground (arith, get_address-given gas_gifter opened refl)

  -- The transaction that is signed.
  unfoldable pub refill_tx : ℕ → Unsigned
  refill_tx nonce = record {
    sender = address_for gas_gifter w.committed;
    recipient = enc.wallet_address recipient;
    nonce = nonce;
    value =
        (if is_awaited queue.bits (enc.wallet_address recipient) w.committed
          then 0
          else limits.safe_gas_refill_amount)
        + immediate;
    gas = maximum_fee_units;
    gas_price = 1;
  }

  abbrev pub provider : Text
  provider = enc.wallet_address (address_for gas_gifter w.committed)

  -- The worker once the reserved nonce is taken up, and not yet committed.
  abbrev pub taken : Worker
  taken = record w { work = after_release provider root w.committed; registered = false }

  refill_gas-send_refill :
      (r : Reservation)
      → limits.safe_gas_refill_amount ≤ b
      → row provider root w.committed ≡ some r
      → refill_gas enc queue node limits recipient chain immediate root w
        ≡ send_refill enc queue node chain (refill_tx r.nonce) taken
  unfolding refill_gas refill_tx opened refill_amount
  refill_gas-send_refill r enough e = ground (
    arith,
    get_address-given gas_gifter opened refl,
    next_nonce-held enc (address_for gas_gifter w.committed) root opened r refl e,
    pending_refills-is_awaited queue.bits (enc.wallet_address recipient) w.committed,
  )

  -- A gifter that has one refill at least, a nonce reserved for the task, a signer, and a queue that is
  -- not locked for him and takes the transaction, sends with that nonce the immediate amount, and the safe
  -- amount too unless a refill is on its way. The nonce is taken up, the transaction is in the queue as
  -- the session sees it, and the filling of the cache and that it is ready to send are submitted.
  pub refill_gas-sends :
      (r : Reservation) (tx_hash raw : Text) (db kept : Db)
      → limits.safe_gas_refill_amount ≤ b
      → row provider root w.committed ≡ some r
      → node.sign (refill_tx r.nonce) ≡ ok (tx_hash, raw)
      → IsKeyed w.committed.locks
      → is_locked chain (sender_of enc queue chain raw) w.committed ≡ false
      → Creates enc queue chain tx_hash raw taken db kept
      → refill_gas enc queue node limits recipient chain immediate root w ≡ (
        ok raw,
        record w {
          work = db;
          committed = kept;
          registered = false;
          submitted =
              w.submitted
              ++ call (cache_tx gas_cache_task (enc.hash tx_hash) (enc.hash raw) chain)
                ∷ call (set_ready chain tx_hash)
                ∷ [];
        },
      )
  unfolding send_refill register_tx is_locked flags_at after_release
  refill_gas-sends r tx_hash raw db kept enough e signed keyed open_ created =
      let unpacked = queue.unpack (enc.hash raw) chain in
      ground (
        arith,
        refill_gas-send_refill r enough e,
        signed,
        queue_create_lem enc queue taken refl keyed chain unpacked.nonce unpacked.sender
            (enc.hash tx_hash) (enc.hash raw),
        append_assoc w.submitted
            (call (cache_tx gas_cache_task (enc.hash tx_hash) (enc.hash raw) chain) ∷ [])
            (call (set_ready chain tx_hash) ∷ []),
      )
