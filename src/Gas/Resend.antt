-- ===== src/Gas/Resend.antt =====
-- `resend_with_higher_gas` of cic_eth/eth/gas.py: the transaction again, with the same nonce and another
-- gas price. The factor is an int, as its default is, or a float; a price that is multiplied by a float
-- for another attempt is a float. A price that the caller gives is an int.
pub mod Price
use cic_stack_v.Prelude.{
  ℕ, zero, suc, ◌+◌, ◌*◌, Bool, Option, none, some, List, [], ◌∷◌, ltb, ◌==◌, if◌then◌else◌,
}
use cic_stack_v.Store.Rows.{Text, Otx}
use cic_stack_v.Store.Tasks.{Task, Number, whole, float, call, set_fubar, debug_add}
use cic_stack_v.Store.Session.{given, create_session, close}
use cic_stack_v.Store.{
  Worker, Action, Result, ok, err, ⊤, db_integrity, name_error, resend_impossible, ◌>>=◌, ◌>>◌,
  pure, raise, query, rollback, submit, from_result,
}
use cic_stack_v.External.{Encoding, Unsigned, Tx, Queue, Node, Floats}
use cic_stack_v.QueueTx
use cic_stack_v.Gas.Check.{check_gas_task}
use cic_stack_v.Gas.Refill.{not_imported}

abbrev pub max_resend_attempts : ℕ
max_resend_attempts = 10

module _ (floats : Floats) where
  -- `a * b`
  unfoldable pub times : Number → Number → Result Number
  times (whole a) (whole b) = ok (whole (a * b))
  times (whole a) (float b) = floats.times (whole a) (float b)
  times (float a) b = floats.times (float a) b

  -- `int(a)`
  unfoldable pub int_of : Number → Result ℕ
  int_of (whole a) = ok a
  int_of (float a) = floats.int a

  -- `int(a * b)`
  unfoldable pub int_times : Number → Number → Result ℕ
  unfolding times int_of
  int_times a b = elim (times a b) [ ok p ↦ int_of p | err e ↦ err e ]

  -- The price to begin with: the one that is given, or one above the old price if the network is
  -- cheaper, or else the old price times the factor.
  unfoldable pub first_price : Option ℕ → ℕ → ℕ → Number → Result ℕ
  unfolding int_times
  first_price (some gas) old current factor = ok gas
  first_price none old current factor =
      if ltb current old then ok (old + 1) else int_times (whole old) factor

unfoldable pub not_same : ℕ → ℕ → ℕ
not_same old p = if p == old then p + 1 else p

unfoldable pub new_gas_price : Floats → Option ℕ → ℕ → ℕ → Number → Result ℕ
unfolding first_price not_same
new_gas_price floats gas old current factor = elim (first_price floats gas old current factor) [
  | ok p ↦ ok (not_same old p)
  | err e ↦ err e
]

-- `TxFactory.build_raw` is given the transaction and its price, which may be a float.
module _ (enc : Encoding) (queue : Queue) (node : Node) (floats : Floats)
    (build_raw : Unsigned → Number → Result (Text × Text)) where
  -- One attempt: what `queue_create` raises for an entry that is there already is caught, and the next
  -- attempt begins from a session rolled back.
  settle_attempt :
      {A : Type 0}
      → A
      → (Worker → Result (Option A) × Worker)
      → Result Text × Worker
      → Result (Option A) × Worker
  settle_attempt a retry (ok _, w) = (ok (some a), w)
  settle_attempt a retry (err db_integrity, w) = retry w
  settle_attempt a retry (err e, w) = (err e, w)

  -- At most so many attempts, each at a price `factor` times the one before. The hash and the text of the
  -- transaction, and its price, or none.
  unfoldable pub attempts :
      ℕ → Text → Unsigned → Number → Number → Action (Option (Text × Text × Number))
  unfolding settle_attempt times
  attempts zero chain tx factor price w = (ok none, w)
  attempts (suc n) chain tx factor price w = elim (not_imported (build_raw tx price)) [
    | err e ↦ (err e, w)
    | ok (hash, signed) ↦
        settle_attempt (hash, signed, price)
          (λ w'. elim (times floats price factor) [
            | err e ↦ (err e, w')
            | ok p ↦ attempts n chain tx factor p (record w' { work = w'.committed })
          ])
          (QueueTx.queue_create enc queue chain tx.nonce tx.sender hash signed given w)
  ]

  give_up : Bool → Text → Text → Action Text
  give_up debug_log chain old_hash = do
    close
    submit (call (set_fubar chain old_hash))
    if debug_log then submit (call (debug_add chain old_hash)) else pure tt
    raise resend_impossible

  finish : Bool → Text → Text → Unsigned → Option (Text × Text × Number) → Action Text
  unfolding give_up times
  finish debug_log chain old_hash tx none = give_up debug_log chain old_hash
  finish debug_log chain old_hash tx (some (hash, signed, price)) = do
    queue.clone old_hash hash
    close
    gas ← from_result (times floats price (whole tx.gas))
    submit (check_gas_task (signed ∷ []) chain tx.sender (some gas) (some (hash ∷ [])))
    pure hash

  resend_otx : Bool → Text → Text → Option ℕ → Number → Option Otx → Action Text
  unfolding finish
  -- `NotLocalTxError` is not imported.
  resend_otx debug_log chain old_hash gas factor none = do close; raise name_error
  resend_otx debug_log chain old_hash gas factor (some otx) = do
    let tx = queue.unpack otx.signed_tx chain
    price ← from_result (new_gas_price floats gas tx.gas_price node.price factor)
    r ← attempts max_resend_attempts chain tx.body factor (whole price)
    finish debug_log chain old_hash tx.body r

  -- The task.
  unfoldable pub resend_with_higher_gas : Bool → Text → Text → Option ℕ → Number → Action Text
  unfolding resend_otx
  resend_with_higher_gas debug_log old_hash chain gas factor = do
    let old_hash = enc.hash old_hash
    create_session
    otx ← query (queue.load old_hash)
    resend_otx debug_log chain old_hash gas factor otx
