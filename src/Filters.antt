-- ===== src/Filters.antt =====
-- The filters that the chain tracker and the retrier apply to a transaction: tx.py, gas.py,
-- register.py and straggler.py of cic_eth/runnable/daemons/filters. The counting and the logging of
-- their base class are left out.
pub mod Settled
pub mod Resumed
pub mod Callback
pub mod Tokens
use cic_stack_v.Prelude.{
  ℕ, Bool, true, false, not, ◌||◌, Option, none, some, List, [], ◌∷◌, map, ltb, ◌==◌, bit_and,
  if◌then◌else◌, select,
}
use cic_stack_v.Store.Rows.{Text, TxCacheRow}
use cic_stack_v.Store.Tasks.{
  Task, call, link, group, set_final, obsolete, reserve_nonce, gift, set_checked,
  resend_with_higher_gas,
}
use cic_stack_v.Store.Session.{Session, bind_session, release_session}
use cic_stack_v.Store.{
  Db, Worker, Action, Result, ok, err, ⊤, tx_state_change, ◌>>=◌, ◌>>◌, pure, query, submit,
  from_result,
}
use cic_stack_v.External.{Encoding, Queue, Node, Tx}
use cic_stack_v.Gas.Check.{create_check_gas_task}
use cic_stack_v.Upcoming.{found}

-- The first topic of a log, and the address in its second.
pub record Log : Type 0 where
  pub topic : Text
  pub address : Text

-- A transaction of a block: whether it has no payload, whether its execution failed, and its place.
pub record Mined : Type 0 where
  pub tx : Tx
  pub no_payload : Bool
  pub failed : Bool
  pub block_number : ℕ
  pub index : ℕ
  pub logs : List Log

-- A filter answers whether it submitted a task.
module _ (enc : Encoding) (queue : Queue) (node : Node) (chain : Text) where
  -- `TxFilter.filter`. Where the queue has no entry, the session is not released.
  settle_found : Mined → Bool → Action Bool
  settle_found m false = pure false
  settle_found m true = do
    release_session
    submit (
        group (call (obsolete chain (enc.add_0x m.tx.hash) true))
          (call (set_final chain (enc.add_0x m.tx.hash) m.block_number m.index m.failed)))
    pure true

  unfoldable pub has_entry : Mined → Db → Bool
  has_entry m db = found (queue.load (enc.add_0x m.tx.hash) db)

  pub tx_filter : Mined → Session → Action Bool
  unfolding settle_found has_entry
  tx_filter m db_session = do bind_session db_session; otx ← query (has_entry m); settle_found m otx

  -- `GasFilter.filter`. The paused transactions are those of the chainqueue library that have the
  -- status, by hash.
  resume : Text → List (Text × Text) → Action Bool
  resume address [] = pure false
  resume address (tx ∷ txs) = do
    submit (
        create_check_gas_task (map (λ t. t.1) (tx ∷ txs)) chain address (some 0)
          (some (map (λ t. t.0) (tx ∷ txs))))
    pure true

  refilled : (ℕ → Text → Action (List (Text × Text))) → Text → List TxCacheRow → Action Bool
  unfolding resume
  refilled get_paused_tx target [] = do release_session; pure false
  refilled get_paused_tx target (r ∷ rs) = do
    txs ← get_paused_tx queue.bits.gas_issues target
    release_session
    resume (enc.checksum target) txs

  pub gas_filter : (ℕ → Text → Action (List (Text × Text))) → Mined → Session → Action Bool
  unfolding refilled
  gas_filter get_paused_tx m db_session =
      if ltb 0 m.tx.value || m.no_payload
      then (do
        bind_session db_session
        rows ← query (λ db. select (λ c. c.sender == enc.wallet_address m.tx.recipient) db.tx_cache)
        refilled get_paused_tx (enc.wallet_address m.tx.recipient) rows)
      else pure false

  -- `RegistrationFilter.filter`: the first log with the topic.
  gift_for : Text → List Log → Action Bool
  gift_for topic [] = pure false
  gift_for topic (l ∷ ls) =
      let rest = gift_for topic ls in
      if l.topic == topic
      then (do
        submit (
            link (call (reserve_nonce (enc.checksum (enc.add_0x l.address)) chain none))
              (call (gift chain)))
        pure true)
      else rest

  pub registration_filter : Text → Text → Mined → Action Bool
  unfolding gift_for
  registration_filter contract_address add_log_hash m =
      if contract_address == m.tx.recipient then gift_for add_log_hash m.logs else pure false

  -- `StragglerFilter.filter`. The status of a transaction, `obsolete_by_cache` and `set_fubar` are the
  -- chainqueue library's.
  after_obsolete : Mined → (Text → Action ⊤) → Result ⊤ × Worker → Result Bool × Worker
  after_obsolete m set_fubar (ok _, w) =
      (do submit (call (resend_with_higher_gas m.tx.hash chain)); pure true) w
  after_obsolete m set_fubar (err tx_state_change, w) = (do set_fubar m.tx.hash; pure false) w
  after_obsolete m set_fubar (err e, w) = (err e, w)

  resend_straggler : Mined → (Text → Action ⊤) → (Text → Action ⊤) → Action Bool
  unfolding after_obsolete
  resend_straggler m obsolete_by_cache set_fubar w =
      after_obsolete m set_fubar (obsolete_by_cache m.tx.hash w)

  short_of_gas : ℕ → Mined → Bool → Action Bool
  short_of_gas threshold m false = pure false
  short_of_gas threshold m true = do
    balance ← from_result (node.balance m.tx.sender)
    pure (ltb balance threshold)

  pub straggler_filter :
      ℕ → (Text → Action ℕ) → (Text → Action ⊤) → (Text → Action ⊤) → Mined → Action Bool
  unfolding short_of_gas resend_straggler
  straggler_filter threshold status_code obsolete_by_cache set_fubar m = do
    status ← status_code m.tx.hash
    short ← short_of_gas threshold m (ltb 0 (bit_and status queue.bits.gas_issues))
    if short
        then (do submit (call (set_checked chain m.tx.hash)); pure true)
        else resend_straggler m obsolete_by_cache set_fubar
