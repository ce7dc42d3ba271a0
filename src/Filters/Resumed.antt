-- ===== src/Filters/Resumed.antt =====
-- A gas refill that is mined resumes the transactions that wait for it.
use cic_stack_v.Prelude.{
  ℕ, ◌<◌, ◌≡◌, true, false, some, List, [], ◌∷◌, ◌++◌, map, arith, select, ◌==◌, lt→ltb, ap, ◌∙◌,
}
use cic_stack_v.Store.Rows.{Text, TxCacheRow}
use cic_stack_v.Store.Session.{given}
use cic_stack_v.Store.{Action, Worker, ok}
use cic_stack_v.External.{Encoding, Queue, Node}
use cic_stack_v.Gas.Limits.{Limits}
use cic_stack_v.Gas.Check.{create_check_gas_task, check_gas}
use cic_stack_v.Gas.Check.Outcome.{check_gas-outcome, outcome-enough}
use cic_stack_v.Filters.{Mined, gas_filter}

module _ (enc : Encoding) (queue : Queue) (node : Node) (chain : Text)
    (get_paused_tx : ℕ → Text → Action (List (Text × Text))) (m : Mined) where
  abbrev pub target : Text
  target = enc.wallet_address m.tx.recipient

  -- Where value is sent to an account that has sent transactions itself, and of which some wait for gas,
  -- the filter submits one gas check of all of these; and the check, whatever the balance that the node
  -- tells then, raises nothing and returns them all.
  pub gas_filter-resumes :
      (h tx : Text) (txs : List (Text × Text)) (r : TxCacheRow) (rs : List TxCacheRow) (w : Worker)
      (limits : Limits) (b : ℕ) (v : Worker)
      → 0 < m.tx.value
      → w.registered ≡ false
      → select (λ c. c.sender == target) w.work.tx_cache ≡ r ∷ rs
      → get_paused_tx queue.bits.gas_issues target w ≡ (ok ((h, tx) ∷ txs), w)
      → enc.is_address (enc.checksum target) ≡ true
      → node.balance
          (enc.add_0x (enc.checksum (enc.add_0x (enc.wallet_address (enc.checksum target)))))
        ≡ ok b
      → let hashes = h ∷ map (λ t. t.0) txs in
        let signed = tx ∷ map (λ t. t.1) txs in
        let a = enc.checksum target in
        ((gas_filter enc queue node chain get_paused_tx m given w).1.submitted
          ≡ w.submitted ++ create_check_gas_task signed chain a (some 0) (some hashes) ∷ [])
        × ((check_gas enc queue node limits hashes chain signed (some a) (some 0) v).0
            ≡ ok (map enc.wire signed))
  unfolding gas_filter
  gas_filter-resumes h tx txs r rs w limits b v value free sent paused valid balance =
      let hashes = h ∷ map (λ t. t.0) txs in
      let signed = map (λ t. t.1) txs in
      let a = enc.checksum target in
      (
        ground (arith, lt→ltb 0 m.tx.value value, free, sent, paused),
        ap (λ x. x.0)
              (check_gas-outcome enc queue node limits hashes chain tx signed a (some 0) v b valid
                balance)
            ∙ outcome-enough enc queue node limits hashes chain tx signed a (some 0) v b
                (ground arith),
      )
