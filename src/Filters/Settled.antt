-- ===== src/Filters/Settled.antt =====
-- The transactions of a block that the queue knows are settled.
use cic_stack_v.Prelude.{
  ◌≡◌, true, false, List, [], ◌∷◌, ◌++◌, map, arith, ◌∙◌, ap, select, Bool-cases, inl, inr, sym,
  if◌then◌else◌,
}
use mathlib.Core.List.{append_assoc, append-nil}
use cic_stack_v.Store.Rows.{Text}
use cic_stack_v.Store.Tasks.{Task, call, group, set_final, obsolete}
use cic_stack_v.Store.Session.{given}
use cic_stack_v.Store.{Worker}
use cic_stack_v.External.{Encoding, Queue, Node}
use cic_stack_v.Filters.{Mined, tx_filter, has_entry}

module _ (enc : Encoding) (queue : Queue) (node : Node) (chain : Text) where
  -- The transactions of a block, one after the other, in the syncer's session.
  pub filter_block : List Mined → Worker → Worker
  filter_block [] w = w
  filter_block (m ∷ ms) w = filter_block ms (tx_filter enc queue node chain m given w).1

  pub settlement : Mined → Task
  settlement m =
      group (call (obsolete chain (enc.add_0x m.tx.hash) true))
        (call (set_final chain (enc.add_0x m.tx.hash) m.block_number m.index m.failed))

  tx_filter-match :
      (m : Mined) (w : Worker)
      → w.registered ≡ false
      → has_entry enc queue node chain m w.work ≡ true
      → (tx_filter enc queue node chain m given w).1
        ≡ record w { submitted = w.submitted ++ settlement m ∷ [] }
  unfolding tx_filter settlement
  tx_filter-match m w free there = ground (arith, free, there)

  tx_filter-miss :
      (m : Mined) (w : Worker)
      → has_entry enc queue node chain m w.work ≡ false
      → (tx_filter enc queue node chain m given w).1 ≡ w
  unfolding tx_filter
  tx_filter-miss m w absent = ground (arith, absent)

  -- In a session of the caller's, the filter submits for each transaction of the block that the queue has
  -- an entry of, in the order of the block, that its entry is final, with its place and whether it failed,
  -- and that others with its nonce are obsolete; nothing else is submitted or changed.
  pub filter_block-settles :
      (ms : List Mined) (w : Worker)
      → w.registered ≡ false
      → filter_block ms w ≡ record w {
        submitted =
            w.submitted
            ++ map settlement (select (λ m. has_entry enc queue node chain m w.work) ms);
      }
  unfolding filter_block
  filter_block-settles [] w free =
      ap (λ ts. record w { submitted = ts }) (sym (append-nil w.submitted))
  filter_block-settles (m ∷ ms) w free =
      let kept = select (λ m. has_entry enc queue node chain m w.work) ms in
      elim (Bool-cases (has_entry enc queue node chain m w.work)) [
        | inl there ↦
            let w' : Worker = record w { submitted = w.submitted ++ settlement m ∷ [] } in
            ap (filter_block ms) (tx_filter-match m w free there)
            ∙ filter_block-settles ms w' free
            ∙ ap (λ ts. record w { submitted = ts })
                (append_assoc w.submitted (settlement m ∷ []) (map settlement kept)
                  ∙ ap (λ b. w.submitted ++ map settlement (if b then m ∷ kept else kept))
                      (sym there))
        | inr absent ↦
            ap (filter_block ms) (tx_filter-miss m w absent)
            ∙ filter_block-settles ms w free
            ∙ ap
                (λ b. record w {
                  submitted = w.submitted ++ map settlement (if b then m ∷ kept else kept);
                })
                (sym absent)
      ]
