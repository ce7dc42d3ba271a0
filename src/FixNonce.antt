-- ===== src/FixNonce.antt =====
-- `process_nonce` of cic_eth/runnable/fix_nonce.py: the gaps between the nonces of a sender, and which
-- transactions are to be made again with which nonces. The rows are those of its query, by nonce.
pub mod Kept
pub mod Consecutive
use cic_stack_v.Prelude.{
  ℕ, zero, suc, ◌+◌, ◌-◌, Option, none, some, List, [], ◌∷◌, ltb, ◌==◌, if◌then◌else◌,
}
use cic_stack_v.Store.Rows.{Text}
use cic_stack_v.Balance.{put, lookup}
use cic_stack_v.Ext.{range_from}

-- The variables of the loop over the rows; `last_nonce` is -1 before the first.
pub record Gaps : Type 0 where
  pub last_nonce : Option ℕ
  pub current_delta : ℕ
  pub deltas : List (ℕ × ℕ)
  pub first_gap : ℕ
  pub txs : List (ℕ × Text)

abbrev pub no_gaps : Gaps
no_gaps = record { last_nonce = none; current_delta = 0; deltas = []; first_gap = 0; txs = [] }

-- A transaction that is to be made again, and the one that has its new nonce.
pub record Move : Type 0 where
  pub old_nonce : ℕ
  pub new_nonce : ℕ
  pub signed_tx : Text
  pub replaced : Option Text

unfoldable pub after_last : Gaps → Option ℕ → ℕ → Text → Gaps
unfolding put
after_last s none nonce signed_tx = record s {
  last_nonce = some nonce;
  current_delta = 0;
  txs = put nonce signed_tx s.txs;
}
after_last s (some l) nonce signed_tx =
    if ltb nonce (l + 2)
    then record s { last_nonce = some nonce; txs = put nonce signed_tx s.txs }
    else record s {
      last_nonce = some nonce;
      current_delta = s.current_delta + (nonce - l - 1);
      deltas = put nonce (s.current_delta + (nonce - l - 1)) s.deltas;
      first_gap = if s.first_gap == 0 then nonce else s.first_gap;
      txs = put nonce signed_tx s.txs;
    }

unfoldable pub gaps_from : Gaps → List (ℕ × Text) → Gaps
unfolding after_last
gaps_from s [] = s
gaps_from s ((nonce, signed_tx) ∷ rows) = gaps_from (after_last s s.last_nonce nonce signed_tx) rows

unfoldable pub new_delta : ℕ → Option ℕ → ℕ
new_delta delta none = delta
new_delta delta (some d) = d

-- A nonce without a transaction is passed over.
unfoldable pub move_if : Gaps → ℕ → ℕ → Option Text → List Move → List Move
move_if s i delta none rest = rest
move_if s i delta (some raw) rest =
    record {
      old_nonce = i;
      new_nonce = i - delta;
      signed_tx = raw;
      replaced = lookup (i - delta) s.txs;
    }
    ∷ rest

unfoldable pub moves_over : Gaps → ℕ → List ℕ → List Move
unfolding move_if new_delta
moves_over s delta [] = []
moves_over s delta (i ∷ is) =
    let d = new_delta delta (lookup i s.deltas) in
    move_if s i d (lookup i s.txs) (moves_over s d is)

unfoldable pub moves_of : Gaps → Option ℕ → List (ℕ × ℕ) → List Move
unfolding moves_over
moves_of s none deltas = []
moves_of s (some l) [] = []
moves_of s (some l) (d ∷ deltas) = moves_over s 0 (range_from s.first_gap (l - s.first_gap))

-- From the first gap up to the nonce before the last.
unfoldable pub moves : List (ℕ × Text) → List Move
unfolding moves_of gaps_from
moves rows = let s = gaps_from no_gaps rows in moves_of s s.last_nonce s.deltas
