-- ===== src/Examples/Admins.antt =====
-- Runs of the administrator's calls.
use cic_stack_v.Prelude.{
  ℕ, ◌-◌, ◌≡◌, refl, true, some, none, Option, All, List, ◌+◌, arith, [], ◌∷◌, map,
}
use cic_stack_v.Store.Rows.{Text}
use cic_stack_v.Store.{Result, ok, err, type_error}
use cic_stack_v.Admin.{QueueTx, Workers, check_nonce}
use cic_stack_v.Admin.Blocking.{blocker, report_on, check_nonce-blocker}
use cic_stack_v.Balance.{lookup}
use cic_stack_v.Ext.{range_from}
use cic_stack_v.FixNonce.{moves, moves_of, moves_over, gaps_from}
use cic_stack_v.FixNonce.Kept.{below}
use cic_stack_v.FixNonce.Consecutive.{Rises, moves-IsNext}
use cic_stack_v.Examples.{worker}

-- Account 21 has the transactions 30, 31 and 33, which tell their nonces 0, 1 and 3.
abbrev tx_of : Text → QueueTx
tx_of k = record {
  tx_hash = k;
  nonce = k - 30;
  status = 2;
  sender = 21;
  recipient = 22;
  signed_tx = 41;
  date_updated = 0;
}

abbrev prefixed : Option Text → Result Text
prefixed none = err type_error
prefixed (some k) = ok k

abbrev workers : Workers
workers = record {
  account_txs = λ address as_recipient. ok (30 ∷ 31 ∷ 33 ∷ []);
  latest_txs = ok [];
  get_tx = λ k. ok (tx_of k);
  sender_of = λ raw. ok 21;
  is_alive = λ status. true;
  local_fail = 1;
  add_0x = prefixed;
  uniform = λ a. a;
}

check_nonce-blocker_example :
    let found = blocker workers tx_of (λ k. refl) (λ raw. 21) (λ raw. refl) (30 ∷ 31 ∷ 33 ∷ []) in
    (n : ℕ) × (check_nonce workers 21 worker ≡ (
      report_on workers tx_of (λ k. refl) (λ raw. 21) (λ raw. refl) n found (workers.add_0x found),
      worker,
    ))
check_nonce-blocker_example =
    check_nonce-blocker workers tx_of (λ k. refl) (λ raw. 21) (λ raw. refl) 21 (30 ∷ 31 ∷ 33 ∷ [])
      worker refl

-- The nonces 5, 7, 8 and 10: the second and the third transaction are moved, the last is not.
abbrev gap_rows : List (ℕ × Text)
gap_rows = (7, 42) ∷ (8, 43) ∷ (10, 44) ∷ []

moves_of_gap_rows :
    moves ((5, 41) ∷ gap_rows)
    ≡ record { old_nonce = 7; new_nonce = 6; signed_tx = 42; replaced = none }
      ∷ record { old_nonce = 8; new_nonce = 7; signed_tx = 43; replaced = some 42 }
      ∷ []
unfolding moves moves_of moves_over gaps_from range_from lookup
moves_of_gap_rows = refl

moves-IsNext_example :
    All
      (λ m. m.new_nonce ≡ 5 + below m.old_nonce (map (λ r. r.0) ((5, 41) ∷ gap_rows)))
      (moves ((5, 41) ∷ gap_rows))
unfolding Rises
moves-IsNext_example = moves-IsNext 5 41 gap_rows (omega arith, (omega arith, (omega arith, tt)))
