-- ===== src/Examples/Network.antt =====
-- Runs with the network: sending, retrying, and the filters of a block.
use cic_stack_v.Prelude.{
  ℕ, ◌+◌, ◌≤◌, ◌≡◌, refl, false, true, arith, none, some, List, [], ◌∷◌, ◌++◌, map, All, length,
  inl, inr, ◌==◌, if◌then◌else◌,
}
use cic_stack_v.Store.Rows.{Text}
use cic_stack_v.Store.Table.{first}
use cic_stack_v.Store.Session.{given}
use cic_stack_v.Store.{Worker, Action, ok, err, eth_error}
use cic_stack_v.External.{Tx}
use cic_stack_v.Gas.Limits.{class_limits}
use cic_stack_v.Gas.Check.{check_gas, create_check_gas_task}
use cic_stack_v.Send.{Network}
use cic_stack_v.Send.Drain.{follow, follow-reported, reported, report, spawned}
use cic_stack_v.Retry.{process}
use cic_stack_v.Retry.Batch.{IsExpected, process-IsExpected}
use cic_stack_v.Filters.{Mined, gas_filter, has_entry}
use cic_stack_v.Filters.Settled.{filter_block, filter_block-settles, settlement}
use cic_stack_v.Filters.Resumed.{gas_filter-resumes}
use cic_stack_v.Upcoming.{found}
use cic_stack_v.Examples.{enc, queue, node, unsigned, db, worker, worker_on, queued_row}

-- The node refuses what is sent to it as 42.
abbrev refusing : Network
refusing = record {
  keccak = λ t. t + 1000;
  raw = λ t. if t == 42 then err eth_error else ok tt;
  transaction = λ h. ok tt;
  receipt = λ h. ok none;
}

follow-reported_example :
    let w' = follow enc refusing true 9 3 (41 ∷ 42 ∷ 43 ∷ []) worker in
    (reported w'.submitted
      ≡ reported worker.submitted ++ map (report enc refusing true 9) (41 ∷ 42 ∷ 43 ∷ []))
    × (spawned w'.submitted ≡ [])
follow-reported_example =
    follow-reported enc refusing true 9 41 (42 ∷ 43 ∷ []) worker
      (inl refl, (inr refl, (inl refl, tt)))

abbrev stalled : ℕ → ℕ → List Tx
stalled before limit =
    record { body = unsigned; hash = 31 }
    ∷ record { body = record unsigned { nonce = 9 }; hash = 32 }
    ∷ []

abbrev network_nonce : Text → ℕ
network_nonce a = 4

process-IsExpected_example :
    let txs = process enc network_nonce 50 60 1000 0 stalled stalled in
    All (IsExpected enc network_nonce) txs × (length txs ≤ 50)
process-IsExpected_example = process-IsExpected enc network_nonce 50 60 1000 0 stalled stalled

abbrev mined : Text → Mined
mined hash = record {
  tx = record { body = unsigned; hash = hash };
  no_payload = true;
  failed = false;
  block_number = 13;
  index = 42;
  logs = [];
}

-- The queue has the first of the two.
filter_block-settles_example :
    filter_block enc queue node 9 (mined 31 ∷ mined 99 ∷ []) worker
    ≡ record worker { submitted = settlement enc queue node 9 (mined 31) ∷ [] }
unfolding has_entry first found
filter_block-settles_example =
    filter_block-settles enc queue node 9 (mined 31 ∷ mined 99 ∷ []) worker refl

-- Account 22 has sent a transaction itself, and two of its transactions wait.
abbrev waiting_worker : Worker
waiting_worker = worker_on (record db { tx_cache = record queued_row { sender = 22 } ∷ [] })

abbrev paused : ℕ → Text → Action (List (Text × Text))
paused status sender w = (ok ((31, 41) ∷ (32, 42) ∷ []), w)

gas_filter-resumes_example :
    ((gas_filter enc queue node 9 paused (mined 35) given waiting_worker).1.submitted
      ≡ create_check_gas_task (41 ∷ 42 ∷ []) 9 22 (some 0) (some (31 ∷ 32 ∷ [])) ∷ [])
    × ((check_gas enc queue node class_limits
          (31 ∷ 32 ∷ [])
          9
          (41 ∷ 42 ∷ [])
          (some 22)
          (some 0)
          worker).0
        ≡ ok (41 ∷ 42 ∷ []))
gas_filter-resumes_example =
    gas_filter-resumes enc queue node 9 paused (mined 35) 31 41 ((32, 42) ∷ [])
      (record queued_row { sender = 22 }) [] waiting_worker class_limits 100000 worker (omega arith)
      refl refl refl refl refl
