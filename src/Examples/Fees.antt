-- ===== src/Examples/Fees.antt =====
-- Runs with gas: the cache of gas values, the check, a refill, a resend.
use cic_stack_v.Prelude.{
  ℕ, ◌+◌, ◌/◌, ltb, true, ◌≡◌, refl, ◌*◌, arith, max, false, none, some, List, [], ◌∷◌, ◌++◌,
}
use cic_stack_v.Store.Table.{first}
use cic_stack_v.Store.{Worker, Result, ok}
use cic_stack_v.External.{Node, Unsigned, Floats}
use cic_stack_v.Role.Lookup.{address_for}
use cic_stack_v.Reservation.Effect.{after_release}
use cic_stack_v.Gas.Limits.{class_limits}
use cic_stack_v.Gas.Cache.Highest.{Report, apply_all, highest, cached, cached-apply_all}
use cic_stack_v.Gas.Check.{check_gas, check_gas_task}
use cic_stack_v.Gas.Check.Outcome.{outcome, check_gas-outcome}
use cic_stack_v.Gas.Refill.{refill_gas}
use cic_stack_v.Store.Tasks.{Number, whole, float, call, cache_tx, set_ready}
use cic_stack_v.Store.Rows.{Text, gas_cache_task}
use cic_stack_v.Lock.Effect.{flags_at}
use cic_stack_v.QueueTx.Locked.{is_locked}
use cic_stack_v.Gas.Refill.Sends.{refill_tx, refill_gas-sends}
use cic_stack_v.Gas.Resend.{
  resend_with_higher_gas, attempts, new_gas_price, first_price, int_times, int_of, times, not_same,
}
use cic_stack_v.Gas.Resend.Price.{Resent, NotLowering, greater, resend_with_higher_gas-raises}
use cic_stack_v.QueueTx.{queue_create}
use cic_stack_v.Lock.{check_aggregate, check}
use cic_stack_v.Examples.{
  enc, queue, node, db, worker, worker_on, queued_otx, unsigned, empty-IsKeyed,
}

abbrev reports : List Report
reports =
    record { address = 61; method = 81; value = 50000; tx_hash = 31 }
    ∷ record { address = 61; method = 81; value = 40000; tx_hash = 32 }
    ∷ []

cached-apply_all_example :
    cached 61 81 (apply_all enc reports worker).committed
    ≡ max (cached 61 81 worker.committed) (highest enc 61 81 reports)
cached-apply_all_example = cached-apply_all enc reports worker 61 81

-- 100000 is enough for a budget of 21000 and below the safe threshold.
check_gas-outcome_example :
    check_gas enc queue node class_limits (31 ∷ []) 9 (41 ∷ []) (some 21) (some 21000) worker ≡ (
      (outcome enc queue node class_limits (31 ∷ []) 9 41 [] 21 (some 21000) worker 100000).0,
      record worker {
        work = worker.committed;
        registered = false;
        submitted =
            worker.submitted
            ++ (outcome enc queue node class_limits
                (31 ∷ [])
                9
                41
                []
                21
                (some 21000)
                worker
                100000).1;
      },
    )
check_gas-outcome_example =
    check_gas-outcome enc queue node class_limits (31 ∷ []) 9 41 [] 21 (some 21000) worker 100000
      refl refl

abbrev gifting_worker : Worker
gifting_worker =
    worker_on (record db { reservations = record { address_hex = 11; nonce = 3; key = 71 } ∷ [] })

abbrev rich_node : Node
rich_node = record node { balance = λ a. ok 100000000 }

-- The hash of a transaction is its price, from 1000 on: 1001.
refill_gas-sends_example : refill_gas enc queue rich_node class_limits 21 9 0 71 gifting_worker ≡ (
  ok 7,
  record gifting_worker {
    work = after_release 11 71 gifting_worker.committed;
    submitted = call (cache_tx gas_cache_task 1001 7 9) ∷ call (set_ready 9 1001) ∷ [];
  },
)
unfolding first address_for refill_tx is_locked flags_at
refill_gas-sends_example =
    refill_gas-sends enc queue rich_node class_limits 21 9 0 71 gifting_worker 100000000 refl
      (record { address_hex = 11; nonce = 3; key = 71 }) 1001 7
      (after_release 11 71 gifting_worker.committed) gifting_worker.committed (omega arith) refl
      refl empty-IsKeyed refl refl

-- Floats with two decimals, by their hundredths.
abbrev hundredths : Number → Number → Result Number
hundredths (whole a) (whole b) = ok (whole (a * b))
hundredths (whole a) (float b) = ok (float (a * b))
hundredths (float a) (whole b) = ok (float (a * b))
hundredths (float a) (float b) = ok (float (a * b / 100))

abbrev floats : Floats
floats = record { times = hundredths; int = λ a. ok (a / 100); gt = λ a n. ltb (100 * n) a }

-- 1.01 times a price is no lower.
keeps_prices : NotLowering floats (float 101)
unfolding times int_times int_of greater
keeps_prices = record { int_grows = λ n q e. ground (arith, e); stays_greater = grows }
  where
    grows :
        (p q : Number) (n : ℕ)
        → greater floats p n ≡ true
        → times floats p (float 101) ≡ ok q
        → greater floats q n ≡ true
    grows (whole a) q n above e = ground (arith, above, e)
    grows (float a) q n above e = ground (arith, above, e)

abbrev build_raw : Unsigned → Number → Result (Text × Text)
build_raw tx (whole p) = ok (1000 + p, 7)
build_raw tx (float p) = ok (2000 + p, 7)

-- The old price is 5 and the network asks 7: 1.01 times the price is 5 again, and the attempt at 6 is
-- taken.
abbrev dear_node : Node
dear_node = record node { price = 7 }

abbrev resent_worker : Worker
resent_worker = record worker {
  submitted = check_gas_task (7 ∷ []) 9 21 (some (whole (6 * 21000))) (some (1006 ∷ [])) ∷ [];
}

resent :
    resend_with_higher_gas enc queue dear_node floats build_raw false 31 9 none (float 101) worker
    ≡ (ok 1006, resent_worker)
unfolding resend_with_higher_gas attempts new_gas_price first_price int_times int_of times not_same
    queue_create check_aggregate check first
resent = refl

resend_with_higher_gas-raises_example :
    Resent enc queue dear_node floats build_raw 9 unsigned 5 1006 resent_worker
unfolding first
resend_with_higher_gas-raises_example =
    resend_with_higher_gas-raises enc queue dear_node floats build_raw 9 (float 101) keeps_prices
      false 31 1006 queued_otx worker resent_worker refl resent
