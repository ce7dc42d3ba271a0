-- ===== src/Gas/Limits.antt =====
-- The amounts of gas that the tasks go by: class attributes of cic_eth/task.py, which the worker
-- replaces from its configuration (cic_eth/runnable/daemons/tasker.py).
use cic_stack_v.Prelude.{ℕ, ◌*◌}

pub record Limits : Type 0 where
  pub safe_gas_threshold_amount : ℕ
  pub safe_gas_refill_amount : ℕ
  pub safe_gas_gifter_balance : ℕ

-- The attributes of `CriticalWeb3Task`.
abbrev pub class_limits : Limits
class_limits = record {
  safe_gas_threshold_amount = 60000 * 3;
  safe_gas_refill_amount = 60000 * 3 * 5;
  safe_gas_gifter_balance = 60000 * 3 * 5 * 100;
}

-- `MAXIMUM_FEE_UNITS` of cic_eth/eth/util.py.
abbrev pub maximum_fee_units : ℕ
maximum_fee_units = 8000000
