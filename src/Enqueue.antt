-- ===== src/Enqueue.antt =====
-- What the tasks of cic_eth/eth/account.py and cic_eth/eth/erc20.py do once their transaction is
-- signed: it is registered with the queue, and its sender's gas is checked.
pub mod Effect
use cic_stack_v.Prelude.{ℕ, ◌*◌, some, [], ◌∷◌}
use cic_stack_v.Store.Rows.{Text}
use cic_stack_v.Store.Session.{given, close}
use cic_stack_v.Store.{Action, ⊤, ◌>>=◌, ◌>>◌, commit, submit}
use cic_stack_v.External.{Encoding, Queue}
use cic_stack_v.QueueTx
use cic_stack_v.Gas.Check.{create_check_gas_task}

-- `get_gas` of the gas oracle gives the price and the limit for a transaction.
pub enqueue : Encoding → Queue → (Text → ℕ × ℕ) → Text → Text → Text → Text → Text → Action ⊤
enqueue enc queue get_gas chain holder cache_task tx_hash signed = do
  QueueTx.register_tx enc queue tx_hash signed chain (some cache_task) given
  commit
  close
  submit (
      create_check_gas_task (signed ∷ []) chain holder
        (some ((get_gas signed).0 * (get_gas signed).1)) (some (tx_hash ∷ [])))
