-- ===== src/Examples/Watched.antt =====
-- Runs of the filters that watch the network for transfers and for requests of approvals.
use cic_stack_v.Prelude.{ℕ, ◌≡◌, refl, true, false, some, none, [], ◌∷◌, ◌++◌, arith}
use cic_stack_v.Store.Rows.{Text, approve_cache_task}
use cic_stack_v.Store.Tasks.{call, transfer_type, transfer_callback}
use cic_stack_v.Store.{Result, ok}
use cic_stack_v.Lock.Effect.{flags_at}
use cic_stack_v.Lock.Check.{hit_aggregate, hit}
use cic_stack_v.Store.Table.{first}
use cic_stack_v.QueueTx.Locked.{is_locked}
use cic_stack_v.Nonce.Effect.{upcoming, after_next}
use cic_stack_v.Enqueue.Effect.{tasks}
use cic_stack_v.Ext.{parsed, mismatch}
use cic_stack_v.Filters.Callback.{
  TokenData, BlockTx, Contracts, callback_filter, translate_address, label_by,
}
use cic_stack_v.Filters.Callback.Once.{
  Reports, transfer_of, callback_filter-Reports, callback_filter-transfer,
}
use cic_stack_v.Filters.Tokens.{transfer_auth_filter}
use cic_stack_v.Api.{Value, Chain, text, serve}
use cic_stack_v.Api.Approvals.{transfer_auth_filter-approves}
use cic_stack_v.Examples.{enc, queue, db, worker, empty-IsKeyed}
use cic_stack_v.Examples.Requests.{world, erc20}

-- A call of the contract 51 by account 21.
abbrev block_tx : BlockTx
block_tx = record {
  hash = 31;
  payload = 41;
  length = 264;
  input = 51;
  output = 21;
  value = 0;
  fails = false;
  gas_used = 50000;
}

abbrev watched_token : TokenData
watched_token = record { symbol = 52; name = 53; decimals = 6 }

abbrev watched : Contracts
watched = record {
  parse_transfer_request = λ input. parsed (22, 7);
  parse_transfer_from_request = λ input. mismatch;
  parse_give_to_request = λ input. mismatch;
  faucet_token = λ a. ok 51;
  faucet_amount = λ a. ok 0;
  declarator = ok 61;
  declaration = λ declarator trusted subject. ok (81 ∷ []);
  label = λ d. ok (some 82);
  token = λ a. ok watched_token;
  trusted_addresses = [];
}

callback_filter-Reports_example :
    Reports enc watched worker (callback_filter enc watched block_tx worker)
callback_filter-Reports_example = callback_filter-Reports enc watched block_tx worker

callback_filter-transfer_example : callback_filter enc watched block_tx worker ≡ (
  ok true,
  record worker {
    submitted =
        worker.submitted
        ++ call (
            transfer_callback
              (transfer_of enc watched block_tx 22 7 none none watched_token)
              transfer_type
              0)
          ∷ [];
  },
)
unfolding translate_address label_by
callback_filter-transfer_example =
    callback_filter-transfer enc watched block_tx 22 7 none none watched_token worker (omega arith)
      refl refl refl refl

abbrev create_request : Text → Result (Text × Text × Text × ℕ)
create_request payload = ok (21, 23, 51, 10)

transfer_auth_filter-approves_example :
    (request : Value × Chain) × (transfer_auth_filter enc 9 51 create_request block_tx
      ≡ ok (some request))
    × (serve world 71 request worker ≡ (
      ok (text 5),
      record worker {
        work = after_next 21 0 db;
        committed = after_next 21 0 db;
        submitted = worker.submitted ++ tasks enc queue erc20.get_gas 9 21 approve_cache_task 5 41;
      },
    ))
unfolding hit_aggregate hit flags_at first is_locked queue upcoming
transfer_auth_filter-approves_example =
    transfer_auth_filter-approves 9 51 create_request world 71 worker empty-IsKeyed block_tx 21 23
      51 5 41 10 (after_next 21 0 db) refl refl refl refl refl refl refl (_, refl)
