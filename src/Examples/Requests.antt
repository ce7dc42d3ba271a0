-- ===== src/Examples/Requests.antt =====
-- Runs of the requests of the API and of the caches that they lead to.
use cic_stack_v.Prelude.{
  ℕ, Bool, true, ◌||◌, ◌==◌, ◌+◌, ◌≡◌, refl, some, none, [], ◌∷◌, ◌++◌, map, arith,
}
use cic_stack_v.Send.Custom.{custom}
use cic_stack_v.Send.Custom.Registered.{custom-registers}
use cic_stack_v.Store.Tasks.{call, cache_tx, set_ready}
use cic_stack_v.Store.Rows.{Text, Otx, transfer_cache_task}
use cic_stack_v.Store.Table.{first}
use cic_stack_v.Store.{ok, err, locked}
use cic_stack_v.External.{Queue, signed}
use cic_stack_v.Lock.Effect.{flags_at}
use cic_stack_v.Lock.Check.{hit, hit_aggregate}
use cic_stack_v.Nonce.Effect.{upcoming, after_next}
use cic_stack_v.QueueTx.Locked.{is_locked}
use cic_stack_v.Enqueue.Effect.{tasks}
use cic_stack_v.Gas.Limits.{class_limits}
use cic_stack_v.Token.{Erc20, balance_network_key}
use cic_stack_v.Token.Info.{Loaded, Contract}
use cic_stack_v.Token.Info.Checked.{check_of}
use cic_stack_v.Api.{
  Api, World, Value, Chain, text, infos, one, several, for_each, item_list, to_v_list,
  callback_with, notify, serve, start_transfer, start_transfer_from, start_tokens,
}
use cic_stack_v.Balance.{balance_incoming_key, balance_outgoing_key}
use cic_stack_v.Api.Balances.{serve_balance}
use cic_stack_v.Api.Balances.Answer.{balances_told, serve_balance-known}
use cic_stack_v.Api.Tokens.{told, serve-start_tokens}
use cic_stack_v.Api.Locked.{serve-locked}
use cic_stack_v.Api.Transfers.{success_of, serve-start_transfer}
use cic_stack_v.Examples.{
  enc, queue, queue_bits, unsigned, node, contracts, db, worker, locked_worker, empty-IsKeyed,
  one-IsKeyed,
}

-- One token at 51; the transaction of a transfer is 41, and its hash tells its nonce.
abbrev pub erc20 : Erc20
erc20 = record {
  by_name = λ symbol sender. ok 51;
  balance_of = λ contract holder. ok 10;
  allowance = λ contract holder spender. ok 10;
  transfer = λ contract sender recipient value nonce. signed nonce 41;
  transfer_from = λ contract sender holder recipient value nonce. signed nonce 41;
  approve = λ contract sender spender value nonce. signed nonce 41;
  get_gas = λ tx. (5, 21000);
}

-- The token at an address has the address for its symbol and its name.
abbrev pub loaded_at : Text → Loaded
loaded_at a = record { address = a; symbol = a; name = a; decimals = 6 }

abbrev pub contract : Contract
contract = record { load = λ a. ok (loaded_at a); to_identifier = λ symbol. symbol + 100 }

abbrev pub world : World
world = record {
  enc = enc;
  queue = queue;
  contracts = contracts;
  erc20 = erc20;
  contract = contract;
  node = node;
  limits = class_limits;
}

abbrev api : Api
api = record { chain = 9; callback_param = some 99 }

serve-locked_example :
    (serve world 71 (start_transfer api 21 22 10 52) locked_worker
      ≡ (err (locked 16), locked_worker))
    × (serve world 71 (start_transfer_from api 21 22 10 52 23) locked_worker
        ≡ (err (locked 16), locked_worker))
unfolding hit_aggregate hit flags_at first
serve-locked_example =
    serve-locked world 71 locked_worker one-IsKeyed api 21 22 52 23 10 (omega arith)

serve-start_transfer_example : serve world 71 (start_transfer api 21 22 10 52) worker ≡ (
  ok (text 5),
  record worker {
    work = after_next 21 0 db;
    committed = after_next 21 0 db;
    submitted =
        (worker.submitted ++ tasks enc queue erc20.get_gas 9 21 transfer_cache_task 5 41)
        ++ success_of (some 99);
  },
)
unfolding hit_aggregate hit flags_at first is_locked queue upcoming
serve-start_transfer_example =
    serve-start_transfer world 71 worker empty-IsKeyed api 21 22 52 51 5 41 10 (after_next 21 0 db)
      refl refl refl refl refl refl (_, refl)

-- Two tokens, the second with a proof of its own.
serve-start_tokens_example :
    let address_of : Text → Text = λ s. 51 in
    let told_of =
      told world 71 worker empty-IsKeyed address_of loaded_at
        (λ s. refl)
        (λ a. refl)
        (52 ∷ 53 ∷ [])
        ((61 ∷ []) ∷ (62 ∷ 63 ∷ []) ∷ []) in
    (request : Value × Chain) × (start_tokens api
        (52 ∷ 53 ∷ [])
        (for_each (one 61 ∷ several (62 ∷ 63 ∷ []) ∷ []))
      ≡ ok request)
    × (serve world 71 request worker ≡ (
      ok (infos told_of),
      record worker {
        submitted =
            worker.submitted
            ++ map (check_of 9 (callback_with 0 (some 99)) (callback_with 1 (some 99))) told_of;
      },
    ))
unfolding to_v_list item_list
serve-start_tokens_example =
    serve-start_tokens world 71 worker empty-IsKeyed (λ s. 51) loaded_at (λ s. refl) (λ a. refl) api
      (52 ∷ 53 ∷ []) (for_each (one 61 ∷ several (62 ∷ 63 ∷ []) ∷ []))
      ((61 ∷ []) ∷ (62 ∷ 63 ∷ []) ∷ []) refl

-- The queue adds an entry with the nonce and the hash that it is given.
abbrev new_entry : ℕ → Text → Text → Otx
new_entry nonce hash raw = record {
  id = 2;
  nonce = nonce;
  tx_hash = hash;
  signed_tx = raw;
  status = 0;
}

abbrev adding_queue : Queue
adding_queue = record {
  bits = queue_bits;
  create = λ chain nonce holder hash raw w. (
    ok hash,
    record w { work = record w.work { otxs = new_entry nonce hash raw ∷ w.work.otxs } },
  );
  unpack = λ raw chain. record { body = unsigned; hash = raw };
  get_tx = λ chain hash w. (ok hash, w);
  load = λ hash db. none;
  clone = λ old new w. (ok tt, w);
}

custom-registers_example :
    custom enc adding_queue (λ tx payload. signed 81 82) unsigned 41 9 3 worker ≡ (
      ok 81,
      record worker {
        work = record db { otxs = new_entry 4 81 82 ∷ db.otxs };
        submitted = worker.submitted ++ call (cache_tx 3 81 82 9) ∷ call (set_ready 9 81) ∷ [];
      },
    )
unfolding is_locked flags_at first
custom-registers_example =
    custom-registers enc adding_queue (λ tx payload. signed 81 82) unsigned 41 9 3 81 82 worker
      (record db { otxs = new_entry 4 81 82 ∷ db.otxs }) db empty-IsKeyed refl refl refl

-- The keys of balances.
abbrev is_balance : Text → Bool
is_balance k =
    (k == balance_network_key) || (k == balance_incoming_key) || (k == balance_outgoing_key)

abbrev balance_api : Api
balance_api = record { chain = 9; callback_param = some 5 }

serve_balance-known_example :
    serve_balance enc queue erc20 192 is_balance balance_api 21 3 true worker ≡ (
      ok (
          record {
            address = 51;
            converters = [];
            fields = balances_told enc queue erc20 192 is_balance 21 3 51 10 worker true;
          }
          ∷ []),
      notify (some (5, 0)) worker,
    )
serve_balance-known_example =
    serve_balance-known enc queue erc20 192 is_balance balance_api 21 3 51 10 true worker refl refl
      refl refl refl refl
