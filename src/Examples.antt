-- ===== src/Examples.antt =====
-- Concrete libraries, a database and workers for the runs of the modules below.
mod Nonces
mod Locks
mod Fees
mod Queues
mod Mined
mod Network
mod Accounts
mod Dispatching
mod Requests
mod Outside
mod Watched
mod Admins
use cic_stack_v.Prelude.{ℕ, ◌+◌, arith, false, Option, none, some, List, [], ◌∷◌, ltb, ◌==◌}
use cic_stack_v.Store.Rows.{
  Text, NonceRow, Reservation, LockRow, RoleRow, GasRow, Otx, TxCacheRow, gas_gifter,
}
use cic_stack_v.Store.Table.{first, count}
use cic_stack_v.Store.{Db, Worker, ok}
use cic_stack_v.Lock.Effect.{IsKeyed}
use cic_stack_v.Account.{Contracts, made_account}
use cic_stack_v.External.{Encoding, Unsigned, Tx, StatusBits, Queue, Node}

-- Texts in normal form already; 0 is no address.
abbrev pub enc : Encoding
enc = record {
  is_address = λ a. ltb 0 a;
  wallet_address = λ a. a;
  executable_address = λ a. a;
  hash = λ h. h;
  wire = λ t. t;
  strip_0x = λ t. t;
  add_0x = λ t. t;
  checksum = λ t. t;
}

abbrev pub unsigned : Unsigned
unsigned = record { sender = 21; recipient = 22; nonce = 4; value = 1; gas = 21000; gas_price = 5 }

abbrev pub queue_bits : StatusBits
queue_bits = record { final = 64; obsolete = 128; gas_issues = 16; in_network = 8; manual = 256 }

abbrev pub queue : Queue
unfolding first
queue = record {
  bits = queue_bits;
  create = λ chain nonce holder hash signed w. (ok hash, w);
  unpack = λ signed chain. record { body = unsigned; hash = signed };
  get_tx = λ chain hash w. (ok hash, w);
  load = λ hash db. first (λ o. o.tx_hash == hash) db.otxs;
  clone = λ old new w. (ok tt, w);
}

-- The hash of a transaction is its price, from 1000 on.
abbrev pub node : Node
node = record { balance = λ a. ok 100000; price = 3; sign = λ tx. ok (1000 + tx.gas_price, 7) }

abbrev pub queued_otx : Otx
queued_otx = record { id = 1; nonce = 4; tx_hash = 31; signed_tx = 41; status = 2 }

abbrev pub queued_row : TxCacheRow
queued_row = record {
  otx_id = 1;
  sender = 21;
  recipient = 22;
  source_token = 51;
  destination_token = 51;
  from_value = 10;
  to_value = 10;
  date_checked = 0;
}

abbrev pub db : Db
db = record {
  nonces = record { address_hex = 21; nonce = 5 } ∷ [];
  reservations = [];
  locks = [];
  roles = record { tag = gas_gifter; address_hex = 11 } ∷ [];
  gas_cache = [];
  otxs = queued_otx ∷ [];
  tx_cache = queued_row ∷ [];
}

abbrev pub worker_on : Db → Worker
worker_on d = record { committed = d; work = d; registered = false; submitted = [] }

abbrev pub worker : Worker
worker = worker_on db

-- Chain 9, account 21, whose queueing is locked.
abbrev pub queue_lock : LockRow
queue_lock = record { blockchain = 9; address = 21; flags = 16; otx_id = none }

abbrev pub locked_worker : Worker
locked_worker = worker_on (record db { locks = queue_lock ∷ [] })

pub empty-IsKeyed : IsKeyed worker.committed.locks
unfolding count
empty-IsKeyed c a = omega arith

pub one-IsKeyed : IsKeyed locked_worker.work.locks
unfolding count
one-IsKeyed c a = ground arith

-- The signer makes account 30; the registry is at 61, and its transactions tell their nonce.
abbrev pub contracts : Contracts
contracts = record {
  new_account = made_account 30;
  account_registry = λ a. ok 61;
  faucet = λ a. ok 62;
  add = λ registry writer account nonce. ok (nonce, 41);
  give_to = λ faucet sender account nonce. ok (nonce, 42);
  get_gas = λ signed. (5, 21000);
}
