-- ===== src/Ext.antt =====
-- cic_eth/ext/tx.py and cic_eth/queue/time.py: the transactions of an account that a pair of Bloom
-- filters points at. The node's answers, the parsers of a transaction's data and the filters are
-- arguments.
pub mod Few
pub mod Collate
use cic_stack_v.Prelude.{
  ℕ, zero, suc, ◌+◌, ◌-◌, Bool, true, false, Option, none, some, List, [], ◌∷◌, ◌++◌, ◌==◌,
  if◌then◌else◌,
}
use cic_stack_v.Store.Rows.{Text}
use cic_stack_v.Store.Session.{Session, fresh, bind_session, release_session}
use cic_stack_v.Store.{
  Db, Action, Error, Result, ok, err, overflow_error, ◌>>=◌, ◌>>◌, pure, raise, query, from_result,
}
use cic_stack_v.External.{Encoding}
use cic_stack_v.Balance.{put}
use cic_stack_v.CicCache.Bloom.{to_bytes}

-- `Tx(tx).src()`
pub record Src : Type 0 where
  pub hash : Text
  pub from_address : Text
  pub to_address : Text
  pub nonce : ℕ
  pub input : Text
  pub block_number : ℕ

-- What a parser of data answers: `RequestMismatchException` is a mismatch.
pub data Parsed (A : Type 0) : Type 0 where
  parsed : A → Parsed A
  mismatch : Parsed A
  failed : Error → Parsed A

pub record Lookup : Type 0 where
  -- the hash of a block, and the number of its transactions
  pub block_by_number : ℕ → Result (Text × ℕ)
  -- block hash, index
  pub transaction_by_block : Text → ℕ → Result Src
  -- recipient, value
  pub parse_transfer_request : Text → Parsed (Text × ℕ)
  pub parse_give_to_request : Text → Parsed Text
  -- `token_amount` of a faucet at a block
  pub token_amount : Text → ℕ → Result ℕ
  -- the time of the block that a transaction is in, `none` on any error
  pub network_time : Text → Option ℕ
  -- the time at which a transaction was queued
  pub queue_time : Text → Db → Option ℕ

-- `bloomspec`, with the test that each filter makes.
pub record BloomSpec : Type 0 where
  pub low : ℕ
  pub high : ℕ
  pub block_filter : List ℕ → Bool
  pub blocktx_filter : List ℕ → Bool

-- `tx_r`
pub record Entry : Type 0 where
  pub hash : Text
  pub sender : Text
  pub recipient : Text
  pub source_value : ℕ
  pub destination_value : ℕ
  pub source_token : Text
  pub destination_token : Text
  pub nonce : ℕ
  pub date_created : Option ℕ

-- `range(start, start + n)`
unfoldable pub range_from : ℕ → ℕ → List ℕ
range_from start zero = []
range_from start (suc n) = start ∷ range_from (start + 1) n

or_else : Option ℕ → Option ℕ → Option ℕ
or_else none other = other
or_else (some n) other = some n

overflow_or : Option (List ℕ) → Action (List ℕ)
overflow_or none = raise overflow_error
overflow_or (some bytes) = pure bytes

module _ (enc : Encoding) (lookup : Lookup) where
  -- The times of the queue and of the network.
  tx_times : Text → Session → Action (Option ℕ × Option ℕ)
  tx_times tx_hash session = do
    bind_session session
    queue ← query (lookup.queue_time (enc.hash tx_hash))
    release_session
    pure (queue, lookup.network_time (enc.hash tx_hash))

  parse_give_to : Src → Parsed Text → Action (Option (Text × ℕ))
  parse_give_to tx (parsed recipient) = do
    value ← from_result (lookup.token_amount tx.to_address tx.block_number)
    pure (some (recipient, value))
  parse_give_to tx mismatch = pure none
  parse_give_to tx (failed e) = raise e

  parse_transfer : Src → Parsed (Text × ℕ) → Action (Option (Text × ℕ))
  unfolding parse_give_to
  parse_transfer tx (parsed r) = pure (some r)
  parse_transfer tx mismatch = parse_give_to tx (lookup.parse_give_to_request tx.input)
  parse_transfer tx (failed e) = raise e

  parse_transaction : Src → Action (Option (Text × ℕ))
  unfolding parse_transfer
  parse_transaction tx = parse_transfer tx (lookup.parse_transfer_request tx.input)

  entry_of : Src → Text × ℕ → Option ℕ × Option ℕ → Entry
  unfolding or_else
  entry_of tx (recipient, value) (queue, network) = record {
    hash = tx.hash;
    sender = enc.wallet_address tx.from_address;
    recipient = enc.wallet_address recipient;
    source_value = value;
    destination_value = value;
    source_token = tx.to_address;
    destination_token = tx.to_address;
    nonce = tx.nonce;
    date_created = or_else queue network;
  }

  -- A transaction that goes to the address. (The receipt is looked up too, and not used.)
  for_address : Text → Src → Option (Text × ℕ) → Action (Option Entry)
  unfolding entry_of tx_times
  for_address address tx none = pure none
  for_address address tx (some r) =
      if enc.wallet_address address == enc.wallet_address r.0
      then (do times ← tx_times tx.hash fresh; pure (some (entry_of tx r times)))
      else pure none

  from_node : Text → Result Src → Action (Option Entry)
  unfolding parse_transaction for_address
  from_node address (err e) = pure none
  from_node address (ok tx) = do r ← parse_transaction tx; for_address address tx r

  -- What is listed for one index of a block: nothing for a miss of the filter, for a false positive, for
  -- another kind of transaction, and for one to another address.
  pub visit : BloomSpec → Text → List ℕ → Text → ℕ → Action (Option Entry)
  unfolding from_node overflow_or to_bytes
  visit spec address block_bytes block_hash index = do
    index_bytes ← overflow_or (to_bytes index)
    elim (spec.blocktx_filter (block_bytes ++ index_bytes)) [
      | true ↦ from_node address (lookup.transaction_by_block block_hash index)
      | false ↦ pure none
    ]

  -- The loop over the indices of a block ends at the first that is listed.
  pub scan_block :
      BloomSpec → Text → List ℕ → Text → List ℕ → List (Text × Entry) → Action (List (Text × Entry))
  unfolding put
  scan_block spec address block_bytes block_hash [] txs = pure txs
  scan_block spec address block_bytes block_hash (index ∷ indices) txs = do
    found ← visit spec address block_bytes block_hash index
    elim found [
      | none ↦ scan_block spec address block_bytes block_hash indices txs
      | some e ↦ pure (put (enc.strip_0x e.hash) e txs)
    ]

  pub scan_if :
      Bool → BloomSpec → Text → List ℕ → ℕ → List (Text × Entry) → Action (List (Text × Entry))
  unfolding scan_block range_from
  scan_if false spec address block_bytes height txs = pure txs
  scan_if true spec address block_bytes height txs = do
    block ← from_result (lookup.block_by_number height)
    scan_block spec address block_bytes block.0 (range_from 0 block.1) txs

  pub scan_blocks : BloomSpec → Text → List ℕ → List (Text × Entry) → Action (List (Text × Entry))
  unfolding scan_if
  scan_blocks spec address [] txs = pure txs
  scan_blocks spec address (height ∷ heights) txs = do
    block_bytes ← overflow_or (to_bytes height)
    txs ← scan_if (spec.block_filter block_bytes) spec address block_bytes height txs
    scan_blocks spec address heights txs

  -- The blocks from `low` up to the one before `high`.
  unfoldable pub list_tx_by_bloom : BloomSpec → Text → Action (List (Text × Entry))
  unfolding range_from scan_blocks scan_block visit
  list_tx_by_bloom spec address =
      scan_blocks spec address (range_from spec.low (spec.high - spec.low)) []
