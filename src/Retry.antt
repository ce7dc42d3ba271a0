-- ===== src/Retry.antt =====
-- `NonceChecker` and the batch of `RetrySyncer` of cic_eth/sync/retry.py: which stalled transactions
-- the straggler filter is applied to. The queries of the queue, the state monitor and the node's nonces
-- are arguments.
pub mod Batch
use cic_stack_v.Prelude.{
  ℕ, ◌+◌, ◌-◌, Bool, true, false, Option, none, some, List, [], ◌∷◌, ◌++◌, ltb, leb, ◌==◌,
  if◌then◌else◌,
}
use cic_stack_v.Store.Rows.{Text}
use cic_stack_v.External.{Encoding, Tx}
use cic_stack_v.Balance.{put, lookup}

-- `self.nonces_next`
abbrev pub NoncesNext : Type 0
NoncesNext = List (Text × ℕ)

-- The loop over the transactions of one query: those that are retried, in order, the number of them so
-- far, and whether the whole process returns as the batch is full.
pub record Turn : Type 0 where
  pub retried : List Tx
  pub batch_count : ℕ
  pub full : Bool

unfoldable pub retry_one : Bool → Tx → Turn → Turn
retry_one true tx turn = record turn { retried = tx ∷ turn.retried }
retry_one false tx turn = turn

module _ (enc : Encoding) (network_nonce : Text → ℕ) where
  -- The nonce that is kept for the address, or the network's, which is kept then. (The name
  -- `outputs[0]` of chainlib's transaction is its sender.)
  unfoldable pub known_nonce : Text → Option ℕ → NoncesNext → ℕ × NoncesNext
  unfolding put
  known_nonce address (some n) nonces = (n, nonces)
  known_nonce address none nonces =
      (network_nonce (enc.add_0x address), put address (network_nonce (enc.add_0x address)) nonces)

  unfoldable pub check : Tx → NoncesNext → Bool × NoncesNext
  unfolding known_nonce lookup
  check tx nonces =
      let address = enc.checksum tx.sender in
      let (next, nonces') = known_nonce address (lookup address nonces) nonces in
      ((if ltb tx.nonce next then false else tx.nonce == next), nonces')

  unfoldable pub retry_all : ℕ → List Tx → NoncesNext → ℕ → Turn
  unfolding check retry_one
  retry_all batch_size [] nonces batch_count = record {
    retried = [];
    batch_count = batch_count;
    full = false;
  }
  retry_all batch_size (tx ∷ txs) nonces batch_count =
      let (due, nonces') = check tx nonces in
      let turn = retry_all batch_size txs nonces' (if due then batch_count + 1 else batch_count) in
      if leb batch_size batch_count
      then record { retried = []; batch_count = batch_count; full = true }
      else retry_one due tx turn

  -- The threshold of the query: so many seconds before now, or before the block that the tracker saw
  -- last if it lags behind that; none seen is 0.
  pub retry_before : ℕ → ℕ → ℕ → ℕ
  retry_before stalled_grace_seconds now lastseen =
      if lastseen == 0
      then now - stalled_grace_seconds
      else if ltb lastseen (now - stalled_grace_seconds)
      then lastseen - stalled_grace_seconds
      else now - stalled_grace_seconds

  -- The process for a block: the transactions that the filter is applied to. A query takes the
  -- threshold and the limit; the nonces are forgotten between the two.
  second_turn : ℕ → (ℕ → List Tx) → Turn → List Tx
  unfolding retry_all
  second_turn batch_size stalled_gas turn =
      if turn.full
      then turn.retried
      else turn.retried
        ++ (retry_all batch_size (stalled_gas (batch_size - turn.batch_count)) []
            turn.batch_count).retried

  pub process : ℕ → ℕ → ℕ → ℕ → (ℕ → ℕ → List Tx) → (ℕ → ℕ → List Tx) → List Tx
  unfolding retry_all second_turn retry_before
  process batch_size stalled_grace_seconds now lastseen stalled_network stalled_gas =
      let before = retry_before stalled_grace_seconds now lastseen in
      second_turn batch_size (stalled_gas before)
        (retry_all batch_size (stalled_network before (batch_size - 0)) [] 0)
