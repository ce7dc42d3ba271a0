-- ===== src/External.antt =====
-- What cic_eth calls and does not implement, as records that the models of the code take.
use cic_stack_v.Prelude.{ℕ, Bool, Option}
use cic_stack_v.Store.Rows.{Text, Otx}
use cic_stack_v.Store.Tasks.{Number}
use cic_stack_v.Store.{Db, Action, Error, Result, ⊤}

-- `TxHexNormalizer` of chainqueue (cic_eth/encode.py), and the address functions of chainlib and
-- hexathon.
pub record Encoding : Type 0 where
  pub is_address : Text → Bool
  pub wallet_address : Text → Text
  pub executable_address : Text → Text
  pub hash : Text → Text
  pub wire : Text → Text
  pub strip_0x : Text → Text
  pub add_0x : Text → Text
  pub checksum : Text → Text

-- A transaction before it is signed.
pub record Unsigned : Type 0 where
  pub sender : Text
  pub recipient : Text
  pub nonce : ℕ
  pub value : ℕ
  pub gas : ℕ
  pub gas_price : ℕ

-- A decoded transaction, as `chainlib.eth.tx.unpack` returns it.
pub record Tx : Type 0 where
  pub body : Unsigned
  pub open body use *
  pub hash : Text

-- `StatusBits` of chainqueue.
pub record StatusBits : Type 0 where
  pub final : ℕ
  pub obsolete : ℕ
  pub gas_issues : ℕ
  pub in_network : ℕ
  pub manual : ℕ

-- The chainqueue library with the decoder of chainlib.
pub record Queue : Type 0 where
  pub bits : StatusBits
  -- chain, nonce, holder, transaction hash, signed transaction
  pub create : Text → ℕ → Text → Text → Text → Action Text
  -- signed transaction, chain
  pub unpack : Text → Text → Tx
  -- `chainqueue.sql.query.get_tx`: the signed transaction of a hash on a chain
  pub get_tx : Text → Text → Action Text
  -- `Otx.load`: the entry with a transaction hash
  pub load : Text → Db → Option Otx
  -- `TxCache.clone`: old and new transaction hash
  pub clone : Text → Text → Action ⊤

-- A node and the signer, through chainlib.
pub record Node : Type 0 where
  -- the balance of an address; an error of the node is `eth_error`
  pub balance : Text → Result ℕ
  pub price : ℕ
  -- builds and signs a transaction: its hash and its text, or `signer` if the signer is not reached
  pub sign : Unsigned → Result (Text × Text)

-- Python's arithmetic of floats, as the model uses it.
pub record Floats : Type 0 where
  -- a product of two numbers one of which is a float, or an OverflowError
  pub times : Number → Number → Result Number
  -- `int()`, or an OverflowError
  pub int : Text → Result ℕ
  -- whether a float is greater than an int
  pub gt : Text → ℕ → Bool

-- What a contract's method answers that builds and signs a transaction: its hash and its text, a
-- ConnectionError or FileNotFoundError of the signer, or another exception.
pub data Signing : Type 0 where
  signed : Text → Text → Signing
  unavailable : Signing
  failed : Error → Signing
