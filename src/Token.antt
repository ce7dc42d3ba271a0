-- ===== src/Token.antt =====
-- The token tasks of cic_eth/eth/erc20.py that read the network and that make transactions. The
-- contracts, through the registry, and the signer are arguments.
pub mod Transfer
pub mod Cache
pub mod Info
use cic_stack_v.Prelude.{ℕ, Option, none, some, List, [], ◌∷◌, ltb, if◌then◌else◌}
use cic_stack_v.Store.Rows.{
  Text, default_role, transfer_cache_task, transfer_from_cache_task, approve_cache_task,
}
use cic_stack_v.Store.Session.{given, create_session, close}
use cic_stack_v.Store.{
  Action, Error, Result, ok, err, ⊤, token_count, broke, key_error, signer, ◌>>=◌, ◌>>◌, pure,
  raise, from_result,
}
use cic_stack_v.External.{Encoding, Queue, Signing, signed, unavailable, failed}
use cic_stack_v.Role
use cic_stack_v.NonceTask
use cic_stack_v.Enqueue.{enqueue}
use cic_stack_v.Balance.{Token, put, lookup}

-- The keys `symbol` and `balance_network` of a token.
abbrev pub symbol_key : Text
symbol_key = 3

abbrev pub balance_network_key : Text
balance_network_key = 4

pub record Erc20 : Type 0 where
  -- `CICRegistry.by_name`: a symbol, for the sender of the call
  pub by_name : Text → Text → Result Text
  -- contract, holder
  pub balance_of : Text → Text → Result ℕ
  -- contract, holder, spender
  pub allowance : Text → Text → Text → Result ℕ
  -- contract, sender, recipient, value, nonce
  pub transfer : Text → Text → Text → ℕ → ℕ → Signing
  -- contract, sender, holder, recipient, value, nonce
  pub transfer_from : Text → Text → Text → Text → ℕ → ℕ → Signing
  -- contract, sender, spender, value, nonce
  pub approve : Text → Text → Text → ℕ → ℕ → Signing
  pub get_gas : Text → ℕ × ℕ

signed_or_error : Signing → Result (Text × Text)
signed_or_error (signed tx_hash raw) = ok (tx_hash, raw)
signed_or_error unavailable = err signer
signed_or_error (failed e) = err e

unfoldable pub single : List Token → Action Token
single (t ∷ []) = pure t
single ts = raise token_count

-- The text of the error names the symbol of the token.
raise_broke : Option ℕ → Action ⊤
raise_broke none = raise key_error
raise_broke (some symbol) = raise broke

module _ (enc : Encoding) (queue : Queue) (erc20 : Erc20) where
  resolve : Text → List Text → Action (List Token)
  resolve sender [] = pure []
  resolve sender (symbol ∷ symbols) = do
    address ← from_result (erc20.by_name symbol sender)
    tokens ← resolve sender symbols
    pure
        (record { address = address; converters = []; fields = (symbol_key, symbol) ∷ [] } ∷ tokens)

  unfoldable pub resolve_tokens_by_symbol : List Text → Action (List Token)
  unfolding resolve
  resolve_tokens_by_symbol token_symbols = do
    create_session
    sender ← Role.get_address default_role given
    close
    resolve sender token_symbols

  unfoldable pub balance : Text → List Token → Action (List Token)
  unfolding put
  balance holder [] = pure []
  balance holder (t ∷ ts) = do
    b ← from_result (erc20.balance_of t.address holder)
    ts ← balance holder ts
    pure (record t { fields = put balance_network_key b t.fields } ∷ ts)

  pub check_allowance : Text → ℕ → Text → List Token → Action (List Token)
  unfolding single raise_broke lookup
  check_allowance holder value spender tokens = do
    t ← single tokens
    allowance ← from_result (erc20.allowance t.address holder spender)
    if ltb allowance value then raise_broke (lookup symbol_key t.fields) else pure tt
    pure tokens

  -- What the three tasks below share: a transaction with the nonce that the task holds for `holder`.
  pub spend : Text → Text → Text → Text → (ℕ → Signing) → Action Text
  unfolding signed_or_error
  spend chain holder cache_task root_id build = do
    create_session
    nonce ← NonceTask.next_nonce enc holder root_id given
    tx ← from_result (signed_or_error (build nonce))
    enqueue enc queue erc20.get_gas chain holder cache_task tx.0 tx.1
    pure tx.0

  unfoldable pub transfer : List Token → Text → Text → ℕ → Text → Text → Action Text
  unfolding single spend
  transfer tokens holder receiver value chain root_id = do
    t ← single tokens
    spend chain holder transfer_cache_task root_id (erc20.transfer t.address holder receiver value)

  unfoldable pub transfer_from : List Token → Text → Text → ℕ → Text → Text → Text → Action Text
  unfolding single spend
  transfer_from tokens holder receiver value chain spender root_id = do
    t ← single tokens
    spend chain holder transfer_from_cache_task root_id
        (erc20.transfer_from t.address spender holder receiver value)

  unfoldable pub approve : List Token → Text → Text → ℕ → Text → Text → Action Text
  unfolding single spend
  approve tokens holder spender value chain root_id = do
    t ← single tokens
    spend chain holder approve_cache_task root_id (erc20.approve t.address holder spender value)
