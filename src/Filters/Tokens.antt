-- ===== src/Filters/Tokens.antt =====
-- token.py and transferauth.py of cic_eth/runnable/daemons/filters: transfers of tokens whose use of
-- gas is remembered, and requests for an approval. The token of a contract, the registry and the
-- decoding of requests are arguments.
use cic_stack_v.Prelude.{
  ℕ, Bool, true, false, not, ◌||◌, Option, none, some, [], ◌∷◌, ltb, ◌==◌, if◌then◌else◌,
}
use cic_stack_v.Store.Rows.{Text}
use cic_stack_v.Store.Tasks.{call, apply_gas_value_cache}
use cic_stack_v.Store.{
  Action, Result, ok, err, unknown_contract, not_a_contract, ◌>>◌, pure, raise, submit,
}
use cic_stack_v.External.{Encoding}
use cic_stack_v.Ext.{Parsed, parsed, mismatch, failed}
use cic_stack_v.Filters.Callback.{BlockTx}
use cic_stack_v.Api.{Value, Chain, tokens, reserve_nonce, approve, silent, link, last}

pub record Registry : Type 0 where
  pub parse_transfer_request : Text → Parsed (Text × ℕ)
  -- `ERC20Token`: the symbol of the token at an address
  pub symbol : Text → Result Text
  -- `CICRegistry.by_name`
  pub by_name : Text → Result Text
  -- `is_same_address` with the zero address
  pub is_zero : Text → Bool
  -- the signature of `transfer`
  pub transfer_method : Text

module _ (registry : Registry) where
  -- A token that has an address is remembered with what the transfer used.
  token_named : BlockTx → Result Text → Action Bool
  token_named tx (ok address) = if registry.is_zero address then pure false else (do
    submit (call (apply_gas_value_cache tx.input registry.transfer_method tx.gas_used tx.hash))
    pure true)
  token_named tx (err unknown_contract) = pure false
  token_named tx (err e) = raise e

  token_at : BlockTx → Result Text → Action Bool
  unfolding token_named
  token_at tx (ok symbol) = token_named tx (registry.by_name symbol)
  token_at tx (err not_a_contract) = pure false
  token_at tx (err e) = raise e

  token_matched : BlockTx → Parsed (Text × ℕ) → Action Bool
  unfolding token_at
  token_matched tx (parsed r) = token_at tx (registry.symbol tx.input)
  token_matched tx mismatch = pure false
  token_matched tx (failed e) = raise e

  -- `TokenFilter.filter`
  pub token_filter : BlockTx → Action Bool
  unfolding token_matched
  token_filter tx =
      if ltb 0 tx.length
      then token_matched tx (registry.parse_transfer_request tx.payload)
      else pure false

-- `TransferAuthFilter.filter`: the request that it starts, if it starts one. The contract is that of the
-- registry when the filter is made, and a request has a sender, a recipient, a token and a value.
module _ (enc : Encoding) (chain : Text) (transfer_request_contract : Text)
    (parse_create_request : Text → Result (Text × Text × Text × ℕ)) where
  unfoldable pub approval : Text × Text × Text × ℕ → Value × Chain
  approval (sender, recipient, token, value) = (
    tokens (record { address = enc.executable_address token; converters = []; fields = [] } ∷ []),
    link (silent (reserve_nonce chain (enc.wallet_address sender))) (
        last (
          silent (approve (enc.wallet_address sender) (enc.wallet_address recipient) value chain))),
  )

  unfoldable pub approval_for : Result (Text × Text × Text × ℕ) → Result (Option (Value × Chain))
  unfolding approval
  approval_for (ok r) = ok (some (approval r))
  approval_for (err e) = err e

  unfoldable pub transfer_auth_filter : BlockTx → Result (Option (Value × Chain))
  unfolding approval_for
  transfer_auth_filter tx =
      if not (tx.length == 264) || not (tx.input == transfer_request_contract)
      then ok none
      else approval_for (parse_create_request tx.payload)
