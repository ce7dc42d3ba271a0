-- ===== src/Api/Balances.antt =====
-- `balance` of cic_eth/api/api_task.py: a chord of chains of tasks, and what is made of their results.
-- The chains run side by side; as they only read, the order in which they are run here is not seen.
pub mod Answer
use cic_stack_v.Prelude.{ℕ, Bool, true, false, Option, List, [], ◌∷◌, if◌then◌else◌}
use cic_stack_v.Store.Rows.{Text}
use cic_stack_v.Store.{Action, ok, err, ⊤, ◌>>=◌, ◌>>◌, pure}
use cic_stack_v.External.{Encoding, Queue}
use cic_stack_v.Balance.{Token, balance_outgoing, balance_incoming, assemble_balances}
use cic_stack_v.Token
use cic_stack_v.Token.{Erc20}
use cic_stack_v.Api.{Api, callback_with, notify}

-- A task that is linked to another has its result for itself.
unfoldable pub aside : {A : Type 0} → Action A → Action ⊤
aside m w = let (r, w') = m w in (ok tt, w')

-- `s.link(success).on_error(error)`: `link` returns the callback of success, so that the callback of
-- errors is linked to that one, and a task that fails has none.
unfoldable pub reporting : {A : Type 0} → Option (Text × ℕ) → Action A → Action A
reporting success m w =
    let (r, w') = m w in elim r [ ok a ↦ (ok a, notify success w') | err e ↦ (err e, w') ]

module _ (enc : Encoding) (queue : Queue) (erc20 : Erc20) (dead : ℕ)
    (is_balance : Text → Bool) where
  module _ (address : Text) where
    unfoldable incoming_linked : List Token → Action (List Token)
    unfolding aside
    incoming_linked tokens = do
      found ← balance_incoming enc dead tokens address
      aside (balance_outgoing enc dead found address)
      pure found

    -- The task `balance`, with the tasks linked to it if the pending transactions count.
    unfoldable balance_linked : Bool → List Token → Action (List Token)
    unfolding aside incoming_linked
    balance_linked include_pending tokens = do
      found ← Token.balance enc queue erc20 address tokens
      if include_pending then aside (incoming_linked found) else pure tt
      pure found

    unfoldable chain_of : Text → (List Token → Action (List Token)) → Action (List Token)
    chain_of token_symbol step = do
      tokens ← Token.resolve_tokens_by_symbol enc queue erc20 (token_symbol ∷ [])
      step tokens

    -- The header of the chord.
    unfoldable chord_header : Text → Bool → Action (List (List Token))
    unfolding chain_of balance_linked incoming_linked
    chord_header token_symbol false = do
      one ← chain_of token_symbol (balance_linked false)
      pure (one ∷ [])
    chord_header token_symbol true = do
      one ← chain_of token_symbol (balance_linked true)
      two ← chain_of token_symbol incoming_linked
      three ← chain_of token_symbol (λ tokens. balance_outgoing enc dead tokens address)
      pure (one ∷ two ∷ three ∷ [])

  -- `balance`
  unfoldable pub serve_balance : Api → Text → Text → Bool → Action (List Token)
  unfolding reporting chord_header
  serve_balance api address token_symbol include_pending =
      reporting (callback_with 0 api.callback_param) (do
        found ← chord_header address token_symbol include_pending
        pure (assemble_balances enc is_balance found))
