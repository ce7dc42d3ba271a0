-- ===== src/Token/Info.antt =====
-- What cic_eth/eth/erc20.py tells of tokens, and the checks of their proofs that it submits. A token's
-- own data are arguments.
pub mod Checked
use cic_stack_v.Prelude.{ℕ, zero, suc, ◌+◌, Option, none, some, List, [], ◌∷◌}
use cic_stack_v.Store.Rows.{Text}
use cic_stack_v.Store.Tasks.{Task, TokenInfo, call, callback, link, on_error, verify_proofs}
use cic_stack_v.Store.{Action, Result, index_error, ◌>>=◌, ◌>>◌, pure, raise, from_result, submit}
use cic_stack_v.External.{Encoding}
use cic_stack_v.Balance.{Token}

-- `ERC20Token` once it is loaded.
pub record Loaded : Type 0 where
  pub address : Text
  pub symbol : Text
  pub name : Text
  pub decimals : ℕ

pub record Contract : Type 0 where
  pub load : Text → Result Loaded
  -- `to_identifier` of a symbol
  pub to_identifier : Text → Text

unfoldable pub proofs_at : List (List Text) → ℕ → Action (List Text)
proofs_at [] i = raise index_error
proofs_at (p ∷ ps) zero = pure p
proofs_at (p ∷ ps) (suc i) = proofs_at ps i

-- The proofs that are asked for at a place of the list: none if there are no proofs at all.
unfoldable pub proofs_for : List (List Text) → ℕ → Action (List Text)
unfolding proofs_at
proofs_for [] i = pure []
proofs_for (p ∷ ps) i = proofs_at (p ∷ ps) i

module _ (enc : Encoding) (contract : Contract) (proofs : List (List Text)) where
  unfoldable pub info_of : ℕ → Token → Action TokenInfo
  unfolding proofs_for
  info_of i token = do
    loaded ← from_result (contract.load (enc.add_0x token.address))
    more ← proofs_for proofs i
    pure (record {
      address = enc.executable_address loaded.address;
      symbol = loaded.symbol;
      name = loaded.name;
      decimals = loaded.decimals;
      proofs = contract.to_identifier loaded.symbol ∷ more;
      converters = token.converters;
    })

  unfoldable pub infos_from : ℕ → List Token → Action (List TokenInfo)
  unfolding info_of
  infos_from i [] = pure []
  infos_from i (token ∷ tokens) = do
    info ← info_of i token
    rest ← infos_from (i + 1) tokens
    pure (info ∷ rest)

  unfoldable pub token_info : List Token → Action (List TokenInfo)
  unfolding infos_from
  token_info tokens = infos_from 0 tokens

-- The callbacks that the check of a token is given.
unfoldable pub with_callbacks : Option (Text × ℕ) → Option (Text × ℕ) → Task → Task
with_callbacks none none s = s
with_callbacks (some (p, n)) none s = link s (call (callback p n))
with_callbacks none (some (p, n)) s = on_error s (call (callback p n))
with_callbacks (some (p, n)) (some (q, m)) s =
    on_error (link s (call (callback p n))) (call (callback q m))

unfoldable pub verify_token_info :
    Text → Option (Text × ℕ) → Option (Text × ℕ) → List TokenInfo → Action (List TokenInfo)
unfolding with_callbacks
verify_token_info chain success error [] = pure []
verify_token_info chain success error (token ∷ tokens) = do
  submit
      (with_callbacks success error (call (verify_proofs token token.address token.proofs chain)))
  rest ← verify_token_info chain success error tokens
  pure (token ∷ rest)
