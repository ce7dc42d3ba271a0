-- ===== src/Api/Balances/Answer.antt =====
-- What a balance request answers.
use cic_stack_v.Prelude.{ℕ, Bool, true, false, ◌≡◌, refl, List, [], ◌∷◌, arith}
use cic_stack_v.Store.Rows.{Text, default_role}
use cic_stack_v.Store.{Worker, ok}
use cic_stack_v.External.{Encoding, Queue}
use cic_stack_v.Role.Lookup.{address_for}
use cic_stack_v.Balance.{
  Token, put, lookup, incoming, outgoing, balance_incoming, balance_outgoing,
  balance_incoming_compatible, balance_outgoing_compatible, balance_incoming_key,
  balance_outgoing_key, assemble_balances, values, add_collection, add_tokens, add_token, token_at,
  copy_balances,
}
use cic_stack_v.Token
use cic_stack_v.Token.{Erc20, symbol_key, balance_network_key}
use cic_stack_v.Token.Transfer.{resolve-one}
use cic_stack_v.Api.{Api, callback_with, notify}
use cic_stack_v.Api.Balances.{
  aside, reporting, incoming_linked, balance_linked, chain_of, chord_header, serve_balance,
}

-- A worker whose session is new.
idle : Worker → Worker
idle w = record w { work = w.committed; registered = false }

abbrev known_token : Text → Text → List (Text × ℕ) → Token
known_token symbol token balances = record {
  address = token;
  converters = [];
  fields = (symbol_key, symbol) ∷ balances;
}

module _ (enc : Encoding) (dead : ℕ) (address : Text) (t : Token) (w : Worker) where
  pending_in : ℕ
  pending_in =
      incoming dead (enc.executable_address t.address) (enc.wallet_address address) w.committed

  pending_out : ℕ
  pending_out =
      outgoing dead (enc.executable_address t.address) (enc.wallet_address address) w.committed

  balance_incoming-one :
      balance_incoming enc dead (t ∷ []) address w
      ≡ (ok (record t { fields = put balance_incoming_key pending_in t.fields } ∷ []), idle w)
  unfolding balance_incoming balance_incoming_compatible pending_in idle
  balance_incoming-one = refl

  balance_outgoing-one :
      balance_outgoing enc dead (t ∷ []) address w
      ≡ (ok (record t { fields = put balance_outgoing_key pending_out t.fields } ∷ []), idle w)
  unfolding balance_outgoing balance_outgoing_compatible pending_out idle
  balance_outgoing-one = refl

module _ (enc : Encoding) (queue : Queue) (erc20 : Erc20) (dead : ℕ) (is_balance : Text → Bool)
    (address symbol token : Text) (balance : ℕ) (w : Worker) where
  what_in : ℕ
  what_in = incoming dead (enc.executable_address token) (enc.wallet_address address) w.committed

  what_out : ℕ
  what_out = outgoing dead (enc.executable_address token) (enc.wallet_address address) w.committed

  in_chains : Bool → List (List Token)
  in_chains false = (known_token symbol token ((balance_network_key, balance) ∷ []) ∷ []) ∷ []
  in_chains true =
      (known_token symbol token ((balance_network_key, balance) ∷ []) ∷ [])
      ∷ (known_token symbol token ((balance_incoming_key, what_in) ∷ []) ∷ [])
      ∷ (known_token symbol token ((balance_outgoing_key, what_out) ∷ []) ∷ [])
      ∷ []

  chord_header-known :
      (include_pending : Bool)
      → erc20.by_name symbol (address_for default_role w.committed) ≡ ok token
      → erc20.balance_of token address ≡ ok balance
      → chord_header enc queue erc20 dead is_balance address symbol include_pending w
        ≡ (ok (in_chains include_pending), idle w)
  unfolding chord_header chain_of balance_linked incoming_linked aside in_chains what_in what_out
      idle Token.balance put balance_incoming balance_outgoing balance_incoming_compatible
      balance_outgoing_compatible
  chord_header-known false known held =
      ground (arith, resolve-one enc queue erc20 symbol token w known, held)
  chord_header-known true known held = ground (
    arith,
    resolve-one enc queue erc20 symbol token w known,
    resolve-one enc queue erc20 symbol token (idle w) known,
    held,
  )

  -- The balances that a request tells of.
  pub balances_told : Bool → List (Text × ℕ)
  balances_told false = (balance_network_key, balance) ∷ []
  balances_told true =
      (balance_network_key, balance)
      ∷ (balance_incoming_key, what_in)
      ∷ (balance_outgoing_key, what_out)
      ∷ []

  assemble_balances-in_chains :
      (include_pending : Bool)
      → is_balance symbol_key ≡ false
      → is_balance balance_network_key ≡ true
      → is_balance balance_incoming_key ≡ true
      → is_balance balance_outgoing_key ≡ true
      → assemble_balances enc is_balance (in_chains include_pending)
        ≡ record {
          address = enc.executable_address token;
          converters = [];
          fields = balances_told include_pending;
        }
          ∷ []
  unfolding assemble_balances values add_collection add_tokens add_token token_at copy_balances put
      lookup in_chains balances_told
  assemble_balances-in_chains false other n i o = ground (arith, other, n)
  assemble_balances-in_chains true other n i o = ground (arith, other, n, i, o)

-- A balance request, of a token that the registry knows, from a contract that tells of the balance,
-- answers one token: its address, the balance of the network and, if the pending transactions count,
-- the values that transactions of the queue bring to the holder and take from it, at the addresses in
-- the form of the queue. The callback of success is called if there is one, and nothing is written.
pub serve_balance-known :
    (enc : Encoding) (queue : Queue) (erc20 : Erc20) (dead : ℕ) (is_balance : Text → Bool)
    (api : Api) (address symbol token : Text) (balance : ℕ) (include_pending : Bool) (w : Worker)
    → is_balance symbol_key ≡ false
    → is_balance balance_network_key ≡ true
    → is_balance balance_incoming_key ≡ true
    → is_balance balance_outgoing_key ≡ true
    → erc20.by_name symbol (address_for default_role w.committed) ≡ ok token
    → erc20.balance_of token address ≡ ok balance
    → serve_balance enc queue erc20 dead is_balance api address symbol include_pending w ≡ (
      ok (
          record {
            address = enc.executable_address token;
            converters = [];
            fields =
                balances_told enc queue erc20 dead is_balance address symbol token balance w
                  include_pending;
          }
          ∷ []),
      notify
          (callback_with 0 api.callback_param)
          (record w { work = w.committed; registered = false }),
    )
unfolding serve_balance reporting idle
serve_balance-known enc queue erc20 dead is_balance api address symbol token balance include_pending
      w other n i o known held =
    ground (
      arith,
      chord_header-known enc queue erc20 dead is_balance address symbol token balance w
          include_pending known held,
      assemble_balances-in_chains enc queue erc20 dead is_balance address symbol token balance w
          include_pending other n i o,
    )
