-- ===== src/Api.antt =====
-- The chains of tasks that cic_eth/api/api_task.py starts, and what a worker does with one: each task
-- runs when the one before has returned, with its result as the first argument and the root id of the
-- first. What fails stops the chain.
pub mod Locked
pub mod Transfers
pub mod Approvals
pub mod Tokens
pub mod Balances
pub mod Listings
use cic_stack_v.Prelude.{
  ℕ, Bool, true, false, Option, none, some, List, [], ◌∷◌, ◌++◌, map, length, ◌==◌, if◌then◌else◌,
}
use cic_stack_v.Store.Rows.{Text, zero_address, account_registry_writer, gas_gifter}
use cic_stack_v.Store.Tasks.{call, callback, TokenInfo}
use cic_stack_v.Store.{
  Worker, Action, Result, ok, err, type_error, value_error, ◌>>=◌, ◌>>◌, pure, raise,
}
use cic_stack_v.External.{Encoding, Queue, Node}
use cic_stack_v.LockEnum
use cic_stack_v.Ctrl
use cic_stack_v.NonceTask
use cic_stack_v.Account
use cic_stack_v.Account.{Contracts}
use cic_stack_v.Gas.Limits.{Limits}
use cic_stack_v.Gas.Refill
use cic_stack_v.Balance.{Token as TokenDict}
use cic_stack_v.Token
use cic_stack_v.Token.{Erc20}
use cic_stack_v.Token.Info
use cic_stack_v.Token.Info.{Contract}

-- What one task hands to the next.
pub data Value : Type 0 where
  text : Text → Value
  texts : List Text → Value
  tokens : List TokenDict → Value
  infos : List TokenInfo → Value

-- The tasks, without the argument that a link feeds. `approve` is that of the transfer authorizations
-- in cic_eth/runnable/daemons/filters.
pub data Step : Type 0 where
  -- chain, flags, address
  check_lock : Text → ℕ → Option Text → Step
  -- chain, signer
  reserve_nonce : Text → Text → Step
  resolve_tokens_by_symbol : Step
  -- the proofs of each token
  token_info : List (List Text) → Step
  -- chain, callback of success, callback of errors
  verify_token_info : Text → Option (Text × ℕ) → Option (Text × ℕ) → Step
  -- holder, value, spender
  check_allowance : Text → ℕ → Text → Step
  -- holder, recipient, value, chain
  transfer : Text → Text → ℕ → Text → Step
  -- holder, recipient, value, chain, spender
  transfer_from : Text → Text → ℕ → Text → Text → Step
  -- holder, spender, value, chain
  approve : Text → Text → ℕ → Text → Step
  create register refill_gas : Text → Step

-- A signature with the callbacks that are linked to it.
pub record Signature : Type 0 where
  pub step : Step
  pub success : Option (Text × ℕ)
  pub error : Option (Text × ℕ)

-- `s.link(t)`
pub data Chain : Type 0 where
  last : Signature → Chain
  link : Signature → Chain → Chain

abbrev pub silent : Step → Signature
silent step = record { step = step; success = none; error = none }

-- `ApiBase`: the chain and the parameter of the callback.
pub record Api : Type 0 where
  pub chain : Text
  pub callback_param : Option Text

abbrev pub callback_with : ℕ → Option Text → Option (Text × ℕ)
callback_with status none = none
callback_with status (some param) = some (param, status)

-- The proofs that a caller asks for: none (also an empty string), one string for all tokens, or one or
-- several strings for each of the tokens.
pub data ProofItem : Type 0 where
  one : Text → ProofItem
  several : List Text → ProofItem

pub data Proofs : Type 0 where
  no_proofs : Proofs
  for_all : Text → Proofs
  for_each : List ProofItem → Proofs

unfoldable pub item_list : ProofItem → List Text
item_list (one p) = p ∷ []
item_list (several ps) = ps

unfoldable pub same_for : {A : Type 0} → Text → List A → List (List Text)
same_for p [] = []
same_for p (a ∷ more) = (p ∷ []) ∷ same_for p more

-- `to_v_list`, for as many elements as there are tokens; for none if no proof is asked for.
unfoldable pub to_v_list : Proofs → List Text → Result (List (List Text))
unfolding item_list same_for
to_v_list no_proofs symbols = ok []
to_v_list (for_all p) symbols = ok (same_for p symbols)
to_v_list (for_each []) symbols = ok []
to_v_list (for_each (p ∷ ps)) symbols =
    if length (p ∷ ps) == length symbols then ok (map item_list (p ∷ ps)) else err value_error

module _ (api : Api) where
  -- A request is the first argument of the first task, and the chain.
  pub start_transfer : Text → Text → ℕ → Text → Value × Chain
  start_transfer from_address to_address value token_symbol = (
    texts (token_symbol ∷ []),
    link (silent (check_lock api.chain LockEnum.queue (some from_address))) (
        link (silent (reserve_nonce api.chain from_address)) (
          link (silent resolve_tokens_by_symbol) (
            last record {
              step = transfer from_address to_address value api.chain;
              success = callback_with 0 api.callback_param;
              error = callback_with 1 api.callback_param;
            }))),
  )

  pub start_transfer_from : Text → Text → ℕ → Text → Text → Value × Chain
  start_transfer_from from_address to_address value token_symbol spender = (
    texts (token_symbol ∷ []),
    link (silent (check_lock api.chain LockEnum.queue (some from_address))) (
        link (silent (reserve_nonce api.chain from_address)) (
          link (silent resolve_tokens_by_symbol) (
            link (silent (check_allowance from_address value spender)) (
              last record {
                step = transfer_from from_address to_address value api.chain spender;
                success = callback_with 0 api.callback_param;
                error = callback_with 1 api.callback_param;
              })))),
  )

  token_chain : List Text → Result (List (List Text)) → Result (Value × Chain)
  token_chain symbols (ok proofs) = ok (
    texts symbols,
    link (silent resolve_tokens_by_symbol) (
        link (silent (token_info proofs)) (
          last (
            silent (
              verify_token_info api.chain (callback_with 0 api.callback_param)
                (callback_with 1 api.callback_param))))),
  )
  token_chain symbols (err e) = err e

  -- `tokens`
  pub start_tokens : List Text → Proofs → Result (Value × Chain)
  unfolding token_chain to_v_list
  start_tokens symbols proofs = token_chain symbols (to_v_list proofs symbols)

  -- `token`
  pub start_token : Text → Proofs → Result (Value × Chain)
  unfolding start_tokens
  start_token symbol proofs = start_tokens (symbol ∷ []) proofs

  registering : Bool → Signature → Chain
  registering false account = last account
  registering true account = link account (
      link (silent (reserve_nonce api.chain account_registry_writer))
        (last (silent (register api.chain))))

  pub create_account : Text → Bool → Value × Chain
  unfolding registering
  create_account password with_registration = (
    text password,
    link (silent (check_lock api.chain LockEnum.create none)) (
        registering with_registration record {
          step = create api.chain;
          success = callback_with 0 api.callback_param;
          error = none;
        }),
  )

  pub start_refill_gas : Text → Value × Chain
  start_refill_gas address = (
    text address,
    link (silent (check_lock api.chain LockEnum.queue none)) (
        link (silent (reserve_nonce api.chain gas_gifter)) (
          last record {
            step = refill_gas api.chain;
            success = callback_with 0 api.callback_param;
            error = none;
          })),
  )

-- What the tasks are given besides their arguments.
pub record World : Type 0 where
  pub enc : Encoding
  pub queue : Queue
  pub contracts : Contracts
  pub erc20 : Erc20
  pub contract : Contract
  pub node : Node
  pub limits : Limits

pub notify : Option (Text × ℕ) → Worker → Worker
notify none w = w
notify (some (param, status)) w = record w {
  submitted = w.submitted ++ call (callback param status) ∷ [];
}

as_text : Value → Action Text
as_text (text t) = pure t
as_text v = raise type_error

as_texts : Value → Action (List Text)
as_texts (texts ts) = pure ts
as_texts v = raise type_error

as_tokens : Value → Action (List TokenDict)
as_tokens (tokens ts) = pure ts
as_tokens v = raise type_error

as_infos : Value → Action (List TokenInfo)
as_infos (infos ts) = pure ts
as_infos v = raise type_error

module _ (world : World) (root_id : Text) where
  open world use {enc, queue, contracts, erc20, contract, node, limits}

  -- `reserve_nonce` hands its first argument on, and reads only the signer.
  pub run_step : Step → Value → Action Value
  unfolding as_text as_texts as_tokens as_infos
  run_step (check_lock chain flags address) v = Ctrl.check_lock enc v (some chain) flags address
  run_step (reserve_nonce chain signer) v = do
    r ← NonceTask.reserve_nonce enc zero_address (some signer) root_id
    pure v
  run_step resolve_tokens_by_symbol v = do
    symbols ← as_texts v
    ts ← Token.resolve_tokens_by_symbol enc queue erc20 symbols
    pure (tokens ts)
  run_step (token_info proofs) v = do
    ts ← as_tokens v
    found ← Info.token_info enc contract proofs ts
    pure (infos found)
  run_step (verify_token_info chain success error) v = do
    ts ← as_infos v
    ts ← Info.verify_token_info chain success error ts
    pure (infos ts)
  run_step (check_allowance holder value spender) v = do
    ts ← as_tokens v
    ts ← Token.check_allowance enc queue erc20 holder value spender ts
    pure (tokens ts)
  run_step (transfer holder recipient value chain) v = do
    ts ← as_tokens v
    tx_hash ← Token.transfer enc queue erc20 ts holder recipient value chain root_id
    pure (text tx_hash)
  run_step (transfer_from holder recipient value chain spender) v = do
    ts ← as_tokens v
    tx_hash ← Token.transfer_from enc queue erc20 ts holder recipient value chain spender root_id
    pure (text tx_hash)
  run_step (approve holder spender value chain) v = do
    ts ← as_tokens v
    tx_hash ← Token.approve enc queue erc20 ts holder spender value chain root_id
    pure (text tx_hash)
  run_step (create chain) v = do address ← Account.create enc queue contracts; pure (text address)
  run_step (register chain) v = do
    account ← as_text v
    address ← Account.register enc queue contracts account chain none root_id
    pure (text address)
  run_step (refill_gas chain) v = do
    recipient ← as_text v
    tx_hash ← Refill.refill_gas enc queue node limits recipient chain 0 root_id
    pure (text tx_hash)

  pub run_node : Signature → Value → Action Value
  unfolding run_step notify
  run_node n v w =
      let (r, w') = run_step n.step v w in
      elim r [ ok x ↦ (ok x, notify n.success w') | err e ↦ (err e, notify n.error w') ]

  pub run : Chain → Value → Action Value
  unfolding run_node
  run (last n) v = run_node n v
  run (link n rest) v = do v' ← run_node n v; run rest v'

  pub serve : Value × Chain → Action Value
  unfolding run
  serve request = run request.1 request.0
