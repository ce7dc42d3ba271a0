-- ===== src/Filters/Callback.antt =====
-- callback.py of cic_eth/runnable/daemons/filters, with what it calls of cic_eth/eth/erc20.py,
-- cic_eth/eth/account.py, cic_eth/eth/meta.py and cic_eth/ext/address.py: transactions that move
-- tokens are reported to a callback. The parsers of data, the registry, the declarator, the faucets and
-- the tokens are arguments.
pub mod Once
pub mod Labels
use cic_stack_v.Prelude.{
  ℕ, Bool, true, false, Option, none, some, List, [], ◌∷◌, ltb, if◌then◌else◌,
}
use cic_stack_v.Store.Rows.{Text}
use cic_stack_v.Store.Tasks.{
  Task, call, TokenLabel, ExtendedTx, TransferType, transfer_type, transferfrom_type,
  tokengift_type, transfer_callback,
}
use cic_stack_v.Store.{
  Action, Error, Result, ok, err, type_error, index_error, unknown_contract, not_a_contract, ◌>>=◌,
  ◌>>◌, pure, raise, from_result, submit, catch,
}
use cic_stack_v.External.{Encoding}
use cic_stack_v.Ext.{Parsed, parsed, mismatch, failed}

-- A transaction of a block: `length` is that of the payload, `fails` whether its status equals 0.
pub record BlockTx : Type 0 where
  pub hash : Text
  pub payload : Text
  pub length : ℕ
  pub input : Text
  pub output : Text
  pub value : ℕ
  pub fails : Bool
  pub gas_used : ℕ

-- `transfer_data`
pub record TransferData : Type 0 where
  pub from_address : Text
  pub to_address : Text
  pub value : ℕ
  pub token_address : Text

-- What `ERC20Token` tells of a token.
pub record TokenData : Type 0 where
  pub symbol : Text
  pub name : Text
  pub decimals : ℕ

pub record Contracts : Type 0 where
  -- recipient, value
  pub parse_transfer_request : Text → Parsed (Text × ℕ)
  -- holder, recipient, value
  pub parse_transfer_from_request : Text → Parsed (Text × Text × ℕ)
  pub parse_give_to_request : Text → Parsed Text
  -- the token and the amount of a faucet
  pub faucet_token : Text → Result Text
  pub faucet_amount : Text → Result ℕ
  -- `CICRegistry.by_name` of the address declarator
  pub declarator : Result Text
  -- declarator, trusted address, subject
  pub declaration : Text → Text → Text → Result (List Text)
  -- the label in a declaration, `none` if it is not UTF-8
  pub label : Text → Result (Option Text)
  pub token : Text → Result TokenData
  pub trusted_addresses : List Text

-- A parser answers nothing for a transaction without a payload.
abbrev pub Found : Type 0
Found = Option (TransferType × TransferData)

-- The next parser is asked after a mismatch and after one that answers nothing.
unfoldable or_next : Parsed Found → Result Found → Result Found
or_next (parsed (some found)) rest = ok (some found)
or_next (parsed none) rest = rest
or_next mismatch rest = rest
or_next (failed e) rest = err e

-- The first declaration of an address.
first_label : List Text → Action Text
first_label [] = raise index_error
first_label (d ∷ ds) = pure d

-- A contract that the registry or the node does not know ends the report without an error.
unfoldable pub or_unknown : Error → Result Bool
or_unknown unknown_contract = ok false
or_unknown not_a_contract = ok false
or_unknown e = err e

module _ (enc : Encoding) (contracts : Contracts) where
  unfoldable pub transfer_found : BlockTx → Parsed (Text × ℕ) → Parsed Found
  transfer_found tx (parsed (to, value)) = parsed (
      some (
        transfer_type,
        record {
          from_address = enc.wallet_address tx.output;
          to_address = enc.wallet_address to;
          value = value;
          token_address = tx.input;
        },
      ))
  transfer_found tx mismatch = mismatch
  transfer_found tx (failed e) = failed e

  unfoldable pub parse_transfer : BlockTx → Parsed Found
  unfolding transfer_found
  parse_transfer tx =
      if ltb 0 tx.length
      then transfer_found tx (contracts.parse_transfer_request tx.payload)
      else parsed none

  transferfrom_found : BlockTx → Parsed (Text × Text × ℕ) → Parsed Found
  transferfrom_found tx (parsed (holder, to, value)) = parsed (
      some (
        transferfrom_type,
        record {
          from_address = enc.wallet_address holder;
          to_address = enc.wallet_address to;
          value = value;
          token_address = tx.input;
        },
      ))
  transferfrom_found tx mismatch = mismatch
  transferfrom_found tx (failed e) = failed e

  pub parse_transferfrom : BlockTx → Parsed Found
  unfolding transferfrom_found
  parse_transferfrom tx =
      if ltb 0 tx.length
      then transferfrom_found tx (contracts.parse_transfer_from_request tx.payload)
      else parsed none

  gift_of : BlockTx → Text → Result Text → Result ℕ → Parsed Found
  gift_of tx to (ok token) (ok amount) = parsed (
      some (
        tokengift_type,
        record {
          from_address = enc.wallet_address tx.output;
          to_address = enc.wallet_address to;
          value = amount;
          token_address = enc.add_0x token;
        },
      ))
  gift_of tx to (ok token) (err e) = failed e
  gift_of tx to (err e) amount = failed e

  gift_found : BlockTx → Parsed Text → Parsed Found
  unfolding gift_of
  gift_found tx (parsed to) =
      gift_of tx to (contracts.faucet_token tx.input) (contracts.faucet_amount tx.input)
  gift_found tx mismatch = mismatch
  gift_found tx (failed e) = failed e

  pub parse_giftto : BlockTx → Parsed Found
  unfolding gift_found
  parse_giftto tx =
      if ltb 0 tx.length
      then gift_found tx (contracts.parse_give_to_request tx.payload)
      else parsed none

  unfoldable pub parse_data : BlockTx → Result Found
  unfolding or_next
  parse_data tx =
      or_next (parse_transfer tx)
        (or_next (parse_transferfrom tx) (or_next (parse_giftto tx) (ok none)))

  -- `translate_address`: the first label that a trusted address declares, in UTF-8.
  unfoldable pub label_by : Text → Text → List Text → Action (Option Text)
  unfolding first_label
  label_by declarator address [] = pure none
  label_by declarator address (trusted ∷ more) = do
    ds ← from_result (contracts.declaration declarator trusted address)
    d ← first_label ds
    label ← from_result (contracts.label d)
    elim label [ some l ↦ pure (some l) | none ↦ label_by declarator address more ]

  unfoldable pub translate_address : Text → Action (Option Text)
  unfolding label_by
  translate_address address = do
    declarator ← from_result contracts.declarator
    label_by declarator address contracts.trusted_addresses

  -- `set_actors`
  set_actors : TransferData → Action (Option Text × Option Text)
  unfolding translate_address
  set_actors moved = do
    sender_label ← translate_address moved.from_address
    recipient_label ← translate_address moved.to_address
    pure (sender_label, recipient_label)

  -- `set_tokens` without a destination: it is the source. The address is the argument.
  set_tokens : TransferData → Action TokenLabel
  set_tokens moved = do
    source ← from_result (contracts.token (enc.add_0x moved.token_address))
    destination ← from_result (contracts.token (enc.add_0x moved.token_address))
    pure (record {
      address = moved.token_address;
      symbol = destination.symbol;
      name = destination.name;
      decimals = destination.decimals;
    })

  extended : BlockTx → TransferData → Action ExtendedTx
  unfolding set_actors set_tokens
  extended tx moved = do
    labels ← set_actors moved
    token ← set_tokens moved
    pure (record {
      hash = tx.hash;
      sender = moved.from_address;
      recipient = moved.to_address;
      sender_label = labels.0;
      recipient_label = labels.1;
      source_token = token;
      destination_token = token;
      source_token_value = moved.value;
      destination_token_value = moved.value;
      status_code = if tx.fails then 1 else 0;
    })

  report : BlockTx → TransferType → TransferData → Action Bool
  unfolding extended
  report tx kind moved = do
    e ← extended tx moved
    submit (call (transfer_callback e kind e.status_code))
    pure true

  report_found : BlockTx → Found → Action Bool
  unfolding report or_unknown
  report_found tx none = pure false
  report_found tx (some (kind, moved)) = catch (report tx kind moved) or_unknown

  -- Data of a wrong length is a TypeError of the parsers, and no error.
  report_parsed : BlockTx → Result Found → Action Bool
  unfolding report_found
  report_parsed tx (err type_error) = pure false
  report_parsed tx (err e) = raise e
  report_parsed tx (ok found) = if ltb tx.length 8 then pure false else report_found tx found

  -- `CallbackFilter.filter`: whether a callback was submitted.
  pub callback_filter : BlockTx → Action Bool
  unfolding report_parsed parse_data
  callback_filter tx = report_parsed tx (parse_data tx)
