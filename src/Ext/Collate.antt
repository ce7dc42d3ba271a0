-- ===== src/Ext/Collate.antt =====
-- `tx_collate` and `verify_and_expand` of cic_eth/ext/tx.py: transactions of several sources in one list.
-- The decoder, chainqueue's `get_tx_cache`, the registry and the tokens are arguments.
pub mod Order
use cic_stack_v.Prelude.{
  ℕ, zero, suc, ◌+◌, ◌/◌, ◌%◌, Bool, true, false, not, ◌&&◌, ◌||◌, Option, none, some, List, [],
  ◌∷◌, ◌++◌, ltb, ◌==◌, if◌then◌else◌,
}
use cic_stack_v.Store.Rows.{Text, zero_address}
use cic_stack_v.Store.Session.{create_session, close}
use cic_stack_v.Store.{
  Action, Error, Result, ok, err, unknown_contract, ◌>>=◌, ◌>>◌, pure, raise, from_result,
}
use cic_stack_v.External.{Encoding}
use cic_stack_v.Sql.{order_by}
use cic_stack_v.Ext.{Entry}

-- The characters of a text.
abbrev pub Chars : Type 0
Chars = List ℕ

-- A number in decimal digits; one more step than the number is enough.
unfoldable pub digits_within : ℕ → ℕ → Chars
digits_within zero n = []
digits_within (suc fuel) n =
    let rest = digits_within fuel (n / 10) in
    if ltb n 10 then (48 + n) ∷ [] else rest ++ (48 + n % 10) ∷ []

abbrev pub digits : ℕ → Chars
digits n = digits_within (suc n) n

-- `str` of a timestamp, which may be None.
unfoldable pub time_chars : Option ℕ → Chars
time_chars none = 78 ∷ 111 ∷ 110 ∷ 101 ∷ []
time_chars (some n) = digits n

-- `<=` of texts.
unfoldable pub le_text : Chars → Chars → Bool
le_text [] ys = true
le_text (x ∷ xs) [] = false
le_text (x ∷ xs) (y ∷ ys) = let rest = le_text xs ys in ltb x y || ((x == y) && rest)

unfoldable pub same_text : Chars → Chars → Bool
unfolding le_text
same_text xs ys = le_text xs ys && le_text ys xs

-- A transaction of the list; a symbol with the decimals of its token.
pub record Row : Type 0 where
  pub timestamp : Option ℕ
  pub hash : Text
  pub sender : Text
  pub recipient : Text
  pub nonce : ℕ
  pub source_token : Text
  pub destination_token : Text
  pub source_value : ℕ
  pub destination_value : ℕ
  pub source_symbol : Option (Text × ℕ)
  pub destination_symbol : Option (Text × ℕ)

-- A value of a batch: a signed transaction of the queue, or the data of an external one.
pub data Item : Type 0 where
  raw : Text → Item
  external : Entry → Item

pub record Sources : Type 0 where
  -- `unpack`: the hash of a signed transaction
  pub hash_of : Text → Result Text
  -- `get_tx_cache`, with its date as a timestamp
  pub get_tx_cache : Text → Action Row
  pub by_address : Text → Result Text
  pub token : Text → Result (Text × ℕ)
  pub chars : Text → Chars

unfoldable pub put_row : Chars → Row → List (Chars × Row) → List (Chars × Row)
unfolding same_text
put_row k row [] = (k, row) ∷ []
put_row k row ((k', row') ∷ rows) =
    let rest = put_row k row rows in if same_text k k' then (k', row) ∷ rows else (k', row') ∷ rest

-- The data of an external transaction, with its date as a timestamp.
unfoldable pub row_of : Entry → Row
row_of e = record {
  timestamp = e.date_created;
  hash = e.hash;
  sender = e.sender;
  recipient = e.recipient;
  nonce = e.nonce;
  source_token = e.source_token;
  destination_token = e.destination_token;
  source_value = e.source_value;
  destination_value = e.destination_value;
  source_symbol = none;
  destination_symbol = none;
}

unfoldable pub reversed : {A : Type 0} → List A → List A
reversed [] = []
reversed (x ∷ xs) = reversed xs ++ x ∷ []

unfoldable pub arrange : {A : Type 0} → Bool → List A → List A
unfolding reversed
arrange newest_first rows = if newest_first then reversed rows else rows

module _ (enc : Encoding) (sources : Sources) where
  -- '{}.{}.{}' of the timestamp, the sender and the nonce.
  unfoldable pub key_of : Row → Chars
  unfolding time_chars
  key_of row = time_chars row.timestamp ++ 46 ∷ (sources.chars row.sender ++ 46 ∷ digits row.nonce)

  unfoldable pub row_for : Item → Action Row
  unfolding row_of
  row_for (external e) = pure (row_of e)
  row_for (raw v) = do
    hash ← from_result (sources.hash_of (enc.strip_0x v))
    sources.get_tx_cache hash

  -- `txs_by_block`: a later transaction replaces one with the same key.
  unfoldable pub collect : List Item → List (Chars × Row) → Action (List (Chars × Row))
  unfolding row_for key_of put_row
  collect [] rows = pure rows
  collect (i ∷ items) rows = do row ← row_for i; collect items (put_row (key_of row) row rows)

  -- The symbol of a token that has none yet, and is a contract of the registry.
  unfoldable pub symbol_for : Text → Option (Text × ℕ) → Result (Option (Text × ℕ))
  symbol_for token (some s) = ok (some s)
  symbol_for token none =
      if token == zero_address then ok none else elim (sources.by_address token) [
        | err e ↦ err e
        | ok a ↦ elim (sources.token token) [ ok s ↦ ok (some s) | err e ↦ err e ]
      ]

  unfoldable pub verify_and_expand : Row → Result Row
  unfolding symbol_for
  verify_and_expand row = elim (symbol_for row.source_token row.source_symbol) [
    | err e ↦ err e
    | ok s ↦ elim (symbol_for row.destination_token row.destination_symbol) [
      | err e ↦ err e
      | ok d ↦ ok (record row { source_symbol = s; destination_symbol = d })
    ]
  ]

  normal : Row → Row
  normal row = record row {
    recipient = enc.wallet_address row.recipient;
    sender = enc.wallet_address row.sender;
  }

  and_rest : Result Row → Result (List Row) → Result (List Row)
  unfolding normal
  and_rest (ok row) (ok rest) = ok (normal row ∷ rest)
  and_rest (ok row) (err e) = err e
  and_rest (err unknown_contract) rest = rest
  and_rest (err e) rest = err e

  -- The transactions in the order of their keys, without those of unknown contracts.
  pub listing : Bool → List (Chars × Row) → Result (List Row)
  unfolding and_rest
  listing verify_contracts [] = ok []
  listing verify_contracts ((k, row) ∷ rows) =
      and_rest (if verify_contracts then verify_and_expand row else ok row)
        (listing verify_contracts rows)

  -- The offset and the limit are not looked at.
  unfoldable pub tx_collate : List Item → ℕ → ℕ → Bool → Bool → Action (List Row)
  unfolding collect listing arrange
  tx_collate items offset limit newest_first verify_contracts = do
    create_session
    rows ← collect items []
    close
    from_result
        (listing verify_contracts (arrange newest_first (order_by (λ a b. le_text a.0 b.0) rows)))
