-- ===== src/Balance.antt =====
-- cic_eth/queue/balance.py: what transactions in the queue take from a holder and bring to a recipient.
pub mod Queued
pub mod Assembled
use cic_stack_v.Prelude.{
  ℕ, ◌+◌, Bool, true, false, ◌&&◌, Option, none, some, List, [], ◌∷◌, ◌==◌, if◌then◌else◌, bit_and,
}
use cic_stack_v.Store.Rows.{Text, Otx, TxCacheRow}
use cic_stack_v.Store.Session.{create_session, close}
use cic_stack_v.Store.Table.{first}
use cic_stack_v.Store.{Db, Action, ◌>>=◌, ◌>>◌, pure, query, ok, err}
use cic_stack_v.External.{Encoding}

-- The row joined with its queue entry counts where the entry has none of the bits and the row passes.
unfoldable pub live_value : ℕ → (TxCacheRow → Bool) → (TxCacheRow → ℕ) → TxCacheRow → Option Otx → ℕ
live_value dead p value c none = 0
live_value dead p value c (some o) = if (bit_and o.status dead == 0) && p c then value c else 0

unfoldable pub sum_live :
    ℕ → (TxCacheRow → Bool) → (TxCacheRow → ℕ) → List Otx → List TxCacheRow → ℕ
unfolding live_value
sum_live dead p value otxs [] = 0
sum_live dead p value otxs (c ∷ cs) =
    live_value dead p value c (first (λ o. o.id == c.otx_id) otxs) + sum_live dead p value otxs cs

unfoldable pub outgoing : ℕ → Text → Text → Db → ℕ
unfolding sum_live
outgoing dead token holder db =
    sum_live dead (λ c. (c.sender == holder) && (c.source_token == token)) (λ c. c.from_value)
      db.otxs db.tx_cache

unfoldable pub incoming : ℕ → Text → Text → Db → ℕ
unfolding sum_live
incoming dead token receiver db =
    sum_live dead (λ c. (c.recipient == receiver) && (c.destination_token == token))
      (λ c. c.to_value) db.otxs db.tx_cache

-- A token's dictionary: its address, its converters and its other fields by key.
pub record Token : Type 0 where
  pub address : Text
  pub converters : List Text
  pub fields : List (Text × ℕ)

-- `d[k] = v`
unfoldable pub put : {A : Type 0} → Text → A → List (Text × A) → List (Text × A)
put k v [] = (k, v) ∷ []
put k v ((k', v') ∷ d) = let rest = put k v d in if k == k' then (k, v) ∷ d else (k', v') ∷ rest

-- `d.get(k)`
unfoldable pub lookup : {A : Type 0} → Text → List (Text × A) → Option A
lookup k [] = none
lookup k ((k', v) ∷ d) = let rest = lookup k d in if k == k' then some v else rest

abbrev pub balance_outgoing_key : Text
balance_outgoing_key = 1

abbrev pub balance_incoming_key : Text
balance_incoming_key = 2

module _ (enc : Encoding) (dead : ℕ) where
  unfoldable pub balance_outgoing_compatible : Text → Text → Action ℕ
  unfolding outgoing
  balance_outgoing_compatible token_address holder_address = do
    create_session
    delta ←
        query
          (outgoing dead (enc.executable_address token_address) (enc.wallet_address holder_address))
    close
    pure delta

  unfoldable pub balance_incoming_compatible : Text → Text → Action ℕ
  unfolding incoming
  balance_incoming_compatible token_address receiver_address = do
    create_session
    delta ←
        query (
          incoming dead (enc.executable_address token_address)
            (enc.wallet_address receiver_address))
    close
    pure delta

  unfoldable pub balance_outgoing : List Token → Text → Action (List Token)
  unfolding put
  balance_outgoing [] holder_address = pure []
  balance_outgoing (t ∷ ts) holder_address = do
    b ← balance_outgoing_compatible t.address holder_address
    rest ← balance_outgoing ts holder_address
    pure (record t { fields = put balance_outgoing_key b t.fields } ∷ rest)

  unfoldable pub balance_incoming : List Token → Text → Action (List Token)
  unfolding put
  balance_incoming [] receipient_address = pure []
  balance_incoming (t ∷ ts) receipient_address = do
    b ← balance_incoming_compatible t.address receipient_address
    rest ← balance_incoming ts receipient_address
    pure (record t { fields = put balance_incoming_key b t.fields } ∷ rest)

-- `assemble_balances`: whether a key begins with `balance_` is a test on the key's text.
module _ (enc : Encoding) (is_balance : Text → Bool) where
  unfoldable pub copy_balances : List (Text × ℕ) → List (Text × ℕ) → List (Text × ℕ)
  unfolding put
  copy_balances [] into = into
  copy_balances ((k, v) ∷ ks) into = copy_balances ks (if is_balance k then put k v into else into)

  unfoldable pub token_at : Text → List Text → Option Token → Token
  token_at address converters none = record {
    address = address;
    converters = converters;
    fields = [];
  }
  token_at address converters (some t) = t

  unfoldable pub add_token : Token → List (Text × Token) → List (Text × Token)
  unfolding copy_balances token_at put lookup
  add_token b tokens =
      let address = enc.executable_address b.address in
      let t = token_at address b.converters (lookup address tokens) in
      put address (record t { fields = copy_balances b.fields t.fields }) tokens

  unfoldable pub add_tokens : List Token → List (Text × Token) → List (Text × Token)
  unfolding add_token
  add_tokens [] tokens = tokens
  add_tokens (b ∷ bs) tokens = add_tokens bs (add_token b tokens)

  unfoldable pub add_collection : List (List Token) → List (Text × Token) → List (Text × Token)
  unfolding add_tokens
  add_collection [] tokens = tokens
  add_collection (c ∷ cs) tokens = add_collection cs (add_tokens c tokens)

  unfoldable pub values : List (Text × Token) → List Token
  values [] = []
  values ((k, t) ∷ d) = t ∷ values d

  unfoldable pub assemble_balances : List (List Token) → List Token
  unfolding add_collection values
  assemble_balances balances_collection = values (add_collection balances_collection [])
