-- ===== src/Balance/Assembled.antt =====
-- What `assemble_balances` collects: for an address and a key, the value that came last.
use cic_stack_v.Prelude.{
  ℕ, ◌≡◌, refl, Bool-cases, sym, subst, ap, ◌∙◌, true, false, Bool, Option, none, some, List, [],
  ◌∷◌, arith, ◌==◌, if◌then◌else◌, inl, inr, ==_iff,
}
use cic_stack_v.Store.Rows.{Text}
use cic_stack_v.External.{Encoding}
use cic_stack_v.Balance.{
  Token, put, lookup, copy_balances, token_at, add_token, add_tokens, add_collection,
}

pub lookup-put_self :
    {A : Type 0} (k : Text) (v : A) (d : List (Text × A)) → lookup k (put k v d) ≡ some v
unfolding lookup put
lookup-put_self k v [] = ground arith
lookup-put_self k v ((k', v') ∷ d) = ground (arith, lookup-put_self k v d)

pub lookup-put_apart :
    {A : Type 0} (j k : Text) (v : A) (d : List (Text × A))
    → (j == k) ≡ false
    → lookup j (put k v d) ≡ lookup j d
unfolding lookup put
lookup-put_apart j k v [] h = ground arith
lookup-put_apart j k v ((k', v') ∷ d) h = ground (arith, lookup-put_apart j k v d h)

-- The last value with a key, or the one there was.
newest : Text → List (Text × ℕ) → Option ℕ → Option ℕ
newest j [] old = old
newest j ((k, v) ∷ ks) old = newest j ks (if j == k then some v else old)

module _ (j : Text) where
  -- The value of the key at an address, if both are there.
  pub field_of : Option Token → Option ℕ
  field_of none = none
  field_of (some t) = lookup j t.fields

  pub field : Text → List (Text × Token) → Option ℕ
  unfolding field_of
  field a tokens = field_of (lookup a tokens)

module _ (enc : Encoding) (j : Text) where
  -- What a sequence of tokens says of an address: the last value of the key, or what was there.
  pub newest_at : Text → List Token → Option ℕ → Option ℕ
  newest_at a [] old = old
  newest_at a (b ∷ bs) old =
      newest_at a bs (if a == enc.executable_address b.address then newest j b.fields old else old)

  pub newest_in : Text → List (List Token) → Option ℕ → Option ℕ
  newest_in a [] old = old
  newest_in a (c ∷ cs) old = newest_in a cs (newest_at a c old)

module _ (enc : Encoding) (is_balance : Text → Bool) (j : Text)
    (balance : is_balance j ≡ true) where
  lookup-step :
      (k : Text) (v : ℕ) (into : List (Text × ℕ))
      → lookup j (if is_balance k then put k v into else into)
        ≡ (if j == k then some v else lookup j into)
  lookup-step k v into = elim (Bool-cases (j == k)) [
    | inl here ↦
        let same = (==_iff j k).0 here in
        ground (
          arith,
          here,
          subst (λ i. is_balance i ≡ true) same balance,
          subst (λ i. lookup i (put k v into) ≡ some v) (sym same) (lookup-put_self k v into),
        )
    | inr apart ↦ ground (arith, apart, lookup-put_apart j k v into apart)
  ]

  lookup-copy_balances :
      (ks into : List (Text × ℕ))
      → lookup j (copy_balances enc is_balance ks into) ≡ newest j ks (lookup j into)
  unfolding copy_balances newest
  lookup-copy_balances [] into = refl
  lookup-copy_balances ((k, v) ∷ ks) into =
      lookup-copy_balances ks (if is_balance k then put k v into else into)
      ∙ ap (newest j ks) (lookup-step k v into)

  field_of-token_at :
      (address : Text) (converters : List Text) (t : Option Token)
      → lookup j (token_at enc is_balance address converters t).fields ≡ field_of j t
  unfolding token_at field_of lookup
  field_of-token_at address converters none = refl
  field_of-token_at address converters (some t) = refl

  field-add_token_self :
      (b : Token) (tokens : List (Text × Token))
      → field j (enc.executable_address b.address) (add_token enc is_balance b tokens)
        ≡ newest j b.fields (field j (enc.executable_address b.address) tokens)
  unfolding field field_of add_token
  field-add_token_self b tokens =
      let address = enc.executable_address b.address in
      let t = token_at enc is_balance address b.converters (lookup address tokens) in
      let t' = record t { fields = copy_balances enc is_balance b.fields t.fields } in
      ap (field_of j) (lookup-put_self address t' tokens)
      ∙ lookup-copy_balances b.fields t.fields
      ∙ ap (newest j b.fields) (field_of-token_at address b.converters (lookup address tokens))

  field-add_token :
      (a : Text) (b : Token) (tokens : List (Text × Token))
      → field j a (add_token enc is_balance b tokens) ≡ (
          if a == enc.executable_address b.address
          then newest j b.fields (field j a tokens)
          else field j a tokens)
  unfolding field add_token
  field-add_token a b tokens =
      let address = enc.executable_address b.address in
      let t = token_at enc is_balance address b.converters (lookup address tokens) in
      let t' = record t { fields = copy_balances enc is_balance b.fields t.fields } in
      elim (Bool-cases (a == address)) [
        | inl here ↦ ground (
          arith,
          here,
          subst
              (λ i.
                field j i (add_token enc is_balance b tokens)
                ≡ newest j b.fields (field j i tokens))
              (sym ((==_iff a address).0 here)) (field-add_token_self b tokens),
        )
        | inr apart ↦ ground (arith, apart, lookup-put_apart a address t' tokens apart)
      ]

  pub field-add_tokens :
      (a : Text) (bs : List Token) (tokens : List (Text × Token))
      → field j a (add_tokens enc is_balance bs tokens) ≡ newest_at enc j a bs (field j a tokens)
  unfolding add_tokens newest_at
  field-add_tokens a [] tokens = refl
  field-add_tokens a (b ∷ bs) tokens =
      field-add_tokens a bs (add_token enc is_balance b tokens)
      ∙ ap (newest_at enc j a bs) (field-add_token a b tokens)

  -- For a key that begins with `balance_`, the dictionary that is built has at each address the value
  -- that came last for the address and the key in the collection, and none where none came.
  pub field-add_collection :
      (a : Text) (cs : List (List Token)) (tokens : List (Text × Token))
      → field j a (add_collection enc is_balance cs tokens)
        ≡ newest_in enc j a cs (field j a tokens)
  unfolding add_collection newest_in
  field-add_collection a [] tokens = refl
  field-add_collection a (c ∷ cs) tokens =
      field-add_collection a cs (add_tokens enc is_balance c tokens)
      ∙ ap (newest_in enc j a cs) (field-add_tokens a c tokens)
