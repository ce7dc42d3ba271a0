-- ===== src/Filters/Callback/Once.antt =====
-- What the callback filter submits for a transaction.
use cic_stack_v.Prelude.{
  ℕ, ◌≤◌, ◌≡◌, ◌≢◌, refl, subst, ◌⊎◌, inl, inr, Bool, true, Bool-cases, Option, none, some, List,
  [], ◌∷◌, ◌++◌, arith, ltb, if◌then◌else◌,
}
use cic_stack_v.Store.Rows.{Text}
use cic_stack_v.Store.Tasks.{
  call, TokenLabel, ExtendedTx, TransferType, transfer_type, transfer_callback,
}
use cic_stack_v.Store.{Worker, Error, Result, Result-cases, ok, err}
use cic_stack_v.Store.Quiet.{Quiet}
use cic_stack_v.External.{Encoding}
use cic_stack_v.Ext.{parsed}
use cic_stack_v.Filters.Callback.{
  BlockTx, TokenData, TransferData, Contracts, Found, first_label, label_by, translate_address,
  set_actors, set_tokens, extended, or_unknown, report, report_found, report_parsed, parse_data,
  parse_transfer, transfer_found, or_next, callback_filter,
}

module _ (enc : Encoding) (contracts : Contracts) where
  label_by-Quiet :
      (declarator address : Text) (trusted : List Text)
      → Quiet (label_by enc contracts declarator address trusted)
  unfolding Quiet label_by first_label
  label_by-Quiet declarator address [] w = refl
  label_by-Quiet declarator address (a ∷ more) w =
      ground (arith, label_by-Quiet declarator address more w)

  set_actors-Quiet : (moved : TransferData) → Quiet (set_actors enc contracts moved)
  unfolding Quiet set_actors translate_address
  set_actors-Quiet moved w =
      let trusted = contracts.trusted_addresses in
      elim (Result-cases contracts.declarator) [
        | inl (d, e) ↦ ground (
          arith,
          e,
          label_by-Quiet d moved.from_address trusted w,
          label_by-Quiet d moved.to_address trusted w,
        )
        | inr (x, e) ↦ ground (arith, e)
      ]

  extended-Quiet : (tx : BlockTx) (moved : TransferData) → Quiet (extended enc contracts tx moved)
  unfolding Quiet extended set_tokens
  extended-Quiet tx moved w = ground (arith, set_actors-Quiet moved w)

  -- One callback and the answer that there is one, or nothing at all.
  pub Reports : Worker → Result Bool × Worker → Type 0
  Reports w (r, w') =
      ((e : ExtendedTx) × (kind : TransferType) × (r ≡ ok true)
        × (w' ≡ record w {
          submitted = w.submitted ++ call (transfer_callback e kind e.status_code) ∷ [];
        }))
      ⊎ ((r ≢ ok true) × (w' ≡ w))

  or_unknown-false : (x : Error) → or_unknown x ≢ ok true
  unfolding or_unknown
  or_unknown-false x e = ground (arith, e)

  report_found-Reports :
      (tx : BlockTx) (found : Found) (w : Worker)
      → Reports w (report_found enc contracts tx found w)
  unfolding Reports report_found report Quiet
  report_found-Reports tx none w = inr (λ e. ground (arith, e), refl)
  report_found-Reports tx (some (kind, moved)) w =
      let quiet = extended-Quiet tx moved w in
      elim (Result-cases (extended enc contracts tx moved w).0) [
        | inl (e, done) ↦ inl (e, kind, ground (arith, done, quiet), ground (arith, done, quiet))
        | inr (x, failed) ↦ inr (
          λ e. or_unknown-false x (ground (arith, failed, quiet, e)),
          ground (arith, failed, quiet),
        )
      ]

  report_parsed-Reports :
      (tx : BlockTx) (r : Result Found) (w : Worker)
      → Reports w (report_parsed enc contracts tx r w)
  unfolding Reports report_parsed
  report_parsed-Reports tx (err x) w = inr (λ h. ground (arith, h), ground arith)
  report_parsed-Reports tx (ok found) w = elim (Bool-cases (ltb tx.length 8)) [
    | inl short ↦ inr (λ h. ground (arith, short, h), ground (arith, short))
    | inr long ↦
        let same : report_found enc contracts tx found w
            ≡ report_parsed enc contracts tx (ok found) w =
          ground (arith, long) in
        subst (Reports w) same (report_found-Reports tx found w)
  ]

  -- For any transaction whatsoever, the filter submits one callback and answers that it did, or it
  -- submits nothing; it changes nothing else, whether or not it raises.
  pub callback_filter-Reports :
      (tx : BlockTx) (w : Worker) → Reports w (callback_filter enc contracts tx w)
  unfolding callback_filter
  callback_filter-Reports tx w = report_parsed-Reports tx (parse_data enc contracts tx) w

  -- The contract that the transaction calls, and what the node tells of it.
  abbrev pub label_of : BlockTx → TokenData → TokenLabel
  label_of tx token = record {
    address = tx.input;
    symbol = token.symbol;
    name = token.name;
    decimals = token.decimals;
  }

  -- What is reported of a transfer.
  abbrev pub transfer_of : BlockTx → Text → ℕ → Option Text → Option Text → TokenData → ExtendedTx
  transfer_of tx to value from_label to_label token = record {
    hash = tx.hash;
    sender = enc.wallet_address tx.output;
    recipient = enc.wallet_address to;
    sender_label = from_label;
    recipient_label = to_label;
    source_token = label_of tx token;
    destination_token = label_of tx token;
    source_token_value = value;
    destination_token_value = value;
    status_code = if tx.fails then 1 else 0;
  }

  -- A transfer of a token that the node knows, between accounts whose labels can be asked for, is
  -- reported once: with its sender, recipient, value and labels, and the contract that it calls for its token, and as an error if and only if
  -- its status equals 0.
  pub callback_filter-transfer :
      (tx : BlockTx) (to : Text) (value : ℕ) (from_label to_label : Option Text) (token : TokenData)
      (w : Worker)
      → 8 ≤ tx.length
      → contracts.parse_transfer_request tx.payload ≡ parsed (to, value)
      → translate_address enc contracts (enc.wallet_address tx.output) w ≡ (ok from_label, w)
      → translate_address enc contracts (enc.wallet_address to) w ≡ (ok to_label, w)
      → contracts.token (enc.add_0x tx.input) ≡ ok token
      → callback_filter enc contracts tx w ≡ (
        ok true,
        record w {
          submitted =
              w.submitted
              ++ call (
                  transfer_callback
                    (transfer_of tx to value from_label to_label token)
                    transfer_type
                    (if tx.fails then 1 else 0))
                ∷ [];
        },
      )
  unfolding callback_filter parse_data report_parsed report_found report extended set_actors
      set_tokens parse_transfer transfer_found or_next
  callback_filter-transfer tx to value from_label to_label token w long matched from to_known
        known =
      ground (arith, long, matched, from, to_known, known)
