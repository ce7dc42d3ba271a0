-- ===== src/Token/Transfer.antt =====
-- What a token task does with the nonce that its root task reserved.
use cic_stack_v.Prelude.{ℕ, ◌≡◌, refl, true, false, some, List, map, [], ◌∷◌, ◌++◌, arith}
use cic_stack_v.Store.Rows.{Text, default_role, Reservation as ReservationRow}
use cic_stack_v.Store.{Db, Worker, ok, err, locked, signer as signer_error}
use cic_stack_v.External.{Encoding, Queue, Signing, signed, unavailable}
use cic_stack_v.Lock.Effect.{IsKeyed, flags_at}
use cic_stack_v.LockEnum
use cic_stack_v.QueueTx.Locked.{is_locked}
use cic_stack_v.Reservation.{row}
use cic_stack_v.Reservation.Effect.{after_release}
use cic_stack_v.NonceTask.Transfer.{next_nonce-held}
use cic_stack_v.Enqueue.Effect.{sender_of, Takes, tasks, enqueue-locked, enqueue-open}
use cic_stack_v.Role.Lookup.{address_for, get_address-given}
use cic_stack_v.Balance.{Token}
use cic_stack_v.Token.{Erc20, signed_or_error, spend, resolve, resolve_tokens_by_symbol, symbol_key}

module _ (enc : Encoding) (queue : Queue) (erc20 : Erc20) (chain holder cache_task root : Text)
    (build : ℕ → Signing) (w : Worker) (r : ReservationRow)
    (held : row (enc.wallet_address holder) root w.committed ≡ some r) where
  -- The worker once the nonce is taken up, and not yet committed.
  abbrev pub taken : Worker
  taken = record w {
    work = after_release (enc.wallet_address holder) root w.committed;
    registered = false;
  }

  opened : Worker
  opened = record w { work = w.committed; registered = false }

  -- Without a signer the reservation that is committed stays.
  pub spend-unsigned :
      build r.nonce ≡ unavailable
      → spend enc queue erc20 chain holder cache_task root build w ≡ (err signer_error, taken)
  unfolding spend opened signed_or_error
  spend-unsigned e = ground (arith, e, next_nonce-held enc holder root opened r refl held)

  module _ (tx_hash raw : Text) (built : build r.nonce ≡ signed tx_hash raw)
      (keyed : IsKeyed w.committed.locks) where
    -- So it does where queueing is locked for the sender of the transaction.
    pub spend-locked :
        is_locked chain (sender_of enc queue chain raw) w.committed ≡ true
        → spend enc queue erc20 chain holder cache_task root build w
          ≡ (err (locked LockEnum.queue), taken)
    unfolding spend opened signed_or_error is_locked flags_at after_release
    spend-locked e = ground (
      arith,
      built,
      next_nonce-held enc holder root opened r refl held,
      enqueue-locked enc queue erc20.get_gas chain holder cache_task tx_hash raw taken refl keyed e,
    )

    pub spend-open :
        (db : Db)
        → is_locked chain (sender_of enc queue chain raw) w.committed ≡ false
        → Takes enc queue chain tx_hash raw taken db
        → spend enc queue erc20 chain holder cache_task root build w ≡ (
          ok tx_hash,
          record w {
            work = db;
            committed = db;
            registered = false;
            submitted =
                w.submitted ++ tasks enc queue erc20.get_gas chain holder cache_task tx_hash raw;
          },
        )
    unfolding spend opened signed_or_error is_locked flags_at after_release
    spend-open db e created = ground (
      arith,
      built,
      next_nonce-held enc holder root opened r refl held,
      enqueue-open enc queue erc20.get_gas chain holder cache_task tx_hash raw taken refl keyed db e
          created,
    )

module _ (enc : Encoding) (queue : Queue) (erc20 : Erc20) (address_of : Text → Text) where
  -- The token of a symbol.
  pub token_for : Text → Token
  token_for symbol = record {
    address = address_of symbol;
    converters = [];
    fields = (symbol_key, symbol) ∷ [];
  }

  resolve-known :
      (sender : Text) (symbols : List Text) (w : Worker)
      → ((s : Text) → erc20.by_name s sender ≡ ok (address_of s))
      → resolve enc queue erc20 sender symbols w ≡ (ok (map token_for symbols), w)
  unfolding resolve token_for
  resolve-known sender [] w known = refl
  resolve-known sender (s ∷ symbols) w known =
      ground (arith, known s, resolve-known sender symbols w known)

  -- Symbols, looked up in the name of the default role.
  pub resolve-all :
      (symbols : List Text) (w : Worker)
      → ((s : Text) → erc20.by_name s (address_for default_role w.committed) ≡ ok (address_of s))
      → resolve_tokens_by_symbol enc queue erc20 symbols w
        ≡ (ok (map token_for symbols), record w { work = w.committed; registered = false })
  unfolding resolve_tokens_by_symbol
  resolve-all symbols w known =
      let opened : Worker = record w { work = w.committed; registered = false } in
      ground (
        arith,
        get_address-given default_role opened refl,
        resolve-known (address_for default_role w.committed) symbols opened known,
      )

-- One symbol, looked up in the name of the default role.
pub resolve-one :
    (enc : Encoding) (queue : Queue) (erc20 : Erc20) (symbol token : Text) (w : Worker)
    → erc20.by_name symbol (address_for default_role w.committed) ≡ ok token
    → resolve_tokens_by_symbol enc queue erc20 (symbol ∷ []) w ≡ (
      ok (record { address = token; converters = []; fields = (symbol_key, symbol) ∷ [] } ∷ []),
      record w { work = w.committed; registered = false },
    )
unfolding resolve_tokens_by_symbol
resolve-one enc queue erc20 symbol token w known =
    let opened : Worker = record w { work = w.committed; registered = false } in
    ground (arith, known, get_address-given default_role opened refl)
