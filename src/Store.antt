-- ===== src/Store.antt =====
-- The state of one worker and the actions on it: the database as committed and as the session at
-- hand sees it, the session registry of cic_eth/db/models/base.py, and the celery tasks submitted.
pub mod Table
pub mod Rows
pub mod Tasks
pub mod Session
pub mod Quiet
use cic_stack_v.Prelude.{
  ℕ, Bool, Option, none, some, List, [], ◌++◌, ◌∷◌, if◌then◌else◌, ◌≡◌, refl, ◌⊎◌, inl, inr,
}
use Rows.{Text, NonceRow, Reservation, LockRow, RoleRow, GasRow, Otx, TxCacheRow}
use Tasks.{Task}

pub record Db : Type 0 where
  pub nonces : List NonceRow
  pub reservations : List Reservation
  pub locks : List LockRow
  pub roles : List RoleRow
  pub gas_cache : List GasRow
  pub otxs : List Otx
  pub tx_cache : List TxCacheRow

-- `registered`: whether the session at hand stands in `SessionBase.localsessions`.
pub record Worker : Type 0 where
  pub committed : Db
  pub work : Db
  pub registered : Bool
  pub submitted : List Task

-- The exceptions that the code raises, by class: those of cic_eth/error.py, Python's own, those of a
-- node or a signer, and `db_integrity` of sqlalchemy.
pub data Error : Type 0 where
  initialization integrity role_missing out_of_gas value_error : Error
  signer seppuku resend_impossible not_local_tx tx_state_change : Error
  unknown_contract not_a_contract contract_mismatch not_implemented : Error
  token_count broke trust eth_error type_error name_error index_error key_error overflow_error
        db_integrity :
      Error
  locked : ℕ → Error

pub data Result (A : Type 0) : Type 0 where
  ok : A → Result A
  err : Error → Result A

pub Result-cases :
    {A : Type 0} (r : Result A) → ((a : A) × (r ≡ ok a)) ⊎ ((x : Error) × (r ≡ err x))
Result-cases (ok a) = inl (a, refl)
Result-cases (err x) = inr (x, refl)

-- A call: it may raise, and what it did to the worker before stays done.
abbrev pub Action : Type 0 → Type 0
Action A = Worker → Result A × Worker

abbrev pub ⊤ : Type 0
⊤ = Unit

infixl 5 ◌>>=◌ ◌>>◌
abbrev pub ◌>>=◌ : {A B : Type 0} → Action A → (A → Action B) → Action B
◌>>=◌ m f w = let (r, w') = m w in elim r [ ok a ↦ f a w' | err e ↦ (err e, w') ]

abbrev pub ◌>>◌ : {A B : Type 0} → Action A → Action B → Action B
m >> k = m >>= λ _. k

module _ {A : Type 0} where
  abbrev pub pure : A → Action A
  pure a w = (ok a, w)

  abbrev pub raise : Error → Action A
  raise e w = (err e, w)

  -- A query of the session.
  abbrev pub query : (Db → A) → Action A
  query f w = (ok (f w.work), w)

  abbrev pub from_result : Result A → Action A
  from_result r w = (r, w)

abbrev pub raise_if : Bool → Error → Action ⊤
raise_if b e w = (if b then err e else ok tt, w)

-- A change in the session, not yet committed.
abbrev pub update : (Db → Db) → Action ⊤
update f w = (ok tt, record w { work = f w.work })

-- `s.apply_async()`
abbrev pub submit : Task → Action ⊤
submit t w = (ok tt, record w { submitted = w.submitted ++ t ∷ [] })

abbrev pub commit : Action ⊤
commit w = (ok tt, record w { committed = w.work })

-- `session.close()` and `session.rollback()`: what is not committed is dropped.
abbrev pub rollback : Action ⊤
rollback w = (ok tt, record w { work = w.committed })

-- `celery.group(ts)()`
unfoldable pub submit_all : List Task → Action ⊤
submit_all ts w = (ok tt, record w { submitted = w.submitted ++ ts })

-- `try: m except`: an exception that `translate` names is replaced, or taken for a value.
abbrev pub catch : {A : Type 0} → Action A → (Error → Result A) → Action A
catch m translate w = let (r, w') = m w in elim r [ ok a ↦ (ok a, w') | err e ↦ (translate e, w') ]
