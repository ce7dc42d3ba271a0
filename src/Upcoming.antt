-- ===== src/Upcoming.antt =====
-- `get_upcoming_tx` of cic_eth/queue/query.py: of each sender, the transaction to send next. The row
-- order of the outer query is not said by the code; here each sender stands where its last row does.
pub mod Senders
pub mod Answer
use cic_stack_v.Prelude.{
  ℕ, ◌+◌, min, Bool, true, false, ◌&&◌, ◌||◌, not, Option, none, some, List, [], ◌∷◌, ◌++◌, ltb,
  leb, ◌==◌, if◌then◌else◌, bit_and, select,
}
use cic_stack_v.Store.Rows.{Text, Otx, TxCacheRow, LockRow}
use cic_stack_v.Store.Table.{first, change}
use cic_stack_v.Store.Session.{Session, bind_session, release_session}
use cic_stack_v.Store.{
  Db, Action, Result, ⊤, ok, err, value_error, ◌>>=◌, ◌>>◌, pure, raise, query, update, commit,
}
use cic_stack_v.External.{Encoding}
use cic_stack_v.LockEnum
use cic_stack_v.Sql.{order_by}
use cic_stack_v.Balance.{put}

unfoldable pub found : {A : Type 0} → Option A → Bool
found none = false
found (some a) = true

-- `LEFT JOIN lock`, by the sender's address whatever the chain, and the test of its flags: a sender
-- without a row passes, and a sender with one that does not have the bit.
unfoldable pub is_open : List LockRow → Text → Bool
unfolding found
is_open locks sender =
    not (found (first (λ l. l.address == sender) locks))
    || found (first (λ l. (l.address == sender) && (bit_and l.flags LockEnum.send == 0)) locks)

-- `tx_cache JOIN otx`
unfoldable pub with_entry :
    TxCacheRow → Option Otx → List (Otx × TxCacheRow) → List (Otx × TxCacheRow)
with_entry c none rows = rows
with_entry c (some o) rows = (o, c) ∷ rows

unfoldable pub joined : List Otx → List TxCacheRow → List (Otx × TxCacheRow)
unfolding with_entry
joined otxs [] = []
joined otxs (c ∷ cs) = with_entry c (first (λ o. o.id == c.otx_id) otxs) (joined otxs cs)

-- `min(nonce) ... GROUP BY sender`
unfoldable pub lowest : Text → ℕ → List (Text × ℕ) → List (Text × ℕ)
lowest sender nonce [] = (sender, nonce) ∷ []
lowest sender nonce ((s, n) ∷ groups) =
    let rest = lowest sender nonce groups in
    if sender == s then (s, min nonce n) ∷ groups else (s, n) ∷ rest

unfoldable pub group_by_sender : List (Otx × TxCacheRow) → List (Text × ℕ)
unfolding lowest
group_by_sender [] = []
group_by_sender ((o, c) ∷ rows) = lowest c.sender o.nonce (group_by_sender rows)

-- `x != None` and a test, or no test.
unfoldable pub if_given : Option ℕ → (ℕ → Bool) → Bool
if_given none test = true
if_given (some x) test = test x

-- The arguments of the query.
pub record Asked : Type 0 where
  pub status : ℕ
  pub not_status : Option ℕ
  pub recipient : Option Text
  pub before : Option ℕ
  pub limit : ℕ

-- `StatusEnum.PENDING` and `is_alive` of chainqueue, and the time at which the query runs.
module _ (enc : Encoding) (pending : ℕ) (is_alive : ℕ → Bool) (now : ℕ) (asked : Asked) where
  unfoldable pub is_upcoming : List LockRow → Otx × TxCacheRow → Bool
  unfolding if_given
  is_upcoming locks (o, c) =
      is_open locks c.sender
      && (if asked.status == pending
          then o.status == asked.status
          else bit_and o.status asked.status == asked.status)
      && if_given asked.not_status (λ s. bit_and o.status s == 0)
      && if_given asked.recipient (λ r. c.recipient == enc.wallet_address r)

  unfoldable pub q_outer : Db → List (Text × ℕ)
  unfolding is_upcoming joined group_by_sender
  q_outer db = group_by_sender (select (is_upcoming db.locks) (joined db.otxs db.tx_cache))

  unfoldable pub is_picked : Text → ℕ → Otx × TxCacheRow → Bool
  unfolding if_given
  is_picked sender nonce (o, c) =
      (c.sender == sender)
      && (o.nonce == nonce)
      && (bit_and o.status asked.status == asked.status)
      && if_given asked.before (λ t. ltb c.date_checked t)

  unfoldable pub latest : List (Otx × TxCacheRow) → Option Otx
  latest [] = none
  latest ((o, c) ∷ rows) = some o

  unfoldable pub pick : Text → ℕ → Db → Option Otx
  unfolding latest is_picked joined
  pick sender nonce db = latest (
      order_by (λ a b. leb b.1.date_checked a.1.date_checked)
        (select (is_picked sender nonce) (joined db.otxs db.tx_cache)))

  unfoldable pub touch : Otx → Db → Db
  touch o db = record db {
    tx_cache = change (λ c. c.otx_id == o.id) (λ c. record c { date_checked = now }) db.tx_cache;
  }

  -- `bytes.fromhex` and `unpack` of a signed transaction: what they make of it is not used, but they can
  -- raise.
  module _ (unpack : Text → Result ⊤) where
    -- The loop over the senders, with how many transactions there are so far.
    unfoldable pub collect : List (Text × ℕ) → ℕ → List (Text × Text) → Action (List (Text × Text))
    unfolding pick touch put
    collect [] i txs w = (ok txs, w)
    collect ((sender, nonce) ∷ groups) i txs w = elim (pick sender nonce w.work) [
      | none ↦ collect groups i txs w
      | some o ↦
          let db = touch o w.work in
          let w' = record w { work = db; committed = db } in
          let txs' = put o.tx_hash o.signed_tx txs in
          let rest = collect groups (i + 1) txs' w' in
          let next = if ltb 0 asked.limit && (asked.limit == i + 1) then (ok txs', w') else rest in
          elim (unpack o.signed_tx) [ ok u ↦ next | err e ↦ (err e, w) ]
    ]

    pub get_upcoming_tx : Session → Action (List (Text × Text))
    unfolding collect q_outer
    get_upcoming_tx session = do
      bind_session session
      elim (is_alive asked.status) [
        | false ↦ do release_session; raise value_error
        | true ↦ do groups ← query q_outer; txs ← collect groups 0 []; release_session; pure txs
      ]
