-- ===== src/Balance/Queued.antt =====
-- What queueing a transaction does to the balances.
use cic_stack_v.Prelude.{
  ℕ, ◌+◌, ◌≡◌, refl, false, Bool, none, List, [], ◌∷◌, arith, ◌==◌, ◌&&◌, if◌then◌else◌, bit_and,
  All,
}
use cic_stack_v.Store.Rows.{Text, Otx, TxCacheRow}
use cic_stack_v.Store.{Db}
use cic_stack_v.Store.Table.{first, insert, first-insert_new, first-insert_miss}
use cic_stack_v.Balance.{live_value, sum_live, outgoing, incoming}

module _ (dead : ℕ) (p : TxCacheRow → Bool) (value : TxCacheRow → ℕ) where
  -- An entry that no row names changes no sum.
  sum_live-insert_otx :
      (o : Otx) (otxs : List Otx) (cs : List TxCacheRow)
      → All (λ c. (o.id == c.otx_id) ≡ false) cs
      → sum_live dead p value (insert o otxs) cs ≡ sum_live dead p value otxs cs
  unfolding sum_live
  sum_live-insert_otx o otxs [] h = refl
  sum_live-insert_otx o otxs (c ∷ cs) h = ground (
    arith,
    first-insert_miss (λ q. q.id == c.otx_id) o otxs h.0,
    sum_live-insert_otx o otxs cs h.1,
  )

  pub sum_live-insert :
      (otxs : List Otx) (cs : List TxCacheRow) (c : TxCacheRow)
      → sum_live dead p value otxs (insert c cs)
        ≡ sum_live dead p value otxs cs
          + live_value dead p value c (first (λ o. o.id == c.otx_id) otxs)
  unfolding sum_live
  sum_live-insert otxs [] c = ground arith
  sum_live-insert otxs (d ∷ ds) c = ground (arith, sum_live-insert otxs ds c)

-- The database once a transaction is queued: its entry and the row of its cache.
pub queued : Otx → TxCacheRow → Db → Db
queued o c db = record db { otxs = insert o db.otxs; tx_cache = insert c db.tx_cache }

-- A queued transaction, its entry new and named by its row alone, that is not dead adds its value to
-- what goes out of its sender in its source token, and to what comes in to its recipient in its
-- destination token; every other balance stays.
pub queued-balances :
    (dead : ℕ) (token holder : Text) (o : Otx) (c : TxCacheRow) (db : Db)
    → first (λ q. q.id == c.otx_id) db.otxs ≡ none
    → All (λ (d : TxCacheRow). (o.id == d.otx_id) ≡ false) db.tx_cache
    → o.id ≡ c.otx_id
    → bit_and o.status dead ≡ 0
    → (outgoing dead token holder (queued o c db)
        ≡ outgoing dead token holder db
          + (if (c.sender == holder) && (c.source_token == token) then c.from_value else 0))
      × (incoming dead token holder (queued o c db)
          ≡ incoming dead token holder db
            + (if (c.recipient == holder) && (c.destination_token == token) then c.to_value else 0))
unfolding outgoing incoming queued live_value
queued-balances dead token holder o c db fresh unnamed same alive = (
  added (λ c. (c.sender == holder) && (c.source_token == token)) (λ c. c.from_value),
  added (λ c. (c.recipient == holder) && (c.destination_token == token)) (λ c. c.to_value),
)
  where
    added :
        (p : TxCacheRow → Bool) (value : TxCacheRow → ℕ)
        → sum_live dead p value (insert o db.otxs) (insert c db.tx_cache)
          ≡ sum_live dead p value db.otxs db.tx_cache + (if p c then value c else 0)
    added p value = ground (
      arith,
      sum_live-insert dead p value (insert o db.otxs) db.tx_cache c,
      sum_live-insert_otx dead p value o db.otxs db.tx_cache unnamed,
      first-insert_new (λ q. q.id == c.otx_id) o db.otxs fresh,
    )
