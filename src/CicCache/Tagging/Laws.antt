-- ===== src/CicCache/Tagging/Laws.antt =====
-- A tag that was added tags a transaction that is there.
use cic_stack_v.Prelude.{
  suc, ◌≡◌, ◌⊎◌, true, Option, none, some, arith, length, ◌==◌, Option-cases, inl, inr,
}
use cic_stack_v.Store.Rows.{Text}
use cic_stack_v.Store.{ok, err, index_error, db_integrity}
use cic_stack_v.Store.Table.{first, insert, first-insert_new}
use cic_stack_v.CicCache.{CacheDb, TxRow, TagRow}
use cic_stack_v.CicCache.Tagging.{add_tag, tag_transaction, is_tag, fetch_first}

module _ (name domain : Text) (db : CacheDb) where
  pub new_tag : TagRow
  new_tag = record { id = suc (length db.tags); domain = some domain; value = name }

  unfoldable pub with_tag : CacheDb
  with_tag = record db { tags = insert new_tag db.tags }

  is_tag-new_tag : is_tag name (some domain) new_tag ≡ true
  unfolding is_tag new_tag
  is_tag-new_tag = ground arith

  pub add_tag-fresh :
      first (is_tag name (some domain)) db.tags ≡ none → add_tag name (some domain) db ≡ ok with_tag
  unfolding add_tag with_tag new_tag
  add_tag-fresh fresh = ground (arith, fresh)

  pub add_tag-known :
      (t : TagRow)
      → first (is_tag name (some domain)) db.tags ≡ some t
      → add_tag name (some domain) db ≡ err db_integrity
  unfolding add_tag
  add_tag-known t there = ground (arith, there)

  pub first-with_tag :
      first (is_tag name (some domain)) db.tags ≡ none
      → first (is_tag name (some domain)) with_tag.tags ≡ some new_tag
  unfolding with_tag
  first-with_tag fresh =
      ground
        (arith, first-insert_new (is_tag name (some domain)) new_tag db.tags fresh, is_tag-new_tag)

-- A new tag of a domain is added, and tagging a transaction of the table by that name and domain then
-- links the transaction to the row that was added, and changes nothing else.
pub tag_transaction-add_tag :
    (tx_hash name domain : Text) (db : CacheDb) (r : TxRow)
    → first (λ t. t.tx_hash == tx_hash) db.txs ≡ some r
    → first (is_tag name (some domain)) db.tags ≡ none
    → (db' : CacheDb) × (add_tag name (some domain) db ≡ ok db')
      × (tag_transaction tx_hash name (some domain) db'
          ≡ ok record db' {
            links = insert record { tag_id = suc (length db.tags); tx_id = r.id } db.links;
          })
unfolding tag_transaction with_tag new_tag
tag_transaction-add_tag tx_hash name domain db r found fresh = (
  with_tag name domain db,
  add_tag-fresh name domain db fresh,
  ground (arith, found, first-with_tag name domain db fresh),
)

-- Where the transaction or the tag is missing, tagging raises an IndexError.
pub tag_transaction-missing :
    (tx_hash name : Text) (domain : Option Text) (db : CacheDb)
    → (first (λ t. t.tx_hash == tx_hash) db.txs ≡ none)
      ⊎ (first (is_tag name domain) db.tags ≡ none)
    → tag_transaction tx_hash name domain db ≡ err index_error
unfolding tag_transaction fetch_first
tag_transaction-missing tx_hash name domain db missing =
    elim (Option-cases (first (λ t. t.tx_hash == tx_hash) db.txs)) [
      | inl gone ↦ ground (arith, gone)
      | inr (r, there) ↦ ground (arith, there, missing)
    ]
