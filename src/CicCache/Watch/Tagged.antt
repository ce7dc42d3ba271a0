-- ===== src/CicCache/Watch/Tagged.antt =====
-- What the filters of the tracker store.
use cic_stack_v.Prelude.{
  ℕ, suc, ◌≡◌, Bool, true, none, some, refl, sym, subst, Option-cases, inl, inr, arith, length,
  ◌==◌,
}
use cic_stack_v.Store.Rows.{Text}
use cic_stack_v.Store.{ok}
use cic_stack_v.Store.Table.{first, first_sound, insert, first-insert_new, first-insert_old}
use cic_stack_v.Ext.{parsed}
use cic_stack_v.CicCache.{CacheDb, TxRow, TagRow}
use cic_stack_v.CicCache.Tagging.{add_transaction, tag_transaction, is_tag}
use cic_stack_v.CicCache.Tagging.Laws.{
  new_tag, with_tag, add_tag-fresh, add_tag-known, first-with_tag,
}
use cic_stack_v.CicCache.Watch.{
  TrackedTx, TokenContracts, transfer_tag, erc20_domain, give_to_tag, faucet_domain, erc20_filter,
  store_tagged, register_filter_tag, transfer_matched, token_transfer, tag_registered,
  register_filter_tags, tracker_tags,
}

-- The tables once the row and a link of it to a tag are in them.
pub with_row : CacheDb → TxRow → TagRow → CacheDb
with_row db r t = record db {
  txs = insert r db.txs;
  links = insert record { tag_id = t.id; tx_id = r.id } db.links;
}

module _ (contracts : TokenContracts) (tx : TrackedTx) (db : CacheDb) where
  -- The row of a transfer of a token, and the table that it and its tag are put in.
  pub tracked_row : Text → Text → Text → ℕ → TxRow
  tracked_row sender recipient token value = record {
    id = suc (length db.txs);
    tx_hash = tx.hash;
    block_number = tx.block_number;
    tx_index = tx.index;
    sender = contracts.checksum sender;
    recipient = contracts.checksum recipient;
    source_token = token;
    destination_token = token;
    from_value = value;
    to_value = value;
    success = tx.succeeds;
    date_block = tx.timestamp;
  }

  store_tagged-with_row :
      (sender recipient token : Text) (value : ℕ) (name domain : Text) (t : TagRow)
      → first (λ r. r.tx_hash == tx.hash) db.txs ≡ none
      → first (is_tag name (some domain)) db.tags ≡ some t
      → store_tagged contracts tx sender recipient token value name domain db
        ≡ ok (true, with_row db (tracked_row sender recipient token value) t)
  unfolding store_tagged add_transaction tag_transaction with_row tracked_row
  store_tagged-with_row sender recipient token value name domain t fresh tagged = ground (
    arith,
    first-insert_new (λ r. r.tx_hash == tx.hash) (tracked_row sender recipient token value) db.txs
        fresh,
    tagged,
  )

-- What adding the tags leaves of the tables: the transactions, and every tag that a test found.
record Extends (db db' : CacheDb) : Type 0 where
  txs : db'.txs ≡ db.txs
  tags : (p : TagRow → Bool) (t : TagRow) → first p db.tags ≡ some t → first p db'.tags ≡ some t

register_filter_tag-found :
    (name domain : Text) (db : CacheDb)
    → (db' : CacheDb) × (t : TagRow) × (register_filter_tag (name, some domain) db ≡ ok db')
      × (first (is_tag name (some domain)) db'.tags ≡ some t)
      × Extends db db'
unfolding register_filter_tag with_tag tag_registered
register_filter_tag-found name domain db =
    elim (Option-cases (first (is_tag name (some domain)) db.tags)) [
      | inl gone ↦ (
        with_tag name domain db,
        new_tag name domain db,
        ground (arith, add_tag-fresh name domain db gone),
        first-with_tag name domain db gone,
        record {
          txs = refl;
          tags = λ p t e. first-insert_old p (new_tag name domain db) db.tags t e;
        },
      )
      | inr (t, there) ↦ (
        db,
        t,
        ground (arith, add_tag-known name domain db t there),
        there,
        record { txs = refl; tags = λ p t e. e },
      )
    ]

-- After the tracker has added its tags, each of them is found, and the transactions are as before.
register_filter_tags-found :
    (db : CacheDb)
    → (db' : CacheDb) × (t g : TagRow) × (register_filter_tags tracker_tags db ≡ ok db')
      × (first (is_tag transfer_tag (some erc20_domain)) db'.tags ≡ some t)
      × (first (is_tag give_to_tag (some faucet_domain)) db'.tags ≡ some g)
      × (db'.txs ≡ db.txs)
unfolding register_filter_tags
register_filter_tags-found db =
    let (db1, t, e1, found1, ext1) = register_filter_tag-found transfer_tag erc20_domain db in
    let (db2, g, e2, found2, ext2) = register_filter_tag-found give_to_tag faucet_domain db1 in
    (db2, t, g, cc, ext2.tags (is_tag transfer_tag (some erc20_domain)) t found1, found2, cc)

-- Whatever the tables are, the tracker can add the tags of its filters. Then erc20_filter stores a
-- transaction that was not in the table, to a contract that is a token and with data that are a
-- transfer of it: with the addresses in checksum form, the token and the value for both sides, and a
-- link to a tag `transfer` of the domain `erc20`. It changes nothing else, and answers that the
-- transaction was its own.
pub erc20_filter-tagged :
    (contracts : TokenContracts) (tx : TrackedTx) (db : CacheDb) (token to : Text) (value : ℕ)
    → first (λ r. r.tx_hash == tx.hash) db.txs ≡ none
    → contracts.erc20_token tx.input ≡ ok token
    → contracts.parse_transfer_request tx.payload ≡ parsed (to, value)
    → (started : CacheDb) × (t : TagRow) × (register_filter_tags tracker_tags db ≡ ok started)
      × (is_tag transfer_tag (some erc20_domain) t ≡ true)
      × (erc20_filter contracts tx started
          ≡ ok (
            true,
            with_row started (tracked_row contracts tx started tx.output to token value) t,
          ))
unfolding erc20_filter transfer_matched token_transfer
erc20_filter-tagged contracts tx db token to value fresh known moved =
    let (started, t, g, added, found, _, same) = register_filter_tags-found db in
    (
      started,
      t,
      added,
      first_sound (is_tag transfer_tag (some erc20_domain)) started.tags t found,
      ground (
        arith,
        known,
        moved,
        store_tagged-with_row contracts tx started tx.output to token value transfer_tag
            erc20_domain t
            (subst (λ txs. first (λ r. r.tx_hash == tx.hash) txs ≡ none) (sym same) fresh) found,
      ),
    )
