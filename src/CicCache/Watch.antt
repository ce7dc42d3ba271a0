-- ===== src/CicCache/Watch.antt =====
-- The filters of cic_cache's tracker, erc20.py and faucet.py of cic_cache/runnable/daemons/filters: a
-- transaction of a block that moves tokens is stored with a tag. The contracts and the decoding of
-- data are arguments. The tracker adds the tags of its filters before it starts, tracker.py.
pub mod Tagged
use cic_stack_v.Prelude.{ℕ, Bool, true, false, Option, none, some, List, [], ◌∷◌}
use cic_stack_v.Store.Rows.{Text}
use cic_stack_v.Store.{
  Error, Result, ok, err, value_error, not_a_contract, contract_mismatch, db_integrity,
}
use cic_stack_v.Ext.{Parsed, parsed, mismatch, failed}
use cic_stack_v.CicCache.{CacheDb}
use cic_stack_v.CicCache.Tagging.{add_transaction, tag_transaction, add_tag}

-- The tags of the filters, `transfer` of `erc20` and `give_to` of `faucet`.
abbrev pub transfer_tag : Text
transfer_tag = 1

abbrev pub erc20_domain : Text
erc20_domain = 2

abbrev pub give_to_tag : Text
give_to_tag = 3

abbrev pub faucet_domain : Text
faucet_domain = 4

-- A transaction and the number and the time of its block; `succeeds` is whether its status is SUCCESS.
pub record TrackedTx : Type 0 where
  pub hash : Text
  pub index : ℕ
  pub input : Text
  pub output : Text
  pub payload : Text
  pub succeeds : Bool
  pub block_number : ℕ
  pub timestamp : ℕ

pub record TokenContracts : Type 0 where
  pub checksum : Text → Text
  -- `ERC20Token`: the address of the token
  pub erc20_token : Text → Result Text
  -- recipient, value
  pub parse_transfer_request : Text → Parsed (Text × ℕ)
  -- `strip_0x` and `Faucet.method_for`: the recipient, if the data call a method of a faucet
  pub faucet_recipient : Text → Result (Option Text)
  pub faucet_token : Text → Result Text
  pub faucet_amount : Text → Result ℕ

-- What is committed; a call that raises commits nothing.
abbrev pub Filtered : Type 0
Filtered = Result (Bool × CacheDb)

commit_tagged : Result CacheDb → Filtered
commit_tagged (ok db) = ok (true, db)
commit_tagged (err e) = err e

module _ (chain : TokenContracts) where
  -- The transaction is added, and then tagged.
  unfoldable pub store_tagged :
      TrackedTx → Text → Text → Text → ℕ → Text → Text → CacheDb → Filtered
  unfolding commit_tagged
  store_tagged tx sender recipient token value name domain db = commit_tagged (
      tag_transaction tx.hash name (some domain) (
        add_transaction tx.hash tx.block_number tx.index (chain.checksum sender)
          (chain.checksum recipient) token token value value tx.succeeds tx.timestamp db))

  transfer_matched : TrackedTx → Text → Parsed (Text × ℕ) → CacheDb → Filtered
  unfolding store_tagged
  transfer_matched tx token (parsed (to, value)) db =
      store_tagged tx tx.output to token value transfer_tag erc20_domain db
  transfer_matched tx token mismatch db = ok (false, db)
  transfer_matched tx token (failed value_error) db = ok (false, db)
  transfer_matched tx token (failed e) db = err e

  token_transfer : TrackedTx → Result Text → CacheDb → Filtered
  unfolding transfer_matched
  token_transfer tx (ok token) db =
      transfer_matched tx token (chain.parse_transfer_request tx.payload) db
  token_transfer tx (err not_a_contract) db = ok (false, db)
  token_transfer tx (err contract_mismatch) db = ok (false, db)
  token_transfer tx (err e) db = err e

  -- `ERC20TransferFilter.filter`
  pub erc20_filter : TrackedTx → CacheDb → Filtered
  unfolding token_transfer
  erc20_filter tx db = token_transfer tx (chain.erc20_token tx.input) db

  gift_valued : TrackedTx → Text → Text → Result ℕ → CacheDb → Filtered
  unfolding store_tagged
  gift_valued tx recipient token (ok value) db =
      store_tagged tx tx.input recipient token value give_to_tag faucet_domain db
  gift_valued tx recipient token (err e) db = err e

  gift_token : TrackedTx → Text → Result Text → CacheDb → Filtered
  unfolding gift_valued
  gift_token tx recipient (ok token) db =
      gift_valued tx recipient token (chain.faucet_amount tx.input) db
  gift_token tx recipient (err e) db = err e

  gift_to : TrackedTx → Result (Option Text) → CacheDb → Filtered
  unfolding gift_token
  gift_to tx (ok (some recipient)) db = gift_token tx recipient (chain.faucet_token tx.input) db
  gift_to tx (ok none) db = ok (false, db)
  gift_to tx (err value_error) db = ok (false, db)
  gift_to tx (err e) db = err e

  -- `FaucetFilter.filter`
  pub faucet_filter : TrackedTx → CacheDb → Filtered
  unfolding gift_to
  faucet_filter tx db = gift_to tx (chain.faucet_recipient tx.payload) db

-- The rollback brings back what was committed for the tag before.
tag_registered : CacheDb → Result CacheDb → Result CacheDb
tag_registered db (ok db') = ok db'
tag_registered db (err db_integrity) = ok db
tag_registered db (err e) = err e

unfoldable pub register_filter_tag : Text × Option Text → CacheDb → Result CacheDb
unfolding tag_registered
register_filter_tag (name, domain) db = tag_registered db (add_tag name domain db)

unfoldable pub register_filter_tags : List (Text × Option Text) → CacheDb → Result CacheDb
register_filter_tags [] db = ok db
register_filter_tags (tag ∷ tags) db = elim (register_filter_tag tag db) [
  | ok db' ↦ register_filter_tags tags db'
  | err e ↦ err e
]

-- The tags of the tracker's filters, in the order of `main`.
abbrev pub tracker_tags : List (Text × Option Text)
tracker_tags = (transfer_tag, some erc20_domain) ∷ (give_to_tag, some faucet_domain) ∷ []
