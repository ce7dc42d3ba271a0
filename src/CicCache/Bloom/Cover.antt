-- ===== src/CicCache/Bloom/Cover.antt =====
-- The filters of `BloomCache` miss no row that was listed.
use cic_stack_v.Prelude.{
  lt→ltb, ℕ, ◌^◌, ◌<◌, ◌≡◌, refl, Bool, true, Option, some, List, [], ◌∷◌, ◌++◌, arith, All,
}
use cic_stack_v.Store.Rows.{Text}
use cic_stack_v.CicCache.{CacheDb}
use cic_stack_v.CicCache.Listing.{list_transactions_account_mined}
use cic_stack_v.CicCache.Bloom.{
  Moolb, Summary, big_endian, to_bytes, add_row, add_rows, load_transactions_account, empty_summary,
  extend,
}

-- What a Bloom filter promises: an element that was added tests positive, now and later.
pub record MoolbLaws {F : Type 0} (moolb : Moolb F) : Type 0 where
  pub check-add_self : (f : F) (x : List ℕ) → moolb.check (moolb.add f x) x ≡ true
  pub check-add_old :
      (f : F) (x y : List ℕ) → moolb.check f y ≡ true → moolb.check (moolb.add f x) y ≡ true

abbrev pub Fits : ℕ × ℕ → Type 0
Fits (block, index) = (block < 2 ^ 32) × (index < 2 ^ 32)

to_bytes-fits : (n : ℕ) → n < 2 ^ 32 → to_bytes n ≡ some (big_endian n)
unfolding to_bytes
to_bytes-fits n h = ground (arith, lt→ltb n (2 ^ 32) h)

module _ {F : Type 0} (moolb : Moolb F) where
  abbrev pub Contains : Summary F → ℕ × ℕ → Type 0
  Contains s (block, index) =
      (moolb.check s.f_block (big_endian block) ≡ true)
      × (moolb.check s.f_blocktx (big_endian block ++ big_endian index) ≡ true)

  module _ (laws : MoolbLaws moolb) where
    added : Bool → ℕ → ℕ → Summary F → Summary F
    added oldest block index s = record {
      blocks = extend oldest block s.blocks;
      f_block = moolb.add s.f_block (big_endian block);
      f_blocktx = moolb.add s.f_blocktx (big_endian block ++ big_endian index);
    }

    add_row-Fits :
        (oldest : Bool) (block index : ℕ) (s : Summary F)
        → Fits (block, index)
        → add_row moolb oldest block index s ≡ some (added oldest block index s)
    unfolding add_row added
    add_row-Fits oldest block index s h =
        ground (arith, to_bytes-fits block h.0, to_bytes-fits index h.1)

    added-Contains_self :
        (oldest : Bool) (block index : ℕ) (s : Summary F)
        → Contains (added oldest block index s) (block, index)
    unfolding added
    added-Contains_self oldest block index s = (
      laws.check-add_self s.f_block (big_endian block),
      laws.check-add_self s.f_blocktx (big_endian block ++ big_endian index),
    )

    -- A row that is in stays in.
    added-Contains_old :
        (oldest : Bool) (block index : ℕ) (s : Summary F) (r : ℕ × ℕ)
        → Contains s r
        → Contains (added oldest block index s) r
    unfolding added
    added-Contains_old oldest block index s (b, t) h = (
      laws.check-add_old s.f_block (big_endian block) (big_endian b) h.0,
      laws.check-add_old s.f_blocktx (big_endian block ++ big_endian index)
          (big_endian b ++ big_endian t) h.1,
    )

    -- All rows are read, those that were in stay in, and each that is read is in.
    add_rows-Covers :
        (oldest : Bool) (rows : List (ℕ × ℕ)) (s : Summary F)
        → All Fits rows
        → (s' : Summary F) × (add_rows moolb oldest rows s ≡ some s')
          × ((r : ℕ × ℕ) → Contains s r → Contains s' r)
          × All (Contains s') rows
    unfolding add_rows
    add_rows-Covers oldest [] s h = (s, refl, λ r c. c, tt)
    add_rows-Covers oldest ((block, index) ∷ rows) s h =
        let s₁ = added oldest block index s in
        let (s', done, keep, all) = add_rows-Covers oldest rows s₁ h.1 in
        (
          s',
          ground (arith, add_row-Fits oldest block index s h.0, done),
          (λ r c. keep r (added-Contains_old oldest block index s r c)),
          (keep (block, index) (added-Contains_self oldest block index s), all),
        )

    -- Where each block number and each index listed fits four bytes, the listing for an account is
    -- answered, and each transaction listed tests positive in both of the filters answered.
    pub load_transactions_account-Covers :
        (db : CacheDb) (address : Text) (offset limit : ℕ) (first_block last_block : Option ℕ)
        (oldest : Bool)
        → All Fits
            (list_transactions_account_mined db address offset limit first_block last_block oldest)
        → (s : Summary F) × (load_transactions_account moolb db address offset limit first_block
              last_block oldest
            ≡ some s)
          × All (Contains s) (
              list_transactions_account_mined db address offset limit first_block last_block oldest)
    unfolding load_transactions_account
    load_transactions_account-Covers db address offset limit first_block last_block oldest fits =
        let rows =
          list_transactions_account_mined db address offset limit first_block last_block oldest in
        let (s, done, keep, all) = add_rows-Covers oldest rows (empty_summary moolb limit) fits in
        (s, done, all)
