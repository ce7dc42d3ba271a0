-- ===== src/CicCache/Bloom.antt =====
-- `BloomCache` of cic_cache/cache.py: the bounds and the filters of a listing. The filter is that of
-- the moolb library, a parameter.
pub mod Cover
use cic_stack_v.Prelude.{
  ℕ, ◌+◌, ◌/◌, ◌%◌, ◌^◌, Bool, true, false, Option, none, some, List, [], ◌∷◌, ◌++◌, ltb,
  if◌then◌else◌,
}
use cic_stack_v.Store.Rows.{Text}
use cic_stack_v.CicCache.{CacheDb}
use cic_stack_v.CicCache.Listing.{list_transactions_mined, list_transactions_account_mined}

-- `moolb.Bloom`: a filter of so many bits and rounds, an element added, and the test of one.
pub record Moolb (F : Type 0) : Type 0 where
  pub bloom : ℕ → ℕ → F
  pub add : F → List ℕ → F
  pub check : F → List ℕ → Bool

abbrev pub default_filter_size : ℕ
default_filter_size = 65536

get_filter_size : ℕ → ℕ
get_filter_size n = default_filter_size

-- The bytes of `n.to_bytes(4, byteorder='big')`, which is refused where `n` needs more.
unfoldable pub big_endian : ℕ → List ℕ
big_endian n = n / 2 ^ 24 % 256 ∷ n / 2 ^ 16 % 256 ∷ n / 2 ^ 8 % 256 ∷ n % 256 ∷ []

unfoldable pub to_bytes : ℕ → Option (List ℕ)
unfolding big_endian
to_bytes n = if ltb n (2 ^ 32) then some (big_endian n) else none

-- The lowest and the highest block so far, `none` for -1 and -1: the first row sets both, and a later
-- one only the end that the order moves.
unfoldable pub extend : Bool → ℕ → Option (ℕ × ℕ) → Option (ℕ × ℕ)
extend oldest block none = some (block, block)
extend true block (some (lowest, highest)) = some (lowest, block)
extend false block (some (lowest, highest)) = some (block, highest)

pub record Summary (F : Type 0) : Type 0 where
  pub blocks : Option (ℕ × ℕ)
  pub f_block : F
  pub f_blocktx : F

module _ {F : Type 0} (moolb : Moolb F) where
  -- One turn of the loop.
  add_row : Bool → ℕ → ℕ → Summary F → Option (Summary F)
  unfolding to_bytes extend
  add_row oldest block index s = elim (to_bytes block) [
    | none ↦ none
    | some b ↦ elim (to_bytes index) [
      | none ↦ none
      | some t ↦ some record {
        blocks = extend oldest block s.blocks;
        f_block = moolb.add s.f_block b;
        f_blocktx = moolb.add s.f_blocktx (b ++ t);
      }
    ]
  ]

  -- The loop over the rows; `none` for an OverflowError.
  add_rows : Bool → List (ℕ × ℕ) → Summary F → Option (Summary F)
  unfolding add_row
  add_rows oldest [] s = some s
  add_rows oldest ((block, index) ∷ rows) s = elim (add_row oldest block index s) [
    | none ↦ none
    | some s' ↦ add_rows oldest rows s'
  ]

  empty_summary : ℕ → Summary F
  unfolding get_filter_size
  empty_summary limit = record {
    blocks = none;
    f_block = moolb.bloom (get_filter_size limit) 3;
    f_blocktx = moolb.bloom (get_filter_size limit) 3;
  }

  pub load_transactions : CacheDb → ℕ → ℕ → Option ℕ → Option ℕ → Bool → Option (Summary F)
  unfolding add_rows empty_summary
  load_transactions db offset limit block_offset block_limit oldest =
      add_rows oldest (list_transactions_mined db offset limit block_offset block_limit oldest)
        (empty_summary limit)

  pub load_transactions_account :
      CacheDb → Text → ℕ → ℕ → Option ℕ → Option ℕ → Bool → Option (Summary F)
  unfolding add_rows empty_summary
  load_transactions_account db address offset limit block_offset block_limit oldest =
      add_rows oldest
        (list_transactions_account_mined db address offset limit block_offset block_limit oldest)
        (empty_summary limit)
