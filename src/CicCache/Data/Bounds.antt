-- ===== src/CicCache/Data/Bounds.antt =====
-- The bounds that `DataCache` answers with hold of every row.
use cic_stack_v.Prelude.{
  ℕ, ◌≤◌, ◌≡◌, refl, true, Option, none, some, List, [], ◌∷◌, arith, All, All-weaken, sym, subst,
}
use cic_stack_v.CicCache.{CacheDb, TxRow}
use cic_stack_v.Sql.{IsOrdered}
use cic_stack_v.CicCache.Listing.{Tagged, by_block, ascending, list_transactions_mined_with_data}
use cic_stack_v.CicCache.Listing.Laws.{list_transactions_mined_with_data-IsAnswer}
use cic_stack_v.CicCache.Data.{Entry, process_rows, effective_limit, load_transactions_with_data}

abbrev pub Within : Option (ℕ × ℕ) → Entry → Type 0
Within none e = ⊥
Within (some (low, high)) e = (low ≤ e.tx.block_number) × (e.tx.block_number ≤ high)

IsAscending : List Tagged → Type 0
IsAscending rows = IsOrdered (λ (a b : Tagged). by_block true a.tx b.tx) rows

by_block-le : (a b : TxRow) → by_block true a b ≡ true → a.block_number ≤ b.block_number
unfolding by_block ascending
by_block-le a b e = ground arith

below :
    (r : Tagged) (rs : List Tagged)
    → All (λ (y : Tagged). by_block true r.tx y.tx ≡ true) rs
    → All (λ (y : Tagged). r.tx.block_number ≤ y.tx.block_number) rs
below r rs h =
    All-weaken (λ (y : Tagged). by_block true r.tx y.tx ≡ true)
      (λ (y : Tagged). r.tx.block_number ≤ y.tx.block_number) (λ y. by_block-le r.tx y.tx) rs h

-- The ascending loop once it has bounds: the lower stays, and the upper covers what comes.
climb :
    (low high : ℕ) (rows : List Tagged)
    → All (λ (r : Tagged). high ≤ r.tx.block_number) rows
    → IsAscending rows
    → low ≤ high
    → (top : ℕ) × ((process_rows true (some (low, high)) rows).0 ≡ some (low, top))
      × (high ≤ top)
      × All (Within (some (low, top))) (process_rows true (some (low, high)) rows).1
unfolding process_rows IsAscending
climb low high [] above sorted h = (high, refl, omega arith, tt)
climb low high (r ∷ rs) above sorted h =
    let (top, is, le, all) =
      climb low r.tx.block_number rs (below r rs sorted.0) sorted.1 (omega (arith, h, above.0)) in
    (top, is, omega (arith, le, above.0), ((omega (arith, h, above.0), le), all))

process_rows-Within :
    (rows : List Tagged)
    → IsAscending rows
    → All (Within (process_rows true none rows).0) (process_rows true none rows).1
unfolding process_rows IsAscending
process_rows-Within [] sorted = tt
process_rows-Within (r ∷ rs) sorted =
    let (top, is, le, all) =
      climb r.tx.block_number r.tx.block_number rs (below r rs sorted.0) sorted.1 (omega arith) in
    subst (λ b. All (Within b) (process_rows true none (r ∷ rs)).1) (sym is)
      ((omega arith, le), all)

-- Asked for the oldest first, as the query server asks, every entry answered is of a block between the
-- lowest and the highest that are answered with it, or there is no entry.
pub load_transactions_with_data-Within :
    (db : CacheDb) (offset limit : ℕ) (first_block last_block : Option ℕ)
    → let (blocks, entries) =
        load_transactions_with_data db offset limit first_block last_block true in
      All (Within blocks) entries
unfolding load_transactions_with_data IsAscending
load_transactions_with_data-Within db offset limit first_block last_block =
    process_rows-Within
      (list_transactions_mined_with_data db offset (effective_limit limit) first_block last_block
        true)
      (list_transactions_mined_with_data-IsAnswer db offset (effective_limit limit) first_block
        last_block true).1
