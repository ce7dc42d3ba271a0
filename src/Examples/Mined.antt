-- ===== src/Examples/Mined.antt =====
-- Runs with the cache of mined transactions.
use cic_stack_v.Prelude.{
  ℕ, Bool, ◌+◌, ◌≤◌, length, ◌≡◌, refl, arith, true, false, none, some, List, [], ◌∷◌, ◌==◌, ◌&&◌,
  ◌||◌, All,
}
use cic_stack_v.Store.Table.{first}
use cic_stack_v.Sql.{window, order_by}
use cic_stack_v.CicCache.{CacheDb, TxRow, TagRow}
use cic_stack_v.Store.{ok}
use cic_stack_v.Ext.{parsed}
use cic_stack_v.CicCache.Tagging.{is_tag}
use cic_stack_v.CicCache.Watch.{
  TrackedTx, TokenContracts, transfer_tag, erc20_domain, tracker_tags, register_filter_tags,
  erc20_filter,
}
use cic_stack_v.CicCache.Watch.Tagged.{with_row, tracked_row, erc20_filter-tagged}
use cic_stack_v.CicCache.Listing.{
  Tagged, in_range, of_account, by_block, list_transactions_account_mined,
  list_transactions_account_mined_with_data,
}
use cic_stack_v.CicCache.Listing.Laws.{
  Listed, InOrder, list_transactions_account_mined_with_data-IsAnswer,
}
use cic_stack_v.CicCache.Bloom.{Moolb, Summary, load_transactions_account}
use cic_stack_v.CicCache.Bloom.Cover.{MoolbLaws, Contains, load_transactions_account-Covers}
use cic_stack_v.CicCache.Data.{load_transactions_with_data}
use cic_stack_v.CicCache.Data.Bounds.{Within}
use cic_stack_v.CicCache.Requests.{
  Groups, AccountGroups, DataAnswer, process_transactions_all_data, parse_query_any,
}
use cic_stack_v.CicCache.Requests.Laws.{process_transactions_all_data-Within}

abbrev mined : ℕ → ℕ → ℕ → TxRow
mined id block index = record {
  id = id;
  tx_hash = 30 + id;
  block_number = block;
  tx_index = index;
  sender = 21;
  recipient = 22;
  source_token = 51;
  destination_token = 51;
  from_value = 1;
  to_value = 1;
  success = true;
  date_block = 0;
}

abbrev cache_db : CacheDb
cache_db = record {
  txs = mined 1 13 42 ∷ mined 2 15 0 ∷ mined 3 13 7 ∷ [];
  tags = record { id = 1; domain = some 91; value = 92 } ∷ [];
  links = record { tag_id = 1; tx_id = 2 } ∷ [];
}

-- A filter that keeps all that it is given.
same : List ℕ → List ℕ → Bool
same [] [] = true
same [] (y ∷ ys) = false
same (x ∷ xs) [] = false
same (x ∷ xs) (y ∷ ys) = (x == y) && same xs ys

same_self : (xs : List ℕ) → same xs xs ≡ true
unfolding same
same_self [] = refl
same_self (x ∷ xs) = ground (arith, same_self xs)

among : List (List ℕ) → List ℕ → Bool
unfolding same
among [] y = false
among (x ∷ xs) y = same x y || among xs y

abbrev exact : Moolb (List (List ℕ))
exact = record { bloom = λ bits rounds. []; add = λ f x. x ∷ f; check = among }

exact-laws : MoolbLaws exact
unfolding among
exact-laws = record {
  check-add_self = λ f x. ground (arith, same_self x);
  check-add_old = λ f x y h. ground (arith, h);
}

list_transactions_account_mined_with_data-IsAnswer_example :
    let rows =
      list_transactions_account_mined_with_data cache_db 21 0 2 (some 13) (some 14) false in
    All (λ (r : Tagged). Listed 21 (some 13) (some 14) r.tx) rows
    × InOrder false rows
    × (length rows ≤ 2)
list_transactions_account_mined_with_data-IsAnswer_example =
    list_transactions_account_mined_with_data-IsAnswer cache_db 21 0 2 (some 13) (some 14) false

load_transactions_account-Covers_example :
    (s : Summary (List (List ℕ))) × (load_transactions_account exact cache_db 21 0 100 none none
        false
      ≡ some s)
    × All (Contains exact s) (list_transactions_account_mined cache_db 21 0 100 none none false)
unfolding list_transactions_account_mined order_by window first in_range of_account by_block
load_transactions_account-Covers_example =
    load_transactions_account-Covers exact exact-laws cache_db 21 0 100 none none false
      ((omega arith, omega arith), ((omega arith, omega arith), ((omega arith, omega arith), tt)))

abbrev address_only : AccountGroups
address_only = record { address = 21; group4 = none; group6 = none }

abbrev no_groups : Groups
no_groups = record { group1 = none; group2 = none; group3 = none; group4 = none }

abbrev all_data : DataAnswer
all_data = record {
  blocks = (load_transactions_with_data cache_db 0 100 none none true).0;
  data_entries = (load_transactions_with_data cache_db 0 100 none none true).1;
}

process_transactions_all_data-Within_example : All (Within all_data.blocks) all_data.data_entries
unfolding process_transactions_all_data parse_query_any
process_transactions_all_data-Within_example =
    process_transactions_all_data-Within cache_db no_groups all_data refl

-- A transfer of 7 of the token at 51 in block 16, and the contracts that tell of it.
abbrev tracked : TrackedTx
tracked = record {
  hash = 44;
  index = 3;
  input = 51;
  output = 21;
  payload = 61;
  succeeds = true;
  block_number = 16;
  timestamp = 100;
}

abbrev contracts : TokenContracts
contracts = record {
  checksum = λ address. address;
  erc20_token = λ address. ok address;
  parse_transfer_request = λ payload. parsed (22, 7);
  faucet_recipient = λ payload. ok none;
  faucet_token = λ address. ok 51;
  faucet_amount = λ address. ok 5;
}

erc20_filter-tagged_example :
    (started : CacheDb) × (t : TagRow) × (register_filter_tags tracker_tags cache_db ≡ ok started)
    × (is_tag transfer_tag (some erc20_domain) t ≡ true)
    × (erc20_filter contracts tracked started
        ≡ ok (true, with_row started (tracked_row contracts tracked started 21 22 51 7) t))
unfolding first
erc20_filter-tagged_example = erc20_filter-tagged contracts tracked cache_db 51 22 7 refl refl refl
