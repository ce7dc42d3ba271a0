-- ===== src/CicCache/Requests/Laws.antt =====
-- What the query server answers to a request.
use cic_stack_v.Prelude.{
  ℕ, ◌≡◌, ◌⊎◌, refl, true, false, none, some, arith, inl, inr, All, subst, Option-cases,
}
use cic_stack_v.Store.{Result-cases, ok, err, type_error}
use cic_stack_v.External.{Encoding}
use cic_stack_v.CicCache.{CacheDb}
use cic_stack_v.CicCache.Bloom.{Moolb, load_transactions}
use cic_stack_v.CicCache.Data.{load_transactions_with_data}
use cic_stack_v.CicCache.Data.Bounds.{Within, load_transactions_with_data-Within}
use cic_stack_v.CicCache.Requests.{
  Groups, AccountGroups, DataAnswer, Window, bloom_answer, parse_query_any,
  process_transactions_all_bloom, process_transactions_account_data, process_transactions_all_data,
}

-- To the path `/tx/<limit>/<offset>` the filters answered are of the rows from the number given for the
-- limit on, at most as many as the number given for the offset.
pub process_transactions_all_bloom-swaps :
    {F : Type 0} (moolb : Moolb F) (db : CacheDb) (limit offset : ℕ)
    → process_transactions_all_bloom moolb db
        (some record { group1 = some limit; group2 = some offset; group3 = none; group4 = none })
      ≡ some (bloom_answer moolb (load_transactions moolb db limit offset none none false))
unfolding process_transactions_all_bloom parse_query_any
process_transactions_all_bloom-swaps moolb db limit offset = refl

-- A path for an account without both the limit and the offset is answered with a TypeError.
pub process_transactions_account_data-refuses :
    (enc : Encoding) (db : CacheDb) (r : AccountGroups)
    → (r.group4 ≡ none) ⊎ (r.group6 ≡ none)
    → process_transactions_account_data enc db (some r) ≡ some (err type_error)
unfolding process_transactions_account_data
process_transactions_account_data-refuses enc db r missing = elim (Option-cases r.group4) [
  | inl absent ↦ ground (arith, absent)
  | inr (n, there) ↦ ground (arith, there, missing)
]

answered :
    (db : CacheDb) (r : Groups) (a : DataAnswer) (q : Window)
    → parse_query_any r ≡ ok q
    → process_transactions_all_data db (some r) ≡ some (ok a)
    → let (blocks, entries) =
        load_transactions_with_data db q.offset q.limit q.block_offset q.block_end true in
      record { blocks = blocks; data_entries = entries } ≡ a
unfolding process_transactions_all_data
answered db r a q parsed e = ground (arith, parsed, e)

-- Whenever the data of all accounts is answered, the entries are of blocks between the bounds that
-- are answered with them.
pub process_transactions_all_data-Within :
    (db : CacheDb) (r : Groups) (a : DataAnswer)
    → process_transactions_all_data db (some r) ≡ some (ok a)
    → All (Within a.blocks) a.data_entries
unfolding process_transactions_all_data
process_transactions_all_data-Within db r a e = elim (Result-cases (parse_query_any r)) [
  | inl (q, parsed) ↦
      subst (λ a. All (Within a.blocks) a.data_entries) (answered db r a q parsed e)
        (load_transactions_with_data-Within db q.offset q.limit q.block_offset q.block_end)
  | inr (x, refused) ↦ ground (arith, refused)
]
