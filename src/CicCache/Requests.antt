-- ===== src/CicCache/Requests.antt =====
-- cic_cache/runnable/daemons/query.py: the parts of a path that matched are read as numbers, and a
-- listing is answered. The matching of a path and the encoding of an answer are Python's and are not
-- modelled: a request is what its path's groups matched, and an answer is a record.
pub mod Laws
use cic_stack_v.Prelude.{
  ℕ, Bool, true, false, Option, none, some, List, [], ◌∷◌, not, ltb, ◌==◌, if◌then◌else◌,
}
use cic_stack_v.Store.Rows.{Text}
use cic_stack_v.Store.{Result, ok, err, type_error, overflow_error, value_error}
use cic_stack_v.External.{Encoding}
use cic_stack_v.CicCache.{CacheDb}
use cic_stack_v.CicCache.Bloom.{Moolb, Summary, load_transactions, load_transactions_account}
use cic_stack_v.CicCache.Data.{
  Entry, default_limit, load_transactions_with_data, load_transactions_account_with_data,
}

infixl 5 ◌>>=◌
abbrev ◌>>=◌ : {A B : Type 0} → Result A → (A → Result B) → Result B
ok a >>= f = f a
err e >>= f = err e

-- The four groups of the paths for all accounts, each a number where it took part in the match.
pub record Groups : Type 0 where
  pub group1 : Option ℕ
  pub group2 : Option ℕ
  pub group3 : Option ℕ
  pub group4 : Option ℕ

unfoldable pub matched : Option ℕ → Bool
matched none = false
matched (some n) = true

-- `r.lastindex`, 0 for None.
unfoldable pub lastindex : Groups → ℕ
unfolding matched
lastindex r =
    if matched r.group4
    then 4
    else if matched r.group3
    then 3
    else if matched r.group2
    then 2
    else if matched r.group1
    then 1
    else 0

-- `int(r[n])`, which refuses None.
unfoldable pub int : Option ℕ → Result ℕ
int none = err type_error
int (some n) = ok n

-- A group that is read if the match got beyond it, or else a value of its own.
unfoldable pub int_if : {A : Type 0} → Bool → Option ℕ → (ℕ → A) → A → Result A
unfolding int
int_if true g f otherwise = int g >>= λ n. ok (f n)
int_if false g f otherwise = ok otherwise

-- `block_end < block_offset` is asked only where both were read.
unfoldable pub check_range : Option ℕ → Option ℕ → Bool
check_range (some first_block) (some last_block) = not (ltb last_block first_block)
check_range first_block last_block = true

pub record Window : Type 0 where
  pub offset : ℕ
  pub limit : ℕ
  pub block_offset : Option ℕ
  pub block_end : Option ℕ

unfoldable pub parse_query_any : Groups → Result Window
unfolding lastindex int_if check_range
parse_query_any r = do
  limit ← int_if (ltb 0 (lastindex r)) r.group1 (λ n. n) default_limit
  offset ← int_if (ltb 1 (lastindex r)) r.group2 (λ n. n) 0
  block_offset ← int_if (ltb 2 (lastindex r)) r.group3 some none
  block_end ← int_if (ltb 3 (lastindex r)) r.group4 some none
  if check_range block_offset block_end
      then ok record {
        offset = offset;
        limit = limit;
        block_offset = block_offset;
        block_end = block_end;
      }
      else err value_error

-- The groups of the paths for one account: the address, and the numbers of groups 4 and 6.
pub record AccountGroups : Type 0 where
  pub address : Text
  pub group4 : Option ℕ
  pub group6 : Option ℕ

pub record AccountWindow : Type 0 where
  pub address : Text
  pub offset : ℕ
  pub limit : ℕ

-- The pattern has six groups, whichever of them took part, so that both tests on their number hold.
unfoldable pub parse_query_account : Encoding → AccountGroups → Result AccountWindow
unfolding int
parse_query_account enc r = do
  limit ← int r.group4
  offset ← int r.group6
  ok record {
    address = enc.strip_0x r.address;
    offset = offset;
    limit = if limit == 0 then default_limit else limit;
  }

pub record BloomAnswer (F : Type 0) : Type 0 where
  pub blocks : Option (ℕ × ℕ)
  pub block_filter : F
  pub blocktx_filter : F
  pub filter_rounds : ℕ

pub record DataAnswer : Type 0 where
  pub blocks : Option (ℕ × ℕ)
  pub data_entries : List Entry

-- `None`, where the path is another's.
routed : {R A : Type 0} → (R → Result A) → Option R → Option (Result A)
routed f none = none
routed f (some r) = some (f r)

module _ {F : Type 0} (moolb : Moolb F) where
  unfoldable pub bloom_answer : Option (Summary F) → Result (BloomAnswer F)
  bloom_answer none = err overflow_error
  bloom_answer (some s) = ok record {
    blocks = s.blocks;
    block_filter = s.f_block;
    blocktx_filter = s.f_blocktx;
    filter_rounds = 3;
  }

  pub process_transactions_account_bloom :
      Encoding → CacheDb → Option AccountGroups → Option (Result (BloomAnswer F))
  unfolding bloom_answer parse_query_account routed
  process_transactions_account_bloom enc db path =
      routed
        (λ r. do
          q ← parse_query_account enc r
          bloom_answer
              (load_transactions_account moolb db q.address q.offset q.limit none none false))
        path

  -- The first that `parse_query_any` returns, the offset, is taken for the limit, and the second for
  -- the offset; the blocks are not passed on.
  pub process_transactions_all_bloom : CacheDb → Option Groups → Option (Result (BloomAnswer F))
  unfolding bloom_answer routed
  process_transactions_all_bloom db path =
      routed
        (λ r. do
          q ← parse_query_any r
          let limit = q.offset
          let offset = q.limit
          bloom_answer (load_transactions moolb db offset limit none none false))
        path

unfoldable pub data_answer : Option (ℕ × ℕ) × List Entry → Result DataAnswer
data_answer (blocks, entries) = ok record { blocks = blocks; data_entries = entries }

unfoldable pub process_transactions_all_data : CacheDb → Option Groups → Option (Result DataAnswer)
unfolding data_answer routed
process_transactions_all_data db path =
    routed
      (λ r. do
        q ← parse_query_any r
        data_answer
            (load_transactions_with_data db q.offset q.limit q.block_offset q.block_end true))
      path

pub process_transactions_account_data :
    Encoding → CacheDb → Option AccountGroups → Option (Result DataAnswer)
unfolding data_answer parse_query_account routed
process_transactions_account_data enc db path =
    routed
      (λ r. do
        q ← parse_query_account enc r
        data_answer
            (load_transactions_account_with_data db q.address q.offset q.limit none none false))
      path
