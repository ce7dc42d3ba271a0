-- ===== src/CicCache/Tagging.antt =====
-- `add_transaction`, `tag_transaction` and `add_tag` of cic_cache/db/list.py. A row's id is the number
-- of rows before it, plus one.
pub mod Laws
use cic_stack_v.Prelude.{
  ℕ, suc, Bool, true, false, ◌&&◌, Option, none, some, List, [], ◌∷◌, ◌++◌, ◌==◌, if◌then◌else◌,
  length,
}
use cic_stack_v.Store.Rows.{Text}
use cic_stack_v.Store.{Result, ok, err, index_error, db_integrity}
use cic_stack_v.Store.Table.{first, insert}
use cic_stack_v.CicCache.{CacheDb, TxRow, TagRow, LinkRow}

unfoldable pub add_transaction :
    Text → ℕ → ℕ → Text → Text → Text → Text → ℕ → ℕ → Bool → ℕ → CacheDb → CacheDb
add_transaction tx_hash block_number tx_index sender receiver source_token destination_token
      from_value to_value success timestamp db =
    record db {
      txs =
          insert
            record {
              id = suc (length db.txs);
              tx_hash = tx_hash;
              block_number = block_number;
              tx_index = tx_index;
              sender = sender;
              recipient = receiver;
              source_token = source_token;
              destination_token = destination_token;
              from_value = from_value;
              to_value = to_value;
              success = success;
              date_block = timestamp;
            }
            db.txs;
    }

-- `domain = :b` of SQL, which no NULL passes.
unfoldable pub is_domain : Option Text → Text → Bool
is_domain none domain = false
is_domain (some d) domain = d == domain

-- `value = :a`, and `domain = :b` where a domain is given.
unfoldable pub is_tag : Text → Option Text → TagRow → Bool
unfolding is_domain
is_tag name none t = t.value == name
is_tag name (some domain) t = (t.value == name) && is_domain t.domain domain

-- `fetchall()` and the first of its rows, which raises where there is none.
fetch_first : {A : Type 0} → Option A → (A → Result CacheDb) → Result CacheDb
fetch_first none k = err index_error
fetch_first (some a) k = k a

unfoldable pub tag_transaction : Text → Text → Option Text → CacheDb → Result CacheDb
unfolding fetch_first
tag_transaction tx_hash name domain db =
    fetch_first (first (λ r. r.tx_hash == tx_hash) db.txs) (λ tx.
      fetch_first (first (is_tag name domain) db.tags)
        (λ tag. ok record db { links = insert record { tag_id = tag.id; tx_id = tx.id } db.links }))

-- The index on domain and value is unique; two NULL domains are not equal.
clashes : Option Text → Text → TagRow → Bool
unfolding is_tag
clashes none name t = false
clashes (some domain) name t = is_tag name (some domain) t

pub add_tag : Text → Option Text → CacheDb → Result CacheDb
unfolding clashes
add_tag name domain db = elim (first (clashes domain name) db.tags) [
  | some t ↦ err db_integrity
  | none ↦ ok record db {
    tags = insert record { id = suc (length db.tags); domain = domain; value = name } db.tags;
  }
]
