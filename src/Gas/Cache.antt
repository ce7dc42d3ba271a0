-- ===== src/Gas/Cache.antt =====
-- `apply_gas_value_cache` of cic_eth/eth/gas.py: the most gas that a method of a contract has used.
pub mod Highest
use cic_stack_v.Prelude.{ℕ, Bool, Option, none, some, ltb, ◌==◌, ◌&&◌, if◌then◌else◌}
use cic_stack_v.Store.Rows.{Text, GasRow}
use cic_stack_v.Store.Table.{first, change, insert}
use cic_stack_v.Store.Session.{Session, fresh, bind_session, release_session}
use cic_stack_v.Store.{Db, Action, ⊤, ◌>>=◌, ◌>>◌, pure, query, update, commit}
use cic_stack_v.External.{Encoding}

abbrev pub caches : Text → Text → GasRow → Bool
caches address method r = (r.address == address) && (r.method == method)

abbrev pub row : Text → Text → Db → Option GasRow
row address method db = first (caches address method) db.gas_cache

-- The row keeps its value unless the new one is higher.
abbrev pub raised : ℕ → Text → GasRow → GasRow
raised value tx_hash r =
    if ltb r.value value then record r { value = value; tx_hash = tx_hash } else r

module _ (enc : Encoding) where
  store_value : Text → Text → ℕ → Text → Option GasRow → Action ⊤
  store_value address method value tx_hash none = update λ db. record db {
    gas_cache =
        insert (record { address = address; method = method; value = value; tx_hash = tx_hash })
          db.gas_cache;
  }
  store_value address method value tx_hash (some r) = update λ db. record db {
    gas_cache = change (caches address method) (raised value (enc.strip_0x tx_hash)) db.gas_cache;
  }

  pub apply_gas_value_cache_local : Text → Text → ℕ → Text → Session → Action ⊤
  unfolding store_value
  apply_gas_value_cache_local address method value tx_hash session = do
    let address = enc.executable_address address
    bind_session session
    o ← query (row address method)
    store_value address method value (enc.hash tx_hash) o
    commit
    release_session

  -- The task.
  pub apply_gas_value_cache : Text → Text → ℕ → Text → Action ⊤
  unfolding apply_gas_value_cache_local
  apply_gas_value_cache address method value tx_hash =
      apply_gas_value_cache_local address method value tx_hash fresh
