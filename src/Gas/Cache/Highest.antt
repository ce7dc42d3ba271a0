-- ===== src/Gas/Cache/Highest.antt =====
-- The cache holds the highest value of each method that it was given.
use cic_stack_v.Prelude.{
  ℕ, max, ◌≡◌, true, false, Bool, Option, none, some, List, [], ◌∷◌, arith, Option-cases,
  Bool-cases, inl, inr, ◌==◌, ◌&&◌, if◌then◌else◌,
}
use cic_stack_v.Store.Rows.{Text, GasRow}
use cic_stack_v.Store.Table.{
  first_sound, first-insert_new, first-insert_miss, first-change_self, first-change_apart,
}
use cic_stack_v.Store.{Db, Worker}
use cic_stack_v.External.{Encoding}
use cic_stack_v.Gas.Cache.{caches, row, raised, apply_gas_value_cache}

-- What one application reports: contract, method, gas used, transaction.
pub record Report : Type 0 where
  pub address : Text
  pub method : Text
  pub value : ℕ
  pub tx_hash : Text

abbrev value_of : Option GasRow → ℕ
value_of none = 0
value_of (some r) = r.value

-- The cached value, 0 where there is none.
pub cached : Text → Text → Db → ℕ
cached address method db = value_of (row address method db)

module _ (enc : Encoding) where
  -- Tasks of reports, one after the other.
  pub apply_all : List Report → Worker → Worker
  apply_all [] w = w
  apply_all (r ∷ rs) w =
      apply_all rs (apply_gas_value_cache enc r.address r.method r.value r.tx_hash w).1

  abbrev concerns : Text → Text → Report → Bool
  concerns address method r = (enc.executable_address r.address == address) && (r.method == method)

  -- The highest value that reports give for a method of a contract.
  pub highest : Text → Text → List Report → ℕ
  highest address method [] = 0
  highest address method (r ∷ rs) =
      let rest = highest address method rs in
      if concerns address method r then max r.value rest else rest

  new_row : Report → GasRow
  new_row r = record {
    address = enc.executable_address r.address;
    method = r.method;
    value = r.value;
    tx_hash = enc.hash r.tx_hash;
  }

  applied : Report → Worker → Worker
  applied r w = (apply_gas_value_cache enc r.address r.method r.value r.tx_hash w).1

  cached-apply_self :
      (r : Report) (w : Worker)
      → let a = enc.executable_address r.address in
        cached a r.method (applied r w).committed ≡ max (cached a r.method w.committed) r.value
  unfolding applied apply_gas_value_cache cached new_row
  cached-apply_self r w =
      let p = caches (enc.executable_address r.address) r.method in
      let f = raised r.value (enc.strip_0x (enc.hash r.tx_hash)) in
      elim (Option-cases (row (enc.executable_address r.address) r.method w.committed)) [
        | inl e ↦ ground (arith, first-insert_new p (new_row r) w.committed.gas_cache)
        | inr (o, e) ↦ ground (
          arith,
          first_sound p w.committed.gas_cache o e,
          first-change_self p f w.committed.gas_cache o e,
        )
      ]

  -- A new value never changes which entry a row is.
  keeps : (a m v h : ℕ) (x : GasRow) → caches a m (raised v h x) ≡ caches a m x
  keeps a m v h x = ground arith

  apart :
      (r : Report) (a m : Text) (x : GasRow)
      → concerns a m r ≡ false
      → caches (enc.executable_address r.address) r.method x ≡ true
      → caches a m x ≡ false
  apart r a m x h k = ground arith

  cached-apply_apart :
      (r : Report) (w : Worker) (a m : Text)
      → concerns a m r ≡ false
      → cached a m (applied r w).committed ≡ cached a m w.committed
  unfolding applied apply_gas_value_cache cached new_row
  cached-apply_apart r w a m other =
      let p = caches (enc.executable_address r.address) r.method in
      let hash = enc.strip_0x (enc.hash r.tx_hash) in
      elim (Option-cases (row (enc.executable_address r.address) r.method w.committed)) [
        | inl e ↦ ground (arith, first-insert_miss (caches a m) (new_row r) w.committed.gas_cache)
        | inr (o, e) ↦ ground (
          arith,
          first-change_apart p (caches a m) (λ x. apart r a m x other) (raised r.value hash)
              (keeps a m r.value hash) w.committed.gas_cache,
        )
      ]

  -- After any reports, each method of each contract has the highest value that was reported for it, or
  -- the one cached before if that is higher.
  pub cached-apply_all :
      (rs : List Report) (w : Worker) (a m : Text)
      → cached a m (apply_all rs w).committed ≡ max (cached a m w.committed) (highest a m rs)
  unfolding apply_all highest applied
  cached-apply_all [] w a m = omega arith
  cached-apply_all (r ∷ rs) w a m = elim (Bool-cases (concerns a m r)) [
    | inl same ↦ ground (arith, cached-apply_all rs (applied r w) a m, cached-apply_self r w)
    | inr other ↦
        ground (arith, cached-apply_all rs (applied r w) a m, cached-apply_apart r w a m other)
  ]
