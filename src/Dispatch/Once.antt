-- ===== src/Dispatch/Once.antt =====
-- What the dispatcher submits, and that it submits a transaction once.
use cic_stack_v.Prelude.{◌≡◌, refl, List, [], ◌∷◌, ◌++◌, map, arith, ap, false, ◌⊎◌, inl, inr}
use mathlib.Core.List.{append_assoc, append-nil}
use cic_stack_v.Store.Rows.{Text}
use cic_stack_v.Store.{
  Db, Worker, Action, Result, Result-cases, ⊤, ok, err, not_local_tx, tx_state_change, name_error,
}
use cic_stack_v.External.{Encoding, Queue}
use cic_stack_v.Dispatch.{not_reserved, hash_of, dispatch, process_txs, process}

-- How a transaction stands in the queue: to be sent, not there, or in another state.
pub data Standing : Type 0 where
  queued unknown other : Standing

Standing-cases : (s : Standing) → (s ≡ queued) ⊎ ((s ≡ unknown) ⊎ (s ≡ other))
Standing-cases queued = inl refl
Standing-cases unknown = inr (inl refl)
Standing-cases other = inr (inr refl)

-- What `set_reserved` is to answer, given how the transaction stands and what reserving it makes.
pub answer : Standing → Db → Worker → Result ⊤ × Worker
answer queued db w = (ok tt, record w { work = db })
answer unknown db w = (err not_local_tx, w)
answer other db w = (err tx_state_change, w)

-- A transaction that is reserved stands otherwise from then on, and one that is not there, or stands
-- otherwise, stays so when another is reserved.
module _ (enc : Encoding) (queue : Queue) (chain : Text) (set_reserved : Text → Text → Action ⊤)
    (standing : Text → Db → Standing) (reserve : Text → Db → Db)
    (answers : (h : Text) (w : Worker)
      → set_reserved chain h w ≡ answer (standing h w.work) (reserve h w.work) w)
    (taken : (h : Text) (db : Db) → standing h db ≡ queued → standing h (reserve h db) ≡ other)
    (kept : (g h : Text) (db : Db)
      → standing g db ≡ other
      → standing h db ≡ queued
      → standing g (reserve h db) ≡ other)
    (absent : (g h : Text) (db : Db)
      → standing g db ≡ unknown
      → standing h db ≡ queued
      → standing g (reserve h db) ≡ unknown) where
  abbrev hash : Text → Text
  hash = hash_of enc queue chain

  -- The transactions that are to be sent when their turn comes, up to the first that stands otherwise.
  unfoldable pub chosen : List (Text × Text) → Db → List Text
  chosen [] db = []
  chosen ((k, raw) ∷ txs) db = elim (standing (hash raw) db) [
    | queued ↦ raw ∷ chosen txs (reserve (hash raw) db)
    | unknown ↦ chosen txs db
    | other ↦ []
  ]

  unfoldable pub ends : List (Text × Text) → Db → Result ⊤
  ends [] db = ok tt
  ends ((k, raw) ∷ txs) db = elim (standing (hash raw) db) [
    | queued ↦ ends txs (reserve (hash raw) db)
    | unknown ↦ ends txs db
    | other ↦ err name_error
  ]

  reserve_all : List (Text × Text) → Db → Db
  reserve_all [] db = db
  reserve_all ((k, raw) ∷ txs) db = elim (standing (hash raw) db) [
    | queued ↦ reserve_all txs (reserve (hash raw) db)
    | unknown ↦ reserve_all txs db
    | other ↦ db
  ]

  abbrev done : List (Text × Text) → Worker → Worker
  done txs w = record w {
    committed = reserve_all txs w.committed;
    work = reserve_all txs w.committed;
    submitted = w.submitted ++ map (dispatch enc queue chain) (chosen txs w.committed);
  }

  process_txs_lem :
      (txs : List (Text × Text)) (w : Worker)
      → w.work ≡ w.committed
      → process_txs enc queue chain set_reserved txs w ≡ (ends txs w.committed, done txs w)
  unfolding process_txs chosen ends reserve_all not_reserved answer
  process_txs_lem [] w same = ground (arith, same, append-nil w.submitted)
  process_txs_lem ((k, raw) ∷ txs) w same = elim (Standing-cases (standing (hash raw) w.work)) [
    | inl there ↦
        let db = reserve (hash raw) w.work in
        let task = dispatch enc queue chain raw in
        let v : Worker = record w {
          committed = db;
          work = db;
          submitted = w.submitted ++ task ∷ [];
        } in
        ground (
          arith,
          same,
          there,
          answers (hash raw) w,
          process_txs_lem txs v refl,
          append_assoc w.submitted (task ∷ []) (map (dispatch enc queue chain) (chosen txs db)),
        )
    | inr (inl gone) ↦
        let v : Worker = record w { work = w.committed } in
        ground (arith, same, gone, answers (hash raw) w, process_txs_lem txs v refl)
    | inr (inr stuck) ↦ ground (arith, same, stuck, answers (hash raw) w, append-nil w.submitted)
  ]

  process_lem :
      (txs : List (Text × Text)) (w : Worker)
      → let (r, w') = process enc queue chain set_reserved txs w in
        (r ≡ ends txs w.committed) × (w' ≡ record (done txs w) { registered = false })
  unfolding process
  process_lem txs w =
      let opened : Worker = record w { work = w.committed; registered = false } in
      elim (Result-cases (ends txs w.committed)) [
        | inl (a, e) ↦ ground (arith, e, process_txs_lem txs opened refl)
        | inr (x, e) ↦ ground (arith, e, process_txs_lem txs opened refl)
      ]

  kept_all :
      (h : Text) (txs : List (Text × Text)) (db : Db)
      → standing h db ≡ other
      → standing h (reserve_all txs db) ≡ other
  unfolding reserve_all
  kept_all h [] db e = e
  kept_all h ((k, raw) ∷ txs) db e = elim (Standing-cases (standing (hash raw) db)) [
    | inl there ↦
        ground (arith, there, kept_all h txs (reserve (hash raw) db) (kept h (hash raw) db e there))
    | inr (inl gone) ↦ ground (arith, gone, kept_all h txs db e)
    | inr (inr stuck) ↦ ground (arith, stuck, e)
  ]

  absent_all :
      (h : Text) (txs : List (Text × Text)) (db : Db)
      → standing h db ≡ unknown
      → standing h (reserve_all txs db) ≡ unknown
  unfolding reserve_all
  absent_all h [] db e = e
  absent_all h ((k, raw) ∷ txs) db e = elim (Standing-cases (standing (hash raw) db)) [
    | inl there ↦
        ground
          (arith, there, absent_all h txs (reserve (hash raw) db) (absent h (hash raw) db e there))
    | inr (inl gone) ↦ ground (arith, gone, absent_all h txs db e)
    | inr (inr stuck) ↦ ground (arith, stuck, e)
  ]

  chosen-reserve_all :
      (txs : List (Text × Text)) (db : Db)
      → let db' = reserve_all txs db in (chosen txs db' ≡ []) × (reserve_all txs db' ≡ db')
  unfolding chosen reserve_all
  chosen-reserve_all [] db = (refl, refl)
  chosen-reserve_all ((k, raw) ∷ txs) db = elim (Standing-cases (standing (hash raw) db)) [
    | inl there ↦
        let db' = reserve (hash raw) db in
        ground (arith, there, kept_all (hash raw) txs db' (taken (hash raw) db there))
    | inr (inl gone) ↦
        ground (arith, gone, absent_all (hash raw) txs db gone, chosen-reserve_all txs db)
    | inr (inr stuck) ↦ ground (arith, stuck)
  ]

  -- The dispatcher submits, in order, the check of the sender's lock followed by the sending for each
  -- transaction that is to be sent when its turn comes; it passes over one that is not in the queue, and
  -- ends with NameError at the first that stands otherwise. A dispatcher that then works through the
  -- same transactions, on the database that was committed, submits and changes nothing.
  pub process-once :
      (txs : List (Text × Text)) (w v : Worker)
      → v.committed ≡ (process enc queue chain set_reserved txs w).1.committed
      → let (r, w') = process enc queue chain set_reserved txs w in
        (r ≡ ends txs w.committed)
        × (w'.submitted ≡ w.submitted ++ map (dispatch enc queue chain) (chosen txs w.committed))
        × ((process enc queue chain set_reserved txs v).1
            ≡ record v { work = v.committed; registered = false })
  process-once txs w v after =
      let (_, changed) = process_lem txs w in
      let at : v.committed ≡ reserve_all txs w.committed = ground (arith, after, changed) in
      let (nothing, same) = chosen-reserve_all txs w.committed in
      ground (
        arith,
        process_lem txs w,
        process_lem txs v,
        ap (λ d. chosen txs d) at,
        ap (λ d. reserve_all txs d) at,
        at,
        nothing,
        same,
        append-nil v.submitted,
      )
