-- ===== src/Shift/Submitted.antt =====
-- What `shift_nonce` submits, and that it leaves the sender locked.
use cic_stack_v.Prelude.{
  ℕ, ◌+◌, ◌*◌, ◌-◌, ◌==◌, ◌&&◌, leb, select, Bool, ◌≡◌, refl, false, some, none, List, [], ◌∷◌,
  ◌++◌, map, arith, bit_or, ◌∙◌, ap,
}
use cic_stack_v.Store.Rows.{Text, Otx, TxCacheRow, LockRow}
use cic_stack_v.Store.Table.{insert, count}
use cic_stack_v.Store.Tasks.{Task, call, link, group, unlock_send, unlock_queue}
use cic_stack_v.Gas.Check.{create_check_gas_task}
use cic_stack_v.Sql.{IsOrdered, order_by-IsOrdered, count-order_by}
use cic_stack_v.Upcoming.{joined}
use cic_stack_v.Store.{Db, Worker, Result, ⊤, ok}
use cic_stack_v.External.{Encoding, Queue, Unsigned}
use cic_stack_v.Lock.Effect.{
  flags_at, after_set, flags_at-set_self, after_set-otxs, after_set-tx_cache,
}
use cic_stack_v.LockEnum
use cic_stack_v.Ctrl.Effect.{lock_queue_lem, lock_send_lem}
use cic_stack_v.Shift.{
  Library, Shifted, next_id, moved, later, shift_one, shift_all, check_and_unlock, shift_nonce,
}

-- The rows of a sender from a nonce on: in the order of their nonces, and each as often as it is there.
pub IsLater : Text → ℕ → Db → List (Otx × TxCacheRow) → Type 0
IsLater address nonce db rows =
    IsOrdered (λ (a b : Otx × TxCacheRow). leb a.0.nonce b.0.nonce) rows
    × ((p : Otx × TxCacheRow → Bool)
        → count p rows
          ≡ count (λ r. p r && ((r.1.sender == address) && leb nonce r.0.nonce))
              (joined db.otxs db.tx_cache))

count-select :
    {A : Type 0} (p q : A → Bool) (xs : List A) → count p (select q xs) ≡ count (λ x. p x && q x) xs
unfolding count
count-select p q [] = refl
count-select p q (x ∷ xs) = ground (arith, count-select p q xs)

later-IsLater :
    (address : Text) (nonce : ℕ) (db : Db) → IsLater address nonce db (later address nonce db)
unfolding IsLater later
later-IsLater address nonce db =
    let le = λ (a b : Otx × TxCacheRow). leb a.0.nonce b.0.nonce in
    let q = λ (r : Otx × TxCacheRow). (r.1.sender == address) && leb nonce r.0.nonce in
    let rows = joined db.otxs db.tx_cache in
    (
      order_by-IsOrdered le (λ a b e. ground (arith, e)) (λ a b c e f. ground (arith, e, f))
          (select q rows),
      λ p. count-order_by p le (select q rows) ∙ count-select p q rows,
    )

IsLater-tables :
    (address : Text) (nonce : ℕ) (db db' : Db) (rows : List (Otx × TxCacheRow))
    → db.otxs ≡ db'.otxs
    → db.tx_cache ≡ db'.tx_cache
    → IsLater address nonce db rows
    → IsLater address nonce db' rows
unfolding IsLater
IsLater-tables address nonce db db' rows same_otxs same_cache (ordered, counts) = (
  ordered,
  λ p.
      counts p
      ∙ ap
          (λ otxs.
            count (λ r. p r && ((r.1.sender == address) && leb nonce r.0.nonce))
              (joined otxs db.tx_cache))
          same_otxs
      ∙ ap
          (λ cs.
            count (λ r. p r && ((r.1.sender == address) && leb nonce r.0.nonce))
              (joined db'.otxs cs))
          same_cache,
)

flags_at-locks :
    (chain a : Text) (db db' : Db)
    → db.locks ≡ db'.locks
    → flags_at chain a db ≡ flags_at chain a db'
unfolding flags_at
flags_at-locks chain a db db' e = ground (arith, e)

-- What is asked of the libraries: reading changes nothing, cancelling changes entries and cloning the
-- cache alone, without committing, and every transaction can be signed.
module _ (enc : Encoding) (queue : Queue) (library : Library) (chain : Text) (delta : ℕ)
    (cancelled : Text → List Otx → List Otx)
    (cloned : Text → Text → List TxCacheRow → List TxCacheRow)
    (new_hash new_text : Text → Unsigned → Text)
    (cancels : (h : Text) (v : Worker)
      → library.set_cancel chain h v
        ≡ (ok tt, record v { work = record v.work { otxs = cancelled h v.work.otxs } }))
    (clones : (old new : Text) (v : Worker)
      → queue.clone old new v
        ≡ (ok tt, record v { work = record v.work { tx_cache = cloned old new v.work.tx_cache } }))
    (builds : (raw : Text) (tx : Unsigned)
      → library.build_raw raw tx ≡ ok (new_hash raw tx, new_text raw tx)) where
  -- The new fields for an entry.
  abbrev pub fields : Otx × TxCacheRow → Unsigned
  fields (o, c) =
      let tx = queue.unpack (enc.strip_0x o.signed_tx) chain in
      record tx.body { gas_price = tx.gas_price + 1; nonce = tx.nonce - delta }

  pub gas_of : List (Otx × TxCacheRow) → ℕ
  gas_of [] = 0
  gas_of (r ∷ rows) = (fields r).gas_price * (fields r).gas + gas_of rows

  abbrev pub gathered : List (Otx × TxCacheRow) → Shifted
  gathered rows = record {
    hashes = map (λ r. new_hash r.0.signed_tx (fields r)) rows;
    signed = map (λ r. new_text r.0.signed_tx (fields r)) rows;
    gas_total = gas_of rows;
  }

  -- The worker once one transaction is made again.
  after_one : Otx → Worker → Worker
  unfolding next_id
  after_one o v =
      let tx = queue.unpack (enc.strip_0x o.signed_tx) chain in
      let new = new_hash o.signed_tx (moved delta tx) in
      let entry : Otx = record {
        id = next_id v.work.otxs;
        nonce = (moved delta tx).nonce;
        tx_hash = new;
        signed_tx = new_text o.signed_tx (moved delta tx);
        status = 0;
      } in
      let db : Db = record v.work {
        otxs = cancelled (enc.strip_0x tx.hash) (insert entry v.work.otxs);
        tx_cache = cloned tx.hash new v.work.tx_cache;
      } in
      record v { work = db; committed = db }

  after_one-locks : (o : Otx) (v : Worker) → (after_one o v).work.locks ≡ v.work.locks
  unfolding after_one
  after_one-locks o v = refl

  after_one-committed : (o : Otx) (v : Worker) → (after_one o v).committed.locks ≡ v.work.locks
  unfolding after_one
  after_one-committed o v = refl

  after_one-quiet : (o : Otx) (v : Worker) → (after_one o v).submitted ≡ v.submitted
  unfolding after_one
  after_one-quiet o v = refl

  shift_one_lem :
      (o : Otx) (v : Worker)
      → let tx = queue.unpack (enc.strip_0x o.signed_tx) chain in
        shift_one enc queue library chain delta o v ≡ (
          ok (new_hash o.signed_tx (moved delta tx), new_text o.signed_tx (moved delta tx)),
          after_one o v,
        )
  unfolding shift_one after_one
  shift_one_lem o v =
      let tx = queue.unpack (enc.strip_0x o.signed_tx) chain in
      let new = new_hash o.signed_tx (moved delta tx) in
      let entry : Otx = record {
        id = next_id v.work.otxs;
        nonce = (moved delta tx).nonce;
        tx_hash = new;
        signed_tx = new_text o.signed_tx (moved delta tx);
        status = 0;
      } in
      let added : Db = record v.work { otxs = insert entry v.work.otxs } in
      let freed : Db = record added { otxs = cancelled (enc.strip_0x tx.hash) added.otxs } in
      ground (
        arith,
        builds o.signed_tx (moved delta tx),
        cancels (enc.strip_0x tx.hash) (record v { work = added }),
        clones tx.hash new (record v { work = freed }),
      )

  -- All of them: what is gathered, while the locks stay and nothing is submitted.
  shift_all_lem :
      (rows : List (Otx × TxCacheRow)) (v : Worker) (locks : List LockRow)
      → v.work.locks ≡ locks
      → v.committed.locks ≡ locks
      → (v' : Worker) × (shift_all enc queue library chain delta rows v ≡ (ok (gathered rows), v'))
        × (v'.submitted ≡ v.submitted)
        × (v'.committed.locks ≡ locks)
  unfolding shift_all gas_of moved
  shift_all_lem [] v locks working kept = (v, refl, refl, kept)
  shift_all_lem ((o, c) ∷ rows) v locks working kept =
      let (v', done, quiet, kept') =
        shift_all_lem rows (after_one o v) locks (after_one-locks o v ∙ working)
          (after_one-committed o v ∙ working) in
      (v', ground (arith, shift_one_lem o v, done), quiet ∙ after_one-quiet o v, kept')

  -- The locked database.
  locked_for : Text → Db → Db
  locked_for address db =
      after_set chain LockEnum.send address none (after_set chain LockEnum.queue address none db)

  -- The check of the gas of all, and after it the unlocking of the sender.
  abbrev pub last_task : Text → Shifted → Task
  last_task address shifted =
      link
        (create_check_gas_task shifted.signed chain address (some shifted.gas_total)
          (some shifted.hashes))
        (group (call (unlock_send chain address)) (call (unlock_queue chain address)))

  -- What the task finds once the sender is locked and the transaction cancelled.
  abbrev pub rows_after : Text → Text → ℕ → Db → List (Otx × TxCacheRow)
  rows_after address hash nonce db =
      later address (nonce + delta) (record db { otxs = cancelled hash db.otxs })

  rows_after-IsLater :
      (address hash : Text) (nonce : ℕ) (db : Db)
      → IsLater address
          (nonce + delta)
          (record db { otxs = cancelled hash db.otxs })
          (rows_after address hash nonce (locked_for address db))
  unfolding locked_for
  rows_after-IsLater address hash nonce db =
      let one = after_set chain LockEnum.queue address none db in
      let same_otxs =
        after_set-otxs chain LockEnum.send address none one
        ∙ after_set-otxs chain LockEnum.queue address none db in
      let same_cache =
        after_set-tx_cache chain LockEnum.send address none one
        ∙ after_set-tx_cache chain LockEnum.queue address none db in
      IsLater-tables address (nonce + delta)
        (record (locked_for address db) { otxs = cancelled hash (locked_for address db).otxs })
        (record db { otxs = cancelled hash db.otxs })
        (rows_after address hash nonce (locked_for address db)) (ap (cancelled hash) same_otxs)
        same_cache
        (later-IsLater address (nonce + delta)
          (record (locked_for address db) { otxs = cancelled hash (locked_for address db).otxs }))

  -- Where the signing of every transaction and the cancelling and cloning of every entry succeed,
  -- `shift_nonce` submits one task: the check of the gas for all the transactions that it made again,
  -- those of the sender from `delta` above the nonce of the one that is cancelled, in the order of
  -- their nonces, each with a price of one more and a nonce of `delta` less, and for the sum of their
  -- gas; and after it the unlocking of the sender. Until then the sender is locked, for queueing and
  -- for sending. For a `delta` above 1 the transactions between stay as they are.
  pub shift_nonce-submits :
      (orig raw : Text) (nonce : ℕ) (w : Worker)
      → let opened : Worker = record w { work = w.committed; registered = false } in
        library.get_tx chain orig opened ≡ (ok (raw, nonce), opened)
        → let tx = queue.unpack (enc.strip_0x raw) chain in
          let a = enc.wallet_address tx.sender in
          let (r, w') = shift_nonce enc queue library chain orig delta w in
          (rows : List (Otx × TxCacheRow)) × IsLater a
            (nonce + delta)
            (record w.committed { otxs = cancelled (enc.strip_0x tx.hash) w.committed.otxs })
            rows
          × (r ≡ ok tt)
          × (w'.submitted ≡ w.submitted ++ last_task tx.sender (gathered rows) ∷ [])
          × (flags_at chain a w'.committed
              ≡ bit_or (bit_or (flags_at chain a w.committed) LockEnum.queue) LockEnum.send)
  unfolding shift_nonce locked_for check_and_unlock
  shift_nonce-submits orig raw nonce w opens =
      let tx = queue.unpack (enc.strip_0x raw) chain in
      let a = enc.wallet_address tx.sender in
      let opened : Worker = record w { work = w.committed; registered = false } in
      let queue_locked = after_set chain LockEnum.queue a none w.committed in
      let w₁ : Worker = record opened { work = queue_locked; committed = queue_locked } in
      let locked = locked_for a w.committed in
      let w₂ : Worker = record opened { work = locked; committed = locked } in
      let v : Worker = record w₂ {
        work = record locked { otxs = cancelled (enc.strip_0x tx.hash) locked.otxs };
      } in
      let rows = rows_after a (enc.strip_0x tx.hash) nonce locked in
      let (v', done, quiet, kept) = shift_all_lem rows v locked.locks refl refl in
      let whole : shift_nonce enc queue library chain orig delta w ≡ (
        ok tt,
        record v' {
          work = v'.committed;
          submitted = v'.submitted ++ last_task tx.sender (gathered rows) ∷ [];
        },
      ) =
        ground (
          arith,
          opens,
          lock_queue_lem enc tt chain tx.sender opened,
          lock_send_lem enc tt chain tx.sender w₁,
          cancels (enc.strip_0x tx.hash) w₂,
          done,
        ) in
      (
        rows,
        rows_after-IsLater a (enc.strip_0x tx.hash) nonce w.committed,
        ground (arith, whole),
        ground (arith, whole, quiet),
        ap (λ (o : Result ⊤ × Worker). flags_at chain a o.1.committed) whole
            ∙ flags_at-locks chain a v'.committed locked kept
            ∙ flags_at-set_self chain LockEnum.send a none queue_locked
            ∙ ap (λ f. bit_or f LockEnum.send)
                (flags_at-set_self chain LockEnum.queue a none w.committed),
      )
