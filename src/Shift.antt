-- ===== src/Shift.antt =====
-- The task `shift_nonce` of cic_eth/admin/nonce.py: a transaction is cancelled, and its sender's later
-- transactions are made again with lower nonces. chainqueue's reading and cancelling of an entry, and
-- the signing of a transaction, are arguments.
pub mod Submitted
use cic_stack_v.Prelude.{
  ℕ, ◌+◌, ◌-◌, ◌*◌, Bool, ◌&&◌, Option, none, some, List, [], ◌∷◌, map, leb, ◌==◌, max, select,
}
use cic_stack_v.Store.Rows.{Text, Otx, TxCacheRow}
use cic_stack_v.Store.Tasks.{Task, call, link, group, unlock_send, unlock_queue}
use cic_stack_v.Store.Session.{create_session, close}
use cic_stack_v.Store.Table.{insert}
use cic_stack_v.Store.{
  Db, Action, Result, ⊤, ok, err, ◌>>=◌, ◌>>◌, pure, query, update, commit, submit, from_result,
}
use cic_stack_v.External.{Encoding, Queue, Unsigned, Tx}
use cic_stack_v.Sql.{order_by}
use cic_stack_v.Upcoming.{joined}
use cic_stack_v.Ctrl
use cic_stack_v.Gas.Check.{create_check_gas_task}

pub record Library : Type 0 where
  -- `get_tx` of chainqueue: the signed transaction and the nonce of an entry, by chain and hash
  pub get_tx : Text → Text → Action (Text × ℕ)
  -- `set_cancel` with `manual=True`, by chain and hash
  pub set_cancel : Text → Text → Action ⊤
  -- `TxFactory.build_raw`: the transaction with new fields and the data of the original; a new hash
  -- and a new text
  pub build_raw : Text → Unsigned → Result (Text × Text)

-- The id that the database gives to a new entry.
next_id : List Otx → ℕ
next_id [] = 1
next_id (o ∷ os) = max (o.id + 1) (next_id os)

-- What is gathered over the transactions: hashes, signed transactions, and the gas of all.
pub record Shifted : Type 0 where
  pub hashes : List Text
  pub signed : List Text
  pub gas_total : ℕ

-- The fields of a transaction made again: a higher price, a lower nonce.
unfoldable pub moved : ℕ → Tx → Unsigned
moved delta tx = record tx.body { gas_price = tx.gas_price + 1; nonce = tx.nonce - delta }

-- The entries of the sender from a nonce on, in the order of their nonces.
unfoldable pub later : Text → ℕ → Db → List (Otx × TxCacheRow)
unfolding joined order_by
later address nonce db =
    order_by (λ a b. leb a.0.nonce b.0.nonce)
      (select (λ r. (r.1.sender == address) && leb nonce r.0.nonce) (joined db.otxs db.tx_cache))

module _ (enc : Encoding) (queue : Queue) (library : Library) where
  pub shift_one : Text → ℕ → Otx → Action (Text × Text)
  unfolding next_id moved
  shift_one chain delta otx = do
    let tx = queue.unpack (enc.strip_0x otx.signed_tx) chain
    new ← from_result (library.build_raw otx.signed_tx (moved delta tx))
    update λ db. record db {
      otxs =
          insert
            (record {
              id = next_id db.otxs;
              nonce = tx.nonce - delta;
              tx_hash = new.0;
              signed_tx = new.1;
              status = 0;
            })
            db.otxs;
    }
    library.set_cancel chain (enc.strip_0x tx.hash)
    queue.clone tx.hash new.0
    commit
    pure new

  pub shift_all : Text → ℕ → List (Otx × TxCacheRow) → Action Shifted
  unfolding shift_one moved
  shift_all chain delta [] = pure (record { hashes = []; signed = []; gas_total = 0 })
  shift_all chain delta ((otx, row) ∷ rows) = do
    let tx = moved delta (queue.unpack (enc.strip_0x otx.signed_tx) chain)
    new ← shift_one chain delta otx
    rest ← shift_all chain delta rows
    pure (record {
      hashes = new.0 ∷ rest.hashes;
      signed = new.1 ∷ rest.signed;
      gas_total = tx.gas_price * tx.gas + rest.gas_total;
    })

  -- The gas check of all, after which the sender is unlocked.
  unfoldable pub check_and_unlock : Text → Text → Shifted → Task
  check_and_unlock chain address shifted =
      link
        (create_check_gas_task shifted.signed chain address (some shifted.gas_total)
          (some shifted.hashes))
        (group (call (unlock_send chain address)) (call (unlock_queue chain address)))

  pub shift_nonce : Text → Text → ℕ → Action ⊤
  unfolding shift_all check_and_unlock later
  shift_nonce chain tx_hash_orig delta = do
    create_session
    brief ← library.get_tx chain tx_hash_orig
    let tx = queue.unpack (enc.strip_0x brief.0) chain
    Ctrl.lock_queue enc tt chain tx.sender none
    Ctrl.lock_send enc tt chain tx.sender none
    library.set_cancel chain (enc.strip_0x tx.hash)
    rows ← query (later (enc.wallet_address tx.sender) (brief.1 + delta))
    shifted ← shift_all chain delta rows
    close
    submit (check_and_unlock chain tx.sender shifted)
