-- ===== src/Upcoming/Answer.antt =====
-- What `get_upcoming_tx` answers with: of senders who are not locked, transactions of the queue that
-- have the status asked for and the lowest nonce.
use cic_stack_v.Prelude.{
  ℕ, ◌+◌, ◌≤◌, ◌<◌, ◌≡◌, ◌≢◌, Bool, List, [], ◌∷◌, arith, select, All, length, bit_and,
}
use cic_stack_v.Store.Rows.{Text, Otx, TxCacheRow, LockRow}
use cic_stack_v.Store.{Db, Result, ⊤, ok}
use cic_stack_v.External.{Encoding}
use cic_stack_v.LockEnum
use cic_stack_v.Balance.{put}
use cic_stack_v.Upcoming.{Asked, is_upcoming, joined}
use cic_stack_v.Upcoming.Senders.{Low}

pub length-put :
    {A : Type 0} (k : Text) (v : A) (d : List (Text × A)) → length (put k v d) ≤ length d + 1
unfolding put
length-put k v [] = omega arith
length-put k v ((k', v') ∷ d) = ground (arith, length-put k v d)

module _ (enc : Encoding) (pending : ℕ) (is_alive : ℕ → Bool) (now : ℕ) (asked : Asked) where
  module _ (unpack : Text → Result ⊤) (P : Otx → Text → Type 0)
      (decodes : (o : Otx) (s : Text) → P o s → unpack o.signed_tx ≡ ok tt) (start : Db) where
    -- The rows that the outer query finds.
    pub upcoming_rows : List (Otx × TxCacheRow)
    upcoming_rows =
        select (is_upcoming enc pending is_alive now asked start.locks)
          (joined start.otxs start.tx_cache)

    -- Not every lock row of the sender has the SEND bit, if there is one at all.
    pub NotLocked : Text → Type 0
    NotLocked s =
        All (λ (l : LockRow). l.address ≡ s → bit_and l.flags LockEnum.send ≢ 0) start.locks
        → All (λ (l : LockRow). l.address ≢ s) start.locks

    -- A transaction to send next: its entry and its sender are in the queue, the entry has the status
    -- asked for, the sender is not locked, and none of his transactions that the outer query finds has a
    -- lower nonce.
    pub record IsNext (t : Text × Text) : Type 0 where
      pub otx : Otx
      pub sender : Text
      pub queued : P otx sender
      pub hash : otx.tx_hash ≡ t.0
      pub signed : otx.signed_tx ≡ t.1
      pub status : bit_and otx.status asked.status ≡ asked.status
      pub open_ : NotLocked sender
      pub lowest : Low upcoming_rows (sender, otx.nonce)

    Group : Text × ℕ → Type 0
    Group (s, n) = NotLocked s × Low upcoming_rows (s, n)

    -- The entries and the senders that the session sees.
    Queued : Db → Type 0
    Queued db = All (λ (r : Otx × TxCacheRow). P r.0 r.1.sender) (joined db.otxs db.tx_cache)

    -- Within the limit so far, where there is one.
    Room : ℕ → List (Text × Text) → Type 0
    Room i txs = 0 < asked.limit → (length txs ≤ i) × (i < asked.limit)

    abbrev pub IsTold : List (Text × Text) → Type 0
    IsTold txs = All IsNext txs × (0 < asked.limit → length txs ≤ asked.limit)
