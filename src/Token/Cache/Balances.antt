-- ===== src/Token/Cache/Balances.antt =====
-- What a cached transfer does to the balances in the queue.
use cic_stack_v.Prelude.{
  ℕ, ◌+◌, ◌≡◌, ◌≢◌, refl, false, ◌&&◌, some, arith, bit_and, ◌==◌, if◌then◌else◌,
}
use cic_stack_v.Store.Rows.{Text, Otx, TxCacheRow}
use cic_stack_v.Store.Table.{first, insert}
use cic_stack_v.Store.{Db, Worker, Action, ok}
use cic_stack_v.External.{Encoding, Queue}
use cic_stack_v.Balance.{live_value, outgoing, incoming}
use cic_stack_v.Balance.Queued.{sum_live-insert}
use cic_stack_v.Token.Cache.{TxDict, Requests, cache_transfer_data, cache_transfer_from_data}

-- The row of the cache for the queue entry with the id, at the time of its making.
pub row_of : ℕ → ℕ → TxDict → TxCacheRow
row_of id now d = record {
  otx_id = id;
  sender = d.from_address;
  recipient = d.to_address;
  source_token = d.source_token;
  destination_token = d.destination_token;
  from_value = d.from_value;
  to_value = d.to_value;
  date_checked = now;
}

pub cached : ℕ → ℕ → TxDict → Db → Db
cached id now d db = record db { tx_cache = insert (row_of id now d) db.tx_cache }

-- A live entry's new row adds its value to the one balance it names on either side.
cached-balances :
    (dead : ℕ) (token holder : Text) (o : Otx) (now : ℕ) (d : TxDict) (db : Db)
    → first (λ q. q.id == o.id) db.otxs ≡ some o
    → bit_and o.status dead ≡ 0
    → (outgoing dead token holder (cached o.id now d db)
        ≡ outgoing dead token holder db
          + (if (d.from_address == holder) && (d.source_token == token) then d.from_value else 0))
      × (incoming dead token holder (cached o.id now d db)
          ≡ incoming dead token holder db
            + (if (d.to_address == holder) && (d.destination_token == token)
                then d.to_value
                else 0))
unfolding outgoing incoming cached row_of live_value
cached-balances dead token holder o now d db entry alive = (
  ground (
    arith,
    sum_live-insert dead (λ c. (c.sender == holder) && (c.source_token == token))
        (λ c. c.from_value) db.otxs db.tx_cache (row_of o.id now d),
    entry,
    alive,
  ),
  ground (
    arith,
    sum_live-insert dead (λ c. (c.recipient == holder) && (c.destination_token == token))
        (λ c. c.to_value) db.otxs db.tx_cache (row_of o.id now d),
    entry,
    alive,
  ),
)

module _ (enc : Encoding) (queue : Queue) (requests : Requests) (cache_tx_dict : TxDict → Action ℕ)
    (tx_hash raw chain : Text) (dead now cache_id : ℕ) (o : Otx) (w : Worker)
    (entry : first (λ q. q.id == o.id) w.committed.otxs ≡ some o)
    (alive : bit_and o.status dead ≡ 0)
    (stores : (d : TxDict) (v : Worker)
      → d.hash ≡ tx_hash
      → cache_tx_dict d v ≡ (
        ok cache_id,
        record v { work = cached o.id now d v.work; committed = cached o.id now d v.work },
      )) where
  opened : Worker
  opened = record w { work = w.committed; registered = false }

  -- Caching a transfer of an entry that is alive adds its value to what goes out of its sender and to
  -- what comes in to its recipient, in the token that it calls, and to no other balance.
  pub cache_transfer_data-balances :
      (recipient : Text) (value : ℕ) (token holder : Text)
      → requests.parse_transfer_request (requests.data_of (enc.strip_0x raw) chain)
        ≡ ok (recipient, value)
      → let tx = queue.unpack (enc.strip_0x raw) chain in
        let (r, w') = cache_transfer_data enc queue requests cache_tx_dict tx_hash raw chain w in
        (r ≡ ok (tx_hash, cache_id))
        × (outgoing dead token holder w'.committed
            ≡ outgoing dead token holder w.committed
              + (if (enc.wallet_address tx.sender == holder)
                    && (enc.executable_address tx.recipient == token)
                  then value
                  else 0))
        × (incoming dead token holder w'.committed
            ≡ incoming dead token holder w.committed
              + (if (enc.wallet_address recipient == holder)
                    && (enc.executable_address tx.recipient == token)
                  then value
                  else 0))
  unfolding cache_transfer_data opened
  cache_transfer_data-balances recipient value token holder parsed =
      let tx = queue.unpack (enc.strip_0x raw) chain in
      let d : TxDict = record {
        hash = tx_hash;
        from_address = enc.wallet_address tx.sender;
        to_address = enc.wallet_address recipient;
        source_token = enc.executable_address tx.recipient;
        destination_token = enc.executable_address tx.recipient;
        from_value = value;
        to_value = value;
      } in
      ground (
        arith,
        parsed,
        stores d opened refl,
        cached-balances dead token holder o now d w.committed entry alive,
      )

  -- Caching a transfer on behalf of another takes the value from what the sender of the transaction, the
  -- spender, has: what goes out of any other account stays, the holder's too.
  pub cache_transfer_from_data-balances :
      (holder recipient : Text) (value : ℕ) (token account : Text)
      → requests.parse_transfer_from_request (requests.data_of (enc.strip_0x raw) chain)
        ≡ ok (holder, recipient, value)
      → (queue.unpack (enc.strip_0x raw) chain).sender ≢ account
      → let tx = queue.unpack (enc.strip_0x raw) chain in
        let (r, w') =
          cache_transfer_from_data enc queue requests cache_tx_dict tx_hash raw chain w in
        (r ≡ ok (tx_hash, cache_id))
        × (outgoing dead token account w'.committed ≡ outgoing dead token account w.committed)
        × (incoming dead token account w'.committed
            ≡ incoming dead token account w.committed
              + (if (recipient == account) && (enc.executable_address tx.recipient == token)
                  then value
                  else 0))
  unfolding cache_transfer_from_data opened
  cache_transfer_from_data-balances holder recipient value token account parsed other =
      let tx = queue.unpack (enc.strip_0x raw) chain in
      let d : TxDict = record {
        hash = tx_hash;
        from_address = tx.sender;
        to_address = recipient;
        source_token = enc.executable_address tx.recipient;
        destination_token = enc.executable_address tx.recipient;
        from_value = value;
        to_value = value;
      } in
      ground (
        arith,
        parsed,
        stores d opened refl,
        cached-balances dead token account o now d w.committed entry alive,
      )
