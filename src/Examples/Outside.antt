-- ===== src/Examples/Outside.antt =====
-- Runs of what reads the network: caches, shifted transactions, outside listings, proofs.
use cic_stack_v.Prelude.{
  if◌then◌else◌, ◌==◌, ℕ, ◌+◌, ◌≡◌, refl, Bool, true, Option, some, none, List, [], ◌∷◌, ◌++◌,
  bit_or, map,
}
use cic_stack_v.Store.Rows.{Text, Otx, TxCacheRow}
use cic_stack_v.Store.Table.{first}
use cic_stack_v.Store.{Action, ok, err, trust, type_error, unknown_contract}
use cic_stack_v.External.{Queue, Unsigned}
use cic_stack_v.Lock.Effect.{flags_at}
use cic_stack_v.LockEnum
use cic_stack_v.Balance.{outgoing, incoming}
use cic_stack_v.Role.Lookup.{address_for}
use cic_stack_v.Token.Cache.{TxDict, Requests, cache_transfer_data}
use cic_stack_v.Token.Cache.Balances.{cached, cache_transfer_data-balances}
use cic_stack_v.Shift.{Library, shift_nonce}
use cic_stack_v.Shift.Submitted.{IsLater, last_task, gathered, shift_nonce-submits}
use cic_stack_v.Ext.{Entry}
use cic_stack_v.Store.Table.{count}
use cic_stack_v.Sql.{IsOrdered}
use cic_stack_v.Ext.Collate.{
  Chars, Row, Sources, external, digits, digits_within, collect, row_for, row_of, key_of, put_row,
  same_text, le_text, time_chars, verify_and_expand, tx_collate,
}
use cic_stack_v.Ext.Collate.Order.{by_key, answer, IsShown, tx_collate-IsOrdered}
use cic_stack_v.Trust.{Declarator, verify_proofs}
use cic_stack_v.Trust.Verified.{are_signed, verify_proofs-are_signed}
use cic_stack_v.Examples.{enc, queue, queue_bits, unsigned, db, worker, queued_otx, queued_row}

abbrev requests : Requests
requests = record {
  data_of = λ raw chain. raw;
  parse_transfer_request = λ input. ok (23, 7);
  parse_transfer_from_request = λ input. ok (24, 23, 7);
  parse_approve_request = λ input. ok (23, 7);
  parse_give_to_request = λ input. ok 23;
  parse_add_request = λ input. ok 23;
}

-- The cache's row is for the entry 1, at time 0, and has the id 8.
cache_tx_dict : TxDict → Action ℕ
cache_tx_dict d v = (ok 8, record v { work = cached 1 0 d v.work; committed = cached 1 0 d v.work })

cache_transfer_data-balances_example :
    let (r, w') = cache_transfer_data enc queue requests cache_tx_dict 31 41 9 worker in
    (r ≡ ok (31, 8))
    × (outgoing 1 22 21 w'.committed ≡ outgoing 1 22 21 db + 7)
    × (incoming 1 22 21 w'.committed ≡ incoming 1 22 21 db + 0)
unfolding cache_tx_dict first
cache_transfer_data-balances_example =
    cache_transfer_data-balances enc queue requests cache_tx_dict 31 41 9 1 0 8 queued_otx worker
      refl refl (λ d v e. refl) 23 7 22 21 refl

-- A transaction that is listed.
abbrev listed : Entry
listed = record {
  hash = 40;
  sender = 21;
  recipient = 22;
  source_value = 7;
  destination_value = 7;
  source_token = 51;
  destination_token = 51;
  nonce = 0;
  date_created = some 40;
}

-- Each of two trusted addresses declares one proof.
abbrev declarator : Declarator
declarator = record {
  by_name = λ sender. ok 61;
  declaration = λ contract trusted subject sender. ok (trusted ∷ []);
  trusted_addresses = 71 ∷ 72 ∷ [];
}

verify_proofs-are_signed_example :
    (have : List (Text × List Text)) × ((verify_proofs enc declarator {A = Text} 51 51
        (72 ∷ 73 ∷ [])
        worker).0
      ≡ (if are_signed enc declarator 51 61 0 (λ a. a ∷ []) (λ a. refl) (72 ∷ 73 ∷ [])
          then ok (51, have)
          else err trust))
unfolding first address_for
verify_proofs-are_signed_example =
    verify_proofs-are_signed enc declarator 51 61 0 (λ a. a ∷ []) (λ a. refl) 51 (72 ∷ 73 ∷ [])
      worker refl refl

-- An entry that is cancelled is final, and a row of the cache is cloned.
abbrev cancelled : Text → List Otx → List Otx
cancelled h otxs = map (λ o. if o.tx_hash == h then record o { status = 64 } else o) otxs

abbrev cloned : Text → Text → List TxCacheRow → List TxCacheRow
cloned old new rows = record queued_row { otx_id = new } ∷ rows

-- Account 21's transaction 40 with the nonce 3 is cancelled; its next one, 41, is made again.
abbrev library : Library
library = record {
  get_tx = λ chain hash v. (ok (40, 3), v);
  set_cancel = λ chain hash v.
      (ok tt, record v { work = record v.work { otxs = cancelled hash v.work.otxs } });
  build_raw = λ raw tx. ok (90 + tx.nonce, 80 + tx.nonce);
}

abbrev shift_queue : Queue
shift_queue = record {
  bits = queue_bits;
  create = λ chain nonce holder hash signed w. (ok hash, w);
  unpack = λ signed chain. record { body = unsigned; hash = signed };
  get_tx = λ chain hash w. (ok hash, w);
  load = λ hash db. none;
  clone = λ old new w.
      (ok tt, record w { work = record w.work { tx_cache = cloned old new w.work.tx_cache } });
}

abbrev library_hash : Text → Unsigned → Text
library_hash raw tx = 90 + tx.nonce

abbrev library_text : Text → Unsigned → Text
library_text raw tx = 80 + tx.nonce

shift_nonce-submits_example :
    let (r, w') = shift_nonce enc shift_queue library 9 31 1 worker in
    (rows : List (Otx × TxCacheRow)) × IsLater 21 4 (record db { otxs = cancelled 40 db.otxs }) rows
    × (r ≡ ok tt)
    × (w'.submitted
        ≡ last_task enc shift_queue library 9 1 cancelled cloned library_hash library_text
            (λ h v. refl)
            (λ old new v. refl)
            (λ raw tx. refl)
            21
            (gathered enc shift_queue library 9 1 cancelled cloned library_hash library_text
              (λ h v. refl)
              (λ old new v. refl)
              (λ raw tx. refl)
              rows)
          ∷ [])
    × (flags_at 9 21 w'.committed ≡ bit_or (bit_or (flags_at 9 21 db) LockEnum.queue) LockEnum.send)
shift_nonce-submits_example =
    shift_nonce-submits enc shift_queue library 9 1 cancelled cloned library_hash library_text
      (λ h v. refl) (λ old new v. refl) (λ raw tx. refl) 31 40 3 worker refl

-- A transaction at time 40 with the nonce 9 and one with the nonce 10, of a contract that is unknown:
-- the text of the second comes first.
abbrev sources : Sources
sources = record {
  hash_of = λ v. ok v;
  get_tx_cache = λ hash v. (err type_error, v);
  by_address = λ a. if a == 52 then err unknown_contract else ok a;
  token = λ a. ok (a, 6);
  chars = λ a. digits a;
}

abbrev ninth : Entry
ninth = record listed { nonce = 9 }

abbrev tenth : Entry
tenth = record listed { nonce = 10; source_token = 52 }

abbrev kept_row : ℕ → Text → Row
kept_row nonce token = record {
  timestamp = some 40;
  hash = 40;
  sender = 21;
  recipient = 22;
  nonce = nonce;
  source_token = token;
  destination_token = 51;
  source_value = 7;
  destination_value = 7;
  source_symbol = none;
  destination_symbol = none;
}

abbrev key_for : Chars → Chars
key_for nonce = (52 ∷ 48 ∷ 46 ∷ 50 ∷ 49 ∷ 46 ∷ []) ++ nonce

abbrev gathered_rows : List (Chars × Row)
gathered_rows = (key_for (57 ∷ []), kept_row 9 51) ∷ (key_for (49 ∷ 48 ∷ []), kept_row 10 52) ∷ []

abbrev shown : Row → Option Row
shown row =
    if row.source_token == 52
    then none
    else some record row { source_symbol = some (51, 6); destination_symbol = some (51, 6) }

tx_collate-IsOrdered_example :
    (rows : List (Chars × Row)) × (tx_collate enc sources
        (external ninth ∷ external tenth ∷ [])
        0
        10
        true
        true
        worker
      ≡ (ok (answer enc sources true shown rows), worker))
    × IsOrdered (by_key true) rows
    × ((p : Chars × Row → Bool) → count p rows ≡ count p gathered_rows)
unfolding collect row_for row_of key_of put_row same_text le_text time_chars digits_within
    verify_and_expand IsShown
tx_collate-IsOrdered_example =
    tx_collate-IsOrdered enc sources true shown (external ninth ∷ external tenth ∷ []) 0 10 true
      worker worker gathered_rows refl (refl, (refl, tt))
