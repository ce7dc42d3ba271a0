-- ===== src/Examples/Queues.antt =====
-- Runs with the queue: balances and the transactions to send next.
use cic_stack_v.Prelude.{ℕ, ◌+◌, ◌≡◌, Bool, refl, true, none, List, [], ◌∷◌, ◌==◌, if◌then◌else◌}
use cic_stack_v.Store.Rows.{Text, LockRow, Otx, TxCacheRow}
use cic_stack_v.Store.Table.{first}
use cic_stack_v.Store.{Result, ⊤, ok, err, value_error}
use cic_stack_v.Balance.{Token, add_collection, outgoing, incoming}
use cic_stack_v.Balance.Queued.{queued, queued-balances}
use cic_stack_v.Balance.Assembled.{field, field-add_collection, newest_in}
use cic_stack_v.Upcoming.{Asked}
use cic_stack_v.Examples.{enc, db, queued_row}

abbrev new_otx : Otx
new_otx = record { id = 2; nonce = 5; tx_hash = 32; signed_tx = 42; status = 2 }

abbrev new_row : TxCacheRow
new_row = record queued_row { otx_id = 2; from_value = 30; to_value = 30 }

queued-balances_example :
    (outgoing 192 51 21 (queued new_otx new_row db) ≡ outgoing 192 51 21 db + 30)
    × (incoming 192 51 21 (queued new_otx new_row db) ≡ incoming 192 51 21 db + 0)
unfolding first
queued-balances_example = queued-balances 192 51 21 new_otx new_row db refl (refl, tt) refl refl

abbrev is_balance : ℕ → Bool
is_balance k = true

abbrev token : ℕ → ℕ → Token
token k v = record { address = 51; converters = []; fields = (k, v) ∷ [] }

abbrev collection : List (List Token)
collection = (token 1 100 ∷ []) ∷ (token 2 7 ∷ token 1 90 ∷ []) ∷ []

field-add_collection_example :
    field 1 51 (add_collection enc is_balance collection [])
    ≡ newest_in enc 1 51 collection (field 1 51 [])
field-add_collection_example = field-add_collection enc is_balance 1 refl 51 collection []

abbrev asked : Asked
asked = record { status = 2; not_status = none; recipient = none; before = none; limit = 1 }

abbrev is_alive : ℕ → Bool
is_alive status = true

abbrev send_lock : LockRow
send_lock = record { blockchain = 9; address = 21; flags = 8; otx_id = none }

-- The transaction that the queue has: its hash, its text and its sender.
abbrev Known : Otx → Text → Type 0
Known o sender = (o.tx_hash ≡ 31) × (o.signed_tx ≡ 41) × (sender ≡ 21)

abbrev decode : Text → Result ⊤
decode raw = if raw == 41 then ok tt else err value_error
