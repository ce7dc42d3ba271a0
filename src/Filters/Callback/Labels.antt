-- ===== src/Filters/Callback/Labels.antt =====
-- translate_tx_addresses of cic_eth/ext/address.py.
use cic_stack_v.Prelude.{Option, none, some}
use cic_stack_v.Store.Rows.{Text}
use cic_stack_v.Store.Tasks.{ExtendedTx}
use cic_stack_v.Store.{Action, ◌>>=◌, pure}
use cic_stack_v.External.{Encoding}
use cic_stack_v.Filters.Callback.{Contracts, translate_address}

module _ (enc : Encoding) (contracts : Contracts) where
  -- An address that has a label is not looked up, and no declaration stands for it.
  declared : Text → Option Text → Action (Option Text)
  declared address none = translate_address enc contracts address
  declared address (some label) = pure none

  translate_tx_addresses : ExtendedTx → Action ExtendedTx
  unfolding declared
  translate_tx_addresses tx = do
    sender_label ← declared tx.sender tx.sender_label
    recipient_label ← declared tx.recipient tx.recipient_label
    pure (record tx { sender_label = sender_label; recipient_label = recipient_label })
