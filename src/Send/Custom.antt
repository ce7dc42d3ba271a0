-- ===== src/Send/Custom.antt =====
-- `custom` of cic_eth/eth/tx.py: a transaction with a nonce, a price and data of the caller's. The
-- signer is an argument.
pub mod Registered
use cic_stack_v.Prelude.{ℕ, some}
use cic_stack_v.Store.Rows.{Text}
use cic_stack_v.Store.Tasks.{call, set_ready}
use cic_stack_v.Store.Session.{given, create_session}
use cic_stack_v.Store.{
  Action, Result, ok, err, ⊤, name_error, ◌>>=◌, ◌>>◌, pure, submit, from_result,
}
use cic_stack_v.External.{Encoding, Queue, Unsigned, Signing, signed, unavailable, failed}
use cic_stack_v.QueueTx

-- The handlers name SignerError, which the module does not import.
unfoldable pub custom_or_error : Signing → Result (Text × Text)
custom_or_error (signed tx_hash raw) = ok (tx_hash, raw)
custom_or_error unavailable = err name_error
custom_or_error (failed e) = err e

-- `create` answers for a transaction and its data. The session is neither committed nor closed here.
pub custom :
    Encoding → Queue → (Unsigned → Text → Signing) → Unsigned → Text → Text → Text → Action Text
unfolding custom_or_error
custom enc queue create tx payload chain cache_task = do
  create_session
  create_session
  made ← from_result (custom_or_error (create tx payload))
  QueueTx.register_tx enc queue made.0 made.1 chain (some cache_task) given
  submit (call (set_ready chain made.0))
  pure made.0
