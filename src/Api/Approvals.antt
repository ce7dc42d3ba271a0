-- ===== src/Api/Approvals.antt =====
-- An approval from the request on the network to the queue.
use cic_stack_v.Prelude.{ℕ, ◌≡◌, true, false, none, some, [], ◌∷◌, ◌++◌, arith, sym, subst, ◌∙◌}
use cic_stack_v.Store.Rows.{Text, zero_address, approve_cache_task}
use cic_stack_v.Store.{Db, Worker, Result, ok}
use cic_stack_v.External.{signed}
use cic_stack_v.Lock.Effect.{IsKeyed, flags_at}
use cic_stack_v.Nonce.Effect.{upcoming, after_next}
use cic_stack_v.Reservation.{row}
use cic_stack_v.Reservation.Effect.{after_reserve}
use cic_stack_v.Reservation.RoundTrip.{row-reserve, release-reserve}
use cic_stack_v.NonceTask.Transfer.{reserve_nonce-address}
use cic_stack_v.QueueTx.Locked.{is_locked}
use cic_stack_v.Enqueue.Effect.{sender_of, Takes, tasks}
use cic_stack_v.Balance.{Token as TokenDict}
use cic_stack_v.Token.{approve as approve_task}
use cic_stack_v.Token.Transfer.{spend-open}
use cic_stack_v.Api.{
  World, Value, Chain, Signature, last, text, tokens, reserve_nonce, approve, silent, run_step,
  serve, notify,
}
use cic_stack_v.Api.Transfers.{run-link, run_node-reports}
use cic_stack_v.Filters.Callback.{BlockTx}
use cic_stack_v.Filters.Tokens.{approval, transfer_auth_filter}

module _ (chain contract : Text) (parse : Text → Result (Text × Text × Text × ℕ)) (world : World)
    (root : Text) (w : Worker) (keyed : IsKeyed w.committed.locks) where
  open world use {enc, queue, erc20}

  -- The chain of an approval, for a sender for which the root task holds no nonce: the transaction that
  -- the signer makes with the upcoming nonce enters the queue, where queueing is not locked.
  serve-approval :
      (sender spender token tx_hash raw : Text) (value : ℕ) (db : Db)
      → let a = enc.wallet_address sender in
        let b = enc.wallet_address a in
        let nonce = upcoming b 0 w.committed in
        let taken : Worker = record w {
          committed = after_reserve b root w.committed;
          work = after_next b 0 w.committed;
          registered = false;
        } in
        enc.is_address a ≡ true
        → row b root w.committed ≡ none
        → erc20.approve (enc.executable_address token) a (enc.wallet_address spender) value nonce
          ≡ signed tx_hash raw
        → is_locked chain (sender_of enc queue chain raw) w.committed ≡ false
        → Takes enc queue chain tx_hash raw taken db
        → serve world root (approval enc chain contract parse (sender, spender, token, value)) w ≡ (
          ok (text tx_hash),
          record w {
            work = db;
            committed = db;
            registered = false;
            submitted =
                w.submitted ++ tasks enc queue erc20.get_gas chain a approve_cache_task tx_hash raw;
          },
        )
  unfolding serve approval run_step after_reserve after_next is_locked flags_at notify approve_task
  serve-approval sender spender token tx_hash raw value db valid free built takeable takes =
      let a = enc.wallet_address sender in
      let b = enc.wallet_address a in
      let reserved = after_reserve b root w.committed in
      let w₂ : Worker = record w { work = reserved; committed = reserved; registered = false } in
      let t : TokenDict = record {
        address = enc.executable_address token;
        converters = [];
        fields = [];
      } in
      let reservation = reserve_nonce-address enc zero_address a root w valid free in
      let spent =
        spend-open enc queue erc20 chain a approve_cache_task root
          (erc20.approve (enc.executable_address token) a (enc.wallet_address spender) value) w₂
          (record { address_hex = b; nonce = upcoming b 0 w.committed; key = root })
          (row-reserve b root w.committed free) tx_hash raw built keyed db takeable
          (subst (λ d. Takes enc queue chain tx_hash raw (record w₂ { work = d }) db)
            (sym (release-reserve b root w.committed free)) takes) in
      let n : Signature = silent (approve a (enc.wallet_address spender) value chain) in
      let queued : Worker = record w {
        work = db;
        committed = db;
        registered = false;
        submitted =
            w.submitted ++ tasks enc queue erc20.get_gas chain a approve_cache_task tx_hash raw;
      } in
      let first_step : run_step world root (reserve_nonce chain a) (tokens (t ∷ [])) w
          ≡ (ok (tokens (t ∷ [])), w₂) =
        ground (arith, reservation) in
      let last_step : run_step world root n.step (tokens (t ∷ [])) w₂
          ≡ (ok (text tx_hash), queued) =
        ground (arith, spent) in
      run-link world root w keyed (reserve_nonce chain a) (last n) (tokens (t ∷ []))
        (tokens (t ∷ [])) w w₂ first_step
      ∙ run_node-reports world root w keyed n (tokens (t ∷ [])) (text tx_hash) w₂ queued last_step

  -- A transaction of a block that calls the contract of transfer authorizations starts an approval by the
  -- sender that it names. Where the address is valid, the root task holds no nonce for it and queueing is
  -- not locked, the transaction that the signer makes with the upcoming nonce enters the queue, only
  -- the increment of the nonce is left of the reservation, and the filling of the cache and the gas
  -- check are submitted.
  pub transfer_auth_filter-approves :
      (tx : BlockTx) (sender spender token tx_hash raw : Text) (value : ℕ) (db : Db)
      → let a = enc.wallet_address sender in
        let b = enc.wallet_address a in
        let nonce = upcoming b 0 w.committed in
        let taken : Worker = record w {
          committed = after_reserve b root w.committed;
          work = after_next b 0 w.committed;
          registered = false;
        } in
        tx.length ≡ 264
        → tx.input ≡ contract
        → parse tx.payload ≡ ok (sender, spender, token, value)
        → enc.is_address a ≡ true
        → row b root w.committed ≡ none
        → erc20.approve (enc.executable_address token) a (enc.wallet_address spender) value nonce
          ≡ signed tx_hash raw
        → is_locked chain (sender_of enc queue chain raw) w.committed ≡ false
        → Takes enc queue chain tx_hash raw taken db
        → (request : Value × Chain) × (transfer_auth_filter enc chain contract parse tx
            ≡ ok (some request))
          × (serve world root request w ≡ (
            ok (text tx_hash),
            record w {
              work = db;
              committed = db;
              registered = false;
              submitted =
                  w.submitted
                  ++ tasks enc queue erc20.get_gas chain a approve_cache_task tx_hash raw;
            },
          ))
  unfolding transfer_auth_filter
  transfer_auth_filter-approves tx sender spender token tx_hash raw value db long called request
        valid free built takeable takes =
      (
        approval enc chain contract parse (sender, spender, token, value),
        ground (arith, long, called, request),
        serve-approval sender spender token tx_hash raw value db valid free built takeable takes,
      )
