-- ===== src/Api/Transfers.antt =====
-- A transfer from the request to the queue.
use mathlib.Core.List.{append-nil}
use mathlib.Core.Option.{Option}
use cic_stack_v.Prelude.{
  ℕ, ◌≡◌, refl, true, false, none, some, List, [], ◌∷◌, ◌++◌, arith, sym, subst, ap, ◌∙◌,
}
use cic_stack_v.Store.Rows.{Text, zero_address, default_role, transfer_cache_task}
use cic_stack_v.Store.Tasks.{Task, call, callback}
use cic_stack_v.Store.{Db, Worker, ok}
use cic_stack_v.External.{signed}
use cic_stack_v.Lock.Effect.{IsKeyed, flags_at}
use cic_stack_v.LockEnum
use cic_stack_v.Ctrl.Check.{stopping, check_lock_lem}
use cic_stack_v.Nonce.Effect.{upcoming, after_next}
use cic_stack_v.Reservation.{row}
use cic_stack_v.Reservation.Effect.{after_reserve}
use cic_stack_v.Reservation.RoundTrip.{row-reserve, release-reserve}
use cic_stack_v.NonceTask.Transfer.{reserve_nonce-address}
use cic_stack_v.QueueTx.Locked.{is_locked}
use cic_stack_v.Role.Lookup.{address_for}
use cic_stack_v.Enqueue.Effect.{sender_of, Takes, tasks}
use cic_stack_v.Balance.{Token as TokenDict}
use cic_stack_v.Token.{symbol_key, transfer as transfer_task}
use cic_stack_v.Token.Transfer.{spend-open, resolve-one}
use cic_stack_v.Api.{
  Api, World, Value, Chain, Step, texts, text, tokens, notify, check_lock, reserve_nonce,
  resolve_tokens_by_symbol as resolve_step, link, last, silent, transfer, Signature, callback_with,
  run_step, run_node, run, serve, start_transfer,
}

-- The callback of a request that succeeds.
pub success_of : Option Text → List Task
success_of none = []
success_of (some param) = call (callback param 0) ∷ []

notify-success :
    (param : Option Text) (w : Worker)
    → notify (callback_with 0 param) w ≡ record w { submitted = w.submitted ++ success_of param }
unfolding notify success_of
notify-success none w = ground (arith, append-nil w.submitted)
notify-success (some param) w = refl

module _ (world : World) (root : Text) (w : Worker) (keyed : IsKeyed w.committed.locks) where
  open world use {enc, queue, erc20}

  pub run-link :
      (s : Step) (rest : Chain) (v x : Value) (before after : Worker)
      → run_step world root s v before ≡ (ok x, after)
      → run world root (link (silent s) rest) v before ≡ run world root rest x after
  unfolding run notify
  run-link s rest v x before after h = ground (arith, h)

  pub run_node-reports :
      (n : Signature) (v x : Value) (before after : Worker)
      → run_step world root n.step v before ≡ (ok x, after)
      → run_node world root n v before ≡ (ok x, notify n.success after)
  unfolding run_node
  run_node-reports n v x before after h = ground (arith, h)

  run-three :
      (s₁ s₂ s₃ : Step) (n : Signature) (v x₁ x₂ x₃ : Value) (w₀ w₁ w₂ w₃ : Worker)
      → run_step world root s₁ v w₀ ≡ (ok x₁, w₁)
      → run_step world root s₂ x₁ w₁ ≡ (ok x₂, w₂)
      → run_step world root s₃ x₂ w₂ ≡ (ok x₃, w₃)
      → run world root (link (silent s₁) (link (silent s₂) (link (silent s₃) (last n)))) v w₀
        ≡ run_node world root n x₃ w₃
  unfolding run
  run-three s₁ s₂ s₃ n v x₁ x₂ x₃ w₀ w₁ w₂ w₃ h₁ h₂ h₃ =
      run-link s₁ (link (silent s₂) (link (silent s₃) (last n))) v x₁ w₀ w₁ h₁
      ∙ run-link s₂ (link (silent s₃) (last n)) x₁ x₂ w₁ w₂ h₂
      ∙ run-link s₃ (last n) x₂ x₃ w₂ w₃ h₃

  -- A transfer that no lock stops, by an address for which the root task holds no nonce, of a token that
  -- the registry knows: the transaction that the signer makes with the upcoming nonce enters the queue,
  -- on a database where the increment of the nonce is all that is left of the reservation. The hash is
  -- returned, and the tasks submitted are the filling of the cache, the gas check, and the callback of
  -- success if there is one.
  pub serve-start_transfer :
      (api : Api) (from to symbol token tx_hash raw : Text) (value : ℕ) (db : Db)
      → let nonce = upcoming (enc.wallet_address from) 0 w.committed in
        let reserved = after_reserve (enc.wallet_address from) root w.committed in
        let w' : Worker = record w {
          committed = reserved;
          work = after_next (enc.wallet_address from) 0 w.committed;
          registered = false;
        } in
        stopping api.chain LockEnum.queue (some (enc.wallet_address from)) w.committed ≡ 0
        → enc.is_address from ≡ true
        → row (enc.wallet_address from) root w.committed ≡ none
        → erc20.by_name symbol (address_for default_role w.committed) ≡ ok token
        → erc20.transfer token from to value nonce ≡ signed tx_hash raw
        → is_locked api.chain (sender_of enc queue api.chain raw) w.committed ≡ false
        → Takes enc queue api.chain tx_hash raw w' db
        → serve world root (start_transfer api from to value symbol) w ≡ (
          ok (text tx_hash),
          record w {
            work = db;
            committed = db;
            registered = false;
            submitted =
                (w.submitted
                  ++ tasks enc queue erc20.get_gas api.chain from transfer_cache_task tx_hash raw)
                ++ success_of api.callback_param;
          },
        )
  unfolding serve start_transfer run_step after_reserve after_next address_for is_locked flags_at
      notify success_of transfer_task
  serve-start_transfer api from to symbol token tx_hash raw value db lifted valid free known built
        takeable takes =
      let a = enc.wallet_address from in
      let reserved = after_reserve a root w.committed in
      let w₁ : Worker = record w { work = w.committed; registered = false } in
      let w₂ : Worker = record w { work = reserved; committed = reserved; registered = false } in
      let checked =
        check_lock_lem enc (texts (symbol ∷ [])) (some api.chain) LockEnum.queue (some from) w
          keyed in
      let reservation = reserve_nonce-address enc zero_address from root w₁ valid free in
      let resolved = resolve-one enc queue erc20 symbol token w₂ known in
      let spent =
        spend-open enc queue erc20 api.chain from transfer_cache_task root
          (erc20.transfer token from to value) w₂
          (record { address_hex = a; nonce = upcoming a 0 w.committed; key = root })
          (row-reserve a root w.committed free) tx_hash raw built keyed db takeable
          (subst (λ d. Takes enc queue api.chain tx_hash raw (record w₂ { work = d }) db)
            (sym (release-reserve a root w.committed free)) takes) in
      let first_step : run_step world root (check_lock api.chain LockEnum.queue (some from))
            (texts (symbol ∷ [])) w
          ≡ (ok (texts (symbol ∷ [])), w₁) =
        ground (arith, checked, lifted) in
      let second_step : run_step world root (reserve_nonce api.chain from) (texts (symbol ∷ [])) w₁
          ≡ (ok (texts (symbol ∷ [])), w₂) =
        ground (arith, reservation) in
      let t : TokenDict = record {
        address = token;
        converters = [];
        fields = (symbol_key, symbol) ∷ [];
      } in
      let third_step : run_step world root resolve_step (texts (symbol ∷ [])) w₂
          ≡ (ok (tokens (t ∷ [])), w₂) =
        ground (arith, resolved) in
      let n : Signature = record {
        step = transfer from to value api.chain;
        success = callback_with 0 api.callback_param;
        error = callback_with 1 api.callback_param;
      } in
      let request = texts (symbol ∷ []) in
      let queued : Worker = record w {
        work = db;
        committed = db;
        registered = false;
        submitted =
            w.submitted
            ++ tasks enc queue erc20.get_gas api.chain from transfer_cache_task tx_hash raw;
      } in
      let last_step : run_step world root n.step (tokens (t ∷ [])) w₂
          ≡ (ok (text tx_hash), queued) =
        ground (arith, spent) in
      run-three (check_lock api.chain LockEnum.queue (some from)) (reserve_nonce api.chain from)
        resolve_step n request request request (tokens (t ∷ [])) w w₁ w₂ w₂ first_step second_step
        third_step
      ∙ run_node-reports n (tokens (t ∷ [])) (text tx_hash) w₂ queued last_step
      ∙ ap (λ v. (ok (text tx_hash), v)) (notify-success api.callback_param queued)
