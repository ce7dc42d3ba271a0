-- ===== src/Api/Locked.antt =====
-- A request that a lock stops.
use cic_stack_v.Prelude.{ℕ, ◌<◌, ◌≡◌, false, some, arith, [], ◌∷◌}
use cic_stack_v.Store.Rows.{Text}
use cic_stack_v.Store.{Worker, err, locked}
use cic_stack_v.Lock.Effect.{IsKeyed}
use cic_stack_v.LockEnum
use cic_stack_v.Ctrl.Check.{stopping, check_lock_lem}
use cic_stack_v.Api.{Api, World, texts, notify, serve, start_transfer, start_transfer_from}

module _ (world : World) (root : Text) (w : Worker) (keyed : IsKeyed w.committed.locks) where
  open world use {enc}

  opened : Worker
  opened = record w { work = w.committed; registered = false }

  -- A transfer, in the caller's own name or on behalf of another, ends with LockedError where
  -- queueing is locked for everyone or for the holder: nothing is committed, no nonce is reserved, and
  -- no task is submitted, not even the callback.
  pub serve-locked :
      (api : Api) (from to symbol spender : Text) (value : ℕ)
      → let r = stopping api.chain LockEnum.queue (some (enc.wallet_address from)) w.committed in
        let w' : Worker = record w { work = w.committed; registered = false } in
        0 < r
        → (serve world root (start_transfer api from to value symbol) w ≡ (err (locked r), w'))
          × (serve world root (start_transfer_from api from to value symbol spender) w
              ≡ (err (locked r), w'))
  unfolding serve start_transfer start_transfer_from notify
  serve-locked api from to symbol spender value h =
      let refused =
        check_lock_lem enc (texts (symbol ∷ [])) (some api.chain) LockEnum.queue (some from) w
          keyed in
      (ground (arith, h, refused), ground (arith, h, refused))
