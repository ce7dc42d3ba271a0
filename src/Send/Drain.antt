-- ===== src/Send/Drain.antt =====
-- A list that is sent, with each send task that the sending spawns run in turn.
use cic_stack_v.Prelude.{
  ℕ, zero, suc, ◌≡◌, refl, Bool, Bool-cases, subst, true, false, some, List, [], ◌∷◌, ◌++◌, map,
  arith, length, All, ◌⊎◌, inl, inr, ◌∙◌, ap, sym,
}
use mathlib.Core.List.{append_assoc, append-nil}
use cic_stack_v.Store.Rows.{Text}
use cic_stack_v.Store.Tasks.{Task, call, set_sent, send as send_call, debug_add}
use cic_stack_v.Store.{Worker, Result, ok, err, eth_error, ⊤}
use cic_stack_v.External.{Encoding}
use cic_stack_v.Send.{Network, send, sent_state}

-- The transactions of a send task.
txs_of : Task → List Text
txs_of (call (send_call (some txs) chain)) = txs
txs_of t = []

-- The transactions of the task that was submitted last.
pub spawned : List Task → List Text
unfolding txs_of
spawned [] = []
spawned (t ∷ []) = txs_of t
spawned (t ∷ u ∷ ts) = spawned (u ∷ ts)

spawned-last : (ts : List Task) (t : Task) → spawned (ts ++ t ∷ []) ≡ txs_of t
unfolding spawned
spawned-last [] t = refl
spawned-last (u ∷ []) t = refl
spawned-last (u ∷ v ∷ ts) t = spawned-last (v ∷ ts) t

report_of : Task → List (Text × Bool)
report_of (call (set_sent chain hash failed)) = (hash, failed) ∷ []
report_of t = []

-- The hashes, with the error flags, that `set_sent` was called with, in order.
pub reported : List Task → List (Text × Bool)
unfolding report_of
reported [] = []
reported (t ∷ ts) = report_of t ++ reported ts

reported-last : (ts : List Task) (t : Task) → reported (ts ++ t ∷ []) ≡ reported ts ++ report_of t
unfolding reported
reported-last [] t = append-nil (report_of t)
reported-last (u ∷ ts) t =
    ap (λ rs. report_of u ++ rs) (reported-last ts t)
    ∙ sym (append_assoc (report_of u) (reported ts) (report_of t))

module _ (enc : Encoding) (network : Network) (debug_log : Bool) (chain : Text) where
  -- Each send task and then the one that it spawned, so often.
  pub follow : ℕ → List Text → Worker → Worker
  follow zero txs w = w
  follow (suc n) txs w =
      let w' = (send enc network debug_log txs chain w).1 in follow n (spawned w'.submitted) w'

  pub failed : Result ⊤ → Bool
  failed (ok _) = false
  failed (err x) = true

  pub hash_of : Text → Text
  hash_of tx = enc.add_0x (network.keccak (enc.add_0x tx))

  pub report : Text → Text × Bool
  unfolding hash_of failed
  report tx = (hash_of tx, failed (network.raw (enc.add_0x tx)))

  -- The node answers, be it with an error.
  abbrev pub Answers : Text → Type 0
  Answers tx = (network.raw (enc.add_0x tx) ≡ ok tt) ⊎ (network.raw (enc.add_0x tx) ≡ err eth_error)

  -- The first step: the flag, and at most a debug log.
  sent_state-Answers :
      (tx : Text) (w : Worker)
      → Answers tx
      → (ws : List Task) × (sent_state enc network debug_log chain
            (hash_of tx)
            (network.raw (enc.add_0x tx))
            w
          ≡ (ok (failed (network.raw (enc.add_0x tx))), record w { submitted = ws }))
        × (reported ws ≡ reported w.submitted)
  unfolding sent_state failed report_of
  sent_state-Answers tx w (inl sent) = (w.submitted, ground (arith, sent), refl)
  sent_state-Answers tx w (inr refused) = elim (Bool-cases debug_log) [
    | inl on ↦
        let log = call (debug_add chain (hash_of tx)) in
        (
          w.submitted ++ log ∷ [],
          ground (arith, refused, on),
          reported-last w.submitted log ∙ append-nil (reported w.submitted),
        )
    | inr off ↦ (w.submitted, ground (arith, refused, off), refl)
  ]

  -- What a send leaves behind: its report comes last among the reports, and it spawned the rest.
  abbrev Sent : Text → List Text → List Task → List Task → Type 0
  Sent tx tail before after =
      (reported after ≡ reported before ++ report tx ∷ []) × (spawned after ≡ tail)

  status_of : Text → Task
  unfolding hash_of failed
  status_of tx = call (set_sent chain (hash_of tx) (failed (network.raw (enc.add_0x tx))))

  after_send : Text → List Text → List Task → List Task
  after_send tx [] ws = ws ++ status_of tx ∷ []
  after_send tx (u ∷ us) ws =
      (ws ++ status_of tx ∷ []) ++ call (send_call (some (u ∷ us)) chain) ∷ []

  send-after_send :
      (tx : Text) (tail : List Text) (w : Worker) (ws : List Task)
      → sent_state enc network debug_log chain (hash_of tx) (network.raw (enc.add_0x tx)) w
        ≡ (ok (failed (network.raw (enc.add_0x tx))), record w { submitted = ws })
      → (send enc network debug_log (tx ∷ tail) chain w).1.submitted ≡ after_send tx tail ws
  unfolding send after_send status_of hash_of
  send-after_send tx [] w ws first = ground (arith, first)
  send-after_send tx (u ∷ us) w ws first = ground (arith, first)

  after_send-Sent :
      (tx : Text) (tail : List Text) (before ws : List Task)
      → reported ws ≡ reported before
      → Sent tx tail before (after_send tx tail ws)
  unfolding after_send status_of report report_of txs_of
  after_send-Sent tx [] before ws same = (
    reported-last ws (status_of tx) ∙ ap (λ rs. rs ++ report tx ∷ []) same,
    spawned-last ws (status_of tx),
  )
  after_send-Sent tx (u ∷ us) before ws same =
      let next = call (send_call (some (u ∷ us)) chain) in
      (
        reported-last (ws ++ status_of tx ∷ []) next
            ∙ append-nil (reported (ws ++ status_of tx ∷ []))
            ∙ reported-last ws (status_of tx)
            ∙ ap (λ rs. rs ++ report tx ∷ []) same,
        spawned-last (ws ++ status_of tx ∷ []) next,
      )

  send-Sent :
      (tx : Text) (tail : List Text) (w : Worker)
      → Answers tx
      → Sent tx tail w.submitted (send enc network debug_log (tx ∷ tail) chain w).1.submitted
  send-Sent tx tail w answers =
      let (ws, first, same) = sent_state-Answers tx w answers in
      subst (Sent tx tail w.submitted) (sym (send-after_send tx tail w ws first))
        (after_send-Sent tx tail w.submitted ws same)

  -- Where the node answers for each transaction, running `send` on a list and then each send task that
  -- was spawned, as often as the list is long, reports each transaction once, in the order of the list,
  -- with whether the node refused it, and leaves no transaction to send.
  pub follow-reported :
      (tx : Text) (tail : List Text) (w : Worker)
      → All Answers (tx ∷ tail)
      → let w' = follow (length (tx ∷ tail)) (tx ∷ tail) w in
        (reported w'.submitted ≡ reported w.submitted ++ map report (tx ∷ tail))
        × (spawned w'.submitted ≡ [])
  unfolding follow
  follow-reported tx [] w answers = send-Sent tx [] w answers.0
  follow-reported tx (u ∷ us) w answers =
      let w' = (send enc network debug_log (tx ∷ u ∷ us) chain w).1 in
      let (last, rest) = send-Sent tx (u ∷ us) w answers.0 in
      let (all, none_left) = follow-reported u us w' answers.1 in
      subst
        (λ txs.
          let w'' = follow (length (u ∷ us)) txs w' in
          (reported w''.submitted ≡ reported w.submitted ++ map report (tx ∷ u ∷ us))
          × (spawned w''.submitted ≡ []))
        (sym rest)
        (
          all
              ∙ ap (λ rs. rs ++ map report (u ∷ us)) last
              ∙ append_assoc (reported w.submitted) (report tx ∷ []) (map report (u ∷ us)),
          none_left,
        )
