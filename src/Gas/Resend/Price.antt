-- ===== src/Gas/Resend/Price.antt =====
-- The price at which a transaction is sent again.
use cic_stack_v.Prelude.{
  ℕ, zero, suc, ◌≤◌, ◌<◌, ◌≡◌, refl, false, true, ltb, Option, none, some, List, [], ◌∷◌, ◌++◌,
  arith, inl, inr, Bool, Bool-cases,
}
use cic_stack_v.Store.Rows.{Text, Otx}
use cic_stack_v.Store.Tasks.{Task, Number, whole, float}
use cic_stack_v.Store.Session.{given}
use cic_stack_v.Store.{Result-cases, Action, Worker, Result, ok, err}
use cic_stack_v.External.{Encoding, Queue, Node, Unsigned, Floats}
use cic_stack_v.QueueTx
use cic_stack_v.Gas.Check.{check_gas_task}
use cic_stack_v.Gas.Resend.{
  times, int_times, not_same, new_gas_price, first_price, attempts, settle_attempt,
  resend_with_higher_gas, resend_otx, finish, give_up, max_resend_attempts,
}

module _ (floats : Floats) where
  -- Whether a number is greater than an int.
  unfoldable pub greater : Number → ℕ → Bool
  greater (whole a) n = ltb n a
  greater (float a) n = floats.gt a n

  -- A factor that lowers no price: neither what `int()` leaves of an int times the factor, nor a price
  -- that is multiplied by it, falls.
  pub record NotLowering (factor : Number) : Type 0 where
    pub int_grows : (n q : ℕ) → int_times floats (whole n) factor ≡ ok q → n ≤ q
    pub stays_greater :
        (p q : Number) (n : ℕ)
        → greater p n ≡ true
        → times floats p factor ≡ ok q
        → greater q n ≡ true

  not_same-lt : (old p : ℕ) → old ≤ p → old < not_same old p
  unfolding not_same
  not_same-lt old p h = ground (arith, h)

  first_price-le :
      (factor : Number) (keeps : NotLowering factor) (old current q : ℕ)
      → first_price floats none old current factor ≡ ok q
      → old ≤ q
  unfolding first_price
  first_price-le factor keeps old current q e = elim (Bool-cases (ltb current old)) [
    | inl cheaper ↦ ground (arith, e, cheaper)
    | inr dearer ↦ keeps.int_grows old q (ground (arith, e, dearer))
  ]

  -- Where no price is given, the price is above the old one.
  pub new_gas_price-lt :
      (factor : Number) (keeps : NotLowering factor) (old current q : ℕ)
      → new_gas_price floats none old current factor ≡ ok q
      → old < q
  unfolding new_gas_price
  new_gas_price-lt factor keeps old current q e =
      elim (Result-cases (first_price floats none old current factor)) [
        | inl (p, first) ↦
            let above = not_same-lt old p (first_price-le factor keeps old current p first) in
            ground (arith, e, first, above)
        | inr (x, failed) ↦ ground (arith, e, failed)
      ]

module _ (enc : Encoding) (queue : Queue) (node : Node) (floats : Floats)
    (build_raw : Unsigned → Number → Result (Text × Text)) (chain : Text) (tx : Unsigned) where
  -- What the attempts come to: a transaction that was built and signed at a price above the old one.
  Signed : ℕ → Text × Text × Number → Type 0
  Signed old (hash, signed, p) =
      (greater floats p old ≡ true) × (build_raw tx p ≡ ok (hash, signed))

  settle_attempt-Signed :
      (old : ℕ) (a : Text × Text × Number) (retry : Action (Option (Text × Text × Number)))
      (r : Result Text) (w w' : Worker) (t : Text × Text × Number)
      → Signed old a
      → (retry w ≡ (ok (some t), w') → Signed old t)
      → settle_attempt enc queue node floats build_raw a retry (r, w) ≡ (ok (some t), w')
      → Signed old t
  unfolding settle_attempt
  settle_attempt-Signed old a retry (ok h) w w' t here later e = ground (arith, here)
  settle_attempt-Signed old a retry (err x) w w' t here later e = ground (arith, later)

  module _ (factor : Number) (keeps : NotLowering floats factor) (old : ℕ) where
    attempts-Signed :
        (n : ℕ) (price : Number) (w w' : Worker) (t : Text × Text × Number)
        → greater floats price old ≡ true
        → attempts enc queue node floats build_raw n chain tx factor price w ≡ (ok (some t), w')
        → Signed old t
    unfolding attempts Signed
    attempts-Signed zero price w w' t above e = cc
    attempts-Signed (suc n) price w w' t above e = elim (Result-cases (build_raw tx price)) [
      | inl (s, signed) ↦
          let m = QueueTx.queue_create enc queue chain tx.nonce tx.sender s.0 s.1 given w in
          settle_attempt-Signed old (s.0, s.1, price)
            (λ v. elim (times floats price factor) [
              | err e ↦ (err e, v)
              | ok p ↦
                  attempts enc queue node floats build_raw n chain tx factor p
                    (record v { work = v.committed })
            ])
            m.0 m.1 w' t (above, signed)
            (λ h. elim (Result-cases (times floats price factor)) [
              | inl (p, grown) ↦
                  attempts-Signed n p (record m.1 { work = m.1.committed }) w' t
                    (keeps.stays_greater price p old above grown) (ground (arith, h, grown))
              | inr (x, failed) ↦ ground (arith, h, failed)
            ])
            (ground arith)
      | inr (x, refused) ↦ ground arith
    ]

  -- What a task that has resent a transaction leaves behind.
  pub Resent : ℕ → Text → Worker → Type 0
  Resent old hash w' =
      (signed : Text) × (price gas : Number) × (before : List Task) × (greater floats price old
        ≡ true)
      × (build_raw tx price ≡ ok (hash, signed))
      × (times floats price (whole tx.gas) ≡ ok gas)
      × (w'.submitted
          ≡ before
            ++ check_gas_task (signed ∷ []) chain tx.sender (some gas) (some (hash ∷ [])) ∷ [])

  finish-Resent :
      (debug : Bool) (old : Text) (old_price : ℕ) (r : Option (Text × Text × Number)) (hash : Text)
      (w w' : Worker)
      → ((t : Text × Text × Number) → r ≡ some t → Signed old_price t)
      → finish enc queue node floats build_raw debug chain old tx r w ≡ (ok hash, w')
      → Resent old_price hash w'
  unfolding finish give_up Resent Signed
  finish-Resent debug old old_price none hash w w' signed e = ground arith
  finish-Resent debug old old_price (some t) hash w w' signed e =
      elim (Result-cases (queue.clone old t.0 w).0) [
        | inl (u, cloned) ↦ elim (Result-cases (times floats t.2 (whole tx.gas))) [
          | inl (gas, paid) ↦
              let here = signed t refl in
              (
                t.1,
                t.2,
                gas,
                (queue.clone old t.0 w).1.submitted,
                here.0,
                ground (arith, here.1, paid),
                paid,
                ground (arith, paid),
              )
          | inr (x, failed) ↦ ground arith
        ]
        | inr (x, failed) ↦ ground arith
      ]

module _ (enc : Encoding) (queue : Queue) (node : Node) (floats : Floats)
    (build_raw : Unsigned → Number → Result (Text × Text)) (chain : Text) (factor : Number)
    (keeps : NotLowering floats factor) where
  resend_otx-Resent :
      (debug : Bool) (old hash : Text) (otx : Otx) (w w' : Worker)
      → resend_otx enc queue node floats build_raw debug chain old none factor (some otx) w
        ≡ (ok hash, w')
      → Resent enc queue node floats build_raw chain
          (queue.unpack otx.signed_tx chain).body
          (queue.unpack otx.signed_tx chain).gas_price
          hash
          w'
  unfolding resend_otx
  resend_otx-Resent debug old hash otx w w' e =
      let tx = queue.unpack otx.signed_tx chain in
      elim (Result-cases (new_gas_price floats none tx.gas_price node.price factor)) [
        | inl (price, priced) ↦
            let r =
              attempts enc queue node floats build_raw max_resend_attempts chain tx.body factor
                (whole price) w in
            elim (Result-cases r.0) [
              | inl (a, got) ↦
                  finish-Resent enc queue node floats build_raw chain tx.body debug old tx.gas_price
                    a hash r.1 w'
                    (λ t is.
                      attempts-Signed enc queue node floats build_raw chain tx.body factor keeps
                        tx.gas_price max_resend_attempts (whole price) w r.1 t
                        (unfold greater in
                          ground (
                            arith,
                            new_gas_price-lt floats factor keeps tx.gas_price node.price price
                                priced,
                          ))
                        (ground (arith, is)))
                    (ground arith)
              | inr (x, failed) ↦ ground arith
            ]
        | inr (x, failed) ↦ ground arith
      ]

  -- Where the task with no gas price of its own and a factor that lowers no price returns a hash, that
  -- hash is of a transaction with the old one's fields and a price above the old one's, which was built
  -- and signed, and the last task submitted is the gas check of it, for its price times its gas.
  pub resend_with_higher_gas-raises :
      (debug : Bool) (old_hash hash : Text) (otx : Otx) (w w' : Worker)
      → queue.load (enc.hash old_hash) w.committed ≡ some otx
      → resend_with_higher_gas enc queue node floats build_raw debug old_hash chain none factor w
        ≡ (ok hash, w')
      → Resent enc queue node floats build_raw chain
          (queue.unpack otx.signed_tx chain).body
          (queue.unpack otx.signed_tx chain).gas_price
          hash
          w'
  unfolding resend_with_higher_gas
  resend_with_higher_gas-raises debug old_hash hash otx w w' loaded e =
      resend_otx-Resent debug (enc.hash old_hash) hash otx
        (record w { work = w.committed; registered = false }) w' (ground (arith, e, loaded))
