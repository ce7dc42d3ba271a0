-- ===== src/Retry/Batch.antt =====
-- What the retrier retries: transactions with the nonce that the network expects, and no more of them
-- than the batch.
use cic_stack_v.Prelude.{
  ℕ, ◌+◌, ◌-◌, ◌≤◌, ◌≡◌, refl, Bool, true, false, Option, none, some, List, [], ◌∷◌, ◌++◌, arith,
  leb, ◌==◌, if◌then◌else◌, All, length, if_intro, Bool-cases, inl, inr, subst, sym, ◌∙◌, ==_iff,
}
use cic_stack_v.Store.Rows.{Text}
use cic_stack_v.External.{Encoding, Tx}
use cic_stack_v.Balance.{put, lookup}
use cic_stack_v.Balance.Assembled.{lookup-put_self, lookup-put_apart}
use cic_stack_v.Retry.{
  NoncesNext, Turn, known_nonce, check, retry_one, retry_all, second_turn, retry_before, process,
}

module _ (enc : Encoding) (network_nonce : Text → ℕ) where
  -- The nonce that the network expects of a transaction's sender is the transaction's.
  abbrev pub IsExpected : Tx → Type 0
  IsExpected tx = tx.nonce ≡ network_nonce (enc.add_0x (enc.checksum tx.sender))

  -- Each nonce that is kept is the network's.
  Agrees : NoncesNext → Type 0
  Agrees nonces = (a : Text) (n : ℕ) → lookup a nonces ≡ some n → n ≡ network_nonce (enc.add_0x a)

  Agrees-put :
      (a : Text) (nonces : NoncesNext)
      → Agrees nonces
      → Agrees (put a (network_nonce (enc.add_0x a)) nonces)
  unfolding Agrees
  Agrees-put a nonces agrees b n e = elim (Bool-cases (b == a)) [
    | inl here ↦
        subst (λ c. n ≡ network_nonce (enc.add_0x c)) (sym ((==_iff b a).0 here))
          (ground (
            arith,
            e,
            subst
                (λ c.
                  lookup c (put a (network_nonce (enc.add_0x a)) nonces)
                  ≡ some (network_nonce (enc.add_0x a)))
                (sym ((==_iff b a).0 here))
                (lookup-put_self a (network_nonce (enc.add_0x a)) nonces),
          ))
    | inr apart ↦
        agrees b n (sym (lookup-put_apart b a (network_nonce (enc.add_0x a)) nonces apart) ∙ e)
  ]

  known_nonce-Agrees :
      (a : Text) (held : Option ℕ) (nonces : NoncesNext)
      → Agrees nonces
      → lookup a nonces ≡ held
      → let (next, nonces') = known_nonce enc network_nonce a held nonces in
        (next ≡ network_nonce (enc.add_0x a)) × Agrees nonces'
  unfolding known_nonce Agrees
  known_nonce-Agrees a none nonces agrees e = (refl, Agrees-put a nonces agrees)
  known_nonce-Agrees a (some n) nonces agrees e = (agrees a n e, agrees)

  check-Agrees :
      (tx : Tx) (nonces : NoncesNext)
      → Agrees nonces
      → let (due, nonces') = check enc network_nonce tx nonces in
        Agrees nonces' × (due ≡ true → IsExpected tx)
  unfolding check
  check-Agrees tx nonces agrees =
      let a = enc.checksum tx.sender in
      let (is, agrees') = known_nonce-Agrees a (lookup a nonces) nonces agrees refl in
      (agrees', λ due. ground (arith, is, due))

  -- The rows retried are expected, and their number is added to the count, within the batch.
  abbrev IsWithin : ℕ → ℕ → Turn → Type 0
  IsWithin batch_size batch_count turn =
      All IsExpected turn.retried
      × (batch_count + length turn.retried ≡ turn.batch_count)
      × (turn.batch_count ≤ batch_size)

  abbrev counted : Bool → ℕ → ℕ
  counted due batch_count = if due then batch_count + 1 else batch_count

  retry_one-IsWithin :
      (batch_size batch_count : ℕ) (due : Bool) (tx : Tx) (turn : Turn)
      → (due ≡ true → IsExpected tx)
      → IsWithin batch_size (counted due batch_count) turn
      → IsWithin batch_size batch_count (retry_one due tx turn)
  unfolding retry_one
  retry_one-IsWithin batch_size batch_count true tx turn is (all, sum, room) =
      ((is refl, all), omega (arith, sum), room)
  retry_one-IsWithin batch_size batch_count false tx turn is within = within

  counted-le :
      (due : Bool) (batch_size batch_count : ℕ)
      → leb batch_size batch_count ≡ false
      → counted due batch_count ≤ batch_size
  counted-le due batch_size batch_count h = ground arith

  retry_all-IsWithin :
      (batch_size : ℕ) (txs : List Tx) (nonces : NoncesNext) (batch_count : ℕ)
      → Agrees nonces
      → batch_count ≤ batch_size
      → IsWithin batch_size batch_count
          (retry_all enc network_nonce batch_size txs nonces batch_count)
  unfolding retry_all
  retry_all-IsWithin batch_size [] nonces batch_count agrees room = (tt, omega arith, room)
  retry_all-IsWithin batch_size (tx ∷ txs) nonces batch_count agrees room =
      let (due, nonces') = check enc network_nonce tx nonces in
      let (agrees', is) = check-Agrees tx nonces agrees in
      let turn = retry_all enc network_nonce batch_size txs nonces' (counted due batch_count) in
      if_intro (IsWithin batch_size batch_count) (leb batch_size batch_count)
        record { retried = []; batch_count = batch_count; full = true } (retry_one due tx turn)
        (λ full. (tt, omega arith, room))
        (λ more. retry_one-IsWithin batch_size batch_count due tx turn is (
          retry_all-IsWithin batch_size txs nonces' (counted due batch_count) agrees'
            (counted-le due batch_size batch_count more)))

  All-append : (xs ys : List Tx) → All IsExpected xs → All IsExpected ys → All IsExpected (xs ++ ys)
  All-append [] ys h k = k
  All-append (x ∷ xs) ys h k = (h.0, All-append xs ys h.1 k)

  length-append : (xs ys : List Tx) → length (xs ++ ys) ≡ length xs + length ys
  length-append [] ys = omega arith
  length-append (x ∷ xs) ys = omega (arith, length-append xs ys)

  second_turn-IsExpected :
      (batch_size : ℕ) (txs : List Tx) (stalled_gas : ℕ → List Tx)
      → let retried =
          second_turn enc network_nonce batch_size stalled_gas
            (retry_all enc network_nonce batch_size txs [] 0) in
        All IsExpected retried × (length retried ≤ batch_size)
  unfolding second_turn Agrees lookup
  second_turn-IsExpected batch_size txs stalled_gas =
      let turn = retry_all enc network_nonce batch_size txs [] 0 in
      let rest = stalled_gas (batch_size - turn.batch_count) in
      let turn' = retry_all enc network_nonce batch_size rest [] turn.batch_count in
      let (all, sum, room) = retry_all-IsWithin batch_size txs [] 0 (λ a n e. cc) (omega arith) in
      let (all', sum', room') =
        retry_all-IsWithin batch_size rest [] turn.batch_count (λ a n e. cc) room in
      if_intro (λ txs. All IsExpected txs × (length txs ≤ batch_size)) turn.full turn.retried
        (turn.retried ++ turn'.retried) (λ full. (all, omega (arith, sum, room)))
        (λ more. (
          All-append turn.retried turn'.retried all all',
          omega (arith, sum, sum', room', length-append turn.retried turn'.retried),
        ))

  -- Whatever the two queries return, each transaction that is retried has the nonce that the network
  -- expects of its sender, and no more are retried than the batch has room for.
  pub process-IsExpected :
      (batch_size grace now lastseen : ℕ) (stalled_network stalled_gas : ℕ → ℕ → List Tx)
      → let txs =
          process enc network_nonce batch_size grace now lastseen stalled_network stalled_gas in
        All IsExpected txs × (length txs ≤ batch_size)
  unfolding process
  process-IsExpected batch_size grace now lastseen stalled_network stalled_gas =
      let before = retry_before enc network_nonce grace now lastseen in
      second_turn-IsExpected batch_size (stalled_network before (batch_size - 0))
        (stalled_gas before)
