-- ===== src/Admin/Blocking.antt =====
-- What `check_nonce` finds.
use cic_stack_v.Prelude.{
  ℕ, ◌+◌, ◌≡◌, refl, Bool, false, Bool-cases, inl, inr, not, ◌&&◌, Option, none, some, List, [],
  ◌∷◌, arith, ltb, if◌then◌else◌,
}
use cic_stack_v.Store.Rows.{Text}
use cic_stack_v.Store.{Worker, Result, Result-cases, ok, err}
use cic_stack_v.Admin.{
  QueueTx, Workers, NonceReport, is_failed, scan, hash_of, nonce_of, check_nonce,
}

-- The workers know each entry, and each signed transaction can be decoded.
module _ (workers : Workers) (tx_of : Text → QueueTx)
    (knows : (k : Text) → workers.get_tx k ≡ ok (tx_of k)) (sender : Text → Text)
    (decodes : (raw : Text) → workers.sender_of raw ≡ ok (sender raw)) where
  abbrev nonce_at : Text → ℕ
  nonce_at k = (tx_of k).nonce

  abbrev fails : Text → Bool
  fails k = is_failed workers (tx_of k)

  -- Whether the nonce of a transaction, that did not fail, is more than one above the one before.
  abbrev leaps : ℕ → Text → Bool
  leaps expected k = not (fails k) && ltb expected (nonce_at k)

  -- The transaction after the first gap.
  pub first_gap : ℕ → List Text → Option Text
  first_gap expected [] = none
  first_gap expected (k ∷ ks) =
      let rest = first_gap (nonce_at k + 1) ks in if leaps expected k then some k else rest

  -- The last transaction that failed for good, or one found before.
  pub last_failed : Option Text → List Text → Option Text
  last_failed found [] = found
  last_failed found (k ∷ ks) = last_failed (if fails k then some k else found) ks

  or_else : Option Text → Option Text → Option Text
  or_else none other = other
  or_else (some k) other = some k

  -- What blocks the account of some transactions.
  pub blocker : List Text → Option Text
  unfolding or_else first_gap last_failed
  blocker ks = or_else (first_gap 0 ks) (last_failed none ks)

  named : Option Text → Option (Text × ℕ)
  named none = none
  named (some k) = some (k, nonce_at k)

  scan_lem :
      (ks : List Text) (expected q : ℕ) (found : Option Text)
      → (n : ℕ) × (scan workers ks expected (record { queue = q; blocking = named found })
          ≡ ok (record {
            queue = n;
            blocking = named (or_else (first_gap expected ks) (last_failed found ks));
          }))
  unfolding scan named or_else first_gap last_failed
  scan_lem [] expected q found = (q, refl)
  scan_lem (k ∷ ks) expected q found = elim (Bool-cases (fails k)) [
    | inl failed ↦
        let (n, rest) = scan_lem ks (nonce_at k + 1) (nonce_at k) (some k) in
        (n, ground (arith, knows k, failed, rest))
    | inr fine ↦ elim (Bool-cases (ltb expected (nonce_at k))) [
      | inl leap ↦ (nonce_at k, ground (arith, knows k, fine, leap, decodes (tx_of k).signed_tx))
      | inr near ↦
          let (n, rest) = scan_lem ks (nonce_at k + 1) (nonce_at k) found in
          (n, ground (arith, knows k, fine, near, rest))
    ]
  ]

  -- The report on what blocks an account, where `add_0x` answers with its hash.
  pub report_on : ℕ → Option Text → Result Text → Result NonceReport
  unfolding named
  report_on n blocking (ok hash) =
      ok (record { queue = n; blocking_nonce = nonce_of (named blocking); blocking_tx = hash })
  report_on n blocking (err e) = err e

  hash_of-named : (blocking : Option Text) → hash_of (named blocking) ≡ blocking
  unfolding named hash_of
  hash_of-named none = refl
  hash_of-named (some k) = refl

  -- `check_nonce` reports as what blocks an account the first of its transactions that is more than one
  -- nonce above the one before and did not fail for good, and if there is none the last one that failed
  -- for good. If there is neither, what it gives to `add_0x` is no hash, and it fails if that does.
  pub check_nonce-blocker :
      (address : Text) (ks : List Text) (w : Worker)
      → workers.account_txs address false ≡ ok ks
      → (n : ℕ) × (check_nonce workers address w
          ≡ (report_on n (blocker ks) (workers.add_0x (blocker ks)), w))
  unfolding check_nonce blocker report_on named
  check_nonce-blocker address ks w told =
      let (n, scanned) = scan_lem ks 0 0 none in
      let same = hash_of-named (blocker ks) in
      (
        n,
        elim (Result-cases (workers.add_0x (blocker ks))) [
          | inl (hash, e) ↦ ground (arith, told, scanned, same, e)
          | inr (x, e) ↦ ground (arith, told, scanned, same, e)
        ],
      )
