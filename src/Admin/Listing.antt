-- ===== src/Admin/Listing.antt =====
-- What `account` lists.
use cic_stack_v.Prelude.{
  ℕ, ◌+◌, ◌≡◌, refl, Bool, true, Bool-cases, inl, inr, not, ◌&&◌, List, [], ◌∷◌, map, select, arith,
  ltb, ◌==◌, if◌then◌else◌,
}
use cic_stack_v.Store.Rows.{Text}
use cic_stack_v.Store.{Worker, ok}
use cic_stack_v.Admin.{
  QueueTx, Workers, Listed, listed, prepend, account_row, account_rows, account,
}

-- The workers know each entry.
module _ (workers : Workers) (tx_of : Text → QueueTx)
    (knows : (k : Text) → workers.get_tx k ≡ ok (tx_of k)) (address : Text) where
  abbrev own : Text → Bool
  own k = (tx_of k).sender == address

  -- The account's own transaction before, from which on a nonce is a gap.
  abbrev after : ℕ → Text → ℕ
  after expected k = if own k then (tx_of k).nonce + 1 else expected

  -- Every transaction, and whether it is one of the account's own that is more than one nonce above the
  -- account's one before it.
  pub flagged : ℕ → List Text → List (Text × Bool)
  flagged expected [] = []
  flagged expected (k ∷ ks) =
      (k, own k && ltb expected (tx_of k).nonce) ∷ flagged (after expected k) ks

  -- Which are listed: those of the account's own, and those to it from others, each if asked for, and any
  -- other.
  pub is_kept : Bool → Bool → Text × Bool → Bool
  is_kept include_sender include_recipient (k, gap) =
      if own k
      then include_sender
      else not (((tx_of k).recipient == address) && not include_recipient)

  pub entry_of : Text × Bool → Listed
  entry_of (k, gap) = listed (tx_of k) gap

  account_rows_lem :
      (include_sender include_recipient : Bool) (expected : ℕ) (ks : List Text)
      → account_rows workers address include_sender include_recipient expected ks
        ≡ ok
            (map entry_of (select (is_kept include_sender include_recipient) (flagged expected ks)))
  unfolding account_rows account_row prepend flagged is_kept entry_of
  account_rows_lem s r expected [] = refl
  account_rows_lem s r expected (k ∷ ks) = elim (Bool-cases (own k)) [
    | inl mine ↦ ground (arith, knows k, mine, account_rows_lem s r ((tx_of k).nonce + 1) ks)
    | inr other ↦ ground (arith, knows k, other, account_rows_lem s r expected ks)
  ]

module _ (workers : Workers) (tx_of : Text → QueueTx)
    (knows : (k : Text) → workers.get_tx k ≡ ok (tx_of k)) where
  -- The list of an account's transactions: leaving out its own, or those to it, leaves out these entries
  -- and changes no other. An entry has the error 'nonce' if it is the account's own and its nonce is more
  -- than one above that of the account's own one before, listed or not. With a renderer the same
  -- entries are written, and none is returned.
  pub account-flagged :
      (address : Text) (include_sender include_recipient rendered : Bool) (ks : List Text)
      (w : Worker)
      → let a = workers.uniform address in
        let rows = map (entry_of workers tx_of knows a) (
          select
            (is_kept workers tx_of knows a include_sender include_recipient)
            (flagged workers tx_of knows a 0 ks)) in
        workers.account_txs a true ≡ ok ks
        → account workers address include_sender include_recipient rendered w
          ≡ (ok (if rendered then ([], rows) else (rows, [])), w)
  unfolding account
  account-flagged address s r rendered ks w told =
      ground (arith, told, account_rows_lem workers tx_of knows (workers.uniform address) s r 0 ks)
