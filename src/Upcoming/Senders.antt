-- ===== src/Upcoming/Senders.antt =====
-- Which senders the outer query of `get_upcoming_tx` names, and with which nonce.
use cic_stack_v.Prelude.{
  ℕ, ◌≤◌, min, ◌≡◌, refl, Bool, true, false, Option, none, some, List, [], ◌∷◌, arith, ◌==◌, select,
  All, Bool-cases, inl, inr, sym, subst, if_intro, ◌∙◌, ==_iff, All-weaken,
}
use cic_stack_v.Store.Rows.{Text, Otx, TxCacheRow}
use cic_stack_v.Store.Table.{first}
use cic_stack_v.Store.{Db}
use cic_stack_v.External.{Encoding}
use cic_stack_v.Sql.{All-select}
use cic_stack_v.Upcoming.{Asked, is_open, joined, lowest, group_by_sender, is_upcoming, q_outer}

abbrev pub nonce_of : Text → List (Text × ℕ) → Option (Text × ℕ)
nonce_of s groups = first (λ g. g.0 == s) groups

-- A row of another sender leaves a sender's group as it is.
nonce_of-lowest_apart :
    (s sender : Text) (nonce : ℕ) (groups : List (Text × ℕ))
    → (sender == s) ≡ false
    → nonce_of s (lowest sender nonce groups) ≡ nonce_of s groups
unfolding first lowest
nonce_of-lowest_apart s sender nonce [] h = ground arith
nonce_of-lowest_apart s sender nonce ((t, n) ∷ groups) h =
    ground (arith, nonce_of-lowest_apart s sender nonce groups h)

-- A row of the sender: its group has the smaller nonce.
nonce_of-lowest_self :
    (s : Text) (nonce : ℕ) (groups : List (Text × ℕ))
    → (n : ℕ) × (nonce_of s (lowest s nonce groups) ≡ some (s, n))
      × (n ≤ nonce)
      × ((m : ℕ) → nonce_of s groups ≡ some (s, m) → n ≤ m)
unfolding first lowest
nonce_of-lowest_self s nonce [] = (nonce, ground arith, omega arith, λ m e. ground arith)
nonce_of-lowest_self s nonce ((t, n) ∷ groups) = elim (Bool-cases (s == t)) [
  | inl here ↦ (min nonce n, ground arith, ground arith, λ m e. ground arith)
  | inr apart ↦
      let (k, is, le, below) = nonce_of-lowest_self s nonce groups in
      (k, ground (arith, is), le, λ m e. below m (ground (arith, e)))
]

nonce_of-absent :
    (s : Text) (rows : List (Otx × TxCacheRow))
    → All (λ (r : Otx × TxCacheRow). (r.1.sender == s) ≡ false) rows
    → nonce_of s (group_by_sender rows) ≡ none
unfolding group_by_sender first
nonce_of-absent s [] h = refl
nonce_of-absent s ((o, c) ∷ rows) h =
    nonce_of-lowest_apart s c.sender o.nonce (group_by_sender rows) h.0 ∙ nonce_of-absent s rows h.1

-- The group of the row's sender is there, and its nonce is no higher than the row's.
abbrev pub Covered : List (Text × ℕ) → Otx × TxCacheRow → Type 0
Covered groups (o, c) = (n : ℕ) × (nonce_of c.sender groups ≡ some (c.sender, n)) × (n ≤ o.nonce)

Covered-lowest_self :
    (nonce : ℕ) (groups : List (Text × ℕ)) (o : Otx) (c : TxCacheRow)
    → Covered groups (o, c)
    → Covered (lowest c.sender nonce groups) (o, c)
Covered-lowest_self nonce groups o c (n, is, le) =
    let (k, is_k, below_nonce, below) = nonce_of-lowest_self c.sender nonce groups in
    (k, is_k, omega (arith, below n is, le))

Covered-lowest :
    (s : Text) (nonce : ℕ) (groups : List (Text × ℕ)) (r : Otx × TxCacheRow)
    → Covered groups r
    → Covered (lowest s nonce groups) r
Covered-lowest s nonce groups (o, c) (n, is, le) = elim (Bool-cases (s == c.sender)) [
  | inl here ↦
      subst (λ s. Covered (lowest s nonce groups) (o, c)) (sym ((==_iff s c.sender).0 here))
        (Covered-lowest_self nonce groups o c (n, is, le))
  | inr apart ↦ (n, nonce_of-lowest_apart c.sender s nonce groups apart ∙ is, le)
]

group_by_sender-Covered :
    (rows : List (Otx × TxCacheRow)) → All (Covered (group_by_sender rows)) rows
unfolding group_by_sender
group_by_sender-Covered [] = tt
group_by_sender-Covered ((o, c) ∷ rows) =
    let (n, is, le, below) = nonce_of-lowest_self c.sender o.nonce (group_by_sender rows) in
    (
      (n, is, le),
      All-weaken (Covered (group_by_sender rows))
          (Covered (lowest c.sender o.nonce (group_by_sender rows)))
          (Covered-lowest c.sender o.nonce (group_by_sender rows)) rows
          (group_by_sender-Covered rows),
    )

-- What holds of the senders of the groups.
keys-lowest :
    (K : Text → Type 0) (sender : Text) (nonce : ℕ) (groups : List (Text × ℕ))
    → K sender
    → All (λ (g : Text × ℕ). K g.0) groups
    → All (λ (g : Text × ℕ). K g.0) (lowest sender nonce groups)
unfolding lowest
keys-lowest K sender nonce [] k h = (k, tt)
keys-lowest K sender nonce ((s, n) ∷ groups) k h =
    if_intro (All (λ (g : Text × ℕ). K g.0)) (sender == s) ((s, min nonce n) ∷ groups)
      ((s, n) ∷ lowest sender nonce groups) (λ e. h)
      (λ e. (h.0, keys-lowest K sender nonce groups k h.1))

pub keys-group_by_sender :
    (K : Text → Type 0) (rows : List (Otx × TxCacheRow))
    → All (λ (r : Otx × TxCacheRow). K r.1.sender) rows
    → All (λ (g : Text × ℕ). K g.0) (group_by_sender rows)
unfolding group_by_sender
keys-group_by_sender K [] h = tt
keys-group_by_sender K ((o, c) ∷ rows) h =
    keys-lowest K c.sender o.nonce (group_by_sender rows) h.0 (keys-group_by_sender K rows h.1)

-- Each sender has one group.
Distinct : List (Text × ℕ) → Type 0
Distinct [] = Unit
Distinct ((s, n) ∷ groups) = All (λ (g : Text × ℕ). (g.0 == s) ≡ false) groups × Distinct groups

lowest-Distinct :
    (sender : Text) (nonce : ℕ) (groups : List (Text × ℕ))
    → Distinct groups
    → Distinct (lowest sender nonce groups)
unfolding lowest Distinct
lowest-Distinct sender nonce [] h = (tt, tt)
lowest-Distinct sender nonce ((s, n) ∷ groups) h =
    if_intro Distinct (sender == s) ((s, min nonce n) ∷ groups)
      ((s, n) ∷ lowest sender nonce groups) (λ e. h)
      (λ e. (
        keys-lowest (λ k. (k == s) ≡ false) sender nonce groups e h.0,
        lowest-Distinct sender nonce groups h.1,
      ))

group_by_sender-Distinct : (rows : List (Otx × TxCacheRow)) → Distinct (group_by_sender rows)
unfolding group_by_sender Distinct
group_by_sender-Distinct [] = tt
group_by_sender-Distinct ((o, c) ∷ rows) =
    lowest-Distinct c.sender o.nonce (group_by_sender rows) (group_by_sender-Distinct rows)

-- No row of the sender has a lower nonce.
unfoldable pub Low : List (Otx × TxCacheRow) → Text × ℕ → Type 0
Low rows (s, n) = All (λ (r : Otx × TxCacheRow). (r.1.sender == s) ≡ true → n ≤ r.0.nonce) rows

Low-apart :
    (o : Otx) (c : TxCacheRow) (rows : List (Otx × TxCacheRow)) (groups : List (Text × ℕ))
    → All (λ (g : Text × ℕ). (g.0 == c.sender) ≡ false) groups
    → All (Low rows) groups
    → All (Low ((o, c) ∷ rows)) groups
unfolding Low
Low-apart o c rows [] apart h = tt
Low-apart o c rows ((s, n) ∷ groups) apart h =
    (((λ e. ground (arith, e, apart.0)), h.0), Low-apart o c rows groups apart.1 h.1)

lowest-Low :
    (o : Otx) (c : TxCacheRow) (rows : List (Otx × TxCacheRow)) (groups : List (Text × ℕ))
    → Distinct groups
    → All (Low rows) groups
    → (nonce_of c.sender groups ≡ none → Low rows (c.sender, o.nonce))
    → All (Low ((o, c) ∷ rows)) (lowest c.sender o.nonce groups)
unfolding lowest Low Distinct first
lowest-Low o c rows [] distinct h new = (((λ e. omega arith), new refl), tt)
lowest-Low o c rows ((s, n) ∷ groups) distinct h new =
    if_intro (All (Low ((o, c) ∷ rows))) (c.sender == s) ((s, min o.nonce n) ∷ groups)
      ((s, n) ∷ lowest c.sender o.nonce groups)
      (λ here. (
        (
          (λ e. ground arith),
          All-weaken (λ (r : Otx × TxCacheRow). (r.1.sender == s) ≡ true → n ≤ r.0.nonce)
              (λ r. (r.1.sender == s) ≡ true → min o.nonce n ≤ r.0.nonce)
              (λ r below e. ground (arith, below e)) rows h.0,
        ),
        Low-apart o c rows groups
            (subst (λ k. All (λ (g : Text × ℕ). (g.0 == k) ≡ false) groups)
              (sym ((==_iff c.sender s).0 here)) distinct.0)
            h.1,
      ))
      (λ apart. (
        ((λ e. ground (arith, e, apart)), h.0),
        lowest-Low o c rows groups distinct.1 h.1 (λ e. new (ground (arith, e, apart))),
      ))

-- The nonce of a group is the lowest of its sender.
pub group_by_sender-Low : (rows : List (Otx × TxCacheRow)) → All (Low rows) (group_by_sender rows)
unfolding group_by_sender
group_by_sender-Low [] = tt
group_by_sender-Low ((o, c) ∷ rows) =
    let groups = group_by_sender rows in
    lowest-Low o c rows groups (group_by_sender-Distinct rows) (group_by_sender-Low rows) (λ gone.
      unfold Low in
      All-weaken (Covered groups)
        (λ (r : Otx × TxCacheRow). (r.1.sender == c.sender) ≡ true → o.nonce ≤ r.0.nonce)
        (λ r covered e.
          let named =
            subst (λ k. nonce_of k groups ≡ some (r.1.sender, covered.0))
              ((==_iff r.1.sender c.sender).0 e) covered.1 in
          ground (arith, gone, named))
        rows (group_by_sender-Covered rows))

module _ (enc : Encoding) (pending : ℕ) (is_alive : ℕ → Bool) (now : ℕ) (asked : Asked)
    (db : Db) where
  pub is_upcoming-open :
      (o : Otx) (c : TxCacheRow)
      → is_upcoming enc pending is_alive now asked db.locks (o, c) ≡ true
      → is_open db.locks c.sender ≡ true
  unfolding is_upcoming
  is_upcoming-open o c passes = ground (arith, passes)

  is_upcoming-apart :
      (s : Text) (r : Otx × TxCacheRow)
      → is_open db.locks s ≡ false
      → is_upcoming enc pending is_alive now asked db.locks r ≡ true
      → (r.1.sender == s) ≡ false
  is_upcoming-apart s (o, c) shut passes = elim (Bool-cases (c.sender == s)) [
    | inl here ↦ ground (
      arith,
      shut,
      subst (λ i. is_open db.locks i ≡ true) ((==_iff c.sender s).0 here)
          (is_upcoming-open o c passes),
    )
    | inr apart ↦ apart
  ]

  -- A sender whose every lock row, of whatever chain, has the SEND bit, and who has such a row, is
  -- named by no group: none of his transactions is looked for.
  pub q_outer-locked :
      (s : Text)
      → is_open db.locks s ≡ false
      → nonce_of s (q_outer enc pending is_alive now asked db) ≡ none
  unfolding q_outer
  q_outer-locked s shut =
      let rows = joined db.otxs db.tx_cache in
      let p = is_upcoming enc pending is_alive now asked db.locks in
      nonce_of-absent s (select p rows) (
        All-weaken (λ r. p r ≡ true) (λ r. (r.1.sender == s) ≡ false)
          (λ r h. is_upcoming-apart s r shut h) (select p rows) (All-select p rows))

  -- Each row that passes the query's conditions has the group of its sender, with a nonce no higher
  -- than its own.
  pub q_outer-Covered :
      All
        (Covered (q_outer enc pending is_alive now asked db))
        (select (is_upcoming enc pending is_alive now asked db.locks) (joined db.otxs db.tx_cache))
  unfolding q_outer
  q_outer-Covered =
      group_by_sender-Covered
        (select (is_upcoming enc pending is_alive now asked db.locks) (joined db.otxs db.tx_cache))
