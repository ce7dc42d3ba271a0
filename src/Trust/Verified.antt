-- ===== src/Trust/Verified.antt =====
-- When the proofs of a subject are verified.
use cic_stack_v.Prelude.{
  ◌≡◌, refl, sym, Bool, true, false, ◌&&◌, ◌||◌, Bool-cases, inl, inr, List, [], ◌∷◌, ◌++◌, arith,
  ◌==◌, if◌then◌else◌, All, ==_iff, if_intro, subst,
}
use cic_stack_v.Store.Rows.{Text, default_role}
use cic_stack_v.Store.{Worker, ok, err, trust}
use cic_stack_v.External.{Encoding}
use cic_stack_v.Role.Lookup.{address_for, get_address-given}
use cic_stack_v.Balance.{put}
use cic_stack_v.Trust.{
  Declarator, matching, signers, have_proofs, require_all, require_signer, verify_proofs,
}

is_empty : {A : Type 0} → List A → Bool
is_empty [] = true
is_empty (x ∷ xs) = false

module _ (enc : Encoding) (calls : Declarator) (subject declarator sender : Text)
    (declared : Text → List Text)
    (answers : (a : Text) → calls.declaration declarator a subject sender ≡ ok (declared a)) where
  -- Whether a proof is among declarations.
  pub is_declared : Text → List Text → Bool
  is_declared proof [] = false
  is_declared proof (d ∷ ds) = (enc.strip_0x d == proof) || is_declared proof ds

  -- Whether one of the addresses declares a proof.
  pub is_signed : Text → List Text → Bool
  unfolding is_declared
  is_signed proof [] = false
  is_signed proof (a ∷ more) = is_declared proof (declared a) || is_signed proof more

  pub are_signed : List Text → Bool
  unfolding is_signed
  are_signed [] = true
  are_signed (proof ∷ proofs) =
      is_signed (enc.strip_0x proof) calls.trusted_addresses && are_signed proofs

  all_signers : Text → List Text → List Text
  unfolding matching
  all_signers proof [] = []
  all_signers proof (a ∷ more) = matching enc calls proof a (declared a) ++ all_signers proof more

  signers_lem :
      (proof : Text) (trusted : List Text) (w : Worker)
      → signers enc calls declarator sender subject proof trusted w
        ≡ (ok (all_signers proof trusted), w)
  unfolding signers all_signers
  signers_lem proof [] w = refl
  signers_lem proof (a ∷ more) w = ground (arith, answers a, signers_lem proof more w)

  matching-is_declared :
      (proof a : Text) (ds rest : List Text)
      → is_empty (matching enc calls proof a ds ++ rest)
        ≡ (if is_declared proof ds then false else is_empty rest)
  unfolding matching is_declared is_empty
  matching-is_declared proof a [] rest = refl
  matching-is_declared proof a (d ∷ ds) rest = ground (arith, matching-is_declared proof a ds rest)

  all_signers-is_signed :
      (proof : Text) (trusted : List Text)
      → is_empty (all_signers proof trusted) ≡ (if is_signed proof trusted then false else true)
  unfolding all_signers is_signed is_empty
  all_signers-is_signed proof [] = refl
  all_signers-is_signed proof (a ∷ more) = ground (
    arith,
    matching-is_declared proof a (declared a) (all_signers proof more),
    all_signers-is_signed proof more,
  )

  -- What a dictionary holds for each proof, and whether all of it is signed.
  abbrev Holds : List (Text × List Text) → Type 0
  Holds have = All (λ e. e.1 ≡ all_signers e.0 calls.trusted_addresses) have

  complete : List (Text × List Text) → Bool
  unfolding is_empty
  complete [] = true
  complete ((proof, who) ∷ have) = (if is_empty who then false else true) && complete have

  put-Holds :
      (proof : Text) (have : List (Text × List Text))
      → Holds have
      → Holds (put proof (all_signers proof calls.trusted_addresses) have)
  unfolding put
  put-Holds proof [] h = (refl, tt)
  put-Holds proof ((p, who) ∷ have) h =
      if_intro Holds (proof == p) ((proof, all_signers proof calls.trusted_addresses) ∷ have)
        ((p, who) ∷ put proof (all_signers proof calls.trusted_addresses) have) (λ e. (refl, h.1))
        (λ e. (h.0, put-Holds proof have h.1))

  complete-put :
      (proof : Text) (have : List (Text × List Text))
      → Holds have
      → complete (put proof (all_signers proof calls.trusted_addresses) have)
        ≡ (is_signed proof calls.trusted_addresses && complete have)
  unfolding complete put
  complete-put proof [] h = ground (arith, all_signers-is_signed proof calls.trusted_addresses)
  complete-put proof ((p, who) ∷ have) h = elim (Bool-cases (proof == p)) [
    | inl same ↦
        let who_lem : who ≡ all_signers proof calls.trusted_addresses =
          subst (λ q. who ≡ all_signers q calls.trusted_addresses) (sym ((==_iff proof p).0 same))
            h.0 in
        ground (arith, same, who_lem, all_signers-is_signed proof calls.trusted_addresses)
    | inr other ↦ ground (arith, other, complete-put proof have h.1)
  ]

  have_proofs_lem :
      (proofs : List Text) (have : List (Text × List Text)) (w : Worker)
      → Holds have
      → (have' : List (Text × List Text)) × (have_proofs enc calls declarator sender subject proofs
            have w
          ≡ (ok have', w))
        × (complete have' ≡ (are_signed proofs && complete have))
  unfolding have_proofs are_signed
  have_proofs_lem [] have w h = (have, refl, refl)
  have_proofs_lem (proof ∷ proofs) have w h =
      let p = enc.strip_0x proof in
      let have₁ = put p (all_signers p calls.trusted_addresses) have in
      let (have', done, whole) = have_proofs_lem proofs have₁ w (put-Holds p have h) in
      (
        have',
        ground (arith, signers_lem p calls.trusted_addresses w, done),
        ground (arith, whole, complete-put p have h),
      )

  require_all_lem :
      (have : List (Text × List Text)) (w : Worker)
      → require_all enc calls have w ≡ (if complete have then ok tt else err trust, w)
  unfolding require_all complete require_signer is_empty
  require_all_lem [] w = refl
  require_all_lem ((p, []) ∷ have) w = refl
  require_all_lem ((p, a ∷ more) ∷ have) w = ground (arith, require_all_lem have w)

  -- Where the default role has the address `sender`, for which the registry knows the declarator, and
  -- every trusted address can be asked for its declarations: the proofs of a subject are verified if
  -- each of them is declared by one trusted address at least, and otherwise TrustError is raised.
  pub verify_proofs-are_signed :
      (chained : Text) (proofs : List Text) (w : Worker)
      → address_for default_role w.committed ≡ sender
      → calls.by_name sender ≡ ok declarator
      → (have : List (Text × List Text)) × ((verify_proofs enc calls chained subject proofs w).0
          ≡ (if are_signed proofs then ok (chained, have) else err trust))
  unfolding verify_proofs complete
  verify_proofs-are_signed chained proofs w found known =
      let opened : Worker = record w { work = w.committed; registered = false } in
      let (have, done, whole) = have_proofs_lem proofs [] opened tt in
      (
        have,
        ground (
          arith,
          get_address-given default_role opened refl,
          found,
          known,
          done,
          require_all_lem have opened,
          whole,
        ),
      )
