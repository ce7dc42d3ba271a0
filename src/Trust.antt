-- ===== src/Trust.antt =====
-- `verify_proofs` of cic_eth/eth/trust.py: each proof has to be declared of the subject by a trusted
-- address. The registry and the address declarator are arguments.
pub mod Verified
use cic_stack_v.Prelude.{ℕ, Bool, true, false, List, [], ◌∷◌, ◌++◌, ◌==◌, if◌then◌else◌}
use cic_stack_v.Store.Rows.{Text, default_role}
use cic_stack_v.Store.Session.{given, create_session}
use cic_stack_v.Store.{Action, Result, ⊤, ok, err, trust, ◌>>=◌, ◌>>◌, pure, raise, from_result}
use cic_stack_v.External.{Encoding}
use cic_stack_v.Role
use cic_stack_v.Balance.{put}

pub record Declarator : Type 0 where
  -- `CICRegistry.by_name` of the declarator, for the sender of the call
  pub by_name : Text → Result Text
  -- declarator, trusted address, subject, sender: what the address declares of the subject
  pub declaration : Text → Text → Text → Text → Result (List Text)
  pub trusted_addresses : List Text

module _ (enc : Encoding) (calls : Declarator) where
  -- A trusted address, once for each of its declarations that is the proof.
  unfoldable pub matching : Text → Text → List Text → List Text
  matching proof trusted [] = []
  matching proof trusted (d ∷ ds) =
      let rest = matching proof trusted ds in
      if enc.strip_0x d == proof then trusted ∷ rest else rest

  pub signers : Text → Text → Text → Text → List Text → Action (List Text)
  unfolding matching
  signers declarator sender subject proof [] = pure []
  signers declarator sender subject proof (trusted ∷ more) = do
    ds ← from_result (calls.declaration declarator trusted subject sender)
    rest ← signers declarator sender subject proof more
    pure (matching proof trusted ds ++ rest)

  -- `have_proofs`
  pub have_proofs :
      Text → Text → Text → List Text → List (Text × List Text) → Action (List (Text × List Text))
  unfolding signers put
  have_proofs declarator sender subject [] have = pure have
  have_proofs declarator sender subject (proof ∷ proofs) have = do
    who ← signers declarator sender subject (enc.strip_0x proof) calls.trusted_addresses
    have_proofs declarator sender subject proofs (put (enc.strip_0x proof) who have)

  require_signer : List Text → Action ⊤
  require_signer [] = raise trust
  require_signer (a ∷ more) = pure tt

  pub require_all : List (Text × List Text) → Action ⊤
  unfolding require_signer
  require_all [] = pure tt
  require_all ((proof, who) ∷ have) = do require_signer who; require_all have

  pub verify_proofs : {A : Type 0} → A → Text → List Text → Action (A × List (Text × List Text))
  unfolding have_proofs require_all
  verify_proofs chained subject proofs = do
    create_session
    sender ← Role.get_address default_role given
    declarator ← from_result (calls.by_name sender)
    have ← have_proofs declarator sender subject proofs []
    require_all have
    pure (chained, have)
