-- ===== src/Token/Info/Checked.antt =====
-- The proofs that each token is told with, and the checks that are submitted for them.
use cic_stack_v.Prelude.{
  ℕ, ◌+◌, ◌≡◌, refl, Option, List, [], ◌∷◌, ◌++◌, map, length, arith, ◌∙◌, ap, sym, ◌⊎◌, inl, inr,
}
use mathlib.Core.List.{append_assoc, append-nil}
use cic_stack_v.Store.Rows.{Text}
use cic_stack_v.Store.Tasks.{Task, TokenInfo, call, verify_proofs}
use cic_stack_v.Store.{Worker, ok}
use cic_stack_v.External.{Encoding}
use cic_stack_v.Balance.{Token}
use cic_stack_v.Token.Info.{
  Loaded, Contract, proofs_at, proofs_for, info_of, infos_from, token_info, with_callbacks,
  verify_token_info,
}

proofs_at-skip :
    (before : List (List Text)) (p : List Text) (more : List (List Text)) (w : Worker)
    → proofs_at (before ++ p ∷ more) (length before) w ≡ (ok p, w)
unfolding proofs_at
proofs_at-skip [] p more w = refl
proofs_at-skip (q ∷ before) p more w = proofs_at-skip before p more w

proofs_for-skip :
    (before : List (List Text)) (p : List Text) (more : List (List Text)) (w : Worker)
    → proofs_for (before ++ p ∷ more) (length before) w ≡ (ok p, w)
unfolding proofs_for proofs_at
proofs_for-skip [] p more w = refl
proofs_for-skip (q ∷ before) p more w = proofs_at-skip before p more w

length-snoc :
    (before : List (List Text)) (p : List Text) → length (before ++ p ∷ []) ≡ length before + 1
length-snoc [] p = refl
length-snoc (q ∷ before) p = omega (arith, length-snoc before p)

-- The check of one token.
pub check_of : Text → Option (Text × ℕ) → Option (Text × ℕ) → TokenInfo → Task
check_of chain success error t =
    with_callbacks success error (call (verify_proofs t t.address t.proofs chain))

pub verify_token_info_lem :
    (chain : Text) (success error : Option (Text × ℕ)) (ts : List TokenInfo) (w : Worker)
    → verify_token_info chain success error ts w
      ≡ (ok ts, record w { submitted = w.submitted ++ map (check_of chain success error) ts })
unfolding verify_token_info check_of
verify_token_info_lem chain success error [] w =
    ap (λ ss. (ok [], record w { submitted = ss })) (sym (append-nil w.submitted))
verify_token_info_lem chain success error (t ∷ ts) w =
    let check = check_of chain success error t in
    let w' : Worker = record w { submitted = w.submitted ++ check ∷ [] } in
    ground (
      arith,
      verify_token_info_lem chain success error ts w',
      append_assoc w.submitted (check ∷ []) (map (check_of chain success error) ts),
    )

-- Each token can be loaded.
module _ (enc : Encoding) (contract : Contract) (loaded : Text → Loaded)
    (loads : (a : Text) → contract.load (enc.add_0x a) ≡ ok (loaded a)) where
  -- A token, with the proof of its symbol before those asked for.
  pub info : Token → List Text → TokenInfo
  info t asked = record {
    address = enc.executable_address (loaded t.address).address;
    symbol = (loaded t.address).symbol;
    name = (loaded t.address).name;
    decimals = (loaded t.address).decimals;
    proofs = contract.to_identifier (loaded t.address).symbol ∷ asked;
    converters = t.converters;
  }

  -- The tokens, each with the proofs at its place.
  pub infos_with : List Token → List (List Text) → List TokenInfo
  infos_with [] proofs = []
  infos_with (t ∷ ts) [] = info t [] ∷ infos_with ts []
  infos_with (t ∷ ts) (p ∷ proofs) = info t p ∷ infos_with ts proofs

  infos_from-none :
      (i : ℕ) (ts : List Token) (w : Worker)
      → infos_from enc contract [] i ts w ≡ (ok (infos_with ts []), w)
  unfolding infos_from info_of proofs_for infos_with info
  infos_from-none i [] w = refl
  infos_from-none i (t ∷ ts) w = ground (arith, loads t.address, infos_from-none (i + 1) ts w)

  infos_from-some :
      (before proofs : List (List Text)) (ts : List Token) (w : Worker)
      → length proofs ≡ length ts
      → infos_from enc contract (before ++ proofs) (length before) ts w
        ≡ (ok (infos_with ts proofs), w)
  unfolding infos_from info_of infos_with info
  infos_from-some before proofs [] w e = refl
  infos_from-some before [] (t ∷ ts) w e = ground (arith, e)
  infos_from-some before (p ∷ proofs) (t ∷ ts) w e =
      let rest = infos_from-some (before ++ p ∷ []) proofs ts w (omega (arith, e)) in
      let here = proofs_for-skip before p proofs w in
      let moved : infos_from enc contract (before ++ p ∷ proofs) (length before + 1) ts w
          ≡ (ok (infos_with ts proofs), w) =
        ap (λ all. infos_from enc contract all (length before + 1) ts w)
          (sym (append_assoc before (p ∷ []) proofs))
        ∙ ap (λ i. infos_from enc contract ((before ++ p ∷ []) ++ proofs) i ts w)
            (sym (length-snoc before p))
        ∙ rest in
      ground (arith, loads t.address, here, moved)

  -- The tokens are told with the proofs asked for at their places: for none of them or for each.
  pub token_info_lem :
      (proofs : List (List Text)) (ts : List Token) (w : Worker)
      → (proofs ≡ []) ⊎ (length proofs ≡ length ts)
      → token_info enc contract proofs ts w ≡ (ok (infos_with ts proofs), w)
  unfolding token_info
  token_info_lem proofs ts w (inl e) =
      ap (λ ps. token_info enc contract ps ts w) e
      ∙ infos_from-none 0 ts w
      ∙ ap (λ ps. (ok (infos_with ts ps), w)) (sym e)
  token_info_lem proofs ts w (inr e) = infos_from-some [] proofs ts w e
