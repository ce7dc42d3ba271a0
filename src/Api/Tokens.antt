-- ===== src/Api/Tokens.antt =====
-- A lookup of tokens from the request to the checks of their proofs.
use cic_stack_v.Prelude.{
  false, ◌≡◌, refl, ◌⊎◌, inl, inr, Bool-cases, List, [], ◌∷◌, ◌++◌, map, length, arith, ◌∙◌, ◌==◌,
}
use cic_stack_v.Store.Rows.{Text, default_role}
use cic_stack_v.Store.Tasks.{TokenInfo}
use cic_stack_v.Store.{Worker, ok}
use cic_stack_v.Role.Lookup.{address_for}
use cic_stack_v.Token.Transfer.{token_for, resolve-all}
use cic_stack_v.Token.Info.{Loaded}
use cic_stack_v.Token.Info.Checked.{infos_with, check_of, token_info_lem, verify_token_info_lem}
use cic_stack_v.Lock.Effect.{IsKeyed}
use cic_stack_v.Api.{
  Api, World, Value, Chain, Proofs, no_proofs, for_all, for_each, item_list, same_for, to_v_list,
  texts, tokens, infos, resolve_tokens_by_symbol, token_info, verify_token_info, link, last, silent,
  callback_with, run_step, serve, start_tokens, token_chain, notify,
}
use cic_stack_v.Api.Transfers.{run-link, run_node-reports}

length-map : {A B : Type 0} (f : A → B) (xs : List A) → length (map f xs) ≡ length xs
length-map f [] = refl
length-map f (x ∷ xs) = omega (arith, length-map f xs)

length-same_for : (p : Text) (symbols : List Text) → length (same_for p symbols) ≡ length symbols
unfolding same_for
length-same_for p [] = refl
length-same_for p (s ∷ symbols) = omega (arith, length-same_for p symbols)

-- There are proofs for each token or for none.
to_v_list-fits :
    (proofs : Proofs) (symbols : List Text) (lists : List (List Text))
    → to_v_list proofs symbols ≡ ok lists
    → (lists ≡ []) ⊎ (length lists ≡ length symbols)
unfolding to_v_list
to_v_list-fits no_proofs symbols lists e = inl (ground (arith, e))
to_v_list-fits (for_all p) symbols lists e = inr (ground (arith, e, length-same_for p symbols))
to_v_list-fits (for_each []) symbols lists e = inl (ground (arith, e))
to_v_list-fits (for_each (p ∷ ps)) symbols lists e =
    elim (Bool-cases (length (p ∷ ps) == length symbols)) [
      | inl same ↦ inr (ground (arith, e, same, length-map item_list (p ∷ ps)))
      | inr other ↦ inl (ground (arith, e, other))
    ]

-- Each symbol has a token, and each token can be loaded.
module _ (world : World) (root : Text) (w : Worker) (keyed : IsKeyed w.committed.locks)
    (address_of : Text → Text) (loaded : Text → Loaded)
    (known : (s : Text)
      → world.erc20.by_name s (address_for default_role w.committed) ≡ ok (address_of s))
    (loads : (a : Text) → world.contract.load (world.enc.add_0x a) ≡ ok (loaded a)) where
  open world use {enc, queue, erc20, contract}

  -- What is told of the tokens of a request.
  pub told : List Text → List (List Text) → List TokenInfo
  told symbols lists =
      infos_with enc contract loaded loads (map (token_for enc queue erc20 address_of) symbols)
        lists

  -- A lookup of tokens, where the proofs asked for are for all of them, for each of them or for none,
  -- tells of each token with the proof of its symbol before those asked for at its place, and submits for
  -- each, in order, the check of its proofs with the callbacks of the request. Nothing else is submitted
  -- or changed.
  pub serve-start_tokens :
      (api : Api) (symbols : List Text) (proofs : Proofs) (lists : List (List Text))
      → to_v_list proofs symbols ≡ ok lists
      → (request : Value × Chain) × (start_tokens api symbols proofs ≡ ok request)
        × (serve world root request w ≡ (
          ok (infos (told symbols lists)),
          record w {
            work = w.committed;
            registered = false;
            submitted =
                w.submitted
                ++ map
                    (check_of api.chain
                      (callback_with 0 api.callback_param)
                      (callback_with 1 api.callback_param))
                    (told symbols lists);
          },
        ))
  unfolding serve start_tokens token_chain run_step told notify
  serve-start_tokens api symbols proofs lists fits =
      let w₁ : Worker = record w { work = w.committed; registered = false } in
      let ts = map (token_for enc queue erc20 address_of) symbols in
      let success = callback_with 0 api.callback_param in
      let error = callback_with 1 api.callback_param in
      let w₂ : Worker = record w₁ {
        submitted = w.submitted ++ map (check_of api.chain success error) (told symbols lists);
      } in
      let sized : (lists ≡ []) ⊎ (length lists ≡ length ts) =
        elim (to_v_list-fits proofs symbols lists fits) [
          | inl e ↦ inl e
          | inr e ↦
              inr (omega (arith, e, length-map (token_for enc queue erc20 address_of) symbols))
        ] in
      let resolved = resolve-all enc queue erc20 address_of symbols w known in
      let found = token_info_lem enc contract loaded loads lists ts w₁ sized in
      let checked = verify_token_info_lem api.chain success error (told symbols lists) w₁ in
      let first_step : run_step world root resolve_tokens_by_symbol (texts symbols) w
          ≡ (ok (tokens ts), w₁) =
        ground (arith, resolved) in
      let second_step : run_step world root (token_info lists) (tokens ts) w₁
          ≡ (ok (infos (told symbols lists)), w₁) =
        ground (arith, found) in
      let third_step : run_step world root (verify_token_info api.chain success error)
            (infos (told symbols lists)) w₁
          ≡ (ok (infos (told symbols lists)), w₂) =
        ground (arith, checked) in
      let n = silent (verify_token_info api.chain success error) in
      let rest = link (silent (token_info lists)) (last n) in
      (
        (texts symbols, link (silent resolve_tokens_by_symbol) rest),
        ground (arith, fits),
        run-link world root w keyed resolve_tokens_by_symbol rest (texts symbols) (tokens ts) w w₁
              first_step
            ∙ run-link world root w keyed (token_info lists) (last n) (tokens ts)
                (infos (told symbols lists)) w₁ w₁ second_step
            ∙ run_node-reports world root w keyed n (infos (told symbols lists))
                (infos (told symbols lists)) w₁ w₂ third_step,
      )
