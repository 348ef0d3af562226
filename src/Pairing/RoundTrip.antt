-- ===== src/Pairing/RoundTrip.antt =====
-- What can be reached from a new engine of src/registry/pairing-code.mjs, and that a code that was
-- made is accepted.
use dsh_orbit.Common.{
  ℕ, ◌+◌, ◌≤◌, ◌<◌, ◌≡◌, refl, ap, ◌⊎◌, inl, inr, Option, none, some, [], ◌∷◌, arith, length,
  Option-cases,
}
use dsh_orbit.Common.Text.{Text, Text-discrete, trim}
use dsh_orbit.Common.JsMap.{get, get-put}
use dsh_orbit.Pairing.{
  Engine, PairingRecord, Draw, Url, Generated, generated, valid, check_ip_lockout, verify_code,
  look_up, redeem, find_record, or_operator, new_record, store_code, generate_code, create,
}
use dsh_orbit.Pairing.Shrinks.{Inv, IsDraw, Shrinks-Inv}
use dsh_orbit.Pairing.SingleUse.{step-Shrinks, Call, step}

store_code-Inv :
    (e : Engine) (draw : Draw) (principal : Text) (now : ℕ)
    → Inv e
    → IsDraw draw
    → Inv (store_code e draw principal now)
unfolding store_code
store_code-Inv e draw principal now v d = record {
  codes_linked = λ k r h. ground (
    arith,
    get-put Text-discrete draw.code k (new_record e draw principal now) e.codes,
    v.codes_linked k r,
  );
  tokens_linked = λ k r h. ground (
    arith,
    get-put Text-discrete draw.pairing_token k (new_record e draw principal now) e.tokens,
    v.tokens_linked k r,
  );
}

create-Inv : (ttl attempts lock : ℕ) → Inv (create ttl attempts lock)
unfolding create get
create-Inv ttl attempts lock = record { codes_linked = λ k r h. cc; tokens_linked = λ k r h. cc }

-- Every engine that the constructor and any sequence of calls make.
pub data Reachable : Engine → Type 0 where
  created : (ttl attempts lock : ℕ) → Reachable (create ttl attempts lock)
  stored :
      {e : Engine} (draw : Draw) (principal : Text) (now : ℕ)
      → Reachable e
      → IsDraw draw
      → Reachable (store_code e draw principal now)
  called : {e : Engine} (c : Call) → Reachable e → Reachable (step e c)

-- In every engine that the calls of the class can make from a new one, the records stand under their
-- own codes and tokens, provided that each code drawn has 6 characters and each token 48.
pub Reachable-Inv : (e : Engine) → Reachable e → Inv e
Reachable-Inv _ (created ttl attempts lock) = create-Inv ttl attempts lock
Reachable-Inv _ (stored {e} draw principal now r d) =
    store_code-Inv e draw principal now (Reachable-Inv e r) d
Reachable-Inv _ (called {e} c r) = Shrinks-Inv e (step e c) (step-Shrinks e c) (Reachable-Inv e r)

find_record-store_code :
    (e : Engine) (draw : Draw) (principal : Text) (now : ℕ) (j : Text)
    → Inv e
    → IsDraw draw
    → (j ≡ draw.code) ⊎ (j ≡ draw.pairing_token)
    → find_record (store_code e draw principal now) j ≡ some (new_record e draw principal now)
unfolding find_record store_code
find_record-store_code e draw principal now j v d which =
    let new = new_record e draw principal now in
    let in_codes = get-put Text-discrete draw.code j new e.codes in
    let in_tokens = get-put Text-discrete draw.pairing_token j new e.tokens in
    elim which [
      | inl is_code ↦ ground (arith, in_codes)
      | inr is_token ↦ elim (Option-cases (get Text-discrete j e.codes)) [
        | inl missing ↦ ground (arith, in_codes, in_tokens)
        | inr (r, found) ↦
            let (own, short, long) = v.codes_linked j r found in
            let same = ap length is_token in absurd (omega arith)
      ]
    ]

look_up_found :
    (e : Engine) (j ip : Text) (now : ℕ) (r : PairingRecord)
    → find_record e j ≡ some r
    → 0 < length j
    → now ≤ r.expires_at
    → (look_up e j ip now).1 ≡ valid r.operator_principal
unfolding look_up redeem
look_up_found e [] ip now r found some_ soon = absurd (omega arith)
look_up_found e (x ∷ j) ip now r found some_ soon = rw (found, look_up) (ground arith)

verify_code_fresh :
    (e : Engine) (k ip : Text) (now : ℕ)
    → get Text-discrete ip e.ip_attempts ≡ none
    → verify_code e k ip now ≡ look_up e (trim k) ip now
unfolding verify_code check_ip_lockout
verify_code_fresh e k [] now h = refl
verify_code_fresh e k (c ∷ ip) now h = rw (h, check_ip_lockout)

module _ (auth_url : Text → Text → Option Url) where
  generate_code_lem :
      (e f : Engine) (base : Option Text) (principal : Text) (draw : Draw) (now : ℕ) (g : Generated)
      → generate_code auth_url e base principal draw now ≡ generated f g
      → (f ≡ store_code e draw principal now)
        × (g.code ≡ draw.code)
        × (g.pairing_token ≡ draw.pairing_token)
  unfolding generate_code
  generate_code_lem e f none principal draw now g made = cc
  generate_code_lem e f (some []) principal draw now g made = cc
  generate_code_lem e f (some (c ∷ b)) principal draw now g made = ground arith

  -- A code that `generateCode` has made is accepted, by the code or by its token, at any time up to
  -- `ttlMs` later and before any other call, from an address with no entry, with the principal that
  -- it was made for. The code drawn has 6 characters and the token 48.
  pub verify_code-generate_code :
      (e f : Engine) (base : Option Text) (principal ip k : Text) (draw : Draw) (now later : ℕ)
      (g : Generated)
      → Inv e
      → IsDraw draw
      → generate_code auth_url e base principal draw now ≡ generated f g
      → (trim k ≡ g.code) ⊎ (trim k ≡ g.pairing_token)
      → get Text-discrete ip f.ip_attempts ≡ none
      → later ≤ now + e.ttl_ms
      → (verify_code f k ip later).1 ≡ valid (or_operator principal)
  unfolding new_record
  verify_code-generate_code e f base principal ip k draw now later g v d made which fresh soon =
      let (state, code, token) = generate_code_lem e f base principal draw now g made in
      let new = new_record e draw principal now in
      let which' : (trim k ≡ draw.code) ⊎ (trim k ≡ draw.pairing_token) = ground arith in
      let found = find_record-store_code e draw principal now (trim k) v d which' in
      let size : 0 < length (trim k) = elim which' [
        | inl c ↦ let s = ap length c in omega arith
        | inr t ↦ let s = ap length t in omega arith
      ] in
      rw (verify_code_fresh f k ip later fresh)
        (look_up_found f (trim k) ip later new (rw state found) size soon)
