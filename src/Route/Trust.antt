-- ===== src/Route/Trust.antt =====
-- The sets of keys that src/registry/hub-route-keys.mjs accepts.
use dsh_orbit.Common.{
  ℕ, ◌+◌, ◌≤◌, ◌<◌, ◌≡◌, refl, inl, inr, false, Option, none, some, List, [], ◌∷◌, arith, ◌==◌,
  if◌then◌else◌, Bool-cases, length, any, All,
}
use dsh_orbit.Common.Text.{Text, text_eq}
use dsh_orbit.Flows.Scope.{text_eq→eq}
use dsh_orbit.Route.{matches_hex}
use dsh_orbit.Route.Keys.{
  Overlap, no_overlap, until, HubKeyState, provisioned, active, rotating, other, HubKey,
  KeySetError, valid_set, invalid_set, state_check, entry_error, entries_error, checked,
  single_form, pair_form, form_of, validate_hub_route_key_set,
}

abbrev pub is_active : HubKey → ℕ
is_active k = elim k.state [ active ↦ 1 | _ ↦ 0 ]

abbrev pub active_keys : List HubKey → ℕ
active_keys [] = 0
active_keys (k ∷ ks) = is_active k + active_keys ks

is_active_of :
    (k : HubKey) (s : HubKeyState) → k.state ≡ s → is_active k ≡ elim s [ active ↦ 1 | _ ↦ 0 ]
is_active_of k s h = rw h refl

valid_set_lem :
    (f g : ℕ) (ks ls : List HubKey) → valid_set f ks ≡ valid_set g ls → (f ≡ g) × (ks ≡ ls)
valid_set_lem f g ks ls h = (cc, cc)

none_not :
    (form : ℕ) (keys : List HubKey) → invalid_set KeySetError.bad_pair ≡ valid_set form keys → ⊥
none_not form keys h = cc

-- Only a rotating key has an overlap, and it lies in the future.
abbrev pub OverlapFits : ℕ → HubKeyState → Overlap → Type 0
OverlapFits now rotating (until t) = now < t
OverlapFits now provisioned no_overlap = Unit
OverlapFits now active no_overlap = Unit
OverlapFits now _ _ = ⊥

module _ (derive_key_id : Text → Text) where
  pub record IsTrusted (now : ℕ) (k : HubKey) : Type 0 where
    pub derived : derive_key_id k.public_key ≡ k.key_id
    pub overlap : OverlapFits now k.state k.overlap_until

  state_check-none :
      (now : ℕ) (s : HubKeyState) (o : Overlap) → state_check s o now ≡ none → OverlapFits now s o
  state_check-none now provisioned no_overlap h = tt
  state_check-none now active no_overlap h = tt
  state_check-none now rotating (until t) h = ground arith
  state_check-none now _ _ h = cc

  entry_error-none :
      (before : List HubKey) (k : HubKey) (now : ℕ)
      → entry_error derive_key_id before k now ≡ none
      → IsTrusted now k × (any (λ j. text_eq j.key_id k.key_id) before ≡ false)
  unfolding entry_error
  entry_error-none before k now h = elim (Bool-cases (matches_hex 32 k.key_id)) [
    | inr bad ↦ let no : some KeySetError.bad_key_id ≡ none = rw bad at h in cc
    | inl id ↦ elim (Bool-cases (matches_hex 64 k.public_key)) [
      | inr bad ↦ let no : some KeySetError.bad_public_key ≡ none = rw (id, bad) at h in cc
      | inl public ↦ elim (Bool-cases (text_eq (derive_key_id k.public_key) k.key_id)) [
        | inr bad ↦
            let no : some KeySetError.key_id_mismatch ≡ none = rw (id, public, bad) at h in cc
        | inl same ↦ seen_before (text_eq→eq _ _ same) (rw (id, public, same) at h)
      ]
    ]
  ]
    where
      seen_before :
          derive_key_id k.public_key ≡ k.key_id
          → (if any (λ j. text_eq j.key_id k.key_id) before
              then some KeySetError.duplicate_key_id
              else if any (λ j. text_eq j.public_key k.public_key) before
              then some KeySetError.duplicate_public_key
              else state_check k.state k.overlap_until now)
            ≡ none
          → IsTrusted now k × (any (λ j. text_eq j.key_id k.key_id) before ≡ false)
      seen_before derived p = elim (Bool-cases (any (λ j. text_eq j.key_id k.key_id) before)) [
        | inl bad ↦ let no : some KeySetError.duplicate_key_id ≡ none = rw bad at p in cc
        | inr new ↦ elim (Bool-cases (any (λ j. text_eq j.public_key k.public_key) before)) [
          | inl bad ↦
              let no : some KeySetError.duplicate_public_key ≡ none = rw (new, bad) at p in cc
          | inr fresh ↦ (
            record {
              derived = derived;
              overlap = state_check-none now k.state k.overlap_until (rw (new, fresh) at p);
            },
            new,
          )
        ]
      ]

  -- Each entry is trusted, and their ids are distinct.
  abbrev pub Distinct : List HubKey → Type 0
  Distinct [] = Unit
  Distinct (k ∷ ks) = (any (λ j. text_eq k.key_id j.key_id) ks ≡ false) × Distinct ks

  pub record IsTrustSet (now form : ℕ) (keys : List HubKey) : Type 0 where
    pub trusted : All (IsTrusted now) keys
    pub distinct : Distinct keys
    pub few : (1 ≤ length keys) × (length keys ≤ 2)
    pub one_active : active_keys keys ≡ (if form == 1 then 0 else 1)

  no_error :
      (e rest : Option KeySetError)
      → elim e [ some e' ↦ some e' | none ↦ rest ] ≡ none
      → (e ≡ none) × (rest ≡ none)
  no_error none rest h = (refl, h)
  no_error (some e) rest h = cc

  one_error :
      (k : HubKey) (now : ℕ)
      → entries_error derive_key_id [] (some k ∷ []) now ≡ none
      → IsTrusted now k
  unfolding entries_error
  one_error k now h =
      (entry_error-none [] k now (no_error (entry_error derive_key_id [] k now) none h).0).0

  two_errors :
      (j k : HubKey) (now : ℕ)
      → entries_error derive_key_id [] (some j ∷ some k ∷ []) now ≡ none
      → IsTrusted now j × IsTrusted now k × (text_eq j.key_id k.key_id ≡ false)
  unfolding entries_error
  two_errors j k now h =
      let (fine, rest) = no_error (entry_error derive_key_id [] j now) _ h in
      let (trusted, new) =
        entry_error-none (j ∷ []) k now
          (no_error (entry_error derive_key_id (j ∷ []) k now) none rest).0 in
      ((entry_error-none [] j now fine).0, trusted, ground arith)

  single_form-IsTrustSet :
      (k : HubKey) (s : HubKeyState) (now form : ℕ) (keys : List HubKey)
      → k.state ≡ s
      → IsTrusted now k
      → single_form k s ≡ valid_set form keys
      → IsTrustSet now form keys
  single_form-IsTrustSet k provisioned now form keys e t h =
      let (same, all) = valid_set_lem 1 form (k ∷ []) keys h in
      rw (← same, ← all)
        (record {
          trusted = (t, tt);
          distinct = (refl, tt);
          few = (omega arith, omega arith);
          one_active = omega (arith, is_active_of k provisioned e);
        })
  single_form-IsTrustSet k active now form keys e t h =
      let (same, all) = valid_set_lem 2 form (k ∷ []) keys h in
      rw (← same, ← all)
        (record {
          trusted = (t, tt);
          distinct = (refl, tt);
          few = (omega arith, omega arith);
          one_active = omega (arith, is_active_of k active e);
        })
  single_form-IsTrustSet k rotating now form keys e t h = cc
  single_form-IsTrustSet k other now form keys e t h = cc

  two-IsTrustSet :
      (j k : HubKey) (now f form : ℕ) (keys : List HubKey)
      → IsTrusted now j × IsTrusted now k × (text_eq j.key_id k.key_id ≡ false)
      → active_keys (j ∷ k ∷ []) ≡ (if f == 1 then 0 else 1)
      → valid_set f (j ∷ k ∷ []) ≡ valid_set form keys
      → IsTrustSet now form keys
  two-IsTrustSet j k now f form keys (t, u, apart) one h =
      let (same, all) = valid_set_lem f form (j ∷ k ∷ []) keys h in
      rw (← same, ← all)
        (record {
          trusted = (t, (u, tt));
          distinct = (ground arith, (refl, tt));
          few = (omega arith, omega arith);
          one_active = one;
        })

  pair_form-IsTrustSet :
      (j k : HubKey) (s u : HubKeyState) (now form : ℕ) (keys : List HubKey)
      → j.state ≡ s
      → k.state ≡ u
      → IsTrusted now j × IsTrusted now k × (text_eq j.key_id k.key_id ≡ false)
      → pair_form j k s u ≡ valid_set form keys
      → IsTrustSet now form keys
  pair_form-IsTrustSet j k active provisioned now form keys a b t h =
      two-IsTrustSet j k now 3 form keys t
        (omega (arith, is_active_of j active a, is_active_of k provisioned b)) h
  pair_form-IsTrustSet j k provisioned active now form keys a b t h =
      two-IsTrustSet j k now 3 form keys t
        (omega (arith, is_active_of j provisioned a, is_active_of k active b)) h
  pair_form-IsTrustSet j k active rotating now form keys a b t h =
      two-IsTrustSet j k now 4 form keys t
        (omega (arith, is_active_of j active a, is_active_of k rotating b)) h
  pair_form-IsTrustSet j k rotating active now form keys a b t h =
      two-IsTrustSet j k now 4 form keys t
        (omega (arith, is_active_of j rotating a, is_active_of k active b)) h
  pair_form-IsTrustSet j k _ _ now form keys a b t h = cc

  checked_lem :
      (ks : List (Option HubKey)) (e : Option KeySetError) (form : ℕ) (keys : List HubKey)
      → checked derive_key_id ks e ≡ valid_set form keys
      → (e ≡ none) × (form_of ks ≡ valid_set form keys)
  checked_lem ks none form keys h = (refl, h)
  checked_lem ks (some e) form keys h = cc

  -- A set of keys that is accepted has one or two keys with distinct ids, each derived from its key; one
  -- key is active, unless it is the single provisioned key of form 1; and only a rotating key has an
  -- overlap, which lies in the future.
  pub validate_hub_route_key_set-IsTrustSet :
      (ks : Option (List (Option HubKey))) (now form : ℕ) (keys : List HubKey)
      → validate_hub_route_key_set derive_key_id ks now ≡ valid_set form keys
      → IsTrustSet now form keys
  unfolding validate_hub_route_key_set form_of entries_error
  validate_hub_route_key_set-IsTrustSet none now form keys h = cc
  validate_hub_route_key_set-IsTrustSet (some []) now form keys h = cc
  validate_hub_route_key_set-IsTrustSet (some (i ∷ j ∷ k ∷ ks)) now form keys h = ground arith
  validate_hub_route_key_set-IsTrustSet (some (none ∷ [])) now form keys h = cc
  validate_hub_route_key_set-IsTrustSet (some (none ∷ k ∷ [])) now form keys h = cc
  validate_hub_route_key_set-IsTrustSet (some (some j ∷ none ∷ [])) now form keys h = absurd (
      none_not form keys
        (checked_lem (some j ∷ none ∷ []) (entries_error derive_key_id [] (some j ∷ none ∷ []) now)
          form keys h).1)
  validate_hub_route_key_set-IsTrustSet (some (some k ∷ [])) now form keys h =
      let (fine, form_is) =
        checked_lem (some k ∷ []) (entries_error derive_key_id [] (some k ∷ []) now) form keys h in
      single_form-IsTrustSet k k.state now form keys refl (one_error k now fine) form_is
  validate_hub_route_key_set-IsTrustSet (some (some j ∷ some k ∷ [])) now form keys h =
      let (fine, form_is) =
        checked_lem (some j ∷ some k ∷ [])
          (entries_error derive_key_id [] (some j ∷ some k ∷ []) now) form keys h in
      pair_form-IsTrustSet j k j.state k.state now form keys refl refl (two_errors j k now fine)
        form_is
