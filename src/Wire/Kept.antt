-- ===== src/Wire/Kept.antt =====
-- The bytes that a parser of src/registry/reverse-ws.mjs keeps and hands on.
use dsh_orbit.Common.{
  ◌==◌, if◌then◌else◌, ℕ, zero, suc, ◌+◌, ◌≤◌, ◌<◌, ◌≡◌, refl, ◌⊎◌, inl, inr, Bool, true, false,
  not, ◌||◌, Option, none, some, List, [], ◌∷◌, ◌++◌, ltb, leb, ◌==◌, length, length-append, arith,
  Bool-cases,
}
use dsh_orbit.Wire.{Octets}
use dsh_orbit.Wire.Utf8.{length-to_string}
use dsh_orbit.Wire.Bounds.{NextBound, next_frame-bound}
use dsh_orbit.Wire.Chunks.{next_frame-more, NextOn}
use dsh_orbit.Wire.Streams.{feed_going, went_on-failed, went_on-going}
use dsh_orbit.Wire.Parse.{
  Failure, fragments_exceed_cap, no_initial_fragment, new_frame_in_fragments, invalid_control_frame,
  Event, text_message, binary_message, ping, pong, close, error, Config, Parser, fresh, Next, waits,
  fails, frame, next_frame, concat, close_code, continued, continuation, data_frame, accept, fail,
  handle_data, Fed, preceded, went_on, proceed, run, feed,
}

length-concat :
    (xs : List Octets) (x : Octets) → length (concat (xs ++ x ∷ [])) ≡ length (concat xs) + length x
unfolding concat
length-concat [] x = omega (arith, length-append x [])
length-concat (y ∷ xs) x = omega (
  arith,
  length-concat xs x,
  length-append y (concat xs),
  length-append y (concat (xs ++ x ∷ [])),
)

-- The count of the fragments' bytes is right, and within the cap.
pub record IsCounted (c : Config) (p : Parser) : Type 0 where
  pub counted : length (concat p.fragments) ≡ p.fragment_bytes
  pub within : p.fragment_bytes ≤ c.max_message_bytes

-- A payload that is handed on is within the cap: a text by its code units, another by its bytes.
abbrev pub Fits : Config → Event → Type 0
Fits c (text_message units) = length units ≤ c.max_message_bytes
Fits c (binary_message bytes) = length bytes ≤ c.max_message_bytes
Fits c (ping bytes) = length bytes ≤ c.max_message_bytes
Fits c (pong bytes) = length bytes ≤ c.max_message_bytes
Fits c (close code) = Unit
Fits c (error why) = Unit

abbrev pub AllFit : Config → List Event → Type 0
AllFit c [] = Unit
AllFit c (e ∷ es) = Fits c e × AllFit c es

AllFit-append : (c : Config) (es fs : List Event) → AllFit c es → AllFit c fs → AllFit c (es ++ fs)
AllFit-append c [] fs h k = k
AllFit-append c (e ∷ es) fs (h, hs) k = (h, AllFit-append c es fs hs k)

other_AllFit :
    (c : Config) (opcode : ℕ) (payload : Octets)
    → length payload ≤ c.max_message_bytes
    → AllFit c (
        if opcode == 2
        then binary_message payload ∷ []
        else if opcode == 8
        then close (close_code payload) ∷ []
        else if opcode == 9
        then ping payload ∷ []
        else if opcode == 10
        then pong payload ∷ []
        else [])
other_AllFit c opcode payload h = ground arith

handle_data-AllFit :
    (c : Config) (opcode : ℕ) (payload : Octets)
    → length payload ≤ c.max_message_bytes
    → AllFit c (handle_data opcode payload)
unfolding handle_data
handle_data-AllFit c opcode payload h = elim (Bool-cases (opcode == 1)) [
  | inl e ↦ rw e (omega (arith, length-to_string payload), tt)
  | inr e ↦ rw e (other_AllFit c opcode payload h)
]

abbrev Kept : Config → Parser × List Event → Type 0
Kept c (p, es) = (p.failed ≡ false → IsCounted c p) × AllFit c es

fail-Kept : (c : Config) (p : Parser) (why : Failure) → Kept c (fail p why)
fail-Kept c p why = (λ e. absurd (ground arith), (tt, tt))

module _ (c : Config) (p : Parser) (h : IsCounted c p) (payload : Octets)
    (k : length payload ≤ c.max_message_bytes) where
  fresh-IsCounted : IsCounted c fresh
  unfolding concat
  fresh-IsCounted = record { counted = refl; within = omega arith }

  more_fragments :
      (bytes : ℕ)
      → bytes ≡ p.fragment_bytes + length payload
      → ltb c.max_message_bytes bytes ≡ false
      → IsCounted c (record p { fragments = p.fragments ++ payload ∷ []; fragment_bytes = bytes })
  more_fragments bytes e d = record {
    counted = omega (arith, length-concat p.fragments payload, h.counted);
    within = ground arith;
  }

  within_cap : {n : ℕ} → ltb c.max_message_bytes n ≡ false → n ≤ c.max_message_bytes
  within_cap e = ground arith

  continued-Kept : (fin : Bool) (opcode : ℕ) → Kept c (continued c p fin payload opcode)
  continued-Kept fin opcode =
      elim (Bool-cases (ltb c.max_message_bytes (p.fragment_bytes + length payload))) [
        | inl e ↦ rw e (
            fail-Kept c
              (record p {
                fragments = p.fragments ++ payload ∷ [];
                fragment_bytes = p.fragment_bytes + length payload;
              })
              fragments_exceed_cap)
        | inr e ↦ rw e (elim (Bool-cases fin) [
          | inl f ↦ rw f (
            λ d. fresh-IsCounted,
            handle_data-AllFit c opcode (concat (p.fragments ++ payload ∷ []))
                (omega (arith, length-concat p.fragments payload, h.counted, within_cap e)),
          )
          | inr f ↦ rw f (λ d. more_fragments (p.fragment_bytes + length payload) refl e, tt)
        ])
      ]

  continuation-Kept : (fin : Bool) (o : Option ℕ) → Kept c (continuation c p fin payload o)
  continuation-Kept fin none = fail-Kept c p no_initial_fragment
  continuation-Kept fin (some opcode) = continued-Kept fin opcode

  data_frame-Kept :
      (fin : Bool) (opcode : ℕ) (o : Option ℕ) → Kept c (data_frame p fin opcode payload o)
  unfolding concat
  data_frame-Kept fin opcode (some o) = fail-Kept c p new_frame_in_fragments
  data_frame-Kept true opcode none = (λ d. h, handle_data-AllFit c opcode payload k)
  data_frame-Kept false opcode none = (λ d. first, tt)
    where
      single : length (concat (payload ∷ [])) ≡ length payload
      single = omega (arith, length-append payload [])

      first : IsCounted c (record p {
        fragment_opcode = some opcode;
        fragments = payload ∷ [];
        fragment_bytes = length payload;
      })
      first = record { counted = single; within = k }

  accept-Kept : (fin : Bool) (opcode : ℕ) → Kept c (accept c p fin opcode payload)
  unfolding accept
  accept-Kept fin opcode = elim (Bool-cases (leb 8 opcode)) [
    | inl e ↦ rw e (elim (Bool-cases (not fin || ltb 125 (length payload))) [
      | inl f ↦ rw f (fail-Kept c p invalid_control_frame)
      | inr f ↦ rw f (λ d. h, handle_data-AllFit c opcode payload k)
    ])
    | inr e ↦ rw e (elim (Bool-cases (opcode == 0)) [
      | inl f ↦ rw f (continuation-Kept fin p.fragment_opcode)
      | inr f ↦ rw f (data_frame-Kept fin opcode p.fragment_opcode)
    ])
  ]

-- A parser that has not failed counts its fragments right and keeps fewer bytes than the cap and 14.
pub record IsBounded (c : Config) (x : Fed) : Type 0 where
  pub kept :
      (x.parser.failed ≡ true)
      ⊎ (IsCounted c x.parser × (length x.buffer < 14 + c.max_message_bytes))
  pub handed : AllFit c x.events

IsBounded-preceded :
    (c : Config) (es : List Event) (x : Fed)
    → AllFit c es
    → IsBounded c x
    → IsBounded c (preceded es x)
IsBounded-preceded c es x h b = record {
  kept = b.kept;
  handed = AllFit-append c es x.events h b.handed;
}

went_on-IsBounded :
    (c : Config) (rest : Octets) (p : Parser) (es : List Event) (x : Fed)
    → Kept c (p, es)
    → (IsCounted c p → IsBounded c x)
    → IsBounded c (went_on rest (p, es) x)
went_on-IsBounded c rest p es x (h, fit) later = elim (Bool-cases p.failed) [
  | inl e ↦ rw (went_on-failed c p es rest x e) (record { kept = inl e; handed = fit })
  | inr e ↦ rw (went_on-going c p es rest x e) (IsBounded-preceded c es x fit (later (h e)))
]

proceed-IsBounded :
    (c : Config) (p : Parser) (bs : Octets) (later : Parser → Octets → Fed) (x : Next)
    → IsCounted c p
    → NextBound c.max_message_bytes bs x
    → NextOn c bs [] x
    → ((q : Parser) (rest : Octets)
        → length rest < length bs
        → IsCounted c q
        → IsBounded c (later q rest))
    → IsBounded c (proceed c p bs later x)
unfolding proceed
proceed-IsBounded c p bs later waits h b on ih = record { kept = inr (h, b); handed = tt }
proceed-IsBounded c p bs later (fails why) h b on ih = record { kept = inl refl; handed = (tt, tt) }
proceed-IsBounded c p bs later (frame fin opcode payload rest) h b (e, less) ih =
    went_on-IsBounded c rest (accept c p fin opcode payload).0 (accept c p fin opcode payload).1
      (later (accept c p fin opcode payload).0 rest) (accept-Kept c p h payload b fin opcode)
      (ih (accept c p fin opcode payload).0 rest less)

run-IsBounded :
    (f : ℕ) (c : Config) (p : Parser) (bs : Octets)
    → length bs ≤ f
    → IsCounted c p
    → IsBounded c (run f c p bs)
unfolding run
run-IsBounded zero c p bs k h = record { kept = inr (h, omega arith); handed = tt }
run-IsBounded (suc f) c p bs k h =
    proceed-IsBounded c p bs (run f c) (next_frame c bs) h (next_frame-bound c bs)
      (next_frame-more c bs []) (λ q rest less h'. run-IsBounded f c q rest (omega arith) h')

-- A parser that counts its fragments right and has not failed, fed any chunk, has failed or keeps fewer bytes
-- than the cap and 14 in its buffer and fragments of no more bytes than the cap, counted right; and every
-- payload that it hands on is within the cap, a text by its code units.
pub feed-IsBounded :
    (c : Config) (p : Parser) (bs chunk : Octets)
    → p.failed ≡ false
    → IsCounted c p
    → IsBounded c (feed c p bs chunk)
feed-IsBounded c p bs chunk e h =
    rw (feed_going c p bs chunk e)
      (run-IsBounded (length (bs ++ chunk)) c p (bs ++ chunk) (omega arith) h)
