-- ===== src/Wire/Streams.antt =====
-- Feeding the parser of src/registry/reverse-ws.mjs in one chunk or in several.
use dsh_orbit.Common.{
  ℕ, zero, suc, ◌≤◌, ◌<◌, ◌≡◌, refl, sym, ap, ◌⊎◌, inl, inr, true, false, List, [], ◌∷◌, ◌++◌,
  if◌then◌else◌, length, length-append, arith, Bool-cases,
}
use mathlib.Core.List.{append_assoc, append-nil}
use dsh_orbit.Wire.{Octets}
use dsh_orbit.Wire.Parse.{
  Event, error, Config, Parser, Next, waits, fails, frame, next_frame, accept, Fed, preceded,
  went_on, proceed, run, feed,
}
use dsh_orbit.Wire.Chunks.{NextOn, next_frame-more}

-- The same events; and the same parser with the same buffer, or two that have failed.
pub record IsSame (x y : Fed) : Type 0 where
  pub told : x.events ≡ y.events
  pub left :
      ((x.parser ≡ y.parser) × (x.buffer ≡ y.buffer))
      ⊎ ((x.parser.failed ≡ true) × (y.parser.failed ≡ true))

module _ (c : Config) where
  -- More fuel than bytes is as good as that many.
  proceed-same :
      (p : Parser) (bs : Octets) (f g : Parser → Octets → Fed)
      → ((p' : Parser) (rest : Octets) → length rest < length bs → f p' rest ≡ g p' rest)
      → (x : Next) → NextOn c bs [] x
      → proceed c p bs f x ≡ proceed c p bs g x
  unfolding proceed
  proceed-same p bs f g h waits on = refl
  proceed-same p bs f g h (fails why) on = refl
  proceed-same p bs f g h (frame fin opcode payload rest) (e, less) =
      rw (h (accept c p fin opcode payload).0 rest less) refl

  pub run_enough :
      (f g : ℕ) (p : Parser) (bs : Octets)
      → length bs ≤ f
      → length bs ≤ g
      → run f c p bs ≡ run g c p bs
  unfolding run next_frame proceed
  run_enough zero zero p bs h k = refl
  run_enough zero (suc g) p [] h k = refl
  run_enough zero (suc g) p (b ∷ bs) h k = absurd (omega arith)
  run_enough (suc f) zero p [] h k = refl
  run_enough (suc f) zero p (b ∷ bs) h k = absurd (omega arith)
  run_enough (suc f) (suc g) p bs h k =
      proceed-same p bs (run f c) (run g c)
        (λ p' rest less. run_enough f g p' rest (omega arith) (omega arith)) (next_frame c bs)
        (next_frame-more c bs [])

  abbrev pub then_fed : Octets → Fed → Fed
  then_fed more x = preceded x.events (feed c x.parser x.buffer more)

  same : (x y : Fed) → x ≡ y → IsSame x y
  same x y e = record {
    told = ap (λ z. z.events) e;
    left = inl (ap (λ z. z.parser) e, ap (λ z. z.buffer) e);
  }

  preceded-IsSame :
      (es : List Event) (x y : Fed) → IsSame x y → IsSame (preceded es x) (preceded es y)
  preceded-IsSame es x y s = record { told = ap (λ z. es ++ z) s.told; left = s.left }

  abbrev telling : Fed → List Event → Fed
  telling x es = record x { events = es }

  then_fed-preceded :
      (es : List Event) (more : Octets) (x : Fed)
      → then_fed more (preceded es x) ≡ preceded es (then_fed more x)
  then_fed-preceded es more x =
      ap (telling (feed c x.parser x.buffer more))
        (append_assoc es x.events (feed c x.parser x.buffer more).events)

  feed_failed :
      (p : Parser) (bs more : Octets)
      → p.failed ≡ true
      → feed c p bs more ≡ record { parser = p; buffer = bs; events = [] }
  unfolding feed
  feed_failed p bs more h = rw h refl

  pub feed_going :
      (p : Parser) (bs more : Octets)
      → p.failed ≡ false
      → feed c p bs more ≡ run (length (bs ++ more)) c p (bs ++ more)
  unfolding feed
  feed_going p bs more h = rw h refl

  -- The bytes that follow are no use to a parser that has failed.
  failed-IsSame :
      (p : Parser) (bs rest more : Octets) (es : List Event)
      → p.failed ≡ true
      → IsSame
          (record { parser = p; buffer = bs; events = es })
          (then_fed more (record { parser = p; buffer = rest; events = es }))
  failed-IsSame p bs rest more es h = record {
    told = rw (feed_failed p rest more h) (sym (append-nil es));
    left = rw (feed_failed p rest more h) (inr (h, h));
  }

  pub went_on-failed :
      (p : Parser) (es : List Event) (rest : Octets) (x : Fed)
      → p.failed ≡ true
      → went_on rest (p, es) x ≡ record { parser = p; buffer = rest; events = es }
  went_on-failed p es rest x h =
      ap (λ b. if b then record { parser = p; buffer = rest; events = es } else preceded es x) h

  pub went_on-going :
      (p : Parser) (es : List Event) (rest : Octets) (x : Fed)
      → p.failed ≡ false
      → went_on rest (p, es) x ≡ preceded es x
  went_on-going p es rest x h =
      ap (λ b. if b then record { parser = p; buffer = rest; events = es } else preceded es x) h

  went_on-more :
      (p : Parser) (es : List Event) (rest more : Octets) (x y : Fed)
      → (p.failed ≡ false → IsSame x (then_fed more y))
      → IsSame (went_on (rest ++ more) (p, es) x) (then_fed more (went_on rest (p, es) y))
  went_on-more p es rest more x y h = elim (Bool-cases p.failed) [
    | inl e ↦
        rw (went_on-failed p es (rest ++ more) x e, went_on-failed p es rest y e)
          (failed-IsSame p (rest ++ more) rest more es e)
    | inr e ↦
        rw
          (
            went_on-going p es (rest ++ more) x e,
            went_on-going p es rest y e,
            then_fed-preceded es more y,
          )
          (preceded-IsSame es x (then_fed more y) (h e))
  ]

  waiting-more :
      (g : ℕ) (p : Parser) (bs more : Octets)
      → length (bs ++ more) ≤ g
      → p.failed ≡ false
      → IsSame
          (run g c p (bs ++ more))
          (then_fed more (record { parser = p; buffer = bs; events = [] }))
  waiting-more g p bs more k e =
      rw (feed_going p bs more e, run_enough g (length (bs ++ more)) p (bs ++ more) k (omega arith))
        (same _ _ refl)

  round-more :
      (f g : ℕ) (p : Parser) (bs more : Octets)
      → (IsSame
          (run (suc g) c p (bs ++ more))
          (then_fed more (record { parser = p; buffer = bs; events = [] })))
      → ((q : Parser) (rest : Octets)
          → length rest < length bs
          → q.failed ≡ false
          → IsSame (run g c q (rest ++ more)) (then_fed more (run f c q rest)))
      → (x : Next) → NextOn c bs more x
      → IsSame (run (suc g) c p (bs ++ more)) (then_fed more (proceed c p bs (run f c) x))
  unfolding run proceed
  round-more f g p bs more w ih waits on = w
  round-more f g p bs more w ih (fails why) on =
      rw on (failed-IsSame (record p { failed = true }) (bs ++ more) bs more (error why ∷ []) refl)
  round-more f g p bs more w ih (frame fin opcode payload rest) (on, less) =
      rw on
        (went_on-more q es rest more (run g c q (rest ++ more)) (run f c q rest) (ih q rest less))
    where
      q : Parser
      q = (accept c p fin opcode payload).0

      es : List Event
      es = (accept c p fin opcode payload).1

  run-more :
      (f g : ℕ) (p : Parser) (bs more : Octets)
      → length bs ≤ f
      → length (bs ++ more) ≤ g
      → p.failed ≡ false
      → IsSame (run g c p (bs ++ more)) (then_fed more (run f c p bs))
  unfolding run next_frame proceed
  run-more zero g p [] more h k e = waiting-more g p [] more k e
  run-more zero g p (b ∷ bs) more h k e = absurd (omega arith)
  run-more (suc f) g p [] more h k e = waiting-more g p [] more k e
  run-more (suc f) zero p (b ∷ bs) more h k e = absurd (omega arith)
  run-more (suc f) (suc g) p (b ∷ bs) more h k e =
      round-more f g p (b ∷ bs) more (waiting-more (suc g) p (b ∷ bs) more k e)
        (λ q rest less e'.
          run-more f g q rest more (omega arith)
            (omega (arith, length-append rest more, length-append bs more)) e')
        (next_frame c (b ∷ bs)) (next_frame-more c (b ∷ bs) more)

  -- A parser that has not failed, fed a chunk that is cut in two, tells the same events as when it is fed the
  -- chunk whole, and is left the same with the same bytes waiting, unless it has failed either way.
  pub feed-append :
      (p : Parser) (bs first second : Octets)
      → p.failed ≡ false
      → IsSame (feed c p bs (first ++ second)) (then_fed second (feed c p bs first))
  feed-append p bs first second e =
      rw
        (
          feed_going p bs (first ++ second) e,
          feed_going p bs first e,
          sym (append_assoc bs first second),
        )
        (run-more (length (bs ++ first)) (length ((bs ++ first) ++ second)) p (bs ++ first) second
          (omega arith) (omega arith) e)
