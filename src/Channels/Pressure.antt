-- ===== src/Channels/Pressure.antt =====
-- The back-pressure (D7) of flows of WebSockets in src/registry/reverse-channel.mjs: `checkD7` looks at the
-- bytes that are queued in a direction and pauses or resumes the source, or aborts the flow.
use dsh_orbit.Common.{
  ℕ, ◌+◌, ◌-◌, ◌≤◌, ◌<◌, ◌≡◌, refl, ap, Bool, true, false, not, ◌&&◌, Option, none, some, List, [],
  ◌∷◌, ◌++◌, ltb, leb, if◌then◌else◌, Bool-cases, inl, inr, arith, le→ltb,
}
use dsh_orbit.Common.Text.{Text, text}
use dsh_orbit.Channels.{Limits}
use dsh_orbit.Channels.Body.{Effect, pause, resume}

-- A direction. What it reads of sockets, the bytes that are queued, is an argument.
pub record Direction : Type 0 where
  pub paused : Bool
  pub last_queued_bytes : ℕ
  pub last_progress_at : ℕ

abbrev pub track : ℕ → ℕ → Direction
track now queued = record { paused = false; last_queued_bytes = queued; last_progress_at = now }

pub data Checked : Type 0 where
  aborts : Text → Checked
  goes_on : Direction → List Effect → Checked

abbrev pub progressed : ℕ → ℕ → Direction → Direction
progressed now queued d =
    if ltb queued d.last_queued_bytes then record d { last_progress_at = now } else d

abbrev pub seen : ℕ → Direction → Direction
seen queued d = record d { last_queued_bytes = queued }

abbrev pub above_mark : Limits → ℕ → ℕ → Direction → Checked
above_mark l now queued d =
    if not d.paused
    then goes_on (seen queued (record d { paused = true; last_progress_at = now })) (pause ∷ [])
    else if leb l.stall_timeout_ms (now - d.last_progress_at)
    then aborts (text "flow-stall")
    else goes_on (seen queued d) []

abbrev pub below_mark : Limits → ℕ → ℕ → Direction → Checked
below_mark l now queued d =
    if d.paused && ltb queued l.resume_below_bytes
    then goes_on (seen queued (record d { paused = false; last_progress_at = now })) (resume ∷ [])
    else goes_on (seen queued d) []

-- `checkD7` for a direction
unfoldable pub check : Limits → ℕ → ℕ → Direction → Checked
check l now queued d =
    if ltb l.hard_cap_bytes queued
    then aborts (text "flow-overrun")
    else if leb l.soft_mark_bytes queued
    then above_mark l now queued (progressed now queued d)
    else below_mark l now queued (progressed now queued d)

-- A time and the bytes that are queued then.
abbrev pub Sample : Type 0
Sample = ℕ × ℕ

abbrev pub after_check : Checked → (Direction → Option Text) → Option Text
after_check (aborts code) next = some code
after_check (goes_on d es) next = next d

-- The checks of the timer, one after another: the code with which they abort the flow, if they do.
unfoldable pub abort_code : Limits → List Sample → Direction → Option Text
unfolding check
abort_code l [] d = none
abort_code l ((now, queued) ∷ samples) d = after_check (check l now queued d) (abort_code l samples)

-- The queue stays at the soft mark or above it, and never shrinks.
abbrev pub NeverShrinks : Limits → ℕ → List Sample → Type 0
NeverShrinks l last [] = Unit
NeverShrinks l last ((now, queued) ∷ samples) =
    (l.soft_mark_bytes ≤ queued) × (last ≤ queued) × NeverShrinks l queued samples

abbrev pub Aborts : Option Text → Type 0
Aborts o = (code : Text) × (o ≡ some code)

-- A check of a paused direction whose queue is at the soft mark or above it and has not shrunk.
check-stuck :
    (l : Limits) (now queued : ℕ) (d : Direction)
    → d.paused ≡ true
    → l.soft_mark_bytes ≤ queued
    → d.last_queued_bytes ≤ queued
    → ltb l.hard_cap_bytes queued ≡ false
    → check l now queued d ≡ (
        if leb l.stall_timeout_ms (now - d.last_progress_at)
        then aborts (text "flow-stall")
        else goes_on (seen queued d) [])
unfolding check
check-stuck l now queued d p soft grows fits =
    rw (fits, marked, le→ltb queued d.last_queued_bytes grows)
      (ap
        (λ b.
          if not b
          then goes_on (seen queued (record d { paused = true; last_progress_at = now }))
              (pause ∷ [])
          else if leb l.stall_timeout_ms (now - d.last_progress_at)
          then aborts (text "flow-stall")
          else goes_on (seen queued d) [])
        p)
  where
    marked : leb l.soft_mark_bytes queued ≡ true
    marked = ground arith

check-overrun :
    (l : Limits) (now queued : ℕ) (d : Direction)
    → ltb l.hard_cap_bytes queued ≡ true
    → check l now queued d ≡ aborts (text "flow-overrun")
unfolding check
check-overrun l now queued d e = rw e refl

after-stuck :
    (l : Limits) (now queued : ℕ) (d : Direction) (next : Direction → Option Text)
    → d.paused ≡ true
    → l.soft_mark_bytes ≤ queued
    → d.last_queued_bytes ≤ queued
    → (leb l.stall_timeout_ms (now - d.last_progress_at) ≡ false → Aborts (next (seen queued d)))
    → Aborts (after_check (check l now queued d) next)
after-stuck l now queued d next p soft grows later =
    elim (Bool-cases (ltb l.hard_cap_bytes queued)) [
      | inl over ↦ rw (check-overrun l now queued d over) (text "flow-overrun", refl)
      | inr fits ↦
          rw (check-stuck l now queued d p soft grows fits)
            (elim (Bool-cases (leb l.stall_timeout_ms (now - d.last_progress_at))) [
              | inl stalls ↦ rw stalls (text "flow-stall", refl)
              | inr not_yet ↦ rw not_yet (later not_yet)
            ])
    ]

-- A direction that is paused, and whose queue stays at the soft mark or above it and never shrinks, is aborted
-- by a check that comes the stall timeout or more after the last progress, or by one before it.
pub stall-Aborts :
    (l : Limits) (d : Direction) (samples : List Sample) (now queued : ℕ)
    → d.paused ≡ true
    → NeverShrinks l d.last_queued_bytes (samples ++ (now, queued) ∷ [])
    → d.last_progress_at + l.stall_timeout_ms ≤ now
    → Aborts (abort_code l (samples ++ (now, queued) ∷ []) d)
unfolding abort_code
stall-Aborts l d [] now queued p (soft, grows, end) late =
    after-stuck l now queued d (abort_code l []) p soft grows (λ not_yet. absurd (ground arith))
stall-Aborts l d ((t, q) ∷ samples) now queued p (soft, grows, more) late =
    after-stuck l t q d (abort_code l (samples ++ (now, queued) ∷ [])) p soft grows
      (λ not_yet. stall-Aborts l (seen q d) samples now queued p more late)

-- Whether the source stands paused once the effects of a check have been carried out.
abbrev pub source_after : Bool → List Effect → Bool
source_after paused [] = paused
source_after paused (pause ∷ es) = source_after true es
source_after paused (resume ∷ es) = source_after false es
source_after paused (_ ∷ es) = source_after paused es

-- `source` says whether the source stands paused, `after` is what the direction notes of it.
pub record IsGoverned (l : Limits) (queued : ℕ) (before source : Bool) (after : Direction)
    : Type 0 where
  pub within : queued ≤ l.hard_cap_bytes
  pub pauses : l.soft_mark_bytes ≤ queued → source ≡ true
  pub resumes : queued < l.resume_below_bytes → source ≡ false
  pub keeps : l.resume_below_bytes ≤ queued → queued < l.soft_mark_bytes → source ≡ before
  pub noted : after.paused ≡ source

abbrev pub Governs : Limits → ℕ → Bool → Checked → Type 0
Governs l queued before (aborts code) = Unit
Governs l queued before (goes_on after es) =
    IsGoverned l queued before (source_after before es) after

Governs-if :
    (l : Limits) (queued : ℕ) (before b : Bool) (x y : Checked)
    → (b ≡ true → Governs l queued before x)
    → (b ≡ false → Governs l queued before y)
    → Governs l queued before (if b then x else y)
Governs-if l queued before true x y then_governs else_governs = then_governs refl
Governs-if l queued before false x y then_governs else_governs = else_governs refl

progressed-paused : (now queued : ℕ) (d : Direction) → (progressed now queued d).paused ≡ d.paused
progressed-paused now queued d = elim (Bool-cases (ltb queued d.last_queued_bytes)) [
  | inl e ↦ rw e refl
  | inr e ↦ rw e refl
]

module _ (l : Limits) (marks : l.resume_below_bytes ≤ l.soft_mark_bytes) (now queued : ℕ)
    (before : Bool) (e : Direction) (same : e.paused ≡ before)
    (fits : queued ≤ l.hard_cap_bytes) where
  above_mark-Governs :
      l.soft_mark_bytes ≤ queued → Governs l queued before (above_mark l now queued e)
  above_mark-Governs soft =
      Governs-if l queued before (not e.paused) _ _
        (λ k. record {
          within = fits;
          pauses = λ h. refl;
          resumes = λ h. absurd (omega arith);
          keeps = λ h h'. absurd (omega arith);
          noted = refl;
        })
        (λ k.
          Governs-if l queued before (leb l.stall_timeout_ms (now - e.last_progress_at)) _ _
            (λ h. tt)
            (λ h. record {
              within = fits;
              pauses = λ h'. ground arith;
              resumes = λ h'. absurd (omega arith);
              keeps = λ h' h''. refl;
              noted = same;
            }))

  below_mark-Governs :
      queued < l.soft_mark_bytes → Governs l queued before (below_mark l now queued e)
  below_mark-Governs below =
      Governs-if l queued before (e.paused && ltb queued l.resume_below_bytes) _ _
        (λ k. record {
          within = fits;
          pauses = λ h. absurd (omega arith);
          resumes = λ h. refl;
          keeps = λ h h'. absurd (ground arith);
          noted = refl;
        })
        (λ k. record {
          within = fits;
          pauses = λ h. absurd (omega arith);
          resumes = λ h. ground arith;
          keeps = λ h h'. refl;
          noted = same;
        })

-- Where the mark to resume is not above the soft mark, a check that lets the flow go on leaves the source
-- paused, by the effects that it carries out on it, if the queue is at the soft mark or above it, running if it
-- is below the mark to resume, and as it was in between, if the source stood as the direction notes it before;
-- then the direction notes how the source stands, and the queue is within the hard cap.
pub check-Governs :
    (l : Limits) (now queued : ℕ) (d : Direction)
    → l.resume_below_bytes ≤ l.soft_mark_bytes
    → Governs l queued d.paused (check l now queued d)
unfolding check
check-Governs l now queued d marks =
    Governs-if l queued d.paused (ltb l.hard_cap_bytes queued) _ _ (λ over. tt)
      (λ fits.
        Governs-if l queued d.paused (leb l.soft_mark_bytes queued) _ _
          (λ soft.
            above_mark-Governs l marks now queued d.paused (progressed now queued d)
              (progressed-paused now queued d) (ground arith) (ground arith))
          (λ below.
            below_mark-Governs l marks now queued d.paused (progressed now queued d)
              (progressed-paused now queued d) (ground arith) (ground arith)))
