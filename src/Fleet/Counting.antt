-- ===== src/Fleet/Counting.antt =====
-- Nodes of a job of src/registry/fleet-scheduler.mjs that are still open, and their number.
use dsh_orbit.Common.{
  ℕ, suc, ◌+◌, ◌≤◌, ◌<◌, ◌≡◌, ◌≢◌, refl, sym, ◌∙◌, true, false, some, List, [], ◌∷◌, arith,
  if◌then◌else◌, length, ite,
}
use dsh_orbit.Common.Text.{Text, Text-discrete}
use dsh_orbit.Common.JsMap.{get, put, get-put}
use dsh_orbit.Common.JsMap.Keys.{weigh, weigh-put, length-put_old}
use dsh_orbit.Fleet.{NodeTaskStatus, NodeResult, Summary}
use dsh_orbit.Fleet.Execute.{is_open, count_outcome, computed_total}

abbrev pub open_weight : NodeResult → ℕ
open_weight r = if is_open r.outcome.status then 1 else 0

unfoldable pub open_count : List (Text × NodeResult) → ℕ
unfolding weigh
open_count results = weigh Text-discrete open_weight results

-- How often a node stands in a list.
unfoldable pub occurrences : Text → List Text → ℕ
occurrences n [] = 0
occurrences n (m ∷ ms) = ite (Text-discrete m n) 1 0 + occurrences n ms

pub occurrences-head :
    (n m : Text) (ms : List Text) → m ≡ n → occurrences n (m ∷ ms) ≡ suc (occurrences n ms)
unfolding occurrences
occurrences-head n m ms h = ground arith

pub occurrences-cons-le : (n m : Text) (ms : List Text) → occurrences n ms ≤ occurrences n (m ∷ ms)
unfolding occurrences
occurrences-cons-le n m ms = ground arith

pub occurrences-ne :
    (n m : Text) (ms : List Text) → m ≢ n → occurrences n (m ∷ ms) ≡ occurrences n ms
unfolding occurrences
occurrences-ne n m ms h = ground arith

abbrev pub IsOpenIn : Text → List (Text × NodeResult) → Type 0
IsOpenIn n results =
    (r : NodeResult) × (get Text-discrete n results ≡ some r) × (is_open r.outcome.status ≡ true)

-- The nodes of two lists are the open nodes of the results, each once; the summary counts the others.
pub record Core (results : List (Text × NodeResult)) (s : Summary) (queue flying : List Text)
    : Type 0 where
  pub single : (n : Text) → occurrences n queue + occurrences n flying ≤ 1
  pub are_open : (n : Text) → 0 < occurrences n queue + occurrences n flying → IsOpenIn n results
  pub counted : open_count results ≡ length queue + length flying
  pub balanced : computed_total s + open_count results ≡ s.total_targets
  pub complete : length results ≡ s.total_targets

pub computed_total-count_outcome :
    (o : NodeTaskStatus) (s : Summary)
    → (computed_total (count_outcome o s) ≡ suc (computed_total s))
      × ((count_outcome o s).total_targets ≡ s.total_targets)
unfolding computed_total count_outcome
computed_total-count_outcome NodeTaskStatus.completed s = omega arith
computed_total-count_outcome _ s = omega arith

-- A result is put in the place of one that is open.
module _ (results : List (Text × NodeResult)) (n : Text) (r : NodeResult)
    (was : IsOpenIn n results) where
  open_count-put :
      open_count (put Text-discrete n r results) + 1 ≡ open_count results + open_weight r
  unfolding open_count
  open_count-put =
      let (old, there, opened) = was in
      ground (arith, weigh-put Text-discrete open_weight n r results)

  IsOpenIn-put_ne :
      (m : Text) → n ≢ m → IsOpenIn m results → IsOpenIn m (put Text-discrete n r results)
  IsOpenIn-put_ne m differs (old, there, opened) =
      (old, ground (arith, get-put Text-discrete n m r results), opened)

  IsOpenIn-put_self : is_open r.outcome.status ≡ true → IsOpenIn n (put Text-discrete n r results)
  IsOpenIn-put_self opened = (r, ground (arith, get-put Text-discrete n n r results), opened)

module _ (results : List (Text × NodeResult)) (s : Summary) (n : Text) (queue flying : List Text)
    (c : Core results s (n ∷ queue) flying) where
  pub head_open : IsOpenIn n results
  head_open = c.are_open n (omega (arith, occurrences-head n n queue refl))

  -- The head of the queue is closed.
  pub close :
      (r : NodeResult) (s' : Summary)
      → is_open r.outcome.status ≡ false
      → computed_total s' ≡ suc (computed_total s)
      → s'.total_targets ≡ s.total_targets
      → Core (put Text-discrete n r results) s' queue flying
  close r s' shut one_more same =
      let fewer = open_count-put results n r head_open in
      let (old, there, opened) = head_open in
      let size = length-put_old Text-discrete n r old results there in
      record {
        single = λ m. omega (arith, c.single m, occurrences-cons-le m n queue);
        are_open = λ m more. elim (Text-discrete n m) [
          | yes e ↦ absurd (omega (arith, c.single m, occurrences-head m n queue e))
          | no e ↦
              IsOpenIn-put_ne results n r head_open m e
                (c.are_open m (omega (arith, occurrences-cons-le m n queue)))
        ];
        counted = ground (arith, c.counted);
        balanced = ground (arith, c.balanced);
        complete = size ∙ c.complete ∙ sym same;
      }

  -- The head of the queue is in flight: it stays open.
  pub lift :
      (r : NodeResult)
      → is_open r.outcome.status ≡ true
      → Core (put Text-discrete n r results) s queue (n ∷ flying)
  lift r opened =
      let (old, there, was) = head_open in
      let size = length-put_old Text-discrete n r old results there in
      let same = open_count-put results n r head_open in
      record {
        single = λ m. elim (Text-discrete n m) [
          | yes e ↦
              omega (arith, c.single m, occurrences-head m n queue e, occurrences-head m n flying e)
          | no e ↦
              omega (arith, c.single m, occurrences-ne m n queue e, occurrences-ne m n flying e)
        ];
        are_open = λ m more. elim (Text-discrete n m) [
          | yes e ↦ rw (← e) (IsOpenIn-put_self results n r head_open opened)
          | no e ↦ IsOpenIn-put_ne results n r head_open m e (
              c.are_open m (omega (arith, occurrences-ne m n queue e, occurrences-ne m n flying e)))
        ];
        counted = ground (arith, c.counted);
        balanced = ground (arith, c.balanced);
        complete = size ∙ c.complete;
      }

-- The order of the nodes, and the list in which each stands, do not matter.
pub regroup :
    (results : List (Text × NodeResult)) (s : Summary) (q f q' f' : List Text)
    → ((n : Text) → occurrences n q' + occurrences n f' ≡ occurrences n q + occurrences n f)
    → length q' + length f' ≡ length q + length f
    → Core results s q f
    → Core results s q' f'
regroup results s q f q' f' same size c = record {
  single = λ n. omega (arith, c.single n, same n);
  are_open = λ n more. c.are_open n (omega (arith, same n));
  counted = omega (arith, c.counted);
  balanced = c.balanced;
  complete = c.complete;
}
