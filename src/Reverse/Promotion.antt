-- ===== src/Reverse/Promotion.antt =====
-- `promote` of src/registry/reverse-session.mjs makes a session the only ready one of its node.
use dsh_orbit.Common.{
  ◌≡◌, ◌≢◌, refl, sym, ap, ◌∙◌, inl, inr, true, false, ◌||◌, some, List, arith, Bool-cases,
  Option-cases,
}
use mathlib.Core.Option.{some-injective}
use dsh_orbit.Common.Text.{Text, Text-discrete}
use dsh_orbit.Common.JsMap.{get, put}
use dsh_orbit.Reverse.{ready, closed, Session, Manager, is_closed, is_this}
use dsh_orbit.Reverse.Sessions.{
  shut, close, close_open, promoted, mark_superseded, raise, close_previous, promote,
}
use dsh_orbit.Reverse.OneReady.{
  Inv, get-put_eq, get-put_ne, raise-Inv, nothing, close_found, mark_superseded_found,
  drop_current-same,
}

abbrev pub Holds : Manager → Type 0
Holds m = Inv m.sessions m.current

is_this-yes : (p id : Text) → p ≡ id → is_this (some p) id ≡ true
unfolding is_this
is_this-yes p id e = ground arith

is_this-no : (p id : Text) → p ≢ id → is_this (some p) id ≡ false
unfolding is_this
is_this-no p id e = ground arith

ready-open : (s : Session) → s.state ≡ ready → is_closed s.state ≡ false
ready-open s h = rw h refl

module _ (m : Manager) (id : Text) (s : Session) (v : Holds m)
    (there : get Text-discrete id m.sessions ≡ some s) where
  -- No other session is the current one.
  raise-Holds :
      ((x : Text) → id ≢ x → get Text-discrete s.node_id m.current ≢ some x) → Holds (raise m id s)
  unfolding raise
  raise-Holds alone =
      raise-Inv m.sessions _ m.current id s (promoted s) v there
        (get-put_eq id id (promoted s) m.sessions refl) refl refl
        (λ x k other found k_ready.
          let before = sym (get-put_ne id x (promoted s) m.sessions other) ∙ found in
          (
            before,
            λ e.
                alone x other
                  (ap (λ n. get Text-discrete n m.current) e ∙ v.ready_current x k before k_ready),
          ))
        (λ x k other found elsewhere. get-put_ne id x (promoted s) m.sessions other ∙ found)

  -- The session that was current is closed.
  module _ (p : Text) (sp : Session) (differs : p ≢ id)
      (was : get Text-discrete s.node_id m.current ≡ some p)
      (found_p : get Text-discrete p m.sessions ≡ some sp) (node_p : sp.node_id ≡ s.node_id)
      (ready_p : sp.state ≡ ready) where
    abbrev marked : Session
    marked = record sp { superseded = true }

    abbrev last : List (Text × Session)
    last =
        put Text-discrete p (shut marked)
          (put Text-discrete p marked (put Text-discrete id (promoted s) m.sessions))

    last-other :
        (x : Text) → id ≢ x → p ≢ x → get Text-discrete x last ≡ get Text-discrete x m.sessions
    last-other x other not_p =
        get-put_ne p x (shut marked)
          (put Text-discrete p marked (put Text-discrete id (promoted s) m.sessions)) not_p
        ∙ get-put_ne p x marked (put Text-discrete id (promoted s) m.sessions) not_p
        ∙ get-put_ne id x (promoted s) m.sessions other

    last-id : get Text-discrete id last ≡ some (promoted s)
    last-id =
        get-put_ne p id (shut marked)
          (put Text-discrete p marked (put Text-discrete id (promoted s) m.sessions)) differs
        ∙ get-put_ne p id marked (put Text-discrete id (promoted s) m.sessions) differs
        ∙ get-put_eq id id (promoted s) m.sessions refl

    last-Inv : Inv last (put Text-discrete s.node_id id m.current)
    last-Inv =
        raise-Inv m.sessions last m.current id s (promoted s) v there last-id refl refl
          (λ x k other found k_ready. elim (Text-discrete p x) [
            | yes e ↦
                let same = some-injective _ _ (
                  sym (
                    get-put_eq p x (shut marked)
                      (put Text-discrete p marked (put Text-discrete id (promoted s) m.sessions)) e)
                  ∙ found) in
                absurd (closed_not (ap (λ j. j.state) same ∙ k_ready))
            | no e ↦
                let before = sym (last-other x other e) ∙ found in
                (
                  before,
                  λ h. e (
                      some-injective _ _ (
                        sym was
                        ∙ ap (λ n. get Text-discrete n m.current) h
                        ∙ v.ready_current x k before k_ready)),
                )
          ])
          (λ x k other found elsewhere. elim (Text-discrete p x) [
            | yes e ↦
                let same =
                  some-injective _ _
                    (sym found_p ∙ ap (λ j. get Text-discrete j m.sessions) e ∙ found) in
                absurd (elsewhere (sym node_p ∙ ap (λ j. j.node_id) same))
            | no e ↦ last-other x other e ∙ found
          ])
      where
        closed_not : closed ≡ ready → ⊥
        closed_not e = cc

    abbrev superseding : Manager
    superseding = record (raise m id s) {
      sessions = put Text-discrete p marked (raise m id s).sessions;
    }

    superseded_lem : mark_superseded (raise m id s) p ≡ superseding
    unfolding raise
    superseded_lem =
        mark_superseded_found (raise m id s) p sp
          (get-put_ne id p (promoted s) m.sessions (λ e. differs (sym e)) ∙ found_p)

    closed_lem : close superseding p ≡ close_open superseding p marked
    closed_lem =
        close_found superseding p marked (get-put_eq p p marked (raise m id s).sessions refl)
          (ready-open sp ready_p)

    not_current : get Text-discrete sp.node_id (put Text-discrete s.node_id id m.current) ≢ some p
    not_current e =
        differs
          (some-injective _ _ (sym e ∙ get-put_eq s.node_id sp.node_id id m.current (sym node_p)))

    close_previous-Holds : Holds (close (mark_superseded (raise m id s) p) p)
    unfolding raise
    close_previous-Holds =
        rw
          (
            superseded_lem,
            closed_lem,
            drop_current-same sp.node_id p (put Text-discrete s.node_id id m.current) not_current,
          )
          last-Inv

  promotes-Holds : Holds (close_previous (raise m id s) id (get Text-discrete s.node_id m.current))
  unfolding close_previous
  promotes-Holds = elim (Option-cases (get Text-discrete s.node_id m.current)) [
    | inl missing ↦ rw missing (raise-Holds (λ x other e. nothing x (sym missing ∙ e)))
    | inr (p, found) ↦ elim (Text-discrete p id) [
      | yes e ↦
          rw (found, is_this-yes p id e)
            (raise-Holds (λ x other h. other (sym e ∙ some-injective _ _ (sym found ∙ h))))
      | no e ↦
          let (sp, found_p, node_p, ready_p) = v.current_ready s.node_id p found in
          rw (found, is_this-no p id e) (close_previous-Holds p sp e found found_p node_p ready_p)
    ]
  ]

pub promote-Holds : (m : Manager) (id : Text) → Holds m → Holds (promote m id)
unfolding promote
promote-Holds m id v = elim (Option-cases (get Text-discrete id m.sessions)) [
  | inl missing ↦ rw missing v
  | inr (s, there) ↦ elim (Bool-cases (is_closed s.state || s.superseded)) [
    | inl over ↦ rw (there, over) v
    | inr still_open ↦ rw (there, still_open) (promotes-Holds m id s v there)
  ]
]
