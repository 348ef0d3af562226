-- ===== src/Reverse/OneReady.antt =====
-- The sessions of src/registry/reverse-session.mjs that are ready are the current ones.
use dsh_orbit.Common.{
  ◌≡◌, ◌≢◌, refl, sym, ap, ◌∙◌, inl, inr, true, false, none, some, List, arith, Bool-cases,
  Option-cases,
}
use mathlib.Core.Option.{some-injective}
use dsh_orbit.Common.Text.{Text, Text-discrete}
use dsh_orbit.Common.JsMap.{get, put, get-put, get-remove}
use dsh_orbit.Reverse.{ready, closed, Session, Manager, is_closed, is_this}
use dsh_orbit.Reverse.Sessions.{shut, drop_current, close, close_open, mark_superseded}

abbrev pub Sessions : Type 0
Sessions = List (Text × Session)

abbrev pub Current : Type 0
Current = List (Text × Text)

-- The current session of a node is ready, and a session of the node that is ready is the current one.
pub record Inv (sessions : Sessions) (current : Current) : Type 0 where
  pub current_ready :
      (node id : Text)
      → get Text-discrete node current ≡ some id
      → (s : Session) × (get Text-discrete id sessions ≡ some s)
        × (s.node_id ≡ node)
        × (s.state ≡ ready)
  pub ready_current :
      (id : Text) (s : Session)
      → get Text-discrete id sessions ≡ some s
      → s.state ≡ ready
      → get Text-discrete s.node_id current ≡ some id

pub get-put_eq :
    {V : Type 0} (k j : Text) (v : V) (m : List (Text × V))
    → k ≡ j
    → get Text-discrete j (put Text-discrete k v m) ≡ some v
get-put_eq k j v m e = ground (arith, get-put Text-discrete k j v m)

pub get-put_ne :
    {V : Type 0} (k j : Text) (v : V) (m : List (Text × V))
    → k ≢ j
    → get Text-discrete j (put Text-discrete k v m) ≡ get Text-discrete j m
get-put_ne k j v m e = ground (arith, get-put Text-discrete k j v m)

-- A session is put that keeps its node and its state, or that is new and not ready.
module _ (sessions : Sessions) (current : Current) (id : Text) (s' : Session)
    (v : Inv sessions current) where
  pub put_same-Inv :
      (s : Session)
      → get Text-discrete id sessions ≡ some s
      → s'.node_id ≡ s.node_id
      → s'.state ≡ s.state
      → Inv (put Text-discrete id s' sessions) current
  put_same-Inv s there node state = record {
    current_ready = λ n x h.
        let (r, found, of_node, is_ready_) = v.current_ready n x h in
        elim (Text-discrete id x) [
          | yes e ↦
              let same : r ≡ s =
                some-injective _ _
                  (sym found ∙ ap (λ k. get Text-discrete k sessions) (sym e) ∙ there) in
              (
                s',
                get-put_eq id x s' sessions e,
                node ∙ ap (λ k. k.node_id) (sym same) ∙ of_node,
                state ∙ ap (λ k. k.state) (sym same) ∙ is_ready_,
              )
          | no e ↦ (r, get-put_ne id x s' sessions e ∙ found, of_node, is_ready_)
        ];
    ready_current = λ x r found is_ready_. elim (Text-discrete id x) [
      | yes e ↦
          let same : s' ≡ r = some-injective _ _ (sym (get-put_eq id x s' sessions e) ∙ found) in
          let old = v.ready_current id s there (sym state ∙ ap (λ k. k.state) same ∙ is_ready_) in
          ap (λ k. get Text-discrete k current) (ap (λ k. k.node_id) (sym same) ∙ node)
          ∙ old
          ∙ ap some e
      | no e ↦ v.ready_current x r (sym (get-put_ne id x s' sessions e) ∙ found) is_ready_
    ];
  }

  -- The session is not ready, and the current ones are those that were, but it.
  pub put_unready-Inv :
      (current' : Current)
      → s'.state ≢ ready
      → ((n x : Text)
          → get Text-discrete n current' ≡ some x
          → (get Text-discrete n current ≡ some x) × (id ≢ x))
      → ((n x : Text)
          → get Text-discrete n current ≡ some x
          → id ≢ x
          → get Text-discrete n current' ≡ some x)
      → Inv (put Text-discrete id s' sessions) current'
  put_unready-Inv current' unready only all = record {
    current_ready = λ n x h.
        let (was, other) = only n x h in
        let (r, found, of_node, is_ready_) = v.current_ready n x was in
        (r, get-put_ne id x s' sessions other ∙ found, of_node, is_ready_);
    ready_current = λ x r found is_ready_. elim (Text-discrete id x) [
      | yes e ↦
          let same : s' ≡ r = some-injective _ _ (sym (get-put_eq id x s' sessions e) ∙ found) in
          absurd (unready (ap (λ k. k.state) same ∙ is_ready_))
      | no e ↦
          all r.node_id x
            (v.ready_current x r (sym (get-put_ne id x s' sessions e) ∙ found) is_ready_) e
    ];
  }

-- Closing.
drop_current-other :
    (node id n : Text) (current : Current)
    → get Text-discrete n current ≢ some id
    → get Text-discrete n (drop_current node id current) ≡ get Text-discrete n current
unfolding drop_current is_this
drop_current-other node id n current differs =
    ground (arith, get-remove Text-discrete node n current)

drop_current-this :
    (node id : Text) (current : Current)
    → get Text-discrete node (drop_current node id current) ≢ some id
unfolding drop_current is_this
drop_current-this node id current h = elim (Option-cases (get Text-discrete node current)) [
  | inl missing ↦ ground (arith, get-remove Text-discrete node node current)
  | inr (x, found) ↦ elim (Text-discrete x id) [
    | yes e ↦ ground (arith, get-remove Text-discrete node node current)
    | no e ↦ ground (arith, get-remove Text-discrete node node current)
  ]
]

drop_current-gone :
    (node id : Text) (current : Current)
    → get Text-discrete node current ≡ some id
    → get Text-discrete node (drop_current node id current) ≡ none
unfolding drop_current is_this
drop_current-gone node id current h = ground (arith, get-remove Text-discrete node node current)

pub drop_current-same :
    (node id : Text) (current : Current)
    → get Text-discrete node current ≢ some id
    → drop_current node id current ≡ current
unfolding drop_current is_this
drop_current-same node id current h = elim (Option-cases (get Text-discrete node current)) [
  | inl missing ↦ rw missing refl
  | inr (x, found) ↦ elim (Text-discrete x id) [
    | yes e ↦ absurd (h (found ∙ ap some e))
    | no e ↦ ground arith
  ]
]

pub close_found :
    (m : Manager) (id : Text) (s : Session)
    → get Text-discrete id m.sessions ≡ some s
    → is_closed s.state ≡ false
    → close m id ≡ close_open m id s
unfolding close
close_found m id s there still_open = rw (there, still_open) refl

pub mark_superseded_found :
    (m : Manager) (id : Text) (s : Session)
    → get Text-discrete id m.sessions ≡ some s
    → mark_superseded m id
      ≡ record m { sessions = put Text-discrete id (record s { superseded = true }) m.sessions }
unfolding mark_superseded
mark_superseded_found m id s there = rw there refl

pub nothing : {V : Type 0} (z : V) → none ≡ some z → ⊥
nothing z e = cc

closed-unready : closed ≢ ready
closed-unready e = cc

module _ (m : Manager) (v : Inv m.sessions m.current) where
  close_open-Inv :
      (id : Text) (s : Session)
      → get Text-discrete id m.sessions ≡ some s
      → Inv (close_open m id s).sessions (close_open m id s).current
  close_open-Inv id s there =
      put_unready-Inv m.sessions m.current id (shut s) v (drop_current s.node_id id m.current)
        closed-unready only
        (λ n x h other.
          drop_current-other s.node_id id n m.current (λ e. other (some-injective _ _ (sym e ∙ h)))
          ∙ h)
    where
      its_node : (n : Text) → get Text-discrete n m.current ≡ some id → n ≡ s.node_id
      its_node n h =
          let (r, found, of_node, is_ready_) = v.current_ready n id h in
          sym of_node ∙ ap (λ k. k.node_id) (some-injective _ _ (sym found ∙ there))

      only :
          (n x : Text)
          → get Text-discrete n (drop_current s.node_id id m.current) ≡ some x
          → (get Text-discrete n m.current ≡ some x) × (id ≢ x)
      only n x h = elim (Option-cases (get Text-discrete n m.current)) [
        | inl missing ↦
            let same =
              drop_current-other s.node_id id n m.current
                (λ e. absurd (nothing _ (sym missing ∙ e))) in
            absurd (nothing _ (sym missing ∙ sym same ∙ h))
        | inr (y, found) ↦ elim (Text-discrete y id) [
          | yes e ↦
              let here = found ∙ ap some e in
              let node = its_node n here in
              let gone = drop_current-gone n id m.current here in
              absurd (
                nothing _
                  (sym gone ∙ ap (λ k. get Text-discrete n (drop_current k id m.current)) node ∙ h))
          | no e ↦
              let same =
                drop_current-other s.node_id id n m.current
                  (λ k. e (some-injective _ _ (sym found ∙ k))) in
              (sym same ∙ h, λ k. e (some-injective _ _ (sym found ∙ sym same ∙ h) ∙ sym k))
        ]
      ]

  pub close-Inv : (id : Text) → Inv (close m id).sessions (close m id).current
  unfolding close
  close-Inv id = elim (Option-cases (get Text-discrete id m.sessions)) [
    | inl missing ↦ rw missing v
    | inr (s, there) ↦ elim (Bool-cases (is_closed s.state)) [
      | inl over ↦ rw (there, over) v
      | inr still_open ↦ rw (there, still_open) (close_open-Inv id s there)
    ]
  ]

-- Promotion: the session is put as ready and current, and no other session of its node is ready.
pub raise-Inv :
    (sessions sessions' : Sessions) (current : Current) (id : Text) (s r : Session)
    → Inv sessions current
    → get Text-discrete id sessions ≡ some s
    → get Text-discrete id sessions' ≡ some r
    → r.node_id ≡ s.node_id
    → r.state ≡ ready
    → ((x : Text) (k : Session)
        → id ≢ x
        → get Text-discrete x sessions' ≡ some k
        → k.state ≡ ready
        → (get Text-discrete x sessions ≡ some k) × (s.node_id ≢ k.node_id))
    → ((x : Text) (k : Session)
        → id ≢ x
        → get Text-discrete x sessions ≡ some k
        → s.node_id ≢ k.node_id
        → get Text-discrete x sessions' ≡ some k)
    → Inv sessions' (put Text-discrete s.node_id id current)
raise-Inv sessions sessions' current id s r v was there node is_ready_ others rest = record {
  current_ready = λ n x h. elim (Text-discrete s.node_id n) [
    | yes e ↦
        let same : id ≡ x = some-injective _ _ (sym (get-put_eq s.node_id n id current e) ∙ h) in
        (r, ap (λ k. get Text-discrete k sessions') (sym same) ∙ there, node ∙ e, is_ready_)
    | no e ↦
        let (k, found, of_node, k_ready) =
          v.current_ready n x (sym (get-put_ne s.node_id n id current e) ∙ h) in
        let elsewhere = λ (p : s.node_id ≡ k.node_id). e (p ∙ of_node) in
        let other = λ (p : id ≡ x). elsewhere (
          ap (λ j. j.node_id)
            (some-injective _ _ (sym was ∙ ap (λ j. get Text-discrete j sessions) p ∙ found))) in
        (k, rest x k other found elsewhere, of_node, k_ready)
  ];
  ready_current = λ x k found k_ready. elim (Text-discrete id x) [
    | yes e ↦
        let same : r ≡ k =
          some-injective _ _ (sym there ∙ ap (λ j. get Text-discrete j sessions') e ∙ found) in
        get-put_eq s.node_id k.node_id id current (sym node ∙ ap (λ j. j.node_id) same) ∙ ap some e
    | no e ↦
        let (before, elsewhere) = others x k e found k_ready in
        get-put_ne s.node_id k.node_id id current elsewhere ∙ v.ready_current x k before k_ready
  ];
}
