-- ===== src/Channels/Capacity.antt =====
-- The number of channels of a node in src/registry/reverse-channel.mjs.
use dsh_orbit.Common.{
  suc, ◌+◌, ◌≤◌, ◌<◌, ◌≡◌, refl, ap, Bool, false, Option, List, [], ◌∷◌, ◌++◌, map, leb,
  if◌then◌else◌, length, inl, inr, Bool-cases, arith,
}
use dsh_orbit.Common.Text.{Text, text_eq}
use dsh_orbit.Flows.Scope.{text_eq→eq}
use dsh_orbit.Channels.Pool.{
  Channel, Pool, of_node, keep, channels_of, is_claimable, new_channel, register_channel,
  claim_first, claim_idle_channel, change, mark_busy, mark_idle, close, close_channels_for_node,
  close_channels_for_session, close_channels_for_credential, close_all, Operation, registers,
  claims, starts, releases, closes, closes_node, closes_session, closes_credential, closes_all,
  apply, apply_all,
}

module _ (p : Channel → Bool) where
  keep-keep :
      (q : Channel → Bool) (cs : List Channel) → length (keep p (keep q cs)) ≤ length (keep p cs)
  unfolding keep
  keep-keep q [] = omega arith
  keep-keep q (c ∷ cs) = elim (Bool-cases (q c)) [
    | inl e ↦ elim (Bool-cases (p c)) [
      | inl k ↦ rw (e, k) (omega (arith, keep-keep q cs))
      | inr k ↦ rw (e, k) (keep-keep q cs)
    ]
    | inr e ↦ elim (Bool-cases (p c)) [
      | inl k ↦ rw (e, k) (omega (arith, keep-keep q cs))
      | inr k ↦ rw (e, k) (keep-keep q cs)
    ]
  ]

  keep-map :
      (f : Channel → Channel) (cs : List Channel)
      → ((c : Channel) → p (f c) ≡ p c)
      → length (keep p (map f cs)) ≡ length (keep p cs)
  unfolding keep
  keep-map f [] h = refl
  keep-map f (c ∷ cs) h = elim (Bool-cases (p c)) [
    | inl k ↦ rw (h c, k) (ap suc (keep-map f cs h))
    | inr k ↦ rw (h c, k) (keep-map f cs h)
  ]

  keep-snoc :
      (cs : List Channel) (c : Channel)
      → length (keep p (cs ++ c ∷ [])) ≡ length (keep p cs) + (if p c then 1 else 0)
  unfolding keep
  keep-snoc [] c = elim (Bool-cases (p c)) [ inl k ↦ rw k refl | inr k ↦ rw k refl ]
  keep-snoc (x ∷ cs) c = elim (Bool-cases (p x)) [
    | inl k ↦ rw k (omega (arith, keep-snoc cs c))
    | inr k ↦ rw k (keep-snoc cs c)
  ]

claim_first-count :
    (n node : Text) (session : Option Text) (cs : List Channel)
    → length (keep (of_node n) (claim_first node session cs).1) ≡ length (keep (of_node n) cs)
unfolding claim_first keep
claim_first-count n node session [] = refl
claim_first-count n node session (c ∷ cs) = elim (Bool-cases (is_claimable node session c)) [
  | inl e ↦ elim (Bool-cases (of_node n c)) [ inl k ↦ rw (e, k) refl | inr k ↦ rw (e, k) refl ]
  | inr e ↦ elim (Bool-cases (of_node n c)) [
    | inl k ↦ rw (e, k) (ap suc (claim_first-count n node session cs))
    | inr k ↦ rw (e, k) (claim_first-count n node session cs)
  ]
]

-- No node has more channels than the maximum.
abbrev pub IsWithin : Pool → Type 0
IsWithin m = (n : Text) → length (channels_of n m) ≤ m.max_channels

change-node :
    (n id : Text) (f : Channel → Channel) (c : Channel)
    → ((x : Channel) → of_node n (f x) ≡ of_node n x)
    → of_node n (change id f c) ≡ of_node n c
change-node n id f c h = elim (Bool-cases (text_eq c.id id)) [
  | inl e ↦ rw e (h c)
  | inr e ↦ rw e refl
]

-- One more channel of a node that has fewer than the maximum.
snoc-IsWithin :
    (id node key session n : Text) (m : Pool)
    → IsWithin m
    → leb m.max_channels (length (channels_of node m)) ≡ false
    → length (keep (of_node n) (m.channels ++ new_channel id node key session ∷ []))
      ≤ m.max_channels
snoc-IsWithin id node key session n m h room =
    rw (keep-snoc (of_node n) m.channels (new_channel id node key session))
      (elim (Bool-cases (text_eq node n)) [
        | inl e ↦
            rw e
              (omega (arith, room_there, ap (λ z. length (channels_of z m)) (text_eq→eq node n e)))
        | inr e ↦ rw e (omega (arith, h n))
      ])
  where
    room_there : length (channels_of node m) < m.max_channels
    room_there = ground arith

register_channel-IsWithin :
    (id node key session : Text) (m : Pool)
    → IsWithin m
    → IsWithin (register_channel id node key session m).1
unfolding register_channel
register_channel-IsWithin id node key session m h =
    elim (Bool-cases (leb m.max_channels (length (channels_of node m)))) [
      | inl e ↦ rw e h
      | inr e ↦ rw e (λ n. snoc-IsWithin id node key session n m h e)
    ]

kept-IsWithin :
    (m : Pool) (p : Channel → Bool)
    → IsWithin m
    → IsWithin (record m { channels = keep p m.channels })
kept-IsWithin m p h n = omega (arith, keep-keep (of_node n) p m.channels, h n)

changed-IsWithin :
    (m : Pool) (id : Text) (f : Channel → Channel)
    → ((n : Text) (x : Channel) → of_node n (f x) ≡ of_node n x)
    → IsWithin m
    → IsWithin (record m { channels = map (change id f) m.channels })
changed-IsWithin m id f same h n =
    omega (
      arith,
      keep-map (of_node n) (change id f) m.channels (λ c. change-node n id f c (same n)),
      h n,
    )

apply-IsWithin : (m : Pool) (o : Operation) → IsWithin m → IsWithin (apply m o)
unfolding apply claim_idle_channel mark_busy mark_idle close close_channels_for_node
    close_channels_for_session close_channels_for_credential close_all keep
apply-IsWithin m (registers id node key session) h =
    register_channel-IsWithin id node key session m h
apply-IsWithin m (claims node session) h =
    λ n. omega (arith, claim_first-count n node session m.channels, h n)
apply-IsWithin m (starts id request) h = changed-IsWithin m id _ (λ n x. refl) h
apply-IsWithin m (releases id) h = changed-IsWithin m id _ (λ n x. refl) h
apply-IsWithin m (closes id) h = kept-IsWithin m _ h
apply-IsWithin m (closes_node node) h = kept-IsWithin m _ h
apply-IsWithin m (closes_session session) h = kept-IsWithin m _ h
apply-IsWithin m (closes_credential node key) h = kept-IsWithin m _ h
apply-IsWithin m closes_all h = λ n. omega arith

-- Whatever is done to a pool, and in whatever order, no node comes to have more channels than the maximum of
-- the pool, if none had before.
pub apply_all-IsWithin : (m : Pool) (os : List Operation) → IsWithin m → IsWithin (apply_all m os)
unfolding apply_all
apply_all-IsWithin m [] h = h
apply_all-IsWithin m (o ∷ os) h = apply_all-IsWithin (apply m o) os (apply-IsWithin m o h)
