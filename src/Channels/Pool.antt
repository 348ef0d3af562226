-- ===== src/Channels/Pool.antt =====
-- ReverseChannelManager of src/registry/reverse-channel.mjs: the channels of the nodes and who has claimed
-- them. The sets of all nodes are one list, in the order of registration. A channel that is closed leaves
-- it. Callers that wait for a channel only claim again when they are woken.
use dsh_orbit.Common.{
  ℕ, Bool, true, false, not, ◌&&◌, Option, none, some, List, [], ◌∷◌, ◌++◌, map, ltb, leb,
  if◌then◌else◌, length, any,
}
use dsh_orbit.Common.Text.{Text, text_eq}

pub data BoundsError : Type 0 where
  bad_idle_target bad_max_channels target_over_max : BoundsError

-- `none` for what is no natural number.
abbrev pub in_range : ℕ → ℕ → Option ℕ → Bool
in_range lo hi none = false
in_range lo hi (some n) = leb lo n && leb n hi

abbrev pub over : Option ℕ → Option ℕ → Bool
over (some a) (some b) = ltb b a
over _ _ = false

unfoldable pub validate_reverse_pool_bounds : Option ℕ → Option ℕ → Option BoundsError
validate_reverse_pool_bounds idle_target max_channels =
    if not (in_range 1 16 idle_target)
    then some bad_idle_target
    else if not (in_range 4 64 max_channels)
    then some bad_max_channels
    else if over idle_target max_channels
    then some target_over_max
    else none

pub data ChannelState : Type 0 where
  idle busy : ChannelState

pub record Channel : Type 0 where
  pub id : Text
  pub node_id : Text
  pub key_id : Text
  pub session_id : Text
  pub state : ChannelState
  pub flow : Option Text

pub record Pool : Type 0 where
  pub max_channels : ℕ
  pub channels : List Channel

abbrev pub is_idle : ChannelState → Bool
is_idle idle = true
is_idle busy = false

-- No session asked for, or that of the channel.
abbrev pub of_session : Option Text → Channel → Bool
of_session none c = true
of_session (some session) c = text_eq c.session_id session

abbrev pub of_node : Text → Channel → Bool
of_node node c = text_eq c.node_id node

unfoldable pub keep : (Channel → Bool) → List Channel → List Channel
keep p [] = []
keep p (c ∷ cs) = let rest = keep p cs in if p c then c ∷ rest else rest

abbrev pub channels_of : Text → Pool → List Channel
channels_of node m = keep (of_node node) m.channels

abbrev pub is_claimable : Text → Option Text → Channel → Bool
is_claimable node session c = of_node node c && (is_idle c.state && of_session session c)

unfoldable pub idle_channels : Text → Option Text → Pool → List Channel
unfolding keep
idle_channels node session m =
    keep (λ c. is_idle c.state && of_session session c) (channels_of node m)

unfoldable pub has_channel_for_session : Text → Text → Pool → Bool
unfolding keep
has_channel_for_session node session m =
    any (λ c. text_eq c.session_id session) (channels_of node m)

unfoldable pub busy_count : Text → Pool → ℕ
unfolding keep
busy_count node m = length (keep (λ c. not (is_idle c.state)) (channels_of node m))

abbrev pub new_channel : Text → Text → Text → Text → Channel
new_channel id node key session = record {
  id = id;
  node_id = node;
  key_id = key;
  session_id = session;
  state = idle;
  flow = none;
}

-- The id is that of the new channel; `none` is the refused upgrade.
unfoldable pub register_channel : Text → Text → Text → Text → Pool → Option Channel × Pool
unfolding keep
register_channel id node key session m =
    if leb m.max_channels (length (channels_of node m)) then (none, m) else (
      some (new_channel id node key session),
      record m { channels = m.channels ++ new_channel id node key session ∷ [] },
    )

abbrev pub passed : Channel → Option Channel × List Channel → Option Channel × List Channel
passed c (found, cs) = (found, c ∷ cs)

unfoldable pub claim_first : Text → Option Text → List Channel → Option Channel × List Channel
claim_first node session [] = (none, [])
claim_first node session (c ∷ cs) =
    let rest = claim_first node session cs in
    if is_claimable node session c
    then (some (record c { state = busy }), record c { state = busy } ∷ cs)
    else passed c rest

unfoldable pub claim_idle_channel : Text → Option Text → Pool → Option Channel × Pool
unfolding claim_first
claim_idle_channel node session m = (
  (claim_first node session m.channels).0,
  record m { channels = (claim_first node session m.channels).1 },
)

abbrev pub change : Text → (Channel → Channel) → Channel → Channel
change id f c = if text_eq c.id id then f c else c

unfoldable pub mark_busy : Text → Text → Pool → Pool
mark_busy id request m = record m {
  channels = map (change id (λ c. record c { state = busy; flow = some request })) m.channels;
}

unfoldable pub mark_idle : Text → Pool → Pool
mark_idle id m = record m {
  channels = map (change id (λ c. record c { state = idle; flow = none })) m.channels;
}

-- `close` and `onChannelClosed`
unfoldable pub close : Text → Pool → Pool
unfolding keep
close id m = record m { channels = keep (λ c. not (text_eq c.id id)) m.channels }

unfoldable pub close_channels_for_node : Text → Pool → Pool
unfolding keep
close_channels_for_node node m = record m { channels = keep (λ c. not (of_node node c)) m.channels }

unfoldable pub close_channels_for_session : Text → Pool → Pool
unfolding keep
close_channels_for_session session m = record m {
  channels = keep (λ c. not (text_eq c.session_id session)) m.channels;
}

unfoldable pub close_channels_for_credential : Text → Text → Pool → Pool
unfolding keep
close_channels_for_credential node key m = record m {
  channels = keep (λ c. not (of_node node c && text_eq c.key_id key)) m.channels;
}

unfoldable pub close_all : Pool → Pool
close_all m = record m { channels = [] }

-- The operations, in any order.
pub data Operation : Type 0 where
  registers : (id node key session : Text) → Operation
  claims : (node : Text) (session : Option Text) → Operation
  starts : (id request : Text) → Operation
  releases closes : (id : Text) → Operation
  closes_node : (node : Text) → Operation
  closes_session : (session : Text) → Operation
  closes_credential : (node key : Text) → Operation
  closes_all : Operation

unfoldable pub apply : Pool → Operation → Pool
unfolding register_channel claim_idle_channel mark_busy mark_idle close close_channels_for_node
    close_channels_for_session close_channels_for_credential close_all
apply m (registers id node key session) = (register_channel id node key session m).1
apply m (claims node session) = (claim_idle_channel node session m).1
apply m (starts id request) = mark_busy id request m
apply m (releases id) = mark_idle id m
apply m (closes id) = close id m
apply m (closes_node node) = close_channels_for_node node m
apply m (closes_session session) = close_channels_for_session session m
apply m (closes_credential node key) = close_channels_for_credential node key m
apply m closes_all = close_all m

unfoldable pub apply_all : Pool → List Operation → Pool
unfolding apply
apply_all m [] = m
apply_all m (o ∷ os) = apply_all (apply m o) os
