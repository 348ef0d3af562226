-- ===== src/Wire/Messages.antt =====
-- Messages that `encodeFrame` of src/registry/reverse-ws.mjs writes one after another, and the events of its parser.
use dsh_orbit.Common.{
  ◌/◌, ◌%◌, ◌<◌, ℕ, suc, ◌^◌, ◌≤◌, ◌<◌, ◌≡◌, ◌≢◌, refl, ap, ◌∙◌, true, false, not, Option, none,
  List, [], ◌∷◌, ◌++◌, leb, length, length-append, arith, le→ltb, ≢→==,
}
use dsh_orbit.Wire.{Octets, length_header, is_some, body, encode_frame}
use dsh_orbit.Wire.Utf8.{to_string}
use dsh_orbit.Wire.Parse.{
  text_message, binary_message, ping, pong, close, Event, Config, Parser, frame, next_frame,
  handle_data, accept, preceded, proceed, run, feed,
}
use dsh_orbit.Wire.Streams.{run_enough, feed_going, went_on-going}
use dsh_orbit.Wire.Numbers.{AreBytes}
use dsh_orbit.Wire.Encoded.{IsKey, next_frame-encode_frame}

-- What one side says to the other; a close has a code and a reason, or neither.
pub data Content : Type 0 where
  says_text says_binary pings pongs : Octets → Content
  closes : (code : ℕ) (reason : Octets) → Content
  closes_blank : Content

-- RFC 6455 §5.2 and §5.5.
abbrev pub opcode_of : Content → ℕ
opcode_of (says_text bytes) = 1
opcode_of (says_binary bytes) = 2
opcode_of (closes code reason) = 8
opcode_of closes_blank = 8
opcode_of (pings bytes) = 9
opcode_of (pongs bytes) = 10

abbrev pub payload_of : Content → Octets
payload_of (says_text bytes) = bytes
payload_of (says_binary bytes) = bytes
payload_of (pings bytes) = bytes
payload_of (pongs bytes) = bytes
payload_of (closes code reason) = code / 256 ∷ code % 256 ∷ reason
payload_of closes_blank = []

-- What the other side is to be told; a close without a code has the code 1005.
abbrev pub heard : Content → Event
heard (says_text bytes) = text_message (to_string bytes)
heard (says_binary bytes) = binary_message bytes
heard (pings bytes) = ping bytes
heard (pongs bytes) = pong bytes
heard (closes code reason) = close code
heard closes_blank = close 1005

abbrev IsShort : Content → Type 0
IsShort (says_text bytes) = Unit
IsShort (says_binary bytes) = Unit
IsShort content = length (payload_of content) ≤ 125

pub record Message : Type 0 where
  pub content : Content
  pub key : Option Octets

-- A message of the side that the parser listens to, within its bounds: a control frame has 125 bytes at most.
pub record IsSendable (c : Config) (m : Message) : Type 0 where
  pub short_control : IsShort m.content
  pub right_side : c.is_client ≡ not (is_some m.key)
  pub fits : length (payload_of m.content) ≤ c.max_message_bytes
  pub length_fits : length (payload_of m.content) < 2 ^ 64
  pub bytes : AreBytes (payload_of m.content)
  pub key_bytes : IsKey m.key

abbrev pub AreSendable : Config → List Message → Type 0
AreSendable c [] = Unit
AreSendable c (m ∷ ms) = IsSendable c m × AreSendable c ms

abbrev encoded : Message → Octets
encoded m = encode_frame (opcode_of m.content) (payload_of m.content) m.key

abbrev pub written : List Message → Octets
written [] = []
written (m ∷ ms) = encoded m ++ written ms

abbrev pub all_heard : List Message → List Event
all_heard [] = []
all_heard (m ∷ ms) = heard m.content ∷ all_heard ms

small_opcode : (content : Content) → opcode_of content < 16
small_opcode (says_text bytes) = omega arith
small_opcode (says_binary bytes) = omega arith
small_opcode (pings bytes) = omega arith
small_opcode (pongs bytes) = omega arith
small_opcode (closes code reason) = omega arith
small_opcode closes_blank = omega arith

module _ (c : Config) (p : Parser) (going : p.failed ≡ false)
    (between : p.fragment_opcode ≡ none) where
  accept-control :
      (opcode : ℕ) (payload : Octets)
      → 8 ≤ opcode
      → length payload ≤ 125
      → accept c p true opcode payload ≡ (p, handle_data opcode payload)
  unfolding accept
  accept-control opcode payload control short = rw (marked, le→ltb 125 (length payload) short) refl
    where
      marked : leb 8 opcode ≡ true
      marked = ground arith

  accept-data :
      (opcode : ℕ) (payload : Octets)
      → opcode < 8
      → opcode ≢ 0
      → accept c p true opcode payload ≡ (p, handle_data opcode payload)
  unfolding accept
  accept-data opcode payload data_opcode no_continuation =
      rw (marked, ≢→== opcode 0 no_continuation, between) refl
    where
      marked : leb 8 opcode ≡ false
      marked = ground arith

  accept-Content :
      (content : Content)
      → IsShort content
      → AreBytes (payload_of content)
      → accept c p true (opcode_of content) (payload_of content) ≡ (p, heard content ∷ [])
  unfolding handle_data
  accept-Content (says_text bytes) s b = accept-data 1 bytes (omega arith) (λ e. omega arith)
  accept-Content (says_binary bytes) s b = accept-data 2 bytes (omega arith) (λ e. omega arith)
  accept-Content (pings bytes) s b = accept-control 9 bytes (omega arith) s
  accept-Content (pongs bytes) s b = accept-control 10 bytes (omega arith) s
  accept-Content (closes code reason) s b =
      accept-control 8 (code / 256 ∷ code % 256 ∷ reason) (omega arith) s
      ∙ ap (λ n. (p, close n ∷ [])) (omega arith)
  accept-Content closes_blank s b = accept-control 8 [] (omega arith) s

  run-frame :
      (f : ℕ) (m : Message) (bs more : Octets)
      → IsSendable c m
      → next_frame c bs ≡ frame true (opcode_of m.content) (payload_of m.content) more
      → length more ≤ f
      → run (suc f) c p bs ≡ preceded (heard m.content ∷ []) (feed c p [] more)
  unfolding run proceed
  run-frame f m bs more s e h =
      rw (e, accept-Content m.content s.short_control s.bytes, feed_going c p [] more going)
        (went_on-going c p (heard m.content ∷ []) more (run f c p more) going
          ∙ ap (preceded (heard m.content ∷ []))
              (run_enough c f (length more) p more h (omega arith)))

  feed-encode_frame :
      (m : Message) (more : Octets)
      → IsSendable c m
      → feed c p [] (encoded m ++ more) ≡ preceded (heard m.content ∷ []) (feed c p [] more)
  unfolding encode_frame
  feed-encode_frame m more s =
      feed_going c p [] (encoded m ++ more) going
      ∙ run-frame (length (tail ++ more)) m (encoded m ++ more) more s
          (next_frame-encode_frame c (opcode_of m.content) (payload_of m.content) more
            (small_opcode m.content) m.key s.right_side s.fits s.length_fits s.bytes s.key_bytes)
          (omega (arith, length-append tail more))
    where
      tail : Octets
      tail =
          length_header (is_some m.key) (length (payload_of m.content))
          ++ body m.key (payload_of m.content)

  -- A parser that has not failed and is between messages, fed the frames of messages within its bounds, one
  -- after another, tells exactly those messages in their order: a text decoded, other data, a ping or a pong
  -- as it is, and a close by its code. It is left as it was with no byte waiting.
  pub feed-written :
      (ms : List Message)
      → AreSendable c ms
      → feed c p [] (written ms) ≡ record { parser = p; buffer = []; events = all_heard ms }
  unfolding feed run
  feed-written [] s = rw going refl
  feed-written (m ∷ ms) (s, ss) =
      feed-encode_frame m (written ms) s ∙ ap (preceded (heard m.content ∷ [])) (feed-written ms ss)
