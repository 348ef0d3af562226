-- ===== src/Wire/Parse.antt =====
-- `createFrameParser` of src/registry/reverse-ws.mjs: a parser keeps the bytes that wait and the fragments
-- of a message. What the callbacks are told are events.
use dsh_orbit.Common.{
  ℕ, zero, suc, ◌+◌, ◌*◌, ◌%◌, Bool, true, false, ◌&&◌, ◌||◌, not, Option, none, some, List, [],
  ◌∷◌, ◌++◌, ltb, leb, ◌==◌, if◌then◌else◌, length,
}
use dsh_orbit.Common.Text.{Text}
use dsh_orbit.Wire.Utf8.{to_string}
use dsh_orbit.Wire.{Octets, number_of, mask_with}

pub data Failure : Type 0 where
  server_frames_masked client_frames_unmasked exceeds_cap invalid_control_frame : Failure
  no_initial_fragment fragments_exceed_cap new_frame_in_fragments : Failure

pub data Event : Type 0 where
  text_message : Text → Event
  binary_message ping pong : Octets → Event
  close : ℕ → Event
  error : Failure → Event

pub record Config : Type 0 where
  pub is_client : Bool
  pub max_message_bytes : ℕ

-- The parser without its buffer.
pub record Parser : Type 0 where
  pub fragments : List Octets
  pub fragment_opcode : Option ℕ
  pub fragment_bytes : ℕ
  pub failed : Bool

abbrev pub fresh : Parser
fresh = record { fragments = []; fragment_opcode = none; fragment_bytes = 0; failed = false }

-- The first n bytes and the rest, if there are so many.
unfoldable pub split_at : ℕ → Octets → Option (Octets × Octets)
split_at zero bs = some ([], bs)
split_at (suc n) [] = none
split_at (suc n) (b ∷ bs) = elim (split_at n bs) [
  | none ↦ none
  | some (front, rest) ↦ some (b ∷ front, rest)
]

pub data Next : Type 0 where
  waits : Next
  fails : Failure → Next
  frame : (fin : Bool) (opcode : ℕ) (payload rest : Octets) → Next

-- The length, and what follows it.
pub data Length : Type 0 where
  no_length too_long : Length
  length_is : ℕ → Octets → Length

abbrev pub short_length : Option (Octets × Octets) → Length
short_length none = no_length
short_length (some (bytes, rest)) = length_is (number_of 0 bytes) rest

abbrev pub long_length : ℕ → Option (Octets × Octets) → Length
long_length cap none = no_length
long_length cap (some (bytes, rest)) =
    if ltb cap (number_of 0 bytes) then too_long else length_is (number_of 0 bytes) rest

unfoldable pub read_length : ℕ → ℕ → Octets → Length
unfolding split_at number_of
read_length cap short rest =
    if short == 126
    then short_length (split_at 2 rest)
    else if short == 127
    then long_length cap (split_at 8 rest)
    else length_is short rest

abbrev pub plain_payload : Bool → ℕ → Option (Octets × Octets) → Next
plain_payload fin opcode none = waits
plain_payload fin opcode (some (payload, rest)) = frame fin opcode payload rest

abbrev pub unmasked : Bool → ℕ → Octets → Option (Octets × Octets) → Next
unmasked fin opcode key none = waits
unmasked fin opcode key (some (payload, rest)) = frame fin opcode (mask_with key payload) rest

abbrev pub keyed_payload : Bool → ℕ → ℕ → Option (Octets × Octets) → Next
keyed_payload fin opcode n none = waits
keyed_payload fin opcode n (some (key, rest)) = unmasked fin opcode key (split_at n rest)

-- A frame whose length is over the cap fails before its payload is there.
unfoldable pub read_payload : ℕ → Bool → Bool → ℕ → Length → Next
unfolding split_at mask_with
read_payload cap fin masked opcode no_length = waits
read_payload cap fin masked opcode too_long = fails exceeds_cap
read_payload cap fin masked opcode (length_is n rest) =
    if ltb cap n
    then fails exceeds_cap
    else if masked
    then keyed_payload fin opcode n (split_at 4 rest)
    else plain_payload fin opcode (split_at n rest)

-- The head of the buffer.
unfoldable pub next_frame : Config → Octets → Next
unfolding read_length read_payload
next_frame c [] = waits
next_frame c (a ∷ []) = waits
next_frame c (a ∷ b ∷ rest) =
    let masked = ltb 127 b in
    if c.is_client && masked
    then fails server_frames_masked
    else if not c.is_client && not masked
    then fails client_frames_unmasked
    else read_payload c.max_message_bytes (ltb 127 a) masked (a % 16)
        (read_length c.max_message_bytes (b % 128) rest)

abbrev pub close_code : Octets → ℕ
close_code (a ∷ b ∷ rest) = a * 256 + b
close_code _ = 1005

unfoldable pub handle_data : ℕ → Octets → List Event
unfolding to_string
handle_data opcode payload =
    if opcode == 1
    then text_message (to_string payload) ∷ []
    else if opcode == 2
    then binary_message payload ∷ []
    else if opcode == 8
    then close (close_code payload) ∷ []
    else if opcode == 9
    then ping payload ∷ []
    else if opcode == 10
    then pong payload ∷ []
    else []

abbrev pub fail : Parser → Failure → Parser × List Event
fail p why = (record p { failed = true }, error why ∷ [])

unfoldable pub concat : List Octets → Octets
concat [] = []
concat (x ∷ xs) = x ++ concat xs

abbrev pub continued : Config → Parser → Bool → Octets → ℕ → Parser × List Event
continued c p fin payload opcode =
    let bytes : ℕ = p.fragment_bytes + length payload in
    let all : List Octets = p.fragments ++ payload ∷ [] in
    if ltb c.max_message_bytes bytes
    then fail (record p { fragments = all; fragment_bytes = bytes }) fragments_exceed_cap
    else if fin
    then (fresh, handle_data opcode (concat all))
    else (record p { fragments = all; fragment_bytes = bytes }, [])

abbrev pub continuation : Config → Parser → Bool → Octets → Option ℕ → Parser × List Event
continuation c p fin payload none = fail p no_initial_fragment
continuation c p fin payload (some opcode) = continued c p fin payload opcode

abbrev pub data_frame : Parser → Bool → ℕ → Octets → Option ℕ → Parser × List Event
data_frame p fin opcode payload (some o) = fail p new_frame_in_fragments
data_frame p fin opcode payload none = if fin then (p, handle_data opcode payload) else (
  record p {
    fragment_opcode = some opcode;
    fragments = payload ∷ [];
    fragment_bytes = length payload;
  },
  [],
)

-- A complete frame.
unfoldable pub accept : Config → Parser → Bool → ℕ → Octets → Parser × List Event
unfolding handle_data concat
accept c p fin opcode payload =
    if leb 8 opcode
    then (if not fin || ltb 125 (length payload)
        then fail p invalid_control_frame
        else (p, handle_data opcode payload))
    else if opcode == 0
    then continuation c p fin payload p.fragment_opcode
    else data_frame p fin opcode payload p.fragment_opcode

-- A parser, its buffer, and the events so far.
pub record Fed : Type 0 where
  pub parser : Parser
  pub buffer : Octets
  pub events : List Event

abbrev pub preceded : List Event → Fed → Fed
preceded es x = record x { events = es ++ x.events }

abbrev pub went_on : Octets → Parser × List Event → Fed → Fed
went_on rest (p, es) later =
    if p.failed then record { parser = p; buffer = rest; events = es } else preceded es later

-- A round of the loop, and what comes after it.
unfoldable pub proceed : Config → Parser → Octets → (Parser → Octets → Fed) → Next → Fed
unfolding accept
proceed c p buffer later waits = record { parser = p; buffer = buffer; events = [] }
proceed c p buffer later (fails why) = record {
  parser = record p { failed = true };
  buffer = buffer;
  events = error why ∷ [];
}
proceed c p buffer later (frame fin opcode payload rest) =
    went_on rest (accept c p fin opcode payload) (later (accept c p fin opcode payload).0 rest)

-- The loop, on fuel: each round takes two bytes or more from the buffer.
unfoldable pub run : ℕ → Config → Parser → Octets → Fed
unfolding next_frame proceed
run zero c p buffer = record { parser = p; buffer = buffer; events = [] }
run (suc fuel) c p buffer = proceed c p buffer (run fuel c) (next_frame c buffer)

unfoldable pub feed : Config → Parser → Octets → Octets → Fed
unfolding run
feed c p buffer chunk =
    if p.failed
    then record { parser = p; buffer = buffer; events = [] }
    else run (length (buffer ++ chunk)) c p (buffer ++ chunk)
