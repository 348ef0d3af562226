-- ===== src/Wire/Tests.antt =====
-- The frames of src/registry/reverse-ws.mjs on concrete bytes.
use dsh_orbit.Common.{◌≡◌, refl, false, none, some, [], ◌∷◌, ◌++◌, arith}
use dsh_orbit.Wire.{Octets, encode_frame}
use dsh_orbit.Wire.Encoded.{IsKey}
use dsh_orbit.Wire.Parse.{
  close, concat, text_message, ping, error, exceeds_cap, client_frames_unmasked, Config, fresh,
  feed,
}
use dsh_orbit.Wire.Streams.{IsSame, then_fed, feed-append}
use dsh_orbit.Wire.Messages.{says_text, closes, Message, IsSendable, written, feed-written}
use dsh_orbit.Wire.Utf8.{to_string}
use dsh_orbit.Common.Text.{text}
use dsh_orbit.Wire.Kept.{IsCounted, IsBounded, feed-IsBounded}

abbrev hello : Octets
hello = 0x48 ∷ 0x65 ∷ 0x6c ∷ 0x6c ∷ 0x6f ∷ []

abbrev key : Octets
key = 0x37 ∷ 0xfa ∷ 0x21 ∷ 0x3d ∷ []

abbrev server : Config
server = record { is_client = false; max_message_bytes = 8 }

-- The examples of RFC 6455 §5.7.
unmasked_hello : encode_frame 1 hello none ≡ 0x81 ∷ 0x05 ∷ hello
unfolding encode_frame
unmasked_hello = refl

masked_hello :
    encode_frame 1 hello (some key)
    ≡ 0x81 ∷ 0x85 ∷ 0x37 ∷ 0xfa ∷ 0x21 ∷ 0x3d ∷ 0x7f ∷ 0x9f ∷ 0x4d ∷ 0x51 ∷ 0x58 ∷ []
unfolding encode_frame
masked_hello = refl

-- "Hel" and "lo" in two frames, with a ping between.
abbrev fragmented : Octets
fragmented =
    0x01 ∷ 0x83 ∷ key
    ++ 0x7f ∷ 0x9f ∷ 0x4d ∷ 0x89 ∷ 0x80 ∷ key
    ++ 0x80 ∷ 0x82 ∷ key
    ++ 0x5b ∷ 0x95 ∷ []

fragmented_message :
    feed server fresh [] fragmented
    ≡ record { parser = fresh; buffer = []; events = ping [] ∷ text_message (text "Hello") ∷ [] }
unfolding feed
fragmented_message = refl

unmasked_client :
    (feed server fresh [] (0x81 ∷ 0x05 ∷ hello)).events ≡ error client_frames_unmasked ∷ []
unfolding feed
unmasked_client = refl

-- A frame that announces too many bytes fails before they come.
too_large : (feed server fresh [] (0x81 ∷ 0x89 ∷ [])).events ≡ error exceeds_cap ∷ []
unfolding feed
too_large = refl

-- é, a character beyond the first 65536, and a character that is cut.
decoded :
    to_string (0xc3 ∷ 0xa9 ∷ 0xf0 ∷ 0x9f ∷ 0x98 ∷ 0x80 ∷ 0xe2 ∷ 0x82 ∷ 0x41 ∷ 0xff ∷ [])
    ≡ 0xe9 ∷ 0xd83d ∷ 0xde00 ∷ 0xfffd ∷ 0x41 ∷ 0xfffd ∷ []
unfolding to_string
decoded = refl

abbrev greeting : Message
greeting = record { content = says_text hello; key = some key }

abbrev farewell : Message
farewell = record { content = closes 1000 []; key = some key }

key-IsKey : IsKey (some key)
key-IsKey = (refl, (omega arith, (omega arith, (omega arith, (omega arith, tt)))))

greeting-IsSendable : IsSendable server greeting
greeting-IsSendable = record {
  short_control = tt;
  right_side = refl;
  fits = omega arith;
  length_fits = omega arith;
  bytes = (omega arith, (omega arith, (omega arith, (omega arith, (omega arith, tt)))));
  key_bytes = key-IsKey;
}

farewell-IsSendable : IsSendable server farewell
farewell-IsSendable = record {
  short_control = omega arith;
  right_side = refl;
  fits = omega arith;
  length_fits = omega arith;
  bytes = (omega arith, (omega arith, tt));
  key_bytes = key-IsKey;
}

feed-written_example :
    feed server fresh [] (written (greeting ∷ farewell ∷ []))
    ≡ record { parser = fresh; buffer = []; events = text_message (text "Hello") ∷ close 1000 ∷ [] }
unfolding to_string
feed-written_example =
    feed-written server fresh refl refl (greeting ∷ farewell ∷ [])
      (greeting-IsSendable, (farewell-IsSendable, tt))

feed-append_example :
    IsSame
      (feed server fresh [] ((0x01 ∷ 0x83 ∷ 0x37 ∷ []) ++ 0xfa ∷ 0x21 ∷ 0x3d ∷ 0x7f ∷ 0x9f ∷ []))
      (then_fed server
        (0xfa ∷ 0x21 ∷ 0x3d ∷ 0x7f ∷ 0x9f ∷ [])
        (feed server fresh [] (0x01 ∷ 0x83 ∷ 0x37 ∷ [])))
feed-append_example =
    feed-append server fresh [] (0x01 ∷ 0x83 ∷ 0x37 ∷ []) (0xfa ∷ 0x21 ∷ 0x3d ∷ 0x7f ∷ 0x9f ∷ [])
      refl

fresh-IsCounted : IsCounted server fresh
unfolding concat
fresh-IsCounted = record { counted = refl; within = omega arith }

feed-IsBounded_example : IsBounded server (feed server fresh [] fragmented)
feed-IsBounded_example = feed-IsBounded server fresh [] fragmented refl fresh-IsCounted
