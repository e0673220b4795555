-- ===== src/Tests/Streams.antt =====
-- src/api/v1.rs on the stream of an answer. The parser of these runs knows three texts.
use skyport.Prelude.{
  ℕ, ◌≡◌, refl, true, not, Option, none, some, List, [], ◌∷◌, map, arith, ltb, ◌==◌, if◌then◌else◌,
  all, Text, codes, text_eq, byte_len,
}
use skyport.Proxy.Stream.Drain.{HasNoReturn}
use skyport.Json.{Json, obj, field, end, str, as_str, get}
use skyport.Proxy.Stream.{event_out, done_out, translate_native_stream, logged_passthrough_stream}
use skyport.Proxy.Stream.Cut.{joined, translate_native_stream-joined}
use skyport.Proxy.Stream.Relayed.{Relays, logged_passthrough_stream-Relays}
use skyport.Translate.Events.{chunk}

abbrev from_str : Text → Option Json
from_str payload =
    if text_eq payload (codes "hello")
    then some (
        obj (
          field (codes "type") (str (codes "content_block_delta"))
            (field (codes "delta") (obj (field (codes "text") (str (codes "Hi")) end)) end)))
    else if text_eq payload (codes "stop")
    then some (obj (field (codes "type") (str (codes "message_stop")) end))
    else none

-- the texts of ASCII, with the replacement character for every other byte
abbrev ascii : List ℕ → Text
ascii [] = []
ascii (c ∷ s) = (if ltb c 128 then c else 0xfffd) ∷ ascii s

abbrev pieces : List (List ℕ)
pieces = codes "event: x\ndata: hel" ∷ codes "lo\n" ∷ codes "\ndata: stop\n\ndata: hello\n\n" ∷ []

no_return : (s : Text) → all (λ c. not (c == b'\r')) s ≡ true → HasNoReturn s
no_return [] h = tt
no_return (c ∷ s) h = (ground arith, no_return s (ground arith))

translate_native_stream-joined_example :
    translate_native_stream ascii from_str (codes "anthropic") (map some pieces)
    ≡ translate_native_stream ascii from_str (codes "anthropic") (some (joined pieces) ∷ [])
unfolding byte_len
translate_native_stream-joined_example =
    translate_native_stream-joined ascii from_str (codes "anthropic") pieces refl
      (no_return (joined pieces) refl) (omega arith)

stream_test :
    (translate_native_stream ascii from_str (codes "anthropic") (map some pieces)).written
    ≡ event_out (chunk (codes "Hi") none) ∷ done_out ∷ []
unfolding translate_native_stream text_eq byte_len as_str get
stream_test = refl

passed_on :
    (logged_passthrough_stream ascii from_str (some (codes "data: hello\n\n") ∷ [])).status ≡ 200
unfolding logged_passthrough_stream text_eq byte_len as_str get
passed_on = refl

logged_passthrough_stream-Relays_example :
    Relays ascii from_str []
      (some (codes "data: hello\n\n") ∷ [])
      (logged_passthrough_stream ascii from_str (some (codes "data: hello\n\n") ∷ []))
logged_passthrough_stream-Relays_example =
    logged_passthrough_stream-Relays ascii from_str (some (codes "data: hello\n\n") ∷ []) passed_on
