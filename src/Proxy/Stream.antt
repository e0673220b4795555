-- ===== src/Proxy/Stream.antt =====
-- src/api/v1.rs: the three loops over a stream of events. `source` is what the provider sends, chunk by
-- chunk of bytes; `none` is a read that fails. `from_utf8_lossy` makes a text of bytes, one chunk at a
-- time, and `from_str` is serde's parser. A translated event stays a value; a chunk that is passed on is
-- its bytes.
pub mod Drain
pub mod Cut
pub mod Relayed
use mathlib.Core.Option
use skyport.Prelude.{
  ℕ, zero, suc, min, max, Bool, false, ◌&&◌, ◌||◌, Option, none, some, List, [], ◌∷◌, ◌++◌, ltb,
  ◌==◌, if◌then◌else◌, length, all, ℤ, Text, codes, text_eq, strip_prefix, starts_with, byte_len,
  lines, pos, negsuc,
}
use skyport.Json.{Json}
use skyport.Proxy.Upstream.{usage_from_payload}
use skyport.Translate.Events.{anthropic_stream_event, gemini_stream_event, responses_stream_event}

pub data Output : Type 0 where
  -- `data: {chunk}` and a blank line
  event_out : Json → Output
  -- a chunk as it came
  chunk_out : List ℕ → Output
  error_out : Output
  -- the line that ends an answer
  done_out : Output

-- the variables of the loop, and what it has written
pub record Streaming : Type 0 where
  pub done : Bool
  pub prompt_tokens : ℤ
  pub completion_tokens : ℤ
  pub written : List Output

-- what is written in all, and what `log_tokens` gets
pub record Streamed : Type 0 where
  pub written : List Output
  pub status : ℕ
  pub prompt : ℤ
  pub completion : ℤ

abbrev pub max_sse_event_bytes : ℕ
max_sse_event_bytes = 1_048_576

abbrev max_int : ℤ → ℤ → ℤ
max_int (pos a) (pos b) = pos (max a b)
max_int (pos a) (negsuc b) = pos a
max_int (negsuc a) (pos b) = pos b
max_int (negsuc a) (negsuc b) = negsuc (min a b)

abbrev pub initial : Streaming
initial = record { done = false; prompt_tokens = pos 0; completion_tokens = pos 0; written = [] }

-- `replace("\r\n", "\n")`
unfoldable pub unix_lines : Text → Text
unfolding starts_with
unix_lines [] = []
unix_lines (c ∷ s) =
    let rest = unix_lines s in if c == b'\r' && starts_with (b'\n' ∷ []) s then rest else c ∷ rest

abbrev after_event : ℕ → Option (Text × Text) → Option (Text × Text)
after_event c none = none
after_event c (some (event, rest)) = some (c ∷ event, rest)

-- what stands before the first empty line, and behind it
unfoldable pub split_event : Text → Option (Text × Text)
split_event [] = none
split_event (c ∷ []) = none
split_event (c ∷ d ∷ s) =
    let later = after_event c (split_event (d ∷ s)) in
    if c == b'\n' && d == b'\n' then some ([], s) else later

abbrev pub ended : ℕ → Streaming → Streamed
ended status st = record {
  written = st.written ++ done_out ∷ [];
  status = status;
  prompt = st.prompt_tokens;
  completion = st.completion_tokens;
}

abbrev relayed : ℕ → Streaming → Streamed
relayed status st = record {
  written = st.written;
  status = status;
  prompt = st.prompt_tokens;
  completion = st.completion_tokens;
}

module _ (from_str : Text → Option Json) where
  unfoldable pub stream_usage : Text → ℤ × ℤ
  unfolding usage_from_payload
  stream_usage payload = elim (from_str payload) [
    | none ↦ (pos 0, pos 0)
    | some value ↦ usage_from_payload value
  ]

  abbrev pub count_usage : Streaming → ℤ × ℤ → Streaming
  count_usage st (prompt, completion) = record st {
    prompt_tokens = max_int st.prompt_tokens prompt;
    completion_tokens = max_int st.completion_tokens completion;
  }

  abbrev write_event : Streaming → Option Json × Bool → Streaming
  write_event st (none, ends) = record st { done = st.done || ends }
  write_event st (some chunk, ends) = record st {
    done = st.done || ends;
    written = st.written ++ event_out chunk ∷ [];
  }

  module _ (translate : Text → Option Json × Bool) where
    abbrev on_line : Streaming → Option Text → Streaming
    on_line st none = st
    on_line st (some payload) =
        write_event (count_usage st (stream_usage payload)) (translate payload)

    unfoldable pub on_lines : Streaming → List Text → Streaming
    unfolding stream_usage strip_prefix
    on_lines st [] = st
    on_lines st (line ∷ ls) = on_lines (on_line st (strip_prefix (codes "data: ") line)) ls

    -- the loop over the complete events of `pending`: each takes two characters at least, so that the
    -- length is fuel enough
    unfoldable pub drain : ℕ → Streaming → Text → Streaming × Text
    unfolding on_lines lines split_event
    drain zero st pending = (st, pending)
    drain (suc fuel) st pending = elim (split_event pending) [
      | none ↦ (st, pending)
      | some (event, rest) ↦
          let st' = on_lines st (lines event) in
          let further = drain fuel st' rest in if st'.done then (st', rest) else further
    ]

  abbrev pub count_line : Streaming → Option Text → Streaming
  count_line st none = st
  count_line st (some payload) = count_usage st (stream_usage payload)

  unfoldable pub count_lines : Streaming → List Text → Streaming
  unfolding stream_usage strip_prefix
  count_lines st [] = st
  count_lines st (line ∷ ls) = count_lines (count_line st (strip_prefix (codes "data: ") line)) ls

  unfoldable pub count_events : ℕ → Streaming → Text → Streaming × Text
  unfolding count_lines lines split_event
  count_events zero st pending = (st, pending)
  count_events (suc fuel) st pending = elim (split_event pending) [
    | none ↦ (st, pending)
    | some (event, rest) ↦ count_events fuel (count_lines st (lines event)) rest
  ]

module _ (from_utf8_lossy : List ℕ → Text) (from_str : Text → Option Json) where
  module _ (translate : Text → Option Json × Bool) where
    -- `translate_native_stream`, `translate_responses_stream`
    unfoldable pub translate_stream : Streaming → Text → List (Option (List ℕ)) → Streamed
    unfolding drain unix_lines
    translate_stream st pending [] = ended 200 st
    translate_stream st pending (none ∷ source) =
        ended 502 (record st { written = st.written ++ error_out ∷ [] })
    translate_stream st pending (some chunk ∷ source) =
        let arrived = pending ++ from_utf8_lossy chunk in
        let received = unix_lines arrived in
        let drained = drain from_str translate (length received) st received in
        let further = translate_stream drained.0 drained.1 source in
        if ltb max_sse_event_bytes (byte_len arrived)
        then ended 502 st
        else if drained.0.done
        then ended 200 drained.0
        else further

  -- `logged_passthrough_stream`
  unfoldable pub passthrough_stream : Streaming → Text → List (Option (List ℕ)) → Streamed
  unfolding count_events unix_lines
  passthrough_stream st pending [] = relayed 200 st
  passthrough_stream st pending (none ∷ source) =
      relayed 502 (record st { written = st.written ++ error_out ∷ [] })
  passthrough_stream st pending (some chunk ∷ source) =
      let arrived = pending ++ from_utf8_lossy chunk in
      let received = unix_lines arrived in
      let counted = count_events from_str (length received) st received in
      let further =
        passthrough_stream
          (record counted.0 { written = counted.0.written ++ chunk_out chunk ∷ [] }) counted.1
          source in
      if ltb max_sse_event_bytes (byte_len arrived) then relayed 502 st else further

  unfoldable pub translate_native_stream : Text → List (Option (List ℕ)) → Streamed
  unfolding translate_stream anthropic_stream_event gemini_stream_event
  translate_native_stream format source =
      if text_eq format (codes "anthropic")
      then translate_stream (anthropic_stream_event from_str) initial [] source
      else translate_stream (gemini_stream_event from_str) initial [] source

  unfoldable pub translate_responses_stream : List (Option (List ℕ)) → Streamed
  unfolding translate_stream responses_stream_event
  translate_responses_stream source =
      translate_stream (responses_stream_event from_str) initial [] source

  unfoldable pub logged_passthrough_stream : List (Option (List ℕ)) → Streamed
  unfolding passthrough_stream
  logged_passthrough_stream source = passthrough_stream initial [] source
