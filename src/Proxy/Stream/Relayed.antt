-- ===== src/Proxy/Stream/Relayed.antt =====
-- src/api/v1.rs: what a stream of an OpenAI-compatible provider brings is passed on as it came.
use skyport.Prelude.{
  ℕ, zero, suc, ◌≡◌, refl, ap, ◌∙◌, inl, inr, Option, none, some, List, [], ◌∷◌, ◌++◌, map, arith,
  ltb, Bool-cases, Option-cases, length, all, Text, codes, strip_prefix, byte_len, lines,
}
use skyport.Json.{Json}
use skyport.Proxy.Stream.{
  Output, chunk_out, Streaming, Streamed, max_sse_event_bytes, initial, unix_lines, split_event,
  count_line, count_lines, count_events, passthrough_stream, logged_passthrough_stream,
}

append_assoc : (a b c : List Output) → a ++ b ++ c ≡ a ++ (b ++ c)
append_assoc [] b c = refl
append_assoc (x ∷ a) b c = ap (λ r. x ∷ r) (append_assoc a b c)

append_nil : (a : List Output) → a ≡ a ++ []
append_nil [] = refl
append_nil (x ∷ a) = ap (λ r. x ∷ r) (append_nil a)

module _ (from_str : Text → Option Json) where
  count_line-written :
      (st : Streaming) (payload : Option Text)
      → (count_line from_str st payload).written ≡ st.written
  count_line-written st none = refl
  count_line-written st (some payload) = refl

  count_lines-written :
      (st : Streaming) (ls : List Text) → (count_lines from_str st ls).written ≡ st.written
  unfolding count_lines
  count_lines-written st [] = refl
  count_lines-written st (line ∷ ls) =
      count_lines-written (count_line from_str st (strip_prefix (codes "data: ") line)) ls
      ∙ count_line-written st (strip_prefix (codes "data: ") line)

  count_events-written :
      (n : ℕ) (st : Streaming) (pending : Text)
      → (count_events from_str n st pending).0.written ≡ st.written
  unfolding count_events
  count_events-written zero st pending = refl
  count_events-written (suc n) st pending = elim (Option-cases (split_event pending)) [
    | inl e ↦ ground (arith, e)
    | inr ((event, rest), e) ↦ ground (
      arith,
      e,
      count_events-written n (count_lines from_str st (lines event)) rest,
      count_lines-written st (lines event),
    )
  ]

module _ (from_utf8_lossy : List ℕ → Text) (from_str : Text → Option Json) where
  -- Every read succeeded, and all chunks were passed on, in their order.
  abbrev pub Relays : List Output → List (Option (List ℕ)) → Streamed → Type 0
  Relays before source streamed =
      (chunks : List (List ℕ)) × (source ≡ map some chunks)
      × (streamed.written ≡ before ++ map chunk_out chunks)

  passthrough_stream-Relays :
      (st : Streaming) (pending : Text) (source : List (Option (List ℕ)))
      → (passthrough_stream from_utf8_lossy from_str st pending source).status ≡ 200
      → Relays st.written source (passthrough_stream from_utf8_lossy from_str st pending source)
  unfolding passthrough_stream
  passthrough_stream-Relays st pending [] h = ([], refl, append_nil st.written)
  passthrough_stream-Relays st pending (none ∷ source) h = absurd (ground arith)
  passthrough_stream-Relays st pending (some c ∷ source) h =
      let received = unix_lines (pending ++ from_utf8_lossy c) in
      let counted = count_events from_str (length received) st received in
      let next = record counted.0 { written = counted.0.written ++ chunk_out c ∷ [] } in
      elim (Bool-cases (ltb max_sse_event_bytes (byte_len (pending ++ from_utf8_lossy c)))) [
        | inl late ↦ absurd (ground (arith, late, h))
        | inr fits ↦
            let (chunks, all, out) =
              passthrough_stream-Relays next counted.1 source (simp fits at h) in
            let kept = count_events-written from_str (length received) st received in
            (
              c ∷ chunks,
              ap (λ r. some c ∷ r) all,
              simp fits (
                  out
                  ∙ ap (λ w. w ++ chunk_out c ∷ [] ++ map chunk_out chunks) kept
                  ∙ append_assoc st.written (chunk_out c ∷ []) (map chunk_out chunks)),
            )
      ]

  -- A passed-on stream that is logged with status 200 has given the client the bytes of every chunk
  -- of the provider, unchanged and in order, and no read failed.
  pub logged_passthrough_stream-Relays :
      (source : List (Option (List ℕ)))
      → (logged_passthrough_stream from_utf8_lossy from_str source).status ≡ 200
      → Relays [] source (logged_passthrough_stream from_utf8_lossy from_str source)
  unfolding logged_passthrough_stream
  logged_passthrough_stream-Relays source h = passthrough_stream-Relays initial [] source h
