-- ===== src/Proxy/Stream/Cut.antt =====
-- src/api/v1.rs: where chunks end between characters does not show in a translated stream.
use skyport.Proxy.Stream.Drain.{
  HasNoReturn, unix_lines-HasNoReturn, drain-none, drain-append, drain-IsLeft,
}
use skyport.Prelude.{
  ℕ, ◌+◌, ◌≤◌, ◌≡◌, refl, sym, ap, ◌∙◌, inl, inr, Bool, true, false, Option, none, some, List, [],
  ◌∷◌, ◌++◌, map, arith, ltb-eq-false, Bool-cases, length, Text, codes, text_eq, byte_len,
}
use skyport.Translate.Events.{anthropic_stream_event, gemini_stream_event}
use skyport.Json.{Json}
use skyport.Proxy.Stream.{
  Streaming, split_event, drain, Streamed, max_sse_event_bytes, initial, ended, translate_stream,
  translate_native_stream,
}

-- The bytes, or the texts, of all chunks.
abbrev pub joined : List (List ℕ) → List ℕ
joined [] = []
joined (c ∷ cs) = c ++ joined cs

append_nil : (p : Text) → p ++ [] ≡ p
append_nil [] = refl
append_nil (c ∷ p) = ap (λ r. c ∷ r) (append_nil p)

append_assoc : (a b c : Text) → (a ++ b) ++ c ≡ a ++ (b ++ c)
append_assoc [] b c = refl
append_assoc (x ∷ a) b c = ap (λ r. x ∷ r) (append_assoc a b c)

byte_len-append : (a b : Text) → byte_len (a ++ b) ≡ byte_len a + byte_len b
unfolding byte_len
byte_len-append [] b = omega arith
byte_len-append (x ∷ a) b = omega (arith, byte_len-append a b)

HasNoReturn-left : (a b : Text) → HasNoReturn (a ++ b) → HasNoReturn a
HasNoReturn-left [] b h = tt
HasNoReturn-left (x ∷ a) b (n, h) = (n, HasNoReturn-left a b h)

HasNoReturn-right : (a b : Text) → HasNoReturn (a ++ b) → HasNoReturn b
HasNoReturn-right [] b h = h
HasNoReturn-right (x ∷ a) b (n, h) = HasNoReturn-right a b h

HasNoReturn-append : (a b : Text) → HasNoReturn a → HasNoReturn b → HasNoReturn (a ++ b)
HasNoReturn-append [] b h k = k
HasNoReturn-append (x ∷ a) b (n, h) k = (n, HasNoReturn-append a b h k)

module _ (from_utf8_lossy : List ℕ → Text) (from_str : Text → Option Json)
    (translate : Text → Option Json × Bool) where
  module _ (st : Streaming) (pending : Text) (chunk : List ℕ) (source : List (Option (List ℕ)))
      (small : byte_len (pending ++ from_utf8_lossy chunk) ≤ max_sse_event_bytes)
      (clear : HasNoReturn (pending ++ from_utf8_lossy chunk)) where
    abbrev drained : Streaming × Text
    drained =
        drain from_str translate (length (pending ++ from_utf8_lossy chunk)) st
          (pending ++ from_utf8_lossy chunk)

    stream-done :
        drained.0.done ≡ true
        → translate_stream from_utf8_lossy from_str translate st pending (some chunk ∷ source)
          ≡ ended 200 drained.0
    unfolding translate_stream
    stream-done d =
        simp
          (
            unix_lines-HasNoReturn (pending ++ from_utf8_lossy chunk) clear,
            ltb-eq-false max_sse_event_bytes (byte_len (pending ++ from_utf8_lossy chunk)) small,
            d,
          )
          refl

    stream-more :
        drained.0.done ≡ false
        → translate_stream from_utf8_lossy from_str translate st pending (some chunk ∷ source)
          ≡ translate_stream from_utf8_lossy from_str translate drained.0 drained.1 source
    unfolding translate_stream
    stream-more d =
        simp
          (
            unix_lines-HasNoReturn (pending ++ from_utf8_lossy chunk) clear,
            ltb-eq-false max_sse_event_bytes (byte_len (pending ++ from_utf8_lossy chunk)) small,
            d,
          )
          refl

  abbrev all_at_once : Streaming → Text → Streamed
  all_at_once st whole = ended 200 (drain from_str translate (length whole) st whole).0

  translate_stream-all_at_once :
      (st : Streaming) (pending : Text) (chunks : List (List ℕ))
      → st.done ≡ false
      → split_event pending ≡ none
      → HasNoReturn (pending ++ joined (map from_utf8_lossy chunks))
      → byte_len (pending ++ joined (map from_utf8_lossy chunks)) ≤ max_sse_event_bytes
      → translate_stream from_utf8_lossy from_str translate st pending (map some chunks)
        ≡ all_at_once st (pending ++ joined (map from_utf8_lossy chunks))
  unfolding translate_stream
  translate_stream-all_at_once st pending [] going empty clear small = rw append_nil (
      ap (λ d. ended 200 d.0)
        (sym (drain-none from_str translate (length pending) st pending empty)))
  translate_stream-all_at_once st pending (c ∷ cs) going empty clear small =
      let later = joined (map from_utf8_lossy cs) in
      let assoc = append_assoc pending (from_utf8_lossy c) later in
      let clear' = rw (← assoc) at clear in
      let small' = rw (← assoc) at small in
      let here = pending ++ from_utf8_lossy c in
      let ok_here = HasNoReturn-left here later clear' in
      let bytes = byte_len-append here later in
      let fits : byte_len here ≤ max_sse_event_bytes = omega arith in
      let part = drain from_str translate (length here) st here in
      let (keeps, shrinks, left) =
        drain-IsLeft from_str translate (length here) st here (omega arith) in
      let (stops, goes_on) =
        drain-append from_str translate (length here) (length (here ++ later)) st here later going
          (omega arith) (omega arith) in
      elim (Bool-cases part.0.done) [
        | inl d ↦
            rw (← assoc) (
              stream-done st pending c (map some cs) fits ok_here d
              ∙ ap (ended 200) (sym (stops d)))
        | inr d ↦ rw (← assoc) (
            stream-more st pending c (map some cs) fits ok_here d
            ∙ translate_stream-all_at_once part.0 part.1 cs d (left d)
                (HasNoReturn-append part.1 later (keeps ok_here)
                  (HasNoReturn-right here later clear'))
                (omega (arith, byte_len-append part.1 later))
            ∙ ap (λ w. ended 200 w.0) (sym (goes_on d (length (part.1 ++ later)) (omega arith))))
      ]

-- No character is divided: the chunks decode one by one to what they decode to together.
abbrev pub Undivided : (List ℕ → Text) → List (List ℕ) → Type 0
Undivided from_utf8_lossy chunks =
    from_utf8_lossy (joined chunks) ≡ joined (map from_utf8_lossy chunks)

pub translate_stream-joined :
    (from_utf8_lossy : List ℕ → Text) (from_str : Text → Option Json)
    (translate : Text → Option Json × Bool) (chunks : List (List ℕ))
    → Undivided from_utf8_lossy chunks
    → HasNoReturn (from_utf8_lossy (joined chunks))
    → byte_len (from_utf8_lossy (joined chunks)) ≤ max_sse_event_bytes
    → translate_stream from_utf8_lossy from_str translate initial [] (map some chunks)
      ≡ translate_stream from_utf8_lossy from_str translate initial [] (some (joined chunks) ∷ [])
unfolding split_event
translate_stream-joined from_utf8_lossy from_str translate chunks undivided clear small =
    let same = append_nil (from_utf8_lossy (joined chunks)) in
    translate_stream-all_at_once from_utf8_lossy from_str translate initial [] chunks refl refl
      (rw undivided at clear) (rw undivided at small)
    ∙ ap (all_at_once from_utf8_lossy from_str translate initial) (sym undivided ∙ sym same)
    ∙ sym (
        translate_stream-all_at_once from_utf8_lossy from_str translate initial []
          (joined chunks ∷ []) refl refl (rw same clear) (rw same small))

-- However a provider's bytes are cut into chunks, if no character is divided between two of them, their
-- text has no carriage returns and at most 1 MiB, and no read fails, the client is written the same
-- events and the same usage is logged as for the bytes in one piece.
pub translate_native_stream-joined :
    (from_utf8_lossy : List ℕ → Text) (from_str : Text → Option Json) (format : Text)
    (chunks : List (List ℕ))
    → Undivided from_utf8_lossy chunks
    → HasNoReturn (from_utf8_lossy (joined chunks))
    → byte_len (from_utf8_lossy (joined chunks)) ≤ max_sse_event_bytes
    → translate_native_stream from_utf8_lossy from_str format (map some chunks)
      ≡ translate_native_stream from_utf8_lossy from_str format (some (joined chunks) ∷ [])
unfolding translate_native_stream
translate_native_stream-joined from_utf8_lossy from_str format chunks undivided clear small =
    elim (Bool-cases (text_eq format (codes "anthropic"))) [
      | inl e ↦ simp e (
          translate_stream-joined from_utf8_lossy from_str (anthropic_stream_event from_str) chunks
            undivided clear small)
      | inr e ↦ simp e (
          translate_stream-joined from_utf8_lossy from_str (gemini_stream_event from_str) chunks
            undivided clear small)
    ]
