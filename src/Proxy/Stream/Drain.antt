-- ===== src/Proxy/Stream/Drain.antt =====
-- src/api/v1.rs: the loop over the complete events of what has arrived.
use skyport.Prelude.{
  ℕ, zero, suc, ◌≤◌, ◌<◌, ◌≡◌, refl, sym, subst, ◌∙◌, ◌≢◌, inl, inr, Bool, true, false, ◌&&◌,
  Option, none, some, [], ◌∷◌, ◌++◌, arith, ◌==◌, Bool-cases, Option-cases, length, length-append,
  All, Text, byte_len, lines,
}
use skyport.Json.{Json}
use skyport.Proxy.Stream.{Streaming, unix_lines, after_event, split_event, on_lines, drain}

-- A text without carriage returns.
abbrev pub HasNoReturn : Text → Type 0
HasNoReturn = All (λ c. c ≢ b'\r')

pub unix_lines-HasNoReturn : (s : Text) → HasNoReturn s → unix_lines s ≡ s
unfolding unix_lines
unix_lines-HasNoReturn [] h = refl
unix_lines-HasNoReturn (c ∷ s) (n, h) = ground (arith, unix_lines-HasNoReturn s h)

after_event-append :
    (c : ℕ) (q : Text) (o o' : Option (Text × Text)) (event rest : Text)
    → ((e r : Text) → o ≡ some (e, r) → o' ≡ some (e, r ++ q))
    → after_event c o ≡ some (event, rest)
    → after_event c o' ≡ some (event, rest ++ q)
after_event-append c q none o' event rest later h = cc h
after_event-append c q (some (e, r)) o' event rest later h =
    let first : c ∷ e ≡ event = ground arith in
    let same : r ≡ rest = ground arith in rw (later e r refl, first, same) refl

-- An event that is complete stays so when more arrives.
split_event-append :
    (p q event rest : Text)
    → split_event p ≡ some (event, rest)
    → split_event (p ++ q) ≡ some (event, rest ++ q)
unfolding split_event
split_event-append [] q event rest h = cc h
split_event-append (c ∷ []) q event rest h = cc h
split_event-append (c ∷ d ∷ s) q event rest h = elim (Bool-cases (c == b'\n' && d == b'\n')) [
  | inl e ↦ ground (arith, e)
  | inr e ↦ simp e (
      after_event-append c q (split_event (d ∷ s)) (split_event (d ∷ s ++ q)) event rest
        (λ e' r'. split_event-append (d ∷ s) q e' r') (simp e at h))
]

-- What follows an event is shorter, and has no carriage returns if the whole has none.
abbrev IsRestOf : Text → Option (Text × Text) → Type 0
IsRestOf p none = Unit
IsRestOf p (some (event, rest)) =
    (length rest < length p) × (HasNoReturn p → HasNoReturn rest) × (byte_len rest ≤ byte_len p)

after_event-IsRestOf :
    (c : ℕ) (p : Text) (o : Option (Text × Text))
    → IsRestOf p o
    → IsRestOf (c ∷ p) (after_event c o)
unfolding byte_len
after_event-IsRestOf c p none h = tt
after_event-IsRestOf c p (some (event, rest)) (shorter, keeps, small) =
    (omega arith, λ k. keeps k.1, omega arith)

pub split_event-IsRestOf : (p : Text) → IsRestOf p (split_event p)
unfolding split_event byte_len
split_event-IsRestOf [] = tt
split_event-IsRestOf (c ∷ []) = tt
split_event-IsRestOf (c ∷ d ∷ s) = elim (Bool-cases (c == b'\n' && d == b'\n')) [
  | inl e ↦ simp e (omega arith, λ k. k.1.1, omega arith)
  | inr e ↦
      simp e (after_event-IsRestOf c (d ∷ s) (split_event (d ∷ s)) (split_event-IsRestOf (d ∷ s)))
]

module _ (from_str : Text → Option Json) (translate : Text → Option Json × Bool) where
  abbrev after_lines : Streaming → Text → Streaming
  after_lines st event = on_lines from_str translate st (lines event)

  pub drain-none :
      (n : ℕ) (st : Streaming) (p : Text)
      → split_event p ≡ none
      → drain from_str translate n st p ≡ (st, p)
  unfolding drain
  drain-none zero st p h = refl
  drain-none (suc n) st p h = ground (arith, h)

  drain-done :
      (n : ℕ) (st : Streaming) (p event rest : Text)
      → split_event p ≡ some (event, rest)
      → (after_lines st event).done ≡ true
      → drain from_str translate (suc n) st p ≡ (after_lines st event, rest)
  unfolding drain
  drain-done n st p event rest h e = ground (arith, h, e)

  drain-more :
      (n : ℕ) (st : Streaming) (p event rest : Text)
      → split_event p ≡ some (event, rest)
      → (after_lines st event).done ≡ false
      → drain from_str translate (suc n) st p
        ≡ drain from_str translate n (after_lines st event) rest
  unfolding drain
  drain-more n st p event rest h e = ground (arith, h, e)

  pub split_event-empty : (p : Text) → length p ≤ 0 → split_event p ≡ none
  unfolding split_event
  split_event-empty [] h = refl
  split_event-empty (c ∷ p) h = absurd (omega arith)

  split_event-shorter :
      (p event rest : Text) → split_event p ≡ some (event, rest) → length rest < length p
  split_event-shorter p event rest e = (subst (IsRestOf p) e (split_event-IsRestOf p)).0

  -- Fuel beyond the length of the text makes no difference.
  drain-fuel :
      (n m : ℕ) (st : Streaming) (p : Text)
      → length p ≤ n
      → length p ≤ m
      → drain from_str translate n st p ≡ drain from_str translate m st p
  drain-fuel zero m st p hn hm =
      let e = split_event-empty p hn in drain-none zero st p e ∙ sym (drain-none m st p e)
  drain-fuel (suc n) zero st p hn hm =
      let e = split_event-empty p hm in drain-none (suc n) st p e ∙ sym (drain-none zero st p e)
  drain-fuel (suc n) (suc m) st p hn hm = elim (Option-cases (split_event p)) [
    | inl e ↦ drain-none (suc n) st p e ∙ sym (drain-none (suc m) st p e)
    | inr ((event, rest), e) ↦
        let shorter = split_event-shorter p event rest e in
        elim (Bool-cases (after_lines st event).done) [
          | inl d ↦ drain-done n st p event rest e d ∙ sym (drain-done m st p event rest e d)
          | inr d ↦
              drain-more n st p event rest e d
              ∙ drain-fuel n m (after_lines st event) rest (omega arith) (omega arith)
              ∙ sym (drain-more m st p event rest e d)
        ]
  ]

  -- Where the loop over a first part ends, the loop over the whole is, or goes on from there.
  abbrev pub Composes : Text → Streaming × Text → Streaming × Text → Type 0
  Composes q whole (st, rest) =
      (st.done ≡ true → whole.0 ≡ st)
      × (st.done ≡ false
          → (n : ℕ) → length (rest ++ q) ≤ n
          → whole ≡ drain from_str translate n st (rest ++ q))

  Composes-none :
      (m n : ℕ) (st : Streaming) (p q : Text)
      → st.done ≡ false
      → length (p ++ q) ≤ n
      → split_event p ≡ none
      → Composes q (drain from_str translate n st (p ++ q)) (drain from_str translate m st p)
  Composes-none m n st p q going hn e =
      subst (Composes q (drain from_str translate n st (p ++ q))) (sym (drain-none m st p e))
        (λ d. cc (d, going), λ _ n' h. drain-fuel n n' st (p ++ q) hn h)

  pub drain-append :
      (m n : ℕ) (st : Streaming) (p q : Text)
      → st.done ≡ false
      → length p ≤ m
      → length (p ++ q) ≤ n
      → Composes q (drain from_str translate n st (p ++ q)) (drain from_str translate m st p)
  drain-append zero n st p q going hm hn =
      Composes-none zero n st p q going hn (split_event-empty p hm)
  drain-append (suc m) zero st p q going hm hn =
      Composes-none (suc m) zero st p q going hn
        (split_event-empty p (omega (arith, length-append p q)))
  drain-append (suc m) (suc n) st p q going hm hn = elim (Option-cases (split_event p)) [
    | inl e ↦ Composes-none (suc m) (suc n) st p q going hn e
    | inr ((event, rest), e) ↦
        let shorter = split_event-shorter p event rest e in
        let e' = split_event-append p q event rest e in
        elim (Bool-cases (after_lines st event).done) [
          | inl d ↦
              rw (drain-done m st p event rest e d, drain-done n st (p ++ q) event (rest ++ q) e' d)
                (λ _. refl, λ k. cc (k, d))
          | inr d ↦
              rw (drain-more m st p event rest e d, drain-more n st (p ++ q) event (rest ++ q) e' d)
                (drain-append m n (after_lines st event) rest q d (omega arith)
                  (omega (arith, length-append p q, length-append rest q)))
        ]
  ]

  -- What the loop leaves of a text.
  abbrev pub IsLeft : Text → Streaming × Text → Type 0
  IsLeft p (st, rest) =
      (HasNoReturn p → HasNoReturn rest)
      × (byte_len rest ≤ byte_len p)
      × (st.done ≡ false → split_event rest ≡ none)

  pub drain-IsLeft :
      (n : ℕ) (st : Streaming) (p : Text)
      → length p ≤ n
      → IsLeft p (drain from_str translate n st p)
  drain-IsLeft zero st p h =
      let e = split_event-empty p h in
      subst (IsLeft p) (sym (drain-none zero st p e)) (λ k. k, omega arith, λ _. e)
  drain-IsLeft (suc n) st p h = elim (Option-cases (split_event p)) [
    | inl e ↦ subst (IsLeft p) (sym (drain-none (suc n) st p e)) (λ k. k, omega arith, λ _. e)
    | inr ((event, rest), e) ↦
        let (shorter, keeps, small) = subst (IsRestOf p) e (split_event-IsRestOf p) in
        elim (Bool-cases (after_lines st event).done) [
          | inl d ↦
              subst (IsLeft p) (sym (drain-done n st p event rest e d))
                (keeps, small, λ k. cc (k, d))
          | inr d ↦
              let (keeps', small', left) =
                drain-IsLeft n (after_lines st event) rest (omega arith) in
              subst (IsLeft p) (sym (drain-more n st p event rest e d))
                (λ k. keeps' (keeps k), omega arith, left)
        ]
  ]
