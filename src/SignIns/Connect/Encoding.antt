-- ===== src/SignIns/Connect/Encoding.antt =====
-- src/api/oauth.rs: `url_encode`, and that it can be undone.
use skyport.Prelude.{
  ℕ, ◌+◌, ◌-◌, ◌*◌, ◌/◌, ◌%◌, ◌<◌, ◌≡◌, refl, ap, ◌∙◌, ◌≢◌, inl, inr, Bool, ◌||◌, List, [], ◌∷◌,
  ◌++◌, arith, ltb, ◌==◌, if◌then◌else◌, Bool-cases, All, Text, is_ascii_alphanumeric,
}

-- `value.bytes()`: the UTF-8 bytes of a character, and of a text
abbrev utf8_char : ℕ → List ℕ
utf8_char c =
    if ltb c 0x80
    then c ∷ []
    else if ltb c 0x800
    then (0xc0 + c / 64) ∷ (0x80 + c % 64) ∷ []
    else if ltb c 0x10000
    then (0xe0 + c / 4096) ∷ (0x80 + c / 64 % 64) ∷ (0x80 + c % 64) ∷ []
    else (0xf0 + c / 262144) ∷ (0x80 + c / 4096 % 64) ∷ (0x80 + c / 64 % 64) ∷ (0x80 + c % 64) ∷ []

abbrev pub utf8 : Text → List ℕ
utf8 [] = []
utf8 (c ∷ s) = utf8_char c ++ utf8 s

abbrev is_unreserved : ℕ → Bool
is_unreserved b = is_ascii_alphanumeric b || b == b'-' || b == b'_' || b == b'.' || b == b'~'

-- one digit of `{:02X}`
abbrev hex_digit : ℕ → ℕ
hex_digit d = if ltb d 10 then b'0' + d else b'A' + (d - 10)

unfoldable pub encode_byte : ℕ → Text
encode_byte b =
    if is_unreserved b then b ∷ [] else b'%' ∷ hex_digit (b / 16) ∷ hex_digit (b % 16) ∷ []

unfoldable pub encode_bytes : List ℕ → Text
unfolding encode_byte
encode_bytes [] = []
encode_bytes (b ∷ bytes) = encode_byte b ++ encode_bytes bytes

unfoldable pub url_encode : Text → Text
unfolding encode_bytes
url_encode value = encode_bytes (utf8 value)

-- RFC 3986's percent-decoding, for texts in which two digits follow every percent sign.
abbrev digit_value : ℕ → ℕ
digit_value c = if ltb c b'A' then c - b'0' else c - b'A' + 10

unfoldable pub percent_decode : Text → List ℕ
percent_decode [] = []
percent_decode (c ∷ []) = c ∷ []
percent_decode (c ∷ d ∷ []) = c ∷ d ∷ []
percent_decode (c ∷ d ∷ e ∷ s) =
    let after_escape = percent_decode s in
    let after_char = percent_decode (d ∷ e ∷ s) in
    if c == b'%' then (digit_value d * 16 + digit_value e) ∷ after_escape else c ∷ after_char

percent_decode-char : (c : ℕ) (s : Text) → c ≢ b'%' → percent_decode (c ∷ s) ≡ c ∷ percent_decode s
unfolding percent_decode
percent_decode-char c [] n = refl
percent_decode-char c (d ∷ []) n = refl
percent_decode-char c (d ∷ e ∷ s) n = ground arith

digit_value-hex_digit : (d : ℕ) → d < 16 → digit_value (hex_digit d) ≡ d
digit_value-hex_digit d h = ground arith

percent_decode-encode_byte :
    (b : ℕ) (s : Text) → b < 256 → percent_decode (encode_byte b ++ s) ≡ b ∷ percent_decode s
unfolding percent_decode encode_byte
percent_decode-encode_byte b s h = elim (Bool-cases (is_unreserved b)) [
  | inl plain ↦ rw plain (percent_decode-char b s (λ e. absurd (ground arith)))
  | inr escaped ↦
      let high = digit_value-hex_digit (b / 16) (omega arith) in
      let low = digit_value-hex_digit (b % 16) (omega arith) in
      let whole : b / 16 * 16 + b % 16 ≡ b = omega arith in rw (escaped, high, low, whole) refl
]

percent_decode-encode_bytes :
    (bytes : List ℕ) → All (λ b. b < 256) bytes → percent_decode (encode_bytes bytes) ≡ bytes
unfolding percent_decode encode_bytes
percent_decode-encode_bytes [] h = refl
percent_decode-encode_bytes (b ∷ bytes) (small, h) =
    percent_decode-encode_byte b (encode_bytes bytes) small
    ∙ ap (λ r. b ∷ r) (percent_decode-encode_bytes bytes h)

All-append {ℓ κ} :
    {A : Type ℓ} (P : A → Type κ) (xs ys : List A) → All P xs → All P ys → All P (xs ++ ys)
All-append P [] ys h k = k
All-append P (x ∷ xs) ys (p, h) k = (p, All-append P xs ys h k)

utf8_char-lt : (c : ℕ) → c < 0x110000 → All (λ b. b < 256) (utf8_char c)
utf8_char-lt c h = elim (Bool-cases (ltb c 0x80)) [
  | inl one ↦ rw one (ground arith, tt)
  | inr more ↦ elim (Bool-cases (ltb c 0x800)) [
    | inl two ↦ rw (more, two) (ground arith, (ground arith, tt))
    | inr more' ↦ elim (Bool-cases (ltb c 0x10000)) [
      | inl three ↦ rw (more, more', three) (ground arith, (ground arith, (ground arith, tt)))
      | inr four ↦
          rw (more, more', four) (ground arith, (ground arith, (ground arith, (ground arith, tt))))
    ]
  ]
]

utf8-lt : (s : Text) → All (λ c. c < 0x110000) s → All (λ b. b < 256) (utf8 s)
utf8-lt [] h = tt
utf8-lt (c ∷ s) (small, h) =
    All-append (λ b. b < 256) (utf8_char c) (utf8 s) (utf8_char-lt c small) (utf8-lt s h)

-- What a parameter of the authorization URL is made of comes back, byte for byte, when the provider
-- undoes the percent-encoding.
pub percent_decode-url_encode :
    (value : Text) → All (λ c. c < 0x110000) value → percent_decode (url_encode value) ≡ utf8 value
unfolding url_encode
percent_decode-url_encode value h = percent_decode-encode_bytes (utf8 value) (utf8-lt value h)
