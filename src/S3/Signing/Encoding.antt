-- ===== src/S3/Signing/Encoding.antt =====
-- Percent encoding loses nothing, and leaves only characters that a signature may hold.
use dyson_fs.Base.{
  All, All-append, Bool-cases, List, Option, Text, [], ap, append_assoc, arith, false,
  if◌then◌else◌, inl, inr, leb, ltb, none, refl, some, true, ℕ, ◌%◌, ◌&&◌, ◌*◌, ◌++◌, ◌+◌, ◌-◌, ◌/◌,
  ◌<◌, ◌==◌, ◌||◌, ◌∙◌, ◌∷◌, ◌≡◌, ◌≢◌, nat_eq, text_equality,
}
use dyson_fs.S3.Signing.{
  encode_byte, is_aws_unreserved, encode_bytes, utf8, aws_percent_encode, hex_digit, encode_rune,
}

-- Percent decoding, as a machine: outside an escape, behind `%`, behind the first digit.
pub data Mode : Type 0 where
  outside : Mode
  escaped : Mode
  half : ℕ → Mode

hex_value : ℕ → Option ℕ
hex_value c =
    if leb b'0' c && leb c b'9'
    then some (c - b'0')
    else if leb b'A' c && leb c b'F'
    then some (c - b'A' + 10)
    else none

push : ℕ → Option (List ℕ) → Option (List ℕ)
push c none = none
push c (some s) = some (c ∷ s)

run : Mode → Text → Option (List ℕ)
unfolding hex_value push
run outside [] = some []
run _ [] = none
run outside (c ∷ s) =
    let opened = run escaped s in
    let plain = push c (run outside s) in if c == b'%' then opened else plain
run escaped (c ∷ s) = elim (hex_value c) [ none ↦ none | some h ↦ run (half h) s ]
run (half h) (c ∷ s) = elim (hex_value c) [
  | none ↦ none
  | some l ↦ push (16 * h + l) (run outside s)
]

pub percent_decode : Text → Option (List ℕ)
unfolding run
percent_decode s = run outside s

abbrev pub IsCodePoint : ℕ → Type 0
IsCodePoint r = r < 0x110000

hex_value-hex_digit : (d : ℕ) → d < 16 → hex_value (hex_digit d) ≡ some d
unfolding hex_value hex_digit
hex_value-hex_digit d h = ground arith

run-encode_byte :
    (c : ℕ) (t : Text) → c < 256 → run outside (encode_byte c ++ t) ≡ push c (run outside t)
unfolding encode_byte run
run-encode_byte c t h = elim (Bool-cases (ltb c 16)) [
  | inl low ↦ rw low (ground (arith, hex_value-hex_digit c, hex_value-hex_digit 0))
  | inr high ↦ rw high (ground (arith, hex_value-hex_digit (c / 16), hex_value-hex_digit (c % 16)))
]

push_all : List ℕ → Option (List ℕ) → Option (List ℕ)
push_all [] o = o
push_all (c ∷ cs) o = push c (push_all cs o)

run-encode_bytes :
    (cs : List ℕ) (t : Text)
    → All (λ c. c < 256) cs
    → run outside (encode_bytes cs ++ t) ≡ push_all cs (run outside t)
unfolding encode_bytes push_all
run-encode_bytes [] t h = refl
run-encode_bytes (c ∷ cs) t h =
    rw append_assoc
      (run-encode_byte c (encode_bytes cs ++ t) h.0 ∙ ap (push c) (run-encode_bytes cs t h.1))

utf8-bytes : (r : ℕ) → IsCodePoint r → All (λ c. c < 256) (utf8 r)
unfolding utf8
utf8-bytes r h = ground arith

unreserved_plain : (r : ℕ) → is_aws_unreserved r ≡ true → (r < 128) × (r ≢ b'%')
unfolding is_aws_unreserved
unreserved_plain r h = (ground arith, ground arith)

utf8-plain : (r : ℕ) → r < 128 → utf8 r ≡ r ∷ []
unfolding utf8
utf8-plain r h = ground arith

run_plain : (r : ℕ) (t : Text) → r ≢ b'%' → run outside (r ∷ t) ≡ push r (run outside t)
unfolding run
run_plain r t h = ground arith

encode_rune_plain : (r : ℕ) → is_aws_unreserved r ≡ true → encode_rune true r ≡ r ∷ []
unfolding encode_rune
encode_rune_plain r h = rw h

encode_rune_other :
    (r : ℕ) → is_aws_unreserved r ≡ false → encode_rune true r ≡ encode_bytes (utf8 r)
unfolding encode_rune
encode_rune_other r h = rw h

run-encode_rune :
    (r : ℕ) (t : Text)
    → IsCodePoint r
    → run outside (encode_rune true r ++ t) ≡ push_all (utf8 r) (run outside t)
unfolding push_all
run-encode_rune r t h = elim (Bool-cases (is_aws_unreserved r)) [
  | inl plain ↦
      let (small, other) = unreserved_plain r plain in
      rw (encode_rune_plain r plain, utf8-plain r small) (run_plain r t other)
  | inr other ↦ rw (encode_rune_other r other) (run-encode_bytes (utf8 r) t (utf8-bytes r h))
]

-- The bytes of a text in UTF-8.
abbrev pub text_bytes : Text → List ℕ
text_bytes [] = []
text_bytes (r ∷ s) = utf8 r ++ text_bytes s

push_all-some : (cs ds : List ℕ) → push_all cs (some ds) ≡ some (cs ++ ds)
unfolding push_all push
push_all-some [] ds = refl
push_all-some (c ∷ cs) ds = rw (push_all-some cs ds)

-- Percent decoding an encoded text gives the bytes of the text in UTF-8, so encoding is injective
-- on their bytes; the text consists of code points.
pub percent_decode-aws_percent_encode :
    (s : Text)
    → All IsCodePoint s
    → percent_decode (aws_percent_encode s true) ≡ some (text_bytes s)
unfolding percent_decode aws_percent_encode
percent_decode-aws_percent_encode [] h = unfold run in refl
percent_decode-aws_percent_encode (r ∷ s) h =
    run-encode_rune r (aws_percent_encode s true) h.0
    ∙ ap (push_all (utf8 r)) (percent_decode-aws_percent_encode s h.1)
    ∙ push_all-some (utf8 r) (text_bytes s)

abbrev pub IsSafe : ℕ → Type 0
IsSafe c = ((is_aws_unreserved c || c == b'%') ≡ true)

encode_byte-IsSafe : (c : ℕ) → c < 256 → All IsSafe (encode_byte c)
unfolding encode_byte is_aws_unreserved hex_digit
encode_byte-IsSafe c h = ground arith

encode_bytes-IsSafe : (cs : List ℕ) → All (λ c. c < 256) cs → All IsSafe (encode_bytes cs)
unfolding encode_bytes
encode_bytes-IsSafe [] h = tt
encode_bytes-IsSafe (c ∷ cs) h =
    All-append IsSafe (encode_byte c) _ (encode_byte-IsSafe c h.0) (encode_bytes-IsSafe cs h.1)

encode_rune-IsSafe : (r : ℕ) → IsCodePoint r → All IsSafe (encode_rune true r)
encode_rune-IsSafe r h = elim (Bool-cases (is_aws_unreserved r)) [
  | inl plain ↦ rw (encode_rune_plain r plain) (rw plain refl, tt)
  | inr other ↦ rw (encode_rune_other r other) (encode_bytes-IsSafe (utf8 r) (utf8-bytes r h))
]

-- Every character of an encoded text is unreserved or a percent sign.
pub aws_percent_encode-IsSafe :
    (s : Text) → All IsCodePoint s → All IsSafe (aws_percent_encode s true)
unfolding aws_percent_encode
aws_percent_encode-IsSafe [] h = tt
aws_percent_encode-IsSafe (r ∷ s) h =
    All-append IsSafe (encode_rune true r) _ (encode_rune-IsSafe r h.0)
      (aws_percent_encode-IsSafe s h.1)
