-- ===== src/S3/Signing.antt =====
-- internal/s3server/auth.go: the pieces of the AWS signature, version 4, that the server computes
-- from the request itself. Characters are code points; `utf8` gives the bytes of one of them.
pub mod Encoding
pub mod Request
mod Tests
use dyson_fs.Base.{
  Bool, List, Text, [], codes, if◌then◌else◌, leb, ltb, not, ℕ, ◌%◌, ◌&&◌, ◌++◌, ◌+◌, ◌-◌, ◌/◌,
  ◌==◌, ◌||◌, ◌∷◌, nat_eq, text_equality,
}

unfoldable pub is_aws_unreserved : ℕ → Bool
is_aws_unreserved r =
    (leb b'A' r && leb r b'Z')
    || ((leb b'a' r && leb r b'z')
        || ((leb b'0' r && leb r b'9') || (r == b'-' || (r == b'.' || (r == b'_' || r == b'~')))))

-- strconv.FormatUint(c, 16) of one digit, in upper case
hex_digit : ℕ → ℕ
hex_digit d = if ltb d 10 then b'0' + d else b'A' + (d - 10)

-- `%`, a leading zero below 16, and the digits of a byte
unfoldable pub encode_byte : ℕ → Text
unfolding hex_digit
encode_byte c =
    if ltb c 16
    then b'%' ∷ b'0' ∷ hex_digit c ∷ []
    else b'%' ∷ hex_digit (c / 16) ∷ hex_digit (c % 16) ∷ []

unfoldable pub encode_bytes : List ℕ → Text
encode_bytes [] = []
encode_bytes (c ∷ cs) = encode_byte c ++ encode_bytes cs

-- utf8.EncodeRune on a valid code point
unfoldable pub utf8 : ℕ → List ℕ
utf8 r =
    if ltb r 0x80
    then r ∷ []
    else if ltb r 0x800
    then (0xc0 + r / 64) ∷ (0x80 + r % 64) ∷ []
    else if ltb r 0x10000
    then (0xe0 + r / 4096) ∷ (0x80 + r / 64 % 64) ∷ (0x80 + r % 64) ∷ []
    else (0xf0 + r / 262144) ∷ (0x80 + r / 4096 % 64) ∷ (0x80 + r / 64 % 64) ∷ (0x80 + r % 64) ∷ []

encode_rune : Bool → ℕ → Text
unfolding is_aws_unreserved utf8 encode_bytes
encode_rune encode_slash r =
    if is_aws_unreserved r || (not encode_slash && r == b'/') then r ∷ [] else encode_bytes (utf8 r)

unfoldable pub aws_percent_encode : Text → Bool → Text
unfolding encode_rune
aws_percent_encode [] encode_slash = []
aws_percent_encode (r ∷ s) encode_slash =
    encode_rune encode_slash r ++ aws_percent_encode s encode_slash

unfoldable pub canonicalize_uri : Text → Text
canonicalize_uri [] = codes "/"
canonicalize_uri (c ∷ path) = c ∷ path
