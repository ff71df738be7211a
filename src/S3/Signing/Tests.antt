-- ===== src/S3/Signing/Tests.antt =====
-- Percent encoding at concrete inputs.
use dyson_fs.Base.{All, Text, [], arith, codes, refl, some, true, ℕ_discrete, ◌++◌, ◌∷◌, ◌≡◌}
use dyson_fs.S3.Signing.{aws_percent_encode, encode_byte}
use dyson_fs.S3.Signing.Encoding.{
  percent_decode, text_bytes, percent_decode-aws_percent_encode, IsSafe, aws_percent_encode-IsSafe,
}

-- a slash, a space, and a character of three bytes
abbrev sample : Text
sample = codes "a/ b" ++ 0x20ac ∷ []

sample_encoded : aws_percent_encode sample true ≡ codes "a%2F%20b%E2%82%AC"
unfolding aws_percent_encode encode_byte ℕ_discrete
sample_encoded = refl

percent_decode-aws_percent_encode_example :
    percent_decode (aws_percent_encode sample true) ≡ some (text_bytes sample)
percent_decode-aws_percent_encode_example = percent_decode-aws_percent_encode sample (omega arith)

aws_percent_encode-IsSafe_example : All IsSafe (aws_percent_encode sample true)
aws_percent_encode-IsSafe_example = aws_percent_encode-IsSafe sample (omega arith)
