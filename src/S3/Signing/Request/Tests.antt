-- ===== src/S3/Signing/Request/Tests.antt =====
-- A signed request at concrete inputs, with digests that are constant.
use mathlib.Core.List.Perm
use dyson_fs.Base.{
  List, Option, Text, [], codes, contains, drop_prefix, has_prefix, if◌then◌else◌, is_space, keep,
  none, refl, some, split_two, text_discrete, text_leb, trim_prefix, trim_space, ℕ_discrete, ◌==◌,
  ◌∷◌, ◌≡◌, nat_eq, text_equality,
}
use dyson_fs.S3.Signing.{aws_percent_encode, encode_byte}
use dyson_fs.S3.Signing.Request.{
  HttpRequest, Library, split_on, split_at_most, join, credential_of, parse_fields,
  parse_authorization, fields, canonicalize_header_value, pair_leb, insert_pair, sort_pairs,
  encode_pair, canonical_pairs, first_value, compute_signature, request_date, find_secret,
  authenticate_request,
}
use dyson_fs.S3.Signing.Request.Sorting.{canonical_pairs_perm}

program : Unit {0}
unfolding split_on split_at_most join credential_of parse_fields parse_authorization first_value
    find_secret authenticate_request compute_signature request_date split_two has_prefix trim_prefix
    drop_prefix trim_space contains text_discrete ℕ_discrete pair_leb insert_pair sort_pairs
    encode_pair canonical_pairs text_leb aws_percent_encode fields canonicalize_header_value keep
    is_space
program = tt

abbrev x_y : List (Text × Text)
x_y = (codes "b", codes "1 2") ∷ (codes "a", []) ∷ []

abbrev y_x : List (Text × Text)
y_x = (codes "a", []) ∷ (codes "b", codes "1 2") ∷ []

query_sorted : canonical_pairs x_y ≡ codes "a=&b=1%202"
unfolding program encode_byte
query_sorted = refl

canonical_pairs_perm_example : canonical_pairs x_y ≡ canonical_pairs y_x
canonical_pairs_perm_example =
    canonical_pairs_perm x_y y_x (Perm.swap (codes "a", []) (codes "b", codes "1 2") [])

header_folded :
    canonicalize_header_value (codes "  a   b " ∷ codes " " ∷ codes "c" ∷ []) ≡ codes "a b,c"
unfolding program
header_folded = refl

abbrev library : Library
library = record {
  parse_query = λ q. [];
  parse_time = λ date. some 1000;
  sha256 = λ s. codes "h";
  hmac = λ key message. codes "m";
  hex = λ s. codes "sig";
}

abbrev request_of : Text → HttpRequest
request_of auth = record {
  method = codes "GET";
  host = codes "localhost";
  path = codes "/b/k";
  raw_path = [];
  raw_query = [];
  header = λ name.
      if name == codes "Authorization"
      then auth ∷ []
      else if name == codes "X-Amz-Date"
      then codes "20200101T000000Z" ∷ []
      else [];
}

abbrev authorized : Text
authorized =
    codes
      "AWS4-HMAC-SHA256 Credential=AK/20200101/us/s3/aws4_request, SignedHeaders=host;x-amz-date, Signature=sig"

abbrev found : Text × Option Text
found = (codes "secret", none)

accepted :
    authenticate_request library 1900 (request_of authorized) (codes "AK") (codes "secret") none
    ≡ some found
unfolding program
accepted = refl

-- The date of a request is compared with the clock on one side only.
future_accepted :
    authenticate_request library 0 (request_of authorized) (codes "AK") (codes "secret") none
    ≡ some found
unfolding program
future_accepted = refl
