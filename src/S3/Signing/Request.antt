-- ===== src/S3/Signing/Request.antt =====
-- internal/s3server/auth.go: a request, its canonical form, its signature and its authentication.
pub mod Sorting
mod Tests
use dyson_fs.Base.{
  Bool, List, Option, Text, [], codes, has_prefix, if◌then◌else◌, is_space, keep, length, ltb, map,
  none, not, put_row, row_at, some, sort_texts, split_two, suc, take, text_leb, to_lower,
  trim_prefix, trim_space, true, zero, ℕ, ◌++◌, ◌+◌, ◌==◌, ◌||◌, ◌∷◌, nat_eq, text_equality,
}
use dyson_fs.S3.Signing.{aws_percent_encode, canonicalize_uri}

-- `header` is the lookup of net/http: the values of a header, whatever the case of its name.
pub record HttpRequest : Type 0 where
  pub method : Text
  pub host : Text
  pub path : Text
  pub raw_path : Text
  pub raw_query : Text
  pub header : Text → List Text

-- The functions of Go's library that the signature is made of: url.ParseQuery as the pairs of its
-- map, time.Parse in the two formats as seconds, and the digests in hexadecimal.
pub record Library : Type 0 where
  pub parse_query : Text → List (Text × Text)
  pub parse_time : Text → Option ℕ
  pub sha256 : Text → Text
  pub hmac : Text → Text → Text
  pub hex : Text → Text

pub record Credentials : Type 0 where
  pub access_key : Text
  pub region : Text
  pub service : Text
  pub request : Text

-- strings.Split and strings.SplitN with a separator of one character
unfoldable pub split_on : ℕ → Text → List Text
split_on sep [] = [] ∷ []
split_on sep (c ∷ s) =
    let rest = split_on sep s in
    if c == sep
    then [] ∷ rest
    else elim rest [ [] ↦ (c ∷ []) ∷ [] | word ∷ words ↦ (c ∷ word) ∷ words ]

unfoldable pub split_at_most : ℕ → ℕ → Text → List Text
split_at_most zero sep s = s ∷ []
split_at_most (suc n) sep s =
    let (word, rest) = split_two sep s in
    elim rest [ none ↦ word ∷ [] | some t ↦ word ∷ split_at_most n sep t ]

unfoldable pub join : Text → List Text → Text
join sep [] = []
join sep (s ∷ l) = let rest = join sep l in elim l [ [] ↦ s | _ ∷ _ ↦ s ++ sep ++ rest ]

pub record Authorization : Type 0 where
  pub cred : Credentials
  pub signed_headers : List Text
  pub signature : Text

abbrev pub no_authorization : Authorization
no_authorization = record {
  cred = record { access_key = []; region = []; service = []; request = [] };
  signed_headers = [];
  signature = [];
}

-- The credential of a part; `none` unless it has five fields.
unfoldable pub credential_of : List Text → Option Credentials
credential_of (key ∷ date ∷ region ∷ service ∷ request ∷ []) =
    some (record { access_key = key; region = region; service = service; request = request })
credential_of parts = none

-- The loop over the parts; `none` is the early return.
unfoldable pub parse_fields : List Text → Authorization → Option Authorization
parse_fields [] a = some a
parse_fields (raw ∷ parts) a =
    let part = trim_space raw in
    let with_headers =
      parse_fields parts
        (record a { signed_headers = split_on b';' (trim_prefix part (codes "SignedHeaders=")) }) in
    let with_signature =
      parse_fields parts (record a { signature = trim_prefix part (codes "Signature=") }) in
    let rest = parse_fields parts a in
    if has_prefix part (codes "Credential=")
    then elim (credential_of (split_at_most 4 b'/' (trim_prefix part (codes "Credential=")))) [
      | none ↦ none
      | some c ↦ parse_fields parts (record a { cred = c })
    ]
    else if has_prefix part (codes "SignedHeaders=")
    then with_headers
    else if has_prefix part (codes "Signature=")
    then with_signature
    else rest

unfoldable pub parse_authorization : Text → Option Authorization
parse_authorization auth =
    let parts = split_on b',' (trim_prefix auth (codes "AWS4-HMAC-SHA256 ")) in
    if not (has_prefix auth (codes "AWS4-HMAC-SHA256 "))
    then none
    else if ltb (length parts) 3
    then none
    else elim (parse_fields parts no_authorization) [
      | none ↦ none
      | some a ↦
          if (a.cred.access_key == []) || (length a.signed_headers == 0) || (a.signature == [])
          then none
          else some a
    ]

-- strings.Fields
unfoldable pub fields : Text → List Text
fields [] = []
fields (c ∷ s) =
    let rest = fields s in
    if is_space c then rest else elim s [
      | [] ↦ (c ∷ []) ∷ []
      | d ∷ _ ↦
          if is_space d
          then (c ∷ []) ∷ rest
          else elim rest [ [] ↦ (c ∷ []) ∷ [] | word ∷ words ↦ (c ∷ word) ∷ words ]
    ]

unfoldable pub canonicalize_header_value : List Text → Text
canonicalize_header_value values =
    join (codes ",") (keep (λ v. not (v == [])) (map (λ v. join (codes " ") (fields v)) values))

-- The order of the pairs of the query.
unfoldable pub pair_leb : Text × Text → Text × Text → Bool
pair_leb p q = if p.0 == q.0 then text_leb p.1 q.1 else text_leb p.0 q.0

unfoldable pub insert_pair : Text × Text → List (Text × Text) → List (Text × Text)
insert_pair p [] = p ∷ []
insert_pair p (q ∷ l) = let rest = insert_pair p l in if pair_leb p q then p ∷ q ∷ l else q ∷ rest

unfoldable pub sort_pairs : List (Text × Text) → List (Text × Text)
sort_pairs [] = []
sort_pairs (p ∷ l) = insert_pair p (sort_pairs l)

unfoldable pub encode_pair : Text × Text → Text × Text
encode_pair p = (aws_percent_encode p.0 true, aws_percent_encode p.1 true)

-- What canonicalizeQuery makes of the pairs of the parsed query.
unfoldable pub canonical_pairs : List (Text × Text) → Text
canonical_pairs pairs =
    join (codes "&") (map (λ p. p.0 ++ codes "=" ++ p.1) (sort_pairs (map encode_pair pairs)))

unfoldable pub replace_plus : Text → Text
replace_plus [] = []
replace_plus (c ∷ s) =
    let rest = replace_plus s in if c == b'+' then codes "%20" ++ rest else c ∷ rest

unfoldable pub canonicalize_query : Library → Text → Text
canonicalize_query lib raw =
    if raw == [] then [] else canonical_pairs (lib.parse_query (replace_plus raw))

-- The map of the signed headers.
unfoldable pub header_rows : HttpRequest → List Text → List (Text × Text) → List (Text × Text)
header_rows r [] rows = rows
header_rows r (h ∷ hs) rows =
    let name = to_lower h in
    header_rows r hs (
      put_row name (if name == codes "host" then r.host else canonicalize_header_value (r.header h))
        rows)

unfoldable pub header_lines : List (Text × Text) → List Text → Text
header_lines rows [] = []
header_lines rows (h ∷ hs) =
    let name = to_lower h in
    let value = elim (row_at name rows) as (λ _. Text) [ none ↦ [] | some v ↦ v ] in
    name ++ codes ":" ++ trim_space value ++ 10 ∷ header_lines rows hs

-- Header.Get
unfoldable pub first_value : List Text → Text
first_value [] = []
first_value (v ∷ values) = v

unfoldable pub build_canonical_request : Library → HttpRequest → List Text → Text
build_canonical_request lib r signed =
    let names = sort_texts (map to_lower signed) in
    let payload = first_value (r.header (codes "X-Amz-Content-Sha256")) in
    join (10 ∷ []) (
      r.method
      ∷ canonicalize_uri (if r.raw_path == [] then r.path else r.raw_path)
      ∷ canonicalize_query lib r.raw_query
      ∷ header_lines (header_rows r signed []) names
      ∷ join (codes ";") names
      ∷ (if payload == [] then codes "UNSIGNED-PAYLOAD" else payload)
      ∷ [])

unfoldable pub derive_signing_key : Library → Text → Text → Text → Text → Text
derive_signing_key lib secret date region service =
    lib.hmac (lib.hmac (lib.hmac (lib.hmac (codes "AWS4" ++ secret) date) region) service)
      (codes "aws4_request")

unfoldable pub compute_signature :
    Library → HttpRequest → Credentials → List Text → Text → Text → Text
compute_signature lib r cred signed secret date =
    let scope =
      join (codes "/") (take 8 date ∷ cred.region ∷ cred.service ∷ codes "aws4_request" ∷ []) in
    let to_sign = join (10 ∷ []) (
      codes "AWS4-HMAC-SHA256"
      ∷ date
      ∷ scope
      ∷ lib.sha256 (build_canonical_request lib r signed)
      ∷ []) in
    lib.hex
      (lib.hmac (derive_signing_key lib secret (take 8 date) cred.region cred.service) to_sign)

unfoldable pub request_date : HttpRequest → Text
request_date r =
    let date = first_value (r.header (codes "X-Amz-Date")) in
    if date == [] then first_value (r.header (codes "Date")) else date

module _ {ℓ} {Info : Type ℓ} where
  -- Where the secret of an access key comes from: the resolver of tokens, or one fixed pair.
  unfoldable pub find_secret :
      Option (Text → Option (Text × Info)) → Text → Text → Text → Option (Text × Option Info)
  find_secret (some resolver) fixed_key fixed_secret key = elim (resolver key) [
    | none ↦ none
    | some (secret, info) ↦ some (secret, some info)
  ]
  find_secret none fixed_key fixed_secret key =
      if (fixed_key == []) || (fixed_secret == []) || not (key == fixed_key)
      then none
      else some (fixed_secret, none)

  -- The signature check at an instant; `none` is a refused request.
  unfoldable pub authenticate_request :
      Library
      → ℕ
      → HttpRequest
      → Text
      → Text
      → Option (Text → Option (Text × Info))
      → Option (Text × Option Info)
  authenticate_request lib now r fixed_key fixed_secret resolver =
      elim (parse_authorization (first_value (r.header (codes "Authorization")))) [
        | none ↦ none
        | some a ↦ elim (lib.parse_time (request_date r)) [
          | none ↦ none
          | some t ↦ elim (find_secret resolver fixed_key fixed_secret a.cred.access_key) [
            | none ↦ none
            | some found ↦
                let expected =
                  compute_signature lib r a.cred a.signed_headers found.0 (request_date r) in
                if (request_date r == []) || ltb (t + 900) now || not (a.signature == expected)
                then none
                else some found
          ]
        ]
      ]
