-- ===== src/S3/Range.antt =====
-- internal/s3server/object.go: the Range header of a GET, and the bytes that are sent.
pub mod Bounds
mod Tests
use dyson_fs.Base.{
  Bool, List, Option, Text, [], codes, drop, drop_prefix, has_prefix, if◌then◌else◌, leb, ltb,
  neg_part, none, parse_int, pos, pos_part, some, split_two, sub_ℕ, suc, take, ℕ, ℤ, ◌+◌, ◌-◌, ◌==◌,
  ◌||◌, nat_eq, text_equality,
}

-- The first and the last position; the last is -1 where nothing is left.
pub record Span : Type 0 where
  pub start : ℕ
  pub last : ℤ

-- The suffix form `-n`.
suffix_span : Option ℤ → ℕ → Option Span
suffix_span (some (pos (suc n))) size = some (record { start = size - suc n; last = sub_ℕ size 1 })
suffix_span _ size = none

last_position : Option ℤ → ℕ → ℕ → ℤ
last_position (some (pos n)) start size = if ltb n start || leb size n then sub_ℕ size 1 else pos n
last_position _ start size = sub_ℕ size 1

-- The forms `a-` and `a-b`.
prefix_span : Option ℤ → Text → ℕ → Option Span
unfolding last_position
prefix_span (some (pos start)) behind size =
    let last = if behind == [] then sub_ℕ size 1 else last_position (parse_int behind) start size in
    if leb size start then none else some (record { start = start; last = last })
prefix_span _ behind size = none

parse_parts : Text × Option Text → ℕ → Option Span
unfolding suffix_span prefix_span
parse_parts (before, none) size = none
parse_parts (before, some behind) size =
    if before == []
    then suffix_span (parse_int behind) size
    else prefix_span (parse_int before) behind size

unfoldable pub parse_range : Text → ℕ → Option Span
unfolding parse_parts
parse_range header size =
    if has_prefix header (codes "bytes=")
    then parse_parts (split_two b'-' (drop_prefix header (codes "bytes="))) size
    else none

-- What a backend hands out: the content from the current position, and whether it can seek.
pub record Reader : Type 0 where
  pub content : List ℕ
  pub seekable : Bool

pub data Reply : Type 0 where
  not_satisfiable : ℕ → Reply
  partial_content : Span → ℕ → List ℕ → Reply

-- end - start + 1
unfoldable pub span_length : Span → ℕ
span_length s = (pos_part s.last + 1) - (s.start + neg_part s.last)

unfoldable pub handle_range : Reader → Text → ℕ → Reply
unfolding span_length
handle_range reader header size = elim (parse_range header size) [
  | none ↦ not_satisfiable size
  | some span ↦
      let from = if reader.seekable then drop span.start reader.content else reader.content in
      partial_content span size (take (span_length span) from)
]
