-- ===== src/S3/Range/Bounds.antt =====
-- The positions of a range lie in the object, and the bytes sent are those of the range.
use dyson_fs.Base.{
  Bool-cases, Option, Option-cases, Text, [], ap, arith, codes, contains, drop, drop_prefix-append,
  false, has_prefix, has_prefix-append, if◌then◌else◌, inl, inr, leb, length, length-drop,
  length-take_of_le, ltb, neg_part, negsuc, none, parse_int, parse_int-nil, pos, pos_part, some,
  split_two, sub_ℕ, suc, take, true, ℕ, ℤ, ◌&&◌, ◌++◌, ◌+◌, ◌-◌, ◌<◌, ◌==◌, ◌||◌, ◌∷◌, ◌≡◌, ◌≤◌,
  nat_eq, text_equality,
}
use dyson_fs.S3.Range.{
  Span, parse_range, Reader, partial_content, span_length, handle_range, suffix_span, last_position,
  prefix_span, parse_parts,
}

abbrev pub IsWithin : ℕ → Span → Type 0
IsWithin size s = (n : ℕ) × (s.last ≡ pos n) × (s.start ≤ n) × (n < size)

-- The last position that is served: the one asked for if it can be, else the end of the object.
abbrev pub last_of : Option ℤ → ℕ → ℕ → ℤ
last_of (some (pos n)) m size = if leb m n && ltb n size then pos n else sub_ℕ size 1
last_of _ m size = sub_ℕ size 1

suffix_span-IsWithin :
    (v : Option ℤ) (size : ℕ) {s : Span} → 0 < size → suffix_span v size ≡ some s → IsWithin size s
unfolding suffix_span
suffix_span-IsWithin (some (pos (suc n))) size {s} h e =
    (size - 1, ground arith, ground arith, omega arith)
suffix_span-IsWithin _ size h e = cc

last_position-cases :
    (v : Option ℤ) (start size : ℕ)
    → start < size
    → (n : ℕ) × (last_position v start size ≡ pos n) × (start ≤ n) × (n < size)
unfolding last_position
last_position-cases (some (pos n)) start size h = elim (Bool-cases (ltb n start || leb size n)) [
  | inl out ↦ (size - 1, ground arith, omega arith, omega arith)
  | inr inside ↦ (n, ground arith, ground arith, ground arith)
]
last_position-cases _ start size h = (size - 1, ground arith, omega arith, omega arith)

prefix_span-IsWithin :
    (v : Option ℤ) (behind : Text) (size : ℕ) {s : Span}
    → prefix_span v behind size ≡ some s
    → IsWithin size s
unfolding prefix_span
prefix_span-IsWithin (some (pos start)) behind size {s} e = elim (Bool-cases (leb size start)) [
  | inl out ↦ absurd (ground arith)
  | inr inside ↦
      let (n, value, lower, upper) =
        last_position-cases (parse_int behind) start size (ground arith) in
      elim (Bool-cases (behind == [])) [
        | inl open_end ↦ (size - 1, ground arith, ground arith, ground arith)
        | inr closed ↦ (n, ground arith, ground (arith, value), ground arith)
      ]
]
prefix_span-IsWithin _ behind size e = cc

parse_parts-IsWithin :
    (p : Text × Option Text) (size : ℕ) {s : Span}
    → 0 < size
    → parse_parts p size ≡ some s
    → IsWithin size s
unfolding parse_parts
parse_parts-IsWithin (before, none) size h e = cc
parse_parts-IsWithin (before, some behind) size {s} h e = elim (Bool-cases (before == [])) [
  | inl suffix ↦ suffix_span-IsWithin (parse_int behind) size h (rw suffix at e)
  | inr prefix ↦ prefix_span-IsWithin (parse_int before) behind size (rw prefix at e)
]

-- A range that is accepted for an object that is not empty starts at or before its last position,
-- and ends inside the object.
pub parse_range-IsWithin :
    (header : Text) (size : ℕ) {s : Span}
    → 0 < size
    → parse_range header size ≡ some s
    → IsWithin size s
unfolding parse_range
parse_range-IsWithin header size {s} h e = elim (Bool-cases (has_prefix header (codes "bytes="))) [
  | inl bytes ↦ parse_parts-IsWithin _ size h (rw bytes at e)
  | inr other ↦ absurd (ground arith)
]

-- From a reader that can seek, the reply to an accepted range holds the bytes of the content from
-- the first position of the range to its last one, both included and inside the object, and no
-- others.
pub handle_range-slice :
    (r : Reader) (header : Text) {s : Span}
    → r.seekable ≡ true
    → 0 < length r.content
    → parse_range header (length r.content) ≡ some s
    → (last : ℕ) × (s.last ≡ pos last)
      × (s.start ≤ last)
      × (last < length r.content)
      × (handle_range r header (length r.content)
          ≡ partial_content s
              (length r.content)
              (take (suc last - s.start) (drop s.start r.content)))
      × (length (take (suc last - s.start) (drop s.start r.content)) ≡ suc last - s.start)
unfolding handle_range span_length
handle_range-slice r header {s} seeks h e =
    let (n, last, lower, upper) = parse_range-IsWithin header (length r.content) h e in
    let fits : suc n - s.start ≤ length (drop s.start r.content) = rw length-drop (omega arith) in
    let served : (pos_part s.last + 1) - (s.start + neg_part s.last) ≡ suc n - s.start =
      rw last (omega arith) in
    (
      n,
      last,
      lower,
      upper,
      ground (arith, e, seeks, ap (λ k. take k (drop s.start r.content)) served),
      length-take_of_le _ _ fits,
    )

split_two-append :
    (sep : ℕ) (a b : Text) → contains a sep ≡ false → split_two sep (a ++ sep ∷ b) ≡ (a, some b)
unfolding split_two contains
split_two-append sep [] b h = ground arith
split_two-append sep (c ∷ a) b h = ground (arith, split_two-append sep a b)

parse_parts-closed :
    (a b : Text) (m size : ℕ)
    → parse_int a ≡ some (pos m)
    → m < size
    → parse_parts (a, some b) size
      ≡ some (record { start = m; last = last_of (parse_int b) m size })
unfolding parse_parts prefix_span last_position
parse_parts-closed [] b m size value inside = cc (parse_int-nil)
parse_parts-closed (c ∷ a) b m size value inside = elim (Bool-cases (b == [])) [
  | inl open_end ↦ ground (arith, value, parse_int-nil)
  | inr closed ↦ elim (Option-cases (parse_int b)) [
    | inl unread ↦ ground (arith, value, unread)
    | inr (v, read) ↦ after v read closed
  ]
]
  where
    after :
        (v : ℤ)
        → parse_int b ≡ some v
        → (b == []) ≡ false
        → parse_parts (c ∷ a, some b) size
          ≡ some (record { start = m; last = last_of (parse_int b) m size })
    after (pos n) read closed = ground (arith, value, read)
    after (negsuc n) read closed = ground (arith, value, read)

-- `bytes=a-b` with a first position inside the object is accepted: it runs from `a` to `b`, or to
-- the end of the object where `b` is missing, unreadable, before `a` or past the end.
pub parse_range-closed :
    (a b : Text) (m size : ℕ)
    → contains a b'-' ≡ false
    → parse_int a ≡ some (pos m)
    → m < size
    → parse_range (codes "bytes=" ++ (a ++ b'-' ∷ b)) size
      ≡ some (record { start = m; last = last_of (parse_int b) m size })
unfolding parse_range
parse_range-closed a b m size plain value inside =
    rw
      (
        has_prefix-append (codes "bytes=") (a ++ b'-' ∷ b),
        drop_prefix-append (codes "bytes=") (a ++ b'-' ∷ b),
        split_two-append b'-' a b plain,
      )
      (parse_parts-closed a b m size value inside)
