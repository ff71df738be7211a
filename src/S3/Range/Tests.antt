-- ===== src/S3/Range/Tests.antt =====
-- Ranges at concrete inputs.
use dyson_fs.Base.{
  List, arith, codes, contains, drop, drop_prefix, false, has_prefix, length, negsuc, none,
  parse_int, pos, refl, some, split_two, suc, take, text_discrete, true, ℕ, ℕ_discrete, ◌-◌, ◌<◌,
  ◌≡◌, ◌≤◌, nat_eq, text_equality,
}
use dyson_fs.S3.Range.{parse_range, Reader, Reply, partial_content, handle_range}
use dyson_fs.S3.Range.Bounds.{IsWithin, parse_range-IsWithin, handle_range-slice}

abbrev digits : List ℕ
digits = codes "0123456789"

abbrev disk : Reader
disk = record { content = digits; seekable = true }

-- The body of a remote object cannot seek.
abbrev remote : Reader
remote = record { content = digits; seekable = false }

program : Unit {0}
unfolding parse_range handle_range parse_int has_prefix drop_prefix split_two contains text_discrete
    ℕ_discrete
program = tt

middle : parse_range (codes "bytes=2-4") 10 ≡ some (record { start = 2; last = pos 4 })
unfolding program
middle = refl

suffix : parse_range (codes "bytes=-3") 10 ≡ some (record { start = 7; last = pos 9 })
unfolding program
suffix = refl

past_end : parse_range (codes "bytes=10-") 10 ≡ none
unfolding program
past_end = refl

-- The suffix form is accepted for an empty object, with the last position -1.
empty_object : parse_range (codes "bytes=-3") 0 ≡ some (record { start = 0; last = negsuc 0 })
unfolding program
empty_object = refl

parse_range-IsWithin_example : IsWithin 10 (record { start = 2; last = pos 4 })
unfolding program
parse_range-IsWithin_example = parse_range-IsWithin (codes "bytes=2-4") 10 (omega arith) refl

abbrev reply_2_4 : Reply
reply_2_4 = handle_range disk (codes "bytes=2-4") (length disk.content)

handle_range-slice_example :
    (last : ℕ) × (pos 4 ≡ pos last)
    × (2 ≤ last)
    × (last < 10)
    × (reply_2_4
        ≡ partial_content
            (record { start = 2; last = pos 4 })
            10
            (take (suc last - 2) (drop 2 disk.content)))
    × (length (take (suc last - 2) (drop 2 disk.content)) ≡ suc last - 2)
unfolding program
handle_range-slice_example = handle_range-slice disk (codes "bytes=2-4") refl (omega arith) refl

-- Without seeking the first bytes are sent under the positions of the range.
remote_reply :
    handle_range remote (codes "bytes=2-4") 10
    ≡ partial_content (record { start = 2; last = pos 4 }) 10 (codes "012")
unfolding program
remote_reply = refl
