-- ===== src/Highlight/Tests.antt =====
-- A run and an instance for the highlighting of a value.
use dong_tai_server.Prelude.{ℕ, ◌≡◌, refl, some, List, [], ◌∷◌, get_elem?, length, All, arith}
use dong_tai_server.Prelude.Dict.{lookup}
use dong_tai_server.Prelude.Sorting.{sort_by}
use dong_tai_server.Prelude.Splits.{number_of, number_from}
use dong_tai_server.Prelude.Text.{Text, codes}
use dong_tai_server.Compatibility.{parse_target_value, rfind}
use dong_tai_server.Highlight.{
  TaintRange, StrDict, parse_target_value_length, highlight_target_value, xss_prevent, joined,
  mark_ranges, mark_range, close_at, enumerate_into, concat,
}
use dong_tai_server.Highlight.Marked.{tagged, IsWithin, highlight_target_value-tagged}

abbrev target : Text
target = codes "[a<c]*3"

abbrev ranges : List TaintRange
ranges = record { start = 1; stop = 3 } ∷ []

value_run : parse_target_value target ≡ codes "a<c"
unfolding parse_target_value rfind
value_run = refl

length_run : parse_target_value_length target ≡ 3
unfolding parse_target_value_length rfind number_of number_from
length_run = refl

highlight_run :
    highlight_target_value target ranges ≡ some (codes "a<em style=\"color:red;\">&lt;c</em>")
unfolding highlight_target_value parse_target_value parse_target_value_length rfind number_of
    number_from mark_ranges mark_range close_at enumerate_into concat joined xss_prevent
highlight_run = refl

within : All (IsWithin (length (parse_target_value target))) ranges
within = rw value_run ((omega arith, omega arith, omega arith), tt)

highlight_target_value-tagged_example :
    (out : StrDict) × (highlight_target_value target ranges ≡ some (joined out))
    × ((i c : ℕ)
        → get_elem? (parse_target_value target) i ≡ some c
        → lookup i out ≡ some (tagged (sort_by (λ r. r.start) ranges) i (xss_prevent c)))
highlight_target_value-tagged_example =
    highlight_target_value-tagged target ranges (rw value_run (omega arith))
      (rw (value_run, length_run) refl) (omega arith) within
