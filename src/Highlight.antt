-- ===== src/Highlight.antt =====
-- dongtai_common/engine/compatibility.py, highlight_target_value: the tainted ranges of a value are
-- put into <em>. `int` is that of texts of digits, as the agent writes a length; `none` is a KeyError.
pub mod Marked
mod Tests
use dong_tai_server.Prelude.{
  ℕ, suc, zero, ◌+◌, ◌-◌, ◌≤◌, Bool, true, false, not, ◌&&◌, ◌||◌, Option, none, some, List, [],
  ◌∷◌, ◌++◌, map, filter, length, take, drop, if◌then◌else◌, ◌==◌, ltb, number_comparison,
}
use mathlib.Core.Option
use dong_tai_server.Prelude.Dict.{lookup, put}
use dong_tai_server.Prelude.Sorting.{sort_by}
use dong_tai_server.Prelude.Splits.{number_of}
use dong_tai_server.Prelude.Text.{Text, codes}
use dong_tai_server.Compatibility.{rfind, parse_target_value}

abbrev pub length_or : ℕ → Option ℕ → ℕ
length_or n none = n
length_or n (some m) = m

-- `target_value[position + 1 : :]`
abbrev pub behind_star : Text → Text
behind_star s = elim (rfind b'*' s) [ none ↦ s | some position ↦ drop (suc position) s ]

pub parse_target_value_length : Text → ℕ
parse_target_value_length [] = 0
parse_target_value_length (c ∷ s) = length_or (length (c ∷ s)) (number_of (behind_star (c ∷ s)))

pub xss_prevent : ℕ → Text
xss_prevent char = if char == b'<' then codes "&lt;" else char ∷ []

-- `s.replace("<", "&lt;")`
pub escaped : Text → Text
escaped [] = []
escaped (c ∷ s) = xss_prevent c ++ escaped s

pub record TaintRange : Type 0 where
  pub start : ℕ
  pub stop : ℕ

-- The parts of the text by their position.
abbrev pub StrDict : Type 0
StrDict = List (ℕ × Text)

abbrev pub em_open : Text
em_open = codes "<em style=\"color:red;\">"

abbrev pub em_close : Text
em_close = codes "</em>"

abbrev pub whole : Text → Text
whole value = em_open ++ (value ++ em_close)

-- `{ind + base: xss_prevent(str_) for ind, str_ in enumerate(value)}`, put into a dict
pub enumerate_into : ℕ → Text → StrDict → StrDict
enumerate_into base [] d = d
enumerate_into base (c ∷ s) d = enumerate_into (suc base) s (put base (xss_prevent c) d)

abbrev pub in_front : Text → ℕ → StrDict → Option StrDict
in_front tag k d = elim (lookup k d) [ none ↦ none | some s ↦ some (put k (tag ++ s) d) ]

abbrev pub at_end : Text → ℕ → StrDict → Option StrDict
at_end tag k d = elim (lookup k d) [ none ↦ none | some s ↦ some (put k (s ++ tag) d) ]

-- `str_dict[stop - 1] += "</em>"`; there is no key -1.
pub close_at : ℕ → StrDict → Option StrDict
close_at zero d = none
close_at (suc k) d = at_end em_close k d

-- The two statements of the loop over a value that is whole.
pub mark_range : TaintRange → StrDict → Option StrDict
mark_range r d = elim (in_front em_open r.start d) [
  | none ↦ none
  | some opened ↦ close_at r.stop opened
]

pub mark_ranges : List TaintRange → StrDict → Option StrDict
mark_ranges [] d = some d
mark_ranges (r ∷ rs) d = elim (mark_range r d) [ none ↦ none | some marked ↦ mark_ranges rs marked ]

pub concat : StrDict → Text
concat [] = []
concat ((k, s) ∷ d) = s ++ concat d

-- `"".join` of the parts in the order of their keys
pub joined : StrDict → Text
joined d = concat (sort_by (λ e. e.0) d)

abbrev pub has_key : ℕ → StrDict → Bool
has_key k d = elim (lookup k d) [ none ↦ false | some s ↦ true ]

-- `(stop - 1) in str_dict`
abbrev pub has_last : ℕ → StrDict → Bool
has_last zero d = false
has_last (suc k) d = has_key k d

abbrev pub begin_part_length : ℕ
begin_part_length = 511

abbrev pub end_part_length : ℕ
end_part_length = 510

abbrev pub and_then : Option StrDict → (StrDict → Option StrDict) → Option StrDict
and_then none f = none
and_then (some d) f = f d

-- The four tests of the loop over a value that was cut, each on the dict that the ones before left.
pub mark_cut : ℕ → TaintRange → StrDict → Option StrDict
mark_cut origin r d =
    let both = λ (d : StrDict).
      if has_key r.start d && has_last r.stop d
      then and_then (in_front em_open r.start d) (close_at r.stop)
      else some d in
    let opens = λ (d : StrDict).
      if has_key r.start d && not (has_last r.stop d)
      then and_then (in_front em_open r.start d) (λ d.
        and_then (in_front em_close begin_part_length d) (in_front em_close begin_part_length))
      else some d in
    let closes = λ (d : StrDict).
      if not (has_key r.start d) && has_last r.stop d
      then and_then (in_front em_open (origin - end_part_length) d) (close_at r.stop)
      else some d in
    let dots = λ (d : StrDict). some (
      if not (has_key r.start d) || not (has_key r.stop d)
      then put (begin_part_length + 2) (whole (codes "...")) d
      else d) in
    and_then (and_then (and_then (both d) opens) closes) dots

pub mark_cuts : ℕ → List TaintRange → StrDict → Option StrDict
mark_cuts origin [] d = some d
mark_cuts origin (r ∷ rs) d = and_then (mark_cut origin r d) (mark_cuts origin rs)

-- The dict of a value that was cut to its first and last part.
pub cut_dict : ℕ → Text → StrDict
cut_dict origin value = put (begin_part_length + 2) (codes "...") (
    enumerate_into (origin - end_part_length + 3) (drop (length value - end_part_length) value)
      (enumerate_into 0 (take begin_part_length value) []))

abbrev pub any_beyond : ℕ → List TaintRange → Bool
any_beyond n [] = false
any_beyond n (r ∷ rs) = ltb n r.start || ltb n r.stop || any_beyond n rs

-- The KeyError of a value that was cut is caught, and the value put into <em> whole.
abbrev pub or_whole : Text → Option StrDict → Text
or_whole value none = whole value
or_whole value (some d) = joined d

pub highlight_target_value : Text → List TaintRange → Option Text
highlight_target_value target_value ranges =
    let value = parse_target_value target_value in
    let origin = parse_target_value_length target_value in
    let sorted_ranges = sort_by (λ r. r.start) ranges in
    if length value == 0
    then some (escaped target_value)
    else if any_beyond origin sorted_ranges
    then some (whole value)
    else if not (length sorted_ranges == 0) && length value == origin
    then Option.map joined (mark_ranges sorted_ranges (enumerate_into 0 value []))
    else if not (length value == 1024)
    then some (whole value)
    else if not (length sorted_ranges == 0) && ltb (length value) origin
    then some (or_whole value (mark_cuts origin sorted_ranges (cut_dict origin value)))
    else some (whole value)
