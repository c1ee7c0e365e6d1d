-- ===== src/TaintOrigin/Url.antt =====
-- get_original_url: the path segments that the descriptions name are masked in the URL.
pub mod Pattern
use dong_tai_server.Prelude.{ℕ, suc, zero, Option, none, some, List, [], ◌∷◌, if◌then◌else◌}
use mathlib.Core.Option
use dong_tai_server.Prelude.Text.{Text, codes, starts_with}
use dong_tai_server.Prelude.Splits.{split, join, number_of}

abbrev pub second_number : List Text → Option ℕ
second_number (word ∷ location ∷ []) = number_of location
second_number _ = none

-- The number of the path segment that a description names; `none` is the ValueError.
pub location_of : Text → Option ℕ
location_of desc = second_number (split b':' desc)

abbrev pub both_parts : Option ℕ → Option (List ℕ) → Option (List ℕ)
both_parts (some i) (some rest) = some (i ∷ rest)
both_parts _ _ = none

pub locations_of : List Text → Option (List ℕ)
locations_of [] = some []
locations_of (desc ∷ descs) =
    let rest = locations_of descs in
    if starts_with desc (codes "location") then both_parts (location_of desc) rest else rest

-- `res[i] = "<placeholder>"`; `none` is the IndexError.
pub mask : ℕ → List Text → Option (List Text)
mask i [] = none
mask zero (part ∷ parts) = some (codes "<placeholder>" ∷ parts)
mask (suc i) (part ∷ parts) = elim (mask i parts) [ none ↦ none | some rest ↦ some (part ∷ rest) ]

pub mask_all : List ℕ → List Text → Option (List Text)
mask_all [] parts = some parts
mask_all (i ∷ is_) parts = elim (mask i parts) [ none ↦ none | some masked ↦ mask_all is_ masked ]

abbrev pub masked_url : Text → Option (List ℕ) → Option Text
masked_url uri none = none
masked_url uri (some []) = some uri
masked_url uri (some (i ∷ is_)) = Option.map (join b'/') (mask_all (i ∷ is_) (split b'/' uri))

pub get_original_url : Text → List Text → Option Text
get_original_url uri url_desc = masked_url uri (locations_of url_desc)
