-- ===== src/ReplayRequest.antt =====
-- dongtai_engine/tasks.py, vul_recheck, lines 346 to 455: how the request of a vulnerability is made
-- into the one that is sent again, with the payload in the place of the tainted parameters. `none` is
-- an exception.
pub mod Replaced
pub mod Ignored
mod Tests
use dong_tai_server.Prelude.{
  ℕ, zero, suc, Bool, true, false, not, ◌&&◌, ◌||◌, Option, none, some, List, [], ◌∷◌, ◌++◌, drop,
  length, if◌then◌else◌, ◌==◌, number_comparison, text_comparison,
}
use mathlib.Core.Option
use dong_tai_server.Prelude.Splits.{split, join}
use dong_tai_server.Prelude.Text.{Text, codes}

-- A value of the dict that "param_name" holds: a text, or a list of texts.
pub data Named : Type 0 where
  name : Text → Named
  names : List Text → Named

-- What json.loads makes of "param_name": a JSONDecodeError, something that has no items, or a dict.
pub data Loaded : Type 0 where
  invalid no_dict : Loaded
  positions : List (Text × Named) → Loaded

-- Code from elsewhere: json, and base64 with its encodings. `set_in_json body key value` is
-- json.dumps of the loaded body with the key set, and none unless the body is a dict with that key.
-- `encode_header` encodes in raw_unicode_escape and then in base64.
pub record Wire : Type 0 where
  pub load_positions : Text → Loaded
  pub set_in_json : Text → Text → Text → Option Text
  pub decode_header : Text → Option Text
  pub encode_header : Text → Option Text

pub record Sent : Type 0 where
  pub uri : Text
  pub params : Text
  pub header : Text
  pub body : Option Text

-- `_param_name == param_name`: a text is never equal to a list.
abbrev pub is_named : Named → Text → Bool
is_named (name n) s = s == n
is_named (names ns) s = false

abbrev pub first_part : List Text → Text
first_part [] = []
first_part (p ∷ ps) = p

-- The name of an item, in front of the sign `eq`.
abbrev pub key_of : ℕ → Text → Text
key_of eq item = first_part (split eq item)

-- The loop over the items: the first of that name gets the payload.
unfoldable pub replace_item : ℕ → Named → Text → List Text → List Text
replace_item eq named payload [] = []
replace_item eq named payload (item ∷ items) =
    let rest = replace_item eq named payload items in
    let key = key_of eq item in
    if is_named named key then (key ++ eq ∷ payload) ∷ items else item ∷ rest

unfoldable pub replace_in : ℕ → ℕ → Named → Text → Text → Text
replace_in sep eq named payload text = join sep (replace_item eq named payload (split sep text))

-- A json body whose dict has the name as a key; a list for a name is a TypeError, which is caught.
pub replace_json : Wire → Named → Text → Text → Option Text
replace_json wire (name n) payload body = wire.set_in_json body n payload
replace_json wire (names ns) payload body = none

-- Without a body, the `split` in the except clause raises.
pub replace_body : Wire → Named → Text → Option Text → Option Text
replace_body wire named payload none = none
replace_body wire named payload (some body) = elim (replace_json wire named payload body) [
  | none ↦ some (replace_in b'&' b'=' named payload body)
  | some json ↦ some json
]

abbrev pub or_old : Text → Option Text → Text
or_old old none = old
or_old old (some s) = s

pub replace_header : Wire → Named → Text → Text → Option Text
replace_header wire named payload headers = elim (wire.decode_header headers) [
  | none ↦ none
  | some raw ↦ some (or_old headers (wire.encode_header (replace_in b'\n' b':' named payload raw)))
]

abbrev pub is_cookie : Text → Bool
is_cookie header = key_of b':' header == codes "cookie" || key_of b':' header == codes "Cookie"

-- The line behind which the loop breaks, replaced by its cookies; no line is 0 (`cookie_index > 0`).
pub replace_cookie_line : Named → Text → ℕ → List Text → List Text
replace_cookie_line named payload index [] = []
replace_cookie_line named payload index (header ∷ lines) =
    let rest = replace_cookie_line named payload (suc index) lines in
    if is_cookie header
    then elim index [
      | zero ↦ header ∷ lines
      | suc i ↦ replace_in b';' b'=' named payload (join b':' (drop 1 (split b':' header))) ∷ lines
    ]
    else header ∷ rest

pub replace_cookie : Wire → Named → Text → Text → Option Text
replace_cookie wire named payload headers = elim (wire.decode_header headers) [
  | none ↦ none
  | some raw ↦ some (
      or_old headers
        (wire.encode_header (join b'\n' (replace_cookie_line named payload 0 (split b'\n' raw)))))
]

-- The first segment that is the tainted value becomes "dongtai".
pub replace_segment : Text → List Text → List Text
replace_segment taint [] = []
replace_segment taint (item ∷ items) =
    let rest = replace_segment taint items in
    if taint == item then codes "dongtai" ∷ items else item ∷ rest

pub replace_path : Text → Text → Text
replace_path taint uri = join b'/' (replace_segment taint (split b'/' uri))

-- One round of `for position, param_name in params.items()`.
unfoldable pub rewrite_position : Wire → Text → Text → Text → Named → Sent → Option Sent
rewrite_position wire payload taint position named r =
    if position == codes "GET"
    then some (record r { params = replace_in b'&' b'=' named payload r.params })
    else if position == codes "POST"
    then Option.map (λ b. record r { body = some b }) (replace_body wire named payload r.body)
    else if position == codes "HEADER"
    then Option.map (λ h. record r { header = h }) (replace_header wire named payload r.header)
    else if position == codes "COOKIE"
    then Option.map (λ h. record r { header = h }) (replace_cookie wire named payload r.header)
    else if position == codes "PATH" && not (length taint == 0)
    then some (record r { uri = replace_path taint r.uri })
    else some r

unfoldable pub rewrite_positions : Wire → Text → Text → List (Text × Named) → Sent → Option Sent
rewrite_positions wire payload taint [] r = some r
rewrite_positions wire payload taint ((position, named) ∷ rest) r =
    elim (rewrite_position wire payload taint position named r) [
      | none ↦ none
      | some r' ↦ rewrite_positions wire payload taint rest r'
    ]
