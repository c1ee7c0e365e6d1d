-- ===== src/TaintOrigin.antt =====
-- dongtai_engine/signals/handlers/vul_handler.py and parse_param_name.py: in which parameters of a
-- request a tainted value came in, and the pattern of its URL. `none` at the outside of a result is
-- an exception; within it, it is the code's None.
pub mod Url
pub mod Listed
pub mod Total
mod Tests
use dong_tai_server.Prelude.{
  ℕ, suc, zero, Bool, true, false, not, ◌&&◌, ◌||◌, Option, none, some, List, [], ◌∷◌, ◌++◌, map,
  filter, contains, length, take, drop, if◌then◌else◌, ◌==◌, number_comparison, text_comparison,
}
use mathlib.Core.Option
use dong_tai_server.Prelude.Text.{Text, codes, starts_with}
use dong_tai_server.Prelude.Splits.{split, join, digits, number_of}
use dong_tai_server.Compatibility.{Report, method_pool_is_3, parse_target_value, method_pool_3_to_2}

-- A dict whose keys are texts, in the order of insertion.
abbrev pub get : {V : Type 0} → Text → List (Text × V) → Option V
get k [] = none
get k ((j, v) ∷ d) = if j == k then some v else get k d

abbrev pub set : {V : Type 0} → Text → V → List (Text × V) → List (Text × V)
set k v [] = (k, v) ∷ []
set k v ((j, w) ∷ d) = let rest = set k v d in if j == k then (k, v) ∷ d else (j, w) ∷ rest

-- What json.loads yields; a value inside is `none` if it is no text.
pub data Body : Type 0 where
  object : List (Text × Option Text) → Body
  array : List (Option Text) → Body
  scalar : Option Text → Body

-- Code from elsewhere: Django's QueryDict (its `items`), urllib, json, base64, http.client, and the
-- data file java_params.json, `none` for a method that it does not name. Of the others `none` is an
-- exception: QueryDict raises on too many fields, http.client on too many or too long headers.
pub record Codecs : Type 0 where
  pub query_items : Text → Option (List (Text × Text))
  pub unquote_plus : Text → Text
  pub json_loads : Text → Option Body
  pub b64decode : Text → Option Text
  pub decode_utf8 : Text → Option Text
  pub parse_headers : Text → Option (List (Text × Text))
  pub java_params : Text → Option (List Text)

pub record ParamDict : Type 0 where
  pub items : List (Text × Text)
  pub extend_kv_dict : List (Text × Text)
  pub extend_k_map : List (Text × Text)

-- The loop over the places where `groups` may be cut; `before` is what stands before the cut.
pub extend_cuts : Text → List Text → List Text → ParamDict → ParamDict
extend_cuts k before [] d = d
extend_cuts k before (group ∷ []) d = d
extend_cuts k before (group ∷ next ∷ groups) d =
    let left = before ++ group ∷ [] in
    let k_ = join b'=' left in
    extend_cuts k left (next ∷ groups) (record d {
      extend_kv_dict = set k_ (join b'=' (next ∷ groups)) d.extend_kv_dict;
      extend_k_map = set k_ k d.extend_k_map;
    })

pub extend_items : List (Text × Text) → ParamDict → ParamDict
extend_items [] d = d
extend_items ((k, v) ∷ rest) d =
    extend_items rest
      (if contains v b'=' then extend_cuts k [] (split b'=' (k ++ b'=' ∷ v)) d else d)

pub param_dict : Codecs → Text → Option ParamDict
param_dict codecs text = elim (codecs.query_items text) [
  | none ↦ none
  | some items ↦
      some (extend_items items (record { items = items; extend_kv_dict = []; extend_k_map = [] }))
]

-- The key of the first entry whose value or key is the taint value.
pub first_match : Text → List (Text × Text) → Option Text
first_match taint [] = none
first_match taint ((name, value) ∷ rest) =
    let later = first_match taint rest in
    if taint == value || taint == name then some name else later

abbrev pub later_wins : Option Text → Option Text → Option Text
later_wins before none = before
later_wins before (some name) = some name

-- Two of the loops of parse_params, over one ParamDict.
pub match_params : ParamDict → Text → Option Text → Option Text
match_params d taint before =
    let direct = later_wins before (first_match taint d.items) in
    elim (first_match taint d.extend_kv_dict) [ none ↦ direct | some k_ ↦ get k_ d.extend_k_map ]

pub parse_params : Codecs → Text → Text → Option (Option Text)
unfolding param_dict
parse_params codecs param_values taint = elim (param_dict codecs param_values) [
  | none ↦ none
  | some sent ↦ elim (param_dict codecs (codecs.unquote_plus param_values)) [
    | none ↦ none
    | some unquoted ↦ some (match_params unquoted taint (match_params sent taint none))
  ]
]

abbrev pub is_text : Option Text → Text → Bool
is_text none taint = false
is_text (some value) taint = value == taint

pub first_key : Text → List (Text × Option Text) → Option Text
first_key taint [] = none
first_key taint ((key, value) ∷ rest) =
    let later = first_key taint rest in
    if is_text value taint || key == taint then some key else later

pub first_index : Text → List (Option Text) → ℕ → Option ℕ
first_index taint [] i = none
first_index taint (value ∷ rest) i =
    let later = first_index taint rest (suc i) in if is_text value taint then some i else later

abbrev pub at_index : Text → Option ℕ → Option Text
at_index label none = none
at_index label (some i) = some (label ++ digits i)

pub parse_body : Codecs → Text → Text → Option (Option Text)
unfolding parse_params
parse_body codecs body taint = elim (codecs.json_loads body) [
  | none ↦ parse_params codecs body taint
  | some (object fields) ↦ some (first_key taint fields)
  | some (array values) ↦ some (at_index (codes "position ") (first_index taint values 0))
  | some (scalar value) ↦ some (if is_text value taint then some (codes "all") else none)
]

pub parse_header : Codecs → Text → Text → Option (Option Text)
parse_header codecs req_header taint = elim (codecs.b64decode req_header) [
  | none ↦ none
  | some bytes ↦ elim (codecs.parse_headers bytes) [
    | none ↦ none
    | some headers ↦ some (first_match taint headers)
  ]
]

abbrev pub head_or_empty : List Text → Text
head_or_empty [] = []
head_or_empty (p ∷ ps) = p

-- The text behind the name of the first cookie header, or the empty text.
pub cookie_raw : List Text → Text
cookie_raw [] = []
cookie_raw (header ∷ headers) =
    let later = cookie_raw headers in
    let parts = split b':' header in
    let name = head_or_empty parts in
    if name == codes "cookie" || name == codes "Cookie" then join b':' (drop 1 parts) else later

pub first_cookie : Text → List Text → Option Text
first_cookie taint [] = none
first_cookie taint (item ∷ items) =
    let later = first_cookie taint items in
    let cookie_item = split b'=' item in
    if taint == join b'=' (drop 1 cookie_item) then some (head_or_empty cookie_item) else later

pub parse_cookie : Codecs → Text → Text → Option (Option Text)
parse_cookie codecs req_header taint = elim (codecs.b64decode req_header) [
  | none ↦ none
  | some bytes ↦ elim (codecs.decode_utf8 bytes) [
    | none ↦ none
    | some text ↦
        let raw = cookie_raw (split b'\n' text) in
        some (if length raw == 0 then none else first_cookie taint (split b';' raw))
  ]
]

pub parse_path : Text → Text → Option Text
parse_path uri taint =
    at_index (codes "location:") (first_index taint (map (λ p. some p) (split b'/' uri)) 0)

-- parse_taint_params with the parser that get_location_parser picks.
pub parse_taint_params : Codecs → Text → Option Text → Text → Option (Option Text)
parse_taint_params codecs location none taint = some none
parse_taint_params codecs location (some []) taint = some none
parse_taint_params codecs location (some (c ∷ s)) taint =
    if location == codes "GET"
    then parse_params codecs (c ∷ s) taint
    else if location == codes "POST"
    then parse_body codecs (c ∷ s) taint
    else if location == codes "HEADER"
    then parse_header codecs (c ∷ s) taint
    else if location == codes "PATH"
    then some (parse_path (c ∷ s) taint)
    else if location == codes "COOKIE"
    then parse_cookie codecs (c ∷ s) taint
    else some none

-- The columns of a method pool that get_http_locationstr reads.
pub record Request : Type 0 where
  pub req_params : Option Text
  pub req_data : Option Text
  pub req_header : Option Text
  pub uri : Option Text

unfoldable pub get_http_locationstr : Request → Text → Option Text
get_http_locationstr request location =
    if location == codes "GET"
    then request.req_params
    else if location == codes "POST"
    then request.req_data
    else if location == codes "HEADER"
    then request.req_header
    else if location == codes "PATH"
    then request.uri
    else if location == codes "COOKIE"
    then request.req_header
    else none

unfoldable pub get_parser_location : Codecs → Text → List Text
get_parser_location codecs source_method = elim (codecs.java_params source_method) [
  | none ↦ codes "GET" ∷ codes "POST" ∷ codes "HEADER" ∷ codes "PATH" ∷ codes "COOKIE" ∷ []
  | some locations ↦ locations
]

abbrev pub Names : Type 0
Names = List (Text × List Text)

-- `param_names[location]` of the defaultdict
abbrev pub names_at : Text → Names → List Text
names_at location [] = []
names_at location ((l, names) ∷ d) = if l == location then names else names_at location d

-- The body of the inner loop, for what the parser found.
unfoldable pub note_name : Text → Option Text → Names → Names
note_name location none names = names
note_name location (some []) names = names
note_name location (some (c ∷ s)) names =
    let there = names_at location names in
    if contains there (c ∷ s) then names else set location (there ++ (c ∷ s) ∷ []) names

module _ (found : Text → Text → Option (Option Text)) where
  unfoldable pub note_locations : Text → List Text → Names → Option Names
  note_locations taint [] names = some names
  note_locations taint (location ∷ locations) names = elim (found location taint) [
    | none ↦ none
    | some name ↦ note_locations taint locations (note_name location name names)
  ]

  unfoldable pub note_values : List Text → List Text → Names → Option Names
  note_values [] locations names = some names
  note_values (taint ∷ taints) locations names = elim (note_locations taint locations names) [
    | none ↦ none
    | some noted ↦ note_values taints locations noted
  ]

-- parse_taint_position, from the target values of the stack
unfoldable pub parse_taint_position : Codecs → Text → Request → List Text → Option Names
parse_taint_position codecs source_method request values =
    note_values
      (λ location. parse_taint_params codecs location (get_http_locationstr request location))
      (filter (λ v. not (length v == 0)) values) (get_parser_location codecs source_method) []
