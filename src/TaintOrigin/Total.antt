-- ===== src/TaintOrigin/Total.antt =====
-- parse_taint_position raises nothing on a request that can be read, and lists the names found.
use dong_tai_server.Prelude.{
  ◌≡◌, ◌↔◌, refl, sym, ◌⊎◌, inl, inr, not, Option, none, some, List, [], ◌∷◌, ◌∈◌, filter, length,
  Bool-cases, Option-cases, ◌==◌, number_comparison, text_comparison, text_beq_iff, subst,
}
use dong_tai_server.Prelude.Text.{Text, codes}
use dong_tai_server.TaintOrigin.{
  Codecs, Body, object, array, scalar, parse_params, parse_body, Request, Names, names_at,
  note_locations, note_values, note_name, parse_taint_params, parse_header, parse_cookie,
  get_http_locationstr, get_parser_location, parse_taint_position,
}
use dong_tai_server.TaintOrigin.Listed.{NoRepeats, Finds, note_values-Lists}

module _ {A : Type 0} where
  abbrev Answered : Option A → Type 0
  Answered o = (a : A) × (o ≡ some a)

-- What the parser of a location finds for a value.
abbrev pub parser : Codecs → Request → Text → Text → Option (Option Text)
parser codecs request location =
    parse_taint_params codecs location (get_http_locationstr request location)

-- A text can be read as a query, as it is and unquoted.
abbrev pub IsQuery : Codecs → Text → Type 0
IsQuery codecs s =
    Answered (codecs.query_items s) × Answered (codecs.query_items (codecs.unquote_plus s))

-- A body can be read as JSON or as a query.
abbrev pub IsBody : Codecs → Text → Type 0
IsBody codecs s = Answered (codecs.json_loads s) ⊎ IsQuery codecs s

-- A header is base64 of a text in UTF-8 that http.client can read.
abbrev pub IsHeader : Codecs → Text → Type 0
IsHeader codecs h =
    (bytes : Text) × (codecs.b64decode h ≡ some bytes)
    × Answered (codecs.decode_utf8 bytes)
    × Answered (codecs.parse_headers bytes)

abbrev pub IfSent : (Text → Type 0) → Option Text → Type 0
IfSent P none = Unit
IfSent P (some s) = P s

-- What is there of the request can be read.
abbrev pub IsReadable : Codecs → Request → Type 0
IsReadable codecs request =
    IfSent (IsQuery codecs) request.req_params
    × IfSent (IsBody codecs) request.req_data
    × IfSent (IsHeader codecs) request.req_header

parse_params-Answered :
    (codecs : Codecs) (s taint : Text) → IsQuery codecs s → Answered (parse_params codecs s taint)
unfolding parse_params
parse_params-Answered codecs s taint ((_, e), (_, f)) = rw (parse_params, e, f) (_, refl)

parse_json-Answered :
    (codecs : Codecs) (s taint : Text) (body : Body)
    → codecs.json_loads s ≡ some body
    → Answered (parse_body codecs s taint)
unfolding parse_body
parse_json-Answered codecs s taint (object fields) e = rw (parse_body, e) (_, refl)
parse_json-Answered codecs s taint (array values) e = rw (parse_body, e) (_, refl)
parse_json-Answered codecs s taint (scalar value) e = rw (parse_body, e) (_, refl)

parse_body-Answered :
    (codecs : Codecs) (s taint : Text) → IsBody codecs s → Answered (parse_body codecs s taint)
unfolding parse_body
parse_body-Answered codecs s taint (inl (body, e)) = parse_json-Answered codecs s taint body e
parse_body-Answered codecs s taint (inr q) = elim (Option-cases (codecs.json_loads s)) [
  | inl e ↦ rw (parse_body, e) (parse_params-Answered codecs s taint q)
  | inr (body, e) ↦ parse_json-Answered codecs s taint body e
]

parse_header-Answered :
    (codecs : Codecs) (h taint : Text) → IsHeader codecs h → Answered (parse_header codecs h taint)
unfolding parse_header
parse_header-Answered codecs h taint (_, b, _, (_, p)) = rw (parse_header, b, p) (_, refl)

parse_cookie-Answered :
    (codecs : Codecs) (h taint : Text) → IsHeader codecs h → Answered (parse_cookie codecs h taint)
unfolding parse_cookie
parse_cookie-Answered codecs h taint (_, b, (_, u), _) = rw (parse_cookie, b, u) (_, refl)

parse_taint_params-Answered :
    (codecs : Codecs) (location : Text) (value : Option Text) (taint : Text)
    → (location ≡ codes "GET" → IfSent (IsQuery codecs) value)
    → (location ≡ codes "POST" → IfSent (IsBody codecs) value)
    → (location ≡ codes "HEADER" → IfSent (IsHeader codecs) value)
    → (location ≡ codes "COOKIE" → IfSent (IsHeader codecs) value)
    → Answered (parse_taint_params codecs location value taint)
unfolding parse_taint_params
parse_taint_params-Answered codecs location none taint g b h k = (_, refl)
parse_taint_params-Answered codecs location (some []) taint g b h k = (_, refl)
parse_taint_params-Answered codecs location (some (c ∷ s)) taint g b h k =
    elim (Bool-cases (location == codes "GET")) [
      | inl e ↦
          rw (parse_taint_params, e)
            (parse_params-Answered codecs (c ∷ s) taint
              (g ((text_beq_iff location (codes "GET")).0 e)))
      | inr e1 ↦ elim (Bool-cases (location == codes "POST")) [
        | inl e ↦
            rw (parse_taint_params, e1, e)
              (parse_body-Answered codecs (c ∷ s) taint
                (b ((text_beq_iff location (codes "POST")).0 e)))
        | inr e2 ↦ elim (Bool-cases (location == codes "HEADER")) [
          | inl e ↦
              rw (parse_taint_params, e1, e2, e)
                (parse_header-Answered codecs (c ∷ s) taint
                  (h ((text_beq_iff location (codes "HEADER")).0 e)))
          | inr e3 ↦ elim (Bool-cases (location == codes "PATH")) [
            | inl e ↦ rw (parse_taint_params, e1, e2, e3, e) (_, refl)
            | inr e4 ↦ elim (Bool-cases (location == codes "COOKIE")) [
              | inl e ↦
                  rw (parse_taint_params, e1, e2, e3, e4, e)
                    (parse_cookie-Answered codecs (c ∷ s) taint
                      (k ((text_beq_iff location (codes "COOKIE")).0 e)))
              | inr e5 ↦ rw (parse_taint_params, e1, e2, e3, e4, e5) (_, refl)
            ]
          ]
        ]
      ]
    ]

parser-Answered :
    (codecs : Codecs) (request : Request) (location taint : Text)
    → IsReadable codecs request
    → Answered (parser codecs request location taint)
unfolding get_http_locationstr
parser-Answered codecs request location taint (query, body, header) =
    let sent = λ (P : Text → Type 0) (l : Text). IfSent P (get_http_locationstr request l) in
    parse_taint_params-Answered codecs location (get_http_locationstr request location) taint
      (λ e. subst (sent (IsQuery codecs)) (sym e) query)
      (λ e. subst (sent (IsBody codecs)) (sym e) body)
      (λ e. subst (sent (IsHeader codecs)) (sym e) header)
      (λ e. subst (sent (IsHeader codecs)) (sym e) header)

module _ (found : Text → Text → Option (Option Text))
    (answers : (l t : Text) → Answered (found l t)) where
  note_locations-Answered :
      (taint : Text) (locations : List Text) (names : Names)
      → Answered (note_locations found taint locations names)
  unfolding note_locations
  note_locations-Answered taint [] names = (names, refl)
  note_locations-Answered taint (l ∷ locations) names =
      let (name, e) = answers l taint in
      rw (note_locations, e) (note_locations-Answered taint locations (note_name l name names))

  note_values-Answered :
      (taints locations : List Text) (names : Names)
      → Answered (note_values found taints locations names)
  unfolding note_values
  note_values-Answered [] locations names = (names, refl)
  note_values-Answered (t ∷ taints) locations names =
      let (noted, e) = note_locations-Answered t locations names in
      rw (note_values, e) (note_values-Answered taints locations noted)

-- If each of these is missing or can be read (the parameters of the request as a query, as they are and
-- unquoted; its body as JSON or as such a query; its header as base64 of a text in UTF-8 that http.client
-- takes), then parse_taint_position raises nothing, and lists at each location, without repetition,
-- exactly the names other than the empty one that the parser of the location finds for some target value
-- other than the empty one, where the source method has the location.
pub parse_taint_position-Finds :
    (codecs : Codecs) (method : Text) (request : Request) (values : List Text)
    → IsReadable codecs request
    → (out : Names) × (parse_taint_position codecs method request values ≡ some out)
      × ((at_ : Text)
          → NoRepeats (names_at at_ out)
            × ((n : Text)
                → (n ∈ names_at at_ out)
                  ↔ Finds
                      (parser codecs request)
                      (filter (λ v. not (length v == 0)) values)
                      (get_parser_location codecs method)
                      at_
                      n))
unfolding parse_taint_position
parse_taint_position-Finds codecs method request values d =
    let taints = filter (λ (v : Text). not (length v == 0)) values in
    let locations = get_parser_location codecs method in
    let (out, e) =
      note_values-Answered (parser codecs request) (λ l t. parser-Answered codecs request l t d)
        taints locations [] in
    (
      out,
      e,
      λ at_.
          let (once, all) =
            note_values-Lists (parser codecs request) taints locations [] out e (λ l. tt) at_ in
          (
            once,
            λ n. (λ m. elim ((all n).0 m) [ inl z ↦ absurd z | inr k ↦ k ], λ k. (all n).1 (inr k)),
          ),
    )
