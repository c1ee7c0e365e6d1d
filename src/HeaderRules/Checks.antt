-- ===== src/HeaderRules/Checks.antt =====
-- The checks of one response, and check_response_header over all of them.
pub mod Unterminated
use dong_tai_server.Prelude.{
  ℕ, Bool, true, false, ◌&&◌, Option, none, some, List, [], ◌∷◌, ◌++◌, drop, length, ltb,
  if◌then◌else◌, ◌==◌, number_comparison, text_comparison,
}
use dong_tai_server.Prelude.Splits.{is_digit, number_of}
use dong_tai_server.Prelude.Text.{Text, codes, starts_with}
use dong_tai_server.HeaderRules.{
  ReportedPool, Parsed, bad_status_line, response, Context, Findings, record_vul,
}

abbrev pub is_absent : Option Text → Bool
is_absent none = true
is_absent (some v) = false

pub check_csp : (Text → Option Text) → Bool
check_csp getheader = is_absent (getheader (codes "Content-Security-Policy"))

pub check_x_xss_protection : Context → (Text → Option Text) → Bool
check_x_xss_protection context getheader = elim (getheader (codes "X-XSS-Protection")) [
  | none ↦ true
  | some v ↦ context.strip v == codes "0"
]

-- The digits of `(\d+);`, read up to the semicolon. Of \d, the digits 0 to 9.
pub digits_until : Text → Option Text
digits_until [] = none
digits_until (c ∷ s) =
    let rest = digits_until s in
    if c == b';'
    then some []
    else if is_digit c
    then (elim rest [ none ↦ none | some ds ↦ some (c ∷ ds) ])
    else none

abbrev pub max_age_name : Text
max_age_name = codes "max-age="

-- `re.match("max-age=(\\d+);.*?", …)` and `int` of its group; `none`: no match.
pub max_age_of : Text → Option ℕ
unfolding digits_until
max_age_of header =
    if starts_with header max_age_name
    then (elim (digits_until (drop (length max_age_name) header)) [
      | none ↦ none
      | some ds ↦ number_of ds
    ])
    else none

abbrev pub half_a_year : ℕ
half_a_year = 15768000

pub check_strict_transport_security : (Text → Option Text) → Bool
unfolding max_age_of
check_strict_transport_security getheader = elim (getheader (codes "Strict-Transport-Security")) [
  | none ↦ false
  | some header ↦ elim (max_age_of header) [ none ↦ false | some n ↦ ltb n half_a_year ]
]

pub check_x_frame_options : (Text → Option Text) → Bool
check_x_frame_options getheader = is_absent (getheader (codes "X-Frame-Options"))

pub check_x_content_type_options : (Text → Option Text) → Bool
check_x_content_type_options getheader = is_absent (getheader (codes "X-Content-Type-Options"))

abbrev pub in_header : Text
in_header = codes "HTTP Response Header"

abbrev pub no_csp : Text
no_csp = codes "Response Without Content-Security-Policy Header"

abbrev pub no_xss_protection : Text
no_xss_protection = codes "Response With X-XSS-Protection Disabled"

abbrev pub weak_transport_security : Text
weak_transport_security =
    codes "Response With Insecurely Configured Strict-Transport-Security Header"

abbrev pub no_frame_options : Text
no_frame_options = codes "Pages Without Anti-Clickjacking Controls"

abbrev pub no_content_type_options : Text
no_content_type_options = codes "Response Without X-Content-Type-Options Header"

-- The types and the positions of what is to be recorded, in their order.
unfoldable pub failing : Context → (Text → Option Text) → List (Text × Text)
unfolding check_csp check_x_xss_protection check_strict_transport_security check_x_frame_options
    check_x_content_type_options
failing context getheader =
    (if check_csp getheader then (no_csp, in_header) ∷ [] else [])
    ++ (if check_x_xss_protection context getheader then (no_xss_protection, []) ∷ [] else [])
    ++ (if check_strict_transport_security getheader
        then (weak_transport_security, in_header) ∷ []
        else [])
    ++ (if check_x_frame_options getheader then (no_frame_options, in_header) ∷ [] else [])
    ++ (if check_x_content_type_options getheader
        then (no_content_type_options, in_header) ∷ []
        else [])

unfoldable pub record_all : Context → ℕ → ReportedPool → List (Text × Text) → Findings → Findings
record_all context now p [] t = t
record_all context now p ((vul_type, position) ∷ failures) t =
    record_all context now p failures (record_vul context now vul_type position [] p t)

unfoldable pub check_response_header : Context → ℕ → ReportedPool → Findings → Findings
unfolding failing record_all
check_response_header context now p t =
    elim (context.parse_response
      (context.strip p.meta.res_header ++ codes "\n\n" ++ context.strip p.meta.res_body)) [
        | bad_status_line ↦ t
        | response getheader ↦ record_all context now p (failing context getheader) t
      ]
