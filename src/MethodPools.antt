-- ===== src/MethodPools.antt =====
-- dongtai_protocol/report/handler/saas_method_pool_handler.py: how the headers and the body of a reported
-- request are decoded. `none` is an exception.
pub mod Headers
mod Tests
use dong_tai_server.Prelude.{
  ℕ, Bool, true, false, ◌||◌, Option, none, some, List, [], ◌∷◌, ◌++◌, drop, if◌then◌else◌, ◌==◌,
  number_comparison, text_comparison,
}
use dong_tai_server.Prelude.Splits.{split, join}
use dong_tai_server.Prelude.Text.{Text, codes, is_in}
use dong_tai_server.TaintOrigin.{get, set}

-- Code from elsewhere: base64, gzip with utf-8 after it, the decodings, and `strip().lower()`.
-- `base64_text` is utils.base64_decode, which does not raise.
pub record Decoders : Type 0 where
  pub b64decode : Text → Option Text
  pub base64_text : Text → Text
  pub gunzip_utf8 : Text → Option Text
  pub utf8 : Text → Option Text
  pub raw_unicode_escape : Text → Option Text
  pub strip_lower : Text → Text

abbrev pub first_or_empty : List Text → Text
first_or_empty [] = []
first_or_empty (p ∷ ps) = p

-- A line up to its first colon, and the rest behind it.
abbrev pub header_name : Text → Text
header_name line = first_or_empty (split b':' line)

abbrev pub header_value : Text → Text
header_value line = join b':' (drop 1 (split b':' line))

-- The loop of parse_headers over the lines.
pub headers_of : List Text → List (Text × Text) → List (Text × Text)
headers_of [] headers = headers
headers_of (line ∷ lines) headers =
    headers_of lines (set (header_name line) (header_value line) headers)

pub parse_headers : Decoders → Text → Option (List (Text × Text))
unfolding headers_of
parse_headers decoders headers_raw = elim (decoders.b64decode headers_raw) [
  | none ↦ none
  | some bytes ↦ elim (decoders.utf8 bytes) [
    | none ↦ none
    | some text ↦ some (headers_of (split b'\n' text) [])
  ]
]

-- The loop of get_content_encoding. A line without exactly one colon is passed over.
pub encoding_of : Decoders → List Text → Text
encoding_of decoders [] = []
encoding_of decoders (line ∷ lines) =
    let rest = encoding_of decoders lines in
    elim (split b':' line) [
      | [] ↦ rest
      | k ∷ [] ↦ rest
      | k ∷ v ∷ [] ↦
          if decoders.strip_lower k == codes "content-encoding"
          then if is_in (codes "gzip") (decoders.strip_lower v) then codes "gzip" else []
          else rest
      | k ∷ v ∷ w ∷ more ↦ rest
    ]

pub get_content_encoding : Decoders → Text → Text
unfolding encoding_of
get_content_encoding decoders b64_res_headers =
    encoding_of decoders (split b'\n' (decoders.base64_text b64_res_headers))

abbrev pub decode_plain : Decoders → Text → Option Text
decode_plain decoders body = elim (decoders.utf8 body) [
  | none ↦ decoders.raw_unicode_escape body
  | some text ↦ some text
]

pub decode_content : Decoders → Text → Text → Option Text
decode_content decoders body content_encoding =
    if content_encoding == codes "gzip"
    then elim (decoders.gunzip_utf8 body) [
      | none ↦ decode_plain decoders body
      | some text ↦ some text
    ]
    else decode_plain decoders body

pub new_decode_content : Decoders → Text → Text → Text → Option Text
unfolding decode_content
new_decode_content decoders res_body encoding version =
    if version == codes "v1"
    then some res_body
    else if version == codes "v2" || version == codes "v3"
    then elim (decoders.b64decode res_body) [
      | none ↦ none
      | some bytes ↦ decode_content decoders bytes encoding
    ]
    else some []
