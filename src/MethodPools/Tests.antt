-- ===== src/MethodPools/Tests.antt =====
-- Runs and instances for the decoding of method pools.
use dong_tai_server.Prelude.{◌≡◌, refl, none, some, List, [], ◌∷◌, arith}
use dong_tai_server.Prelude.Text.{Text, codes}
use dong_tai_server.TaintOrigin.{get}
use dong_tai_server.MethodPools.{
  Decoders, parse_headers, get_content_encoding, encoding_of, new_decode_content, decode_content,
}
use dong_tai_server.MethodPools.Headers.{parse_headers-finds}

abbrev decoders : Decoders
decoders = record {
  b64decode = λ s. some s;
  base64_text = λ s. s;
  gunzip_utf8 = λ s. none;
  utf8 = λ s. some s;
  raw_unicode_escape = λ s. some s;
  strip_lower = λ s. s;
}

abbrev raw : Text
raw = codes "id:1\nhost:a:80\nq:2"

parse_headers-finds_example :
    (headers : List (Text × Text)) × (parse_headers decoders raw ≡ some headers)
    × (get (codes "host") headers ≡ some (codes "a:80"))
parse_headers-finds_example =
    parse_headers-finds decoders raw raw raw (codes "host") (codes "a:80") (codes "id:1" ∷ [])
      (codes "q:2" ∷ []) refl refl refl
      (omega arith, (omega arith, (omega arith, (omega arith, tt)))) ((λ e. cc), tt)

gzip_run : get_content_encoding decoders (codes "a:1\ncontent-encoding:gzip") ≡ codes "gzip"
unfolding get_content_encoding encoding_of
gzip_run = refl

body_run : new_decode_content decoders (codes "b") (codes "gzip") (codes "v3") ≡ some (codes "b")
unfolding new_decode_content decode_content
body_run = refl
