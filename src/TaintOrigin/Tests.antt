-- ===== src/TaintOrigin/Tests.antt =====
-- Runs and instances for the origin of a taint.
use dong_tai_server.Prelude.{
  ℕ, ◌≡◌, ◌↔◌, refl, not, none, some, List, [], ◌∷◌, ◌∈◌, filter, length, ◌==◌, number_comparison,
  text_comparison,
}
use dong_tai_server.Prelude.Text.{Text, codes}
use dong_tai_server.Prelude.Splits.{split, join, digits, digits_from}
use dong_tai_server.TaintOrigin.{
  Codecs, Request, Names, names_at, parse_taint_position, get_parser_location, parse_path,
  first_index, param_dict, extend_items, extend_cuts, parse_params, match_params, first_match,
}
use dong_tai_server.TaintOrigin.Url.{get_original_url}
use dong_tai_server.TaintOrigin.Listed.{NoRepeats, Finds}
use dong_tai_server.TaintOrigin.Total.{parser, parse_taint_position-Finds}
use dong_tai_server.TaintOrigin.Url.Pattern.{FirstAt, masked_at, parse_path-get_original_url}

abbrev codecs : Codecs
codecs = record {
  query_items = λ s. some ((codes "q", s) ∷ []);
  unquote_plus = λ s. s;
  json_loads = λ s. none;
  b64decode = λ s. some s;
  decode_utf8 = λ s. some s;
  parse_headers = λ s. some [];
  java_params = λ s. none;
}

abbrev request : Request
request = record {
  req_params = some (codes "ab");
  req_data = none;
  req_header = some (codes "Cookie:s=ab");
  uri = some (codes "/u/ab");
}

abbrev values : List Text
values = codes "ab" ∷ [] ∷ []

parse_taint_position-Finds_example :
    (out : Names) × (parse_taint_position codecs (codes "m") request values ≡ some out)
    × ((at_ : Text)
        → NoRepeats (names_at at_ out)
          × ((n : Text)
              → (n ∈ names_at at_ out)
                ↔ Finds
                    (parser codecs request)
                    (filter (λ v. not (length v == 0)) values)
                    (get_parser_location codecs (codes "m"))
                    at_
                    n))
parse_taint_position-Finds_example =
    parse_taint_position-Finds codecs (codes "m") request values
      (((_, refl), (_, refl)), tt, (codes "Cookie:s=ab", refl, (_, refl), (_, refl)))

path_run : parse_path (codes "/u/ab") (codes "ab") ≡ some (codes "location:2")
unfolding parse_path first_index digits digits_from
path_run = refl

parse_path-get_original_url_example :
    (i : ℕ) × FirstAt (codes "ab") i (split b'/' (codes "/u/ab"))
    × (get_original_url (codes "/u/ab") (codes "location:2" ∷ [])
        ≡ some (join b'/' (masked_at i (split b'/' (codes "/u/ab")))))
parse_path-get_original_url_example =
    parse_path-get_original_url (codes "/u/ab") (codes "ab") (codes "location:2") path_run

-- A value with an equals sign is also looked at as a key and a value of its own.
extended_run : parse_params codecs (codes "k=ab") (codes "ab") ≡ some (some (codes "q"))
unfolding parse_params match_params param_dict extend_items extend_cuts first_match
extended_run = refl
