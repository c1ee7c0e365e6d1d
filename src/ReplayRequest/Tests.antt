-- ===== src/ReplayRequest/Tests.antt =====
-- Runs and instances for the request that is sent again.
use dong_tai_server.Prelude.{◌≡◌, refl, none, some, List, [], ◌∷◌}
use dong_tai_server.Prelude.Text.{Text, codes}
use dong_tai_server.ReplayRequest.{
  Named, name, names, Loaded, invalid, Wire, Sent, key_of, replace_in, replace_item,
  replace_segment, replace_path, replace_cookie, replace_cookie_line, rewrite_position,
  rewrite_positions,
}
use dong_tai_server.ReplayRequest.Ignored.{SameContent, rewrite_positions-SameContent}

abbrev wire : Wire
wire = record {
  load_positions = λ s. invalid;
  set_in_json = λ body key value. none;
  decode_header = λ s. some s;
  encode_header = λ s. some s;
}

abbrev query : Text
query = codes "a=1&b=2&b=3"

replace_run : replace_in b'&' b'=' (name (codes "b")) (codes "x") query ≡ codes "a=1&b=x&b=3"
unfolding replace_in replace_item
replace_run = refl

abbrev request : Sent
request = record {
  uri = codes "/u/ab";
  params = query;
  header = codes "h";
  body = some (codes "b=2");
}

abbrev found : List (Text × Named)
found = (codes "GET", names (codes "b" ∷ [])) ∷ (codes "POST", names (codes "b" ∷ [])) ∷ []

sent_run : rewrite_positions wire (codes "x") [] found request ≡ some request
unfolding rewrite_positions rewrite_position dong_tai_server.ReplayRequest.replace_body
    dong_tai_server.ReplayRequest.replace_json replace_in replace_item
sent_run = refl

rewrite_positions-SameContent_example : SameContent request request
rewrite_positions-SameContent_example =
    rewrite_positions-SameContent wire (codes "x") [] found request request (tt, (tt, tt)) sent_run

path_run : replace_path (codes "ab") (codes "/u/ab") ≡ codes "/u/dongtai"
unfolding replace_path replace_segment
path_run = refl

-- A cookie header that is not the first line loses its name; one that is the first stays as it is.
cookie_run :
    replace_cookie wire (name (codes "s")) (codes "x") (codes "H:1\nCookie:s=2;t=3")
    ≡ some (codes "H:1\ns=x;t=3")
unfolding replace_cookie replace_cookie_line replace_in replace_item
cookie_run = refl

first_cookie_run :
    replace_cookie wire (name (codes "s")) (codes "x") (codes "Cookie:s=2")
    ≡ some (codes "Cookie:s=2")
unfolding replace_cookie replace_cookie_line
first_cookie_run = refl
