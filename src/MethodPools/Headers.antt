-- ===== src/MethodPools/Headers.antt =====
-- What is found under a name in the headers.
use dong_tai_server.Prelude.{
  ◌≡◌, ◌≢◌, refl, ◌∙◌, ap, Bool, true, false, Option, none, some, List, [], ◌∷◌, ◌++◌, All, arith,
  if◌then◌else◌, ◌==◌, text_comparison, text_beq_iff, nat_beq, Bool-cases, inl, inr,
}
use dong_tai_server.Prelude.Splits.{split, join-split}
use dong_tai_server.Prelude.Text.{Text}
use dong_tai_server.TaintOrigin.{get, set}
use dong_tai_server.MethodPools.{Decoders, header_name, header_value, headers_of, parse_headers}

get-set :
    (n k v : Text) (d : List (Text × Text))
    → get n (set k v d) ≡ (if k == n then some v else get n d)
get-set n k v [] = refl
get-set n k v ((j, w) ∷ d) =
    ground (arith, get-set n k v d, text_beq_iff j k, text_beq_iff k n, text_beq_iff j n)

-- The value of the last line with the name.
abbrev pub last_with : Text → Option Text → List Text → Option Text
last_with n found [] = found
last_with n found (line ∷ lines) =
    last_with n (if header_name line == n then some (header_value line) else found) lines

headers_of-get :
    (n : Text) (lines : List Text) (d : List (Text × Text))
    → get n (headers_of lines d) ≡ last_with n (get n d) lines
unfolding headers_of
headers_of-get n [] d = refl
headers_of-get n (line ∷ lines) d =
    headers_of-get n lines (set (header_name line) (header_value line) d)
    ∙ ap (λ found. last_with n found lines) (get-set n (header_name line) (header_value line) d)

split-line : (n v : Text) → All (λ c. c ≢ b':') n → split b':' (n ++ b':' ∷ v) ≡ n ∷ split b':' v
split-line [] v h = refl
split-line (c ∷ n) v (h, hs) =
    let off : nat_beq c b':' ≡ false = ground (arith, h) in
    let rest = split-line n v hs in rw (off, rest) refl

header_name-line : (n v : Text) → All (λ c. c ≢ b':') n → header_name (n ++ b':' ∷ v) ≡ n
header_name-line n v h = rw (split-line n v h) refl

header_value-line : (n v : Text) → All (λ c. c ≢ b':') n → header_value (n ++ b':' ∷ v) ≡ v
header_value-line n v h = rw (split-line n v h) (join-split b':' v)

last_with-none :
    (n : Text) (found : Option Text) (lines : List Text)
    → All (λ l. header_name l ≢ n) lines
    → last_with n found lines ≡ found
last_with-none n found [] h = refl
last_with-none n found (line ∷ lines) (apart, h) = elim (Bool-cases (header_name line == n)) [
  | inl e ↦ absurd (apart ((text_beq_iff (header_name line) n).0 e))
  | inr e ↦ rw e (last_with-none n found lines h)
]

last_with-line :
    (n v : Text) (found : Option Text) (before after : List Text)
    → All (λ c. c ≢ b':') n
    → All (λ l. header_name l ≢ n) after
    → last_with n found (before ++ (n ++ b':' ∷ v) ∷ after) ≡ some v
last_with-line n v found [] after h apart =
    let hit : (header_name (n ++ b':' ∷ v) == n) ≡ true =
      (text_beq_iff _ n).1 (header_name-line n v h) in
    ap (λ (b : Bool). last_with n (if b then some (header_value (n ++ b':' ∷ v)) else found) after)
      hit
    ∙ last_with-none n (some (header_value (n ++ b':' ∷ v))) after apart
    ∙ ap some (header_value-line n v h)
last_with-line n v found (line ∷ before) after h apart =
    last_with-line n v (if header_name line == n then some (header_value line) else found) before
      after h apart

-- If the header can be decoded, and a line of it is a name without a colon, a colon and a value, and no
-- later line has the name, then parse_headers raises nothing and finds the whole value under the name.
pub parse_headers-finds :
    (decoders : Decoders) (raw bytes text n v : Text) (before after : List Text)
    → decoders.b64decode raw ≡ some bytes
    → decoders.utf8 bytes ≡ some text
    → split b'\n' text ≡ before ++ (n ++ b':' ∷ v) ∷ after
    → All (λ c. c ≢ b':') n
    → All (λ l. header_name l ≢ n) after
    → (headers : List (Text × Text)) × (parse_headers decoders raw ≡ some headers)
      × (get n headers ≡ some v)
unfolding parse_headers
parse_headers-finds decoders raw bytes text n v before after b u lines h apart = (
  headers_of (split b'\n' text) [],
  rw (parse_headers, b, u) refl,
  headers_of-get n (split b'\n' text) []
      ∙ ap (last_with n none) lines
      ∙ last_with-line n v none before after h apart,
)
