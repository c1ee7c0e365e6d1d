-- ===== src/Highlight/Marked.antt =====
-- What marking the ranges makes of each part of a value.
use dong_tai_server.Prelude.{
  ℕ, suc, zero, ◌+◌, ◌-◌, ◌≤◌, ◌<◌, ◌≡◌, get_elem?, length, All-at, All-of, subst, refl, ◌∙◌, inl,
  inr, true, false, some, List, [], ◌∷◌, ◌++◌, All, All-map, arith, Bool-cases, if◌then◌else◌, ◌==◌,
  number_comparison,
}
use dong_tai_server.Prelude.Dict.{lookup, put, lookup-put}
use dong_tai_server.Prelude.Text.{Text}
use dong_tai_server.Highlight.{
  TaintRange, StrDict, em_open, em_close, in_front, at_end, close_at, mark_range, mark_ranges,
  enumerate_into, xss_prevent, any_beyond, joined, parse_target_value_length,
  highlight_target_value,
}
use dong_tai_server.Prelude.Sorting.{sort_by, mem-arrange, length-arrange, up}
use dong_tai_server.Compatibility.{parse_target_value}

abbrev pub Has : StrDict → ℕ → Type 0
Has d k = (s : Text) × (lookup k d ≡ some s)

-- The first and the last position of the range are positions of the text.
abbrev pub Fits : StrDict → TaintRange → Type 0
Fits d r = Has d r.start × ((k : ℕ) × (r.stop ≡ suc k) × Has d k)

-- The tags that the ranges put around the part `s` at `i`, the later ones outside.
abbrev pub tagged : List TaintRange → ℕ → Text → Text
tagged [] i s = s
tagged (r ∷ rs) i s =
    let opened = if r.start == i then em_open ++ s else s in
    let closed = if r.stop == suc i then opened ++ em_close else opened in tagged rs i closed

in_front-lem :
    (tag : Text) (k : ℕ) (d : StrDict)
    → Has d k
    → (out : StrDict) × (in_front tag k d ≡ some out)
      × ((i : ℕ) (s : Text)
          → lookup i d ≡ some s
          → lookup i out ≡ some (if k == i then tag ++ s else s))
in_front-lem tag k d (t, e) = (
  put k (tag ++ t) d,
  rw (in_front, e) refl,
  λ i s f. rw (lookup-put k i (tag ++ t) d) (elim (Bool-cases (k == i)) [
    | inl q ↦
        let same : k ≡ i = ground arith in
        let one : t ≡ s = (let twice : some t ≡ some s = cc (e, f, same) in cc) in rw (q, one) refl
    | inr q ↦ rw (q, f) refl
  ]),
)

at_end-lem :
    (tag : Text) (k : ℕ) (d : StrDict)
    → Has d k
    → (out : StrDict) × (at_end tag k d ≡ some out)
      × ((i : ℕ) (s : Text)
          → lookup i d ≡ some s
          → lookup i out ≡ some (if k == i then s ++ tag else s))
at_end-lem tag k d (t, e) = (
  put k (t ++ tag) d,
  rw (at_end, e) refl,
  λ i s f. rw (lookup-put k i (t ++ tag) d) (elim (Bool-cases (k == i)) [
    | inl q ↦
        let same : k ≡ i = ground arith in
        let one : t ≡ s = (let twice : some t ≡ some s = cc (e, f, same) in cc) in rw (q, one) refl
    | inr q ↦ rw (q, f) refl
  ]),
)

mark_range-lem :
    (r : TaintRange) (d : StrDict)
    → Fits d r
    → (out : StrDict) × (mark_range r d ≡ some out)
      × ((i : ℕ) (s : Text) → lookup i d ≡ some s → lookup i out ≡ some (tagged (r ∷ []) i s))
unfolding mark_range close_at
mark_range-lem r d (from, (k, to, last)) =
    let (opened, e, front) = in_front-lem em_open r.start d from in
    let (out, f, end_) = at_end-lem em_close k opened (_, front k last.0 last.1) in
    let stops : close_at r.stop opened ≡ some out = rw to f in
    (
      out,
      rw (mark_range, e) stops,
      λ i s g.
          let same : (r.stop == suc i) ≡ (k == i) = ground arith in
          rw same (end_ i _ (front i s g)),
    )

mark_ranges-tagged :
    (rs : List TaintRange) (d : StrDict)
    → All (Fits d) rs
    → (out : StrDict) × (mark_ranges rs d ≡ some out)
      × ((i : ℕ) (s : Text) → lookup i d ≡ some s → lookup i out ≡ some (tagged rs i s))
unfolding mark_ranges
mark_ranges-tagged [] d h = (d, refl, λ i s e. e)
mark_ranges-tagged (r ∷ rs) d (h, hs) =
    let (next, e, one) = mark_range-lem r d h in
    let fits =
      All-map (Fits d) (Fits next)
        (λ q (f : Fits d q).
          ((_, one q.start f.0.0 f.0.1), (f.1.0, f.1.1, (_, one f.1.0 f.1.2.0 f.1.2.1))))
        rs hs in
    let (out, f, all) = mark_ranges-tagged rs next fits in
    (out, rw (mark_ranges, e) f, λ i s g. all i _ (one i s g))

enumerate_into-before :
    (j base : ℕ) (v : Text) (d : StrDict)
    → j < base
    → lookup j (enumerate_into base v d) ≡ lookup j d
unfolding enumerate_into
enumerate_into-before j base [] d h = refl
enumerate_into-before j base (c ∷ v) d h =
    let other : (base == j) ≡ false = ground arith in
    enumerate_into-before j (suc base) v (put base (xss_prevent c) d) (omega arith)
    ∙ (lookup-put base j (xss_prevent c) d ∙ rw other refl)

enumerate_into-at :
    (base : ℕ) (v : Text) (d : StrDict) (i c : ℕ)
    → get_elem? v i ≡ some c
    → lookup (base + i) (enumerate_into base v d) ≡ some (xss_prevent c)
unfolding enumerate_into
enumerate_into-at base [] d i c h = absurd (cc)
enumerate_into-at base (b ∷ v) d zero c h =
    let same : b ≡ c = cc in
    let here : (base == base + 0) ≡ true = ground arith in
    enumerate_into-before (base + 0) (suc base) v (put base (xss_prevent b) d) (omega arith)
    ∙ (lookup-put base (base + 0) (xss_prevent b) d ∙ rw (here, same) refl)
enumerate_into-at base (b ∷ v) d (suc i) c h =
    let rest = enumerate_into-at (suc base) v (put base (xss_prevent b) d) i c h in
    let shift : base + suc i ≡ suc base + i = omega arith in rw shift rest

enumerate_into-get_elem? :
    (v : Text) (i c : ℕ)
    → get_elem? v i ≡ some c
    → lookup i (enumerate_into 0 v []) ≡ some (xss_prevent c)
enumerate_into-get_elem? v i c h =
    let at_ : 0 + i ≡ i = omega arith in
    subst (λ (j : ℕ). lookup j (enumerate_into 0 v []) ≡ some (xss_prevent c)) at_
      (enumerate_into-at 0 v [] i c h)

get_elem?-below : (v : Text) (i : ℕ) → i < length v → (c : ℕ) × (get_elem? v i ≡ some c)
get_elem?-below [] i h = absurd (omega arith)
get_elem?-below (c ∷ v) zero h = (c, refl)
get_elem?-below (c ∷ v) (suc i) h = get_elem?-below v i (omega arith)

-- The range covers characters of a text of length `n`.
abbrev pub IsWithin : ℕ → TaintRange → Type 0
IsWithin n r = (r.start < n) × (1 ≤ r.stop) × (r.stop ≤ n)

any_beyond-false : (n : ℕ) (rs : List TaintRange) → All (IsWithin n) rs → any_beyond n rs ≡ false
any_beyond-false n [] h = refl
any_beyond-false n (r ∷ rs) (h, hs) = ground (arith, h.0, h.1, h.2, any_beyond-false n rs hs)

IsWithin-Fits : (v : Text) (r : TaintRange) → IsWithin (length v) r → Fits (enumerate_into 0 v []) r
IsWithin-Fits v r (from, some_, to) =
    let (c, e) = get_elem?-below v r.start from in
    let (b, f) = get_elem?-below v (r.stop - 1) (omega arith) in
    (
      (xss_prevent c, enumerate_into-get_elem? v r.start c e),
      (r.stop - 1, omega arith, (xss_prevent b, enumerate_into-get_elem? v (r.stop - 1) b f)),
    )

-- If the value of a text is not empty and whole, and there are ranges that all cover characters of
-- it, then nothing is raised, and in the result each character stands escaped, within the tags that
-- the ranges put around it.
pub highlight_target_value-tagged :
    (target : Text) (ranges : List TaintRange)
    → 1 ≤ length (parse_target_value target)
    → parse_target_value_length target ≡ length (parse_target_value target)
    → 1 ≤ length ranges
    → All (IsWithin (length (parse_target_value target))) ranges
    → (out : StrDict) × (highlight_target_value target ranges ≡ some (joined out))
      × ((i c : ℕ)
          → get_elem? (parse_target_value target) i ≡ some c
          → lookup i out ≡ some (tagged (sort_by (λ r. r.start) ranges) i (xss_prevent c)))
unfolding highlight_target_value
highlight_target_value-tagged target ranges one whole_ some_ h =
    let v = parse_target_value target in
    let rs : List TaintRange = sort_by (λ r. r.start) ranges in
    let within : All (IsWithin (length v)) rs = All-of (IsWithin (length v)) rs (λ r m.
      All-at (IsWithin (length v)) r ranges h
        ((mem-arrange (up (λ (x : TaintRange). x.start)) r ranges).0 m)) in
    let fits : All (Fits (enumerate_into 0 v [])) rs = All-map _ _ (IsWithin-Fits v) rs within in
    let (out, e, all) = mark_ranges-tagged rs (enumerate_into 0 v []) fits in
    let a : (length v == 0) ≡ false = ground arith in
    let b : any_beyond (parse_target_value_length target) rs ≡ false =
      rw whole_ (any_beyond-false (length v) rs within) in
    let n : length rs ≡ length ranges = length-arrange (up (λ (x : TaintRange). x.start)) ranges in
    let d : (length rs == 0) ≡ false = ground (arith, n) in
    let f : (length v == parse_target_value_length target) ≡ true = ground arith in
    (
      out,
      rw (highlight_target_value, a, b, d, f, e) refl,
      λ i c g. all i _ (enumerate_into-get_elem? v i c g),
    )
