-- ===== src/TaintSearch/Merge/Covers.antt =====
-- Merging loses no call of a path and brings in none of its own.
use dong_tai_server.Prelude.{
  ℕ, ◌≡◌, refl, sym, ◌↔◌, ◌⊎◌, inl, inr, true, Option, none, some, List, [], ◌∷◌, ◌++◌, ◌∈◌, All,
  mem-append_left, mem-append_right, mem-append_cases, arith, Bool-cases, number_comparison,
  nat_beq_iff, ap, subst,
}
use dong_tai_server.Prelude.Sorting.{up, mem-arrange}
use dong_tai_server.Prelude.Sets.{unique, mem-unique}
use dong_tai_server.Compatibility.{but_last}
use dong_tai_server.TaintSearch.{last?}
use dong_tai_server.TaintSearch.Merge.{
  both_same, same_last, joins, merged, merge_into, merge_from, merge_paths,
}

pub mem-merged :
    (path target_path : List ℕ) (x : ℕ)
    → (x ∈ merged path target_path) ↔ ((x ∈ target_path) ⊎ (x ∈ but_last path))
unfolding merged
mem-merged path target_path x =
    let joined = target_path ++ but_last path in
    let sorted_lem = mem-arrange (up (λ n. n)) x (unique joined) in
    let once = mem-unique x joined in
    (
      λ m. mem-append_cases x target_path (but_last path) (once.0 (sorted_lem.0 m)),
      λ m. sorted_lem.1 (
          once.1 (elim m [
            | inl l ↦ mem-append_left x target_path (but_last path) l
            | inr r ↦ mem-append_right x target_path (but_last path) r
          ])),
    )

pub last-mem : (xs : List ℕ) (t : ℕ) → last? xs ≡ some t → t ∈ xs
unfolding last?
last-mem [] t h = cc
last-mem (x ∷ []) t h = inl (cc)
last-mem (x ∷ y ∷ r) t h = inr (last-mem (y ∷ r) t h)

pub last-exists : (x : ℕ) (xs : List ℕ) → (t : ℕ) × (last? (x ∷ xs) ≡ some t)
unfolding last?
last-exists x [] = (x, refl)
last-exists x (y ∷ xs) = last-exists y xs

-- A member stands in front of the last place or in it.
pub mem-but_last : (xs : List ℕ) (x : ℕ) → x ∈ xs → (x ∈ but_last xs) ⊎ (last? xs ≡ some x)
unfolding last?
mem-but_last [] x m = absurd m
mem-but_last (y ∷ []) x (inl e) = inr (ap some (sym e))
mem-but_last (y ∷ []) x (inr m) = absurd m
mem-but_last (y ∷ z ∷ r) x (inl e) = inl (inl e)
mem-but_last (y ∷ z ∷ r) x (inr m) = elim (mem-but_last (z ∷ r) x m) [
  | inl k ↦ inl (inr k)
  | inr e ↦ inr e
]

pub but_last-mem : (xs : List ℕ) (x : ℕ) → x ∈ but_last xs → x ∈ xs
but_last-mem [] x m = absurd m
but_last-mem (y ∷ []) x m = absurd m
but_last-mem (y ∷ z ∷ r) x (inl e) = inl e
but_last-mem (y ∷ z ∷ r) x (inr m) = inr (but_last-mem (z ∷ r) x m)

both_same-eq : (a b : Option ℕ) → both_same a b ≡ true → (t : ℕ) × (a ≡ some t) × (b ≡ some t)
both_same-eq none b h = cc
both_same-eq (some x) none h = cc
both_same-eq (some x) (some y) h = (x, refl, ground (arith, nat_beq_iff x y))

pub joins-last :
    (p q : List ℕ) → joins p q ≡ true → (t : ℕ) × (last? p ≡ some t) × (last? q ≡ some t)
unfolding joins same_last
joins-last p q h = both_same-eq (last? p) (last? q) (ground arith)

abbrev pub Within : List ℕ → List ℕ → Type 0
Within xs ys = (x : ℕ) → x ∈ xs → x ∈ ys

-- Some merged path has all calls of `path`.
abbrev pub Covered : List ℕ → List (List ℕ) → Type 0
Covered path final_path = (f : List ℕ) × (f ∈ final_path) × Within path f

Within-merged : (p q : List ℕ) → joins p q ≡ true → Within p (merged p q)
Within-merged p q h x m =
    let (t, e, k) = joins-last p q h in
    elim (mem-but_last p x m) [
      | inl front ↦ (mem-merged p q x).1 (inr front)
      | inr end ↦ let same : x ≡ t = cc in (mem-merged p q x).1 (inl (rw same (last-mem q t k)))
    ]

merge_into-new : (p : List ℕ) (fs : List (List ℕ)) → Covered p (merge_into p fs)
unfolding merge_into
merge_into-new p [] = (p, inl refl, λ x m. m)
merge_into-new p (q ∷ fs) = elim (Bool-cases (joins p q)) [
  | inl e ↦ rw e (merged p q, inl refl, Within-merged p q e)
  | inr e ↦ let (f, m, w) = merge_into-new p fs in rw e (f, inr m, w)
]

merge_into-old : (p r : List ℕ) (fs : List (List ℕ)) → Covered r fs → Covered r (merge_into p fs)
unfolding merge_into
merge_into-old p r [] (f, m, w) = absurd m
merge_into-old p r (q ∷ fs) (f, inl same, w) = elim (Bool-cases (joins p q)) [
  | inl e ↦
      rw e
        (merged p q, inl refl, λ x k. (mem-merged p q x).1 (inl (subst (λ u. x ∈ u) same (w x k))))
  | inr e ↦ rw e (f, inl same, w)
]
merge_into-old p r (q ∷ fs) (f, inr m, w) = elim (Bool-cases (joins p q)) [
  | inl e ↦ rw e (f, inr m, w)
  | inr e ↦ let (f', m', w') = merge_into-old p r fs (f, m, w) in rw e (f', inr m', w')
]

merge_from-old :
    (ps : List (List ℕ)) (r : List ℕ) (fs : List (List ℕ))
    → Covered r fs
    → Covered r (merge_from ps fs)
unfolding merge_from
merge_from-old [] r fs c = c
merge_from-old (p ∷ ps) r fs c = merge_from-old ps r (merge_into p fs) (merge_into-old p r fs c)

merge_from-new :
    (ps : List (List ℕ)) (r : List ℕ) (fs : List (List ℕ)) → r ∈ ps → Covered r (merge_from ps fs)
unfolding merge_from
merge_from-new [] r fs m = absurd m
merge_from-new (p ∷ ps) r fs (inl e) =
    merge_from-old ps r (merge_into p fs) (rw e (merge_into-new p fs))
merge_from-new (p ∷ ps) r fs (inr m) = merge_from-new ps r (merge_into p fs) m

-- A call stands on one of the paths.
abbrev pub OnSome : ℕ → List (List ℕ) → Type 0
OnSome x [] = ⊥
OnSome x (p ∷ ps) = (x ∈ p) ⊎ OnSome x ps

merge_into-OnSome :
    (p : List ℕ) (fs : List (List ℕ)) (x : ℕ) → OnSome x (merge_into p fs) → (x ∈ p) ⊎ OnSome x fs
unfolding merge_into
merge_into-OnSome p [] x m = elim m [ inl k ↦ inl k | inr z ↦ absurd z ]
merge_into-OnSome p (q ∷ fs) x m = elim (Bool-cases (joins p q)) [
  | inl e ↦ elim (rw e at m) [
    | inl k ↦ elim ((mem-merged p q x).0 k) [
      | inl l ↦ inr (inl l)
      | inr r ↦ inl (but_last-mem p x r)
    ]
    | inr k ↦ inr (inr k)
  ]
  | inr e ↦ elim (rw e at m) [
    | inl k ↦ inr (inl k)
    | inr k ↦ elim (merge_into-OnSome p fs x k) [ inl l ↦ inl l | inr r ↦ inr (inr r) ]
  ]
]

merge_from-OnSome :
    (ps fs : List (List ℕ)) (x : ℕ) → OnSome x (merge_from ps fs) → OnSome x ps ⊎ OnSome x fs
unfolding merge_from
merge_from-OnSome [] fs x m = inr m
merge_from-OnSome (p ∷ ps) fs x m = elim (merge_from-OnSome ps (merge_into p fs) x m) [
  | inl l ↦ inl (inr l)
  | inr r ↦ elim (merge_into-OnSome p fs x r) [ inl l ↦ inl (inl l) | inr k ↦ inr k ]
]

-- Every collected path lies with all its calls within one merged path, and every call of a merged
-- path stands on a collected path.
pub merge_paths_covers :
    (paths : List (List ℕ))
    → ((path : List ℕ) → path ∈ paths → Covered path (merge_paths paths))
      × ((x : ℕ) → OnSome x (merge_paths paths) → OnSome x paths)
unfolding merge_paths
merge_paths_covers paths = (
  λ path m. merge_from-new paths path [] m,
  λ x m. elim (merge_from-OnSome paths [] x m) [ inl l ↦ l | inr z ↦ absurd z ],
)

-- A property of the collected paths that merging two of them keeps is one of the merged paths.
module _ (P : List ℕ → Type 0)
    (keeps : (p q : List ℕ) → joins p q ≡ true → P p → P q → P (merged p q)) where
  merge_into-All : (p : List ℕ) (fs : List (List ℕ)) → P p → All P fs → All P (merge_into p fs)
  unfolding merge_into
  merge_into-All p [] h hs = (h, tt)
  merge_into-All p (q ∷ fs) h hs = elim (Bool-cases (joins p q)) [
    | inl e ↦ rw e (keeps p q e h hs.0, hs.1)
    | inr e ↦ rw e (hs.0, merge_into-All p fs h hs.1)
  ]

  merge_from-All : (ps fs : List (List ℕ)) → All P ps → All P fs → All P (merge_from ps fs)
  unfolding merge_from
  merge_from-All [] fs h hs = hs
  merge_from-All (p ∷ ps) fs h hs =
      merge_from-All ps (merge_into p fs) h.1 (merge_into-All p fs h.0 hs)

  pub merge_paths-All : (paths : List (List ℕ)) → All P paths → All P (merge_paths paths)
  unfolding merge_paths
  merge_paths-All paths h = merge_from-All paths [] h tt
