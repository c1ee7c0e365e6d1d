-- ===== src/TaintSearch/Merge/Ends.antt =====
-- Where the ids of the calls grow along every flow, a merged path still ends with its sink.
use dong_tai_server.Prelude.{
  ℕ, ◌≤◌, ◌<◌, ◌≡◌, refl, ◌∙◌, inl, inr, true, some, List, [], ◌∷◌, ◌++◌, ◌∈◌, All, All-of, All-map,
  arith, number_comparison, ap, subst,
}
use dong_tai_server.Prelude.Sorting.{sort_by-InOrder, InOrder, up}
use dong_tai_server.Prelude.Sets.{unique}
use dong_tai_server.Compatibility.{but_last}
use dong_tai_server.TaintSearch.{last?}
use dong_tai_server.TaintSearch.Merge.{joins, merged, merge_paths}
use dong_tai_server.TaintSearch.Merge.Covers.{
  mem-merged, last-mem, but_last-mem, last-exists, joins-last, merge_paths-All,
}
use dong_tai_server.Prelude.Text.{Text}
use dong_tai_server.MethodCall.{MethodCall}
use dong_tai_server.TaintSearch.{build_graph, vul_methods}
use dong_tai_server.TaintSearch.Arcs.{Flow}
use dong_tai_server.TaintSearch.Paths.{Leads, Networkx, FindsPaths, total_paths}
use dong_tai_server.TaintSearch.Paths.Sound.{total_paths_sound}

abbrev pub Rising : List ℕ → Type 0
Rising xs = InOrder (up (λ n. n)) xs

-- The path rises, and its last call is one of `sinks`.
abbrev pub EndsIn : List ℕ → List ℕ → Type 0
EndsIn sinks path = Rising path × ((t : ℕ) × (last? path ≡ some t) × (t ∈ sinks))

last-greatest : (xs : List ℕ) (t x : ℕ) → Rising xs → last? xs ≡ some t → x ∈ xs → x ≤ t
unfolding last?
last-greatest [] t x r e m = absurd m
last-greatest (y ∷ []) t x r e (inl q) = ground arith
last-greatest (y ∷ []) t x r e (inr q) = absurd q
last-greatest (y ∷ z ∷ ys) t x r e (inl q) =
    let rest = last-greatest (z ∷ ys) t z r.1 e (inl refl) in let first = r.0.0 in ground arith
last-greatest (y ∷ z ∷ ys) t x r e (inr m) = last-greatest (z ∷ ys) t x r.1 e m

last-eq_of_greatest :
    (xs : List ℕ) (t : ℕ) → Rising xs → t ∈ xs → ((x : ℕ) → x ∈ xs → x ≤ t) → last? xs ≡ some t
last-eq_of_greatest [] t r m h = absurd m
last-eq_of_greatest (x ∷ xs) t r m h =
    let (u, e) = last-exists x xs in
    let over = last-greatest (x ∷ xs) u t r e m in
    let under = h u (last-mem (x ∷ xs) u e) in let same : u ≡ t = omega arith in e ∙ ap some same

merged-Rising : (p q : List ℕ) → Rising (merged p q)
unfolding merged
merged-Rising p q = sort_by-InOrder (λ n. n) (unique (q ++ but_last p))

merged-EndsIn :
    (sinks p q : List ℕ)
    → joins p q ≡ true
    → EndsIn sinks p
    → EndsIn sinks q
    → EndsIn sinks (merged p q)
merged-EndsIn sinks p q j (rp, (tp, ep, mp)) (rq, (tq, eq, mq)) =
    let (t, e, k) = joins-last p q j in
    let same : tq ≡ t = cc in
    let greatest : (x : ℕ) → x ∈ merged p q → x ≤ t = λ x m. elim ((mem-merged p q x).0 m) [
      | inl l ↦ last-greatest q t x rq k l
      | inr r ↦ last-greatest p t x rp e (but_last-mem p x r)
    ] in
    (
      merged-Rising p q,
      (
        t,
        last-eq_of_greatest (merged p q) t (merged-Rising p q)
            ((mem-merged p q t).1 (inl (last-mem q t k))) greatest,
        subst (λ u. u ∈ sinks) same mq,
      ),
    )

Leads-Rising :
    (R : ℕ → ℕ → Type 0)
    → ((a b : ℕ) → R a b → a < b)
    → (s t : ℕ) (path : List ℕ) → Leads R s t path
    → Rising path × (last? path ≡ some t) × All (λ x. s ≤ x) path
unfolding last?
Leads-Rising R grows s t [] h = absurd h
Leads-Rising R grows s t (x ∷ []) h = ((tt, tt), ap some (h.0 ∙ h.1), (ground arith, tt))
Leads-Rising R grows s t (x ∷ y ∷ path) h =
    let (rising, last, above) = Leads-Rising R grows y t (y ∷ path) h.2 in
    let step = grows s y h.1 in
    let wide : All (λ z. s ≤ z) (y ∷ path) =
      All-map _ _ (λ z (le : y ≤ z). omega arith) (y ∷ path) above in
    (
      (All-map _ _ (λ z (le : s ≤ z). ground arith) (y ∷ path) wide, rising),
      last,
      (ground arith, wide),
    )

module _ (nx : Networkx) (signature : Text) (pool : List MethodCall)
    (finds : FindsPaths nx (build_graph pool pool)) where
  -- If every value flows from a call to one with a greater id, then every merged path is sorted by
  -- id and ends with a call of the searched signature.
  pub merge_paths_ends :
      ((a b : ℕ) → Flow pool a b → a < b)
      → All (EndsIn (vul_methods signature pool)) (merge_paths (total_paths nx signature pool))
  merge_paths_ends grows =
      let sinks = vul_methods signature pool in
      merge_paths-All (EndsIn sinks) (merged-EndsIn sinks) (total_paths nx signature pool) (
        All-of (EndsIn sinks) (total_paths nx signature pool) λ path m.
          let (s, t, j, k, led) = total_paths_sound nx signature pool finds path m in
          let (rising, last, above) = Leads-Rising (Flow pool) grows s t path led in
          (rising, (t, last, k)))
