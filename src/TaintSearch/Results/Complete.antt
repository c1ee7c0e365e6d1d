-- ===== src/TaintSearch/Results/Complete.antt =====
-- A search over calls with unique ids and with their values ends without an exception and reports each merged path.
use dong_tai_server.Prelude.{
  ℕ, ◌≡◌, refl, sym, ◌∙◌, inl, inr, true, none, some, List, [], ◌∷◌, ◌∈◌, All, All-of, All-at, map,
  filter, mem-filter, arith, subst,
}
use dong_tai_server.Prelude.Dict.{lookup}
use dong_tai_server.Prelude.Text.{Text}
use dong_tai_server.MethodCall.{MethodCall}
use dong_tai_server.TaintSearch.{Pool, invokeid_dict, is_source_method, source_methods, build_graph}
use dong_tai_server.TaintSearch.Arcs.{Flow, mem-map_id}
use dong_tai_server.TaintSearch.Paths.{Leads, Networkx, FindsPaths, total_paths}
use dong_tai_server.TaintSearch.Paths.Sound.{total_paths_sound}
use dong_tai_server.TaintSearch.Merge.{joins, merged, merge_paths}
use dong_tai_server.TaintSearch.Merge.Covers.{mem-merged, but_last-mem, merge_paths-All}
use dong_tai_server.TaintSearch.Results.{Engine, Found, prepare, search_pool, results}
use dong_tai_server.TaintSearch.Results.Returns.{
  Known, HasSource, HasValues, handed_out, invokeid_dict-Known, report_paths_lem, results-Truthful,
}

module _ (pool : List MethodCall) where
  abbrev IsSourceAt : ℕ → Type 0
  IsSourceAt k = (c : MethodCall) × (lookup k (invokeid_dict pool) ≡ some c) × (c.source ≡ true)

  abbrev IsFine : List ℕ → Type 0
  IsFine path = All (Known pool (invokeid_dict pool)) path × HasSource (invokeid_dict pool) path

  HasSource-mem :
      (path : List ℕ) → HasSource (invokeid_dict pool) path → (k : ℕ) × (k ∈ path) × IsSourceAt k
  HasSource-mem [] h = absurd h
  HasSource-mem (k ∷ path) (inl s) = (k, inl refl, s)
  HasSource-mem (k ∷ path) (inr h) = let (j, m, s) = HasSource-mem path h in (j, inr m, s)

  HasSource-of :
      (path : List ℕ) (k : ℕ) → k ∈ path → IsSourceAt k → HasSource (invokeid_dict pool) path
  HasSource-of [] k m s = absurd m
  HasSource-of (j ∷ path) k (inl e) s = inl (subst IsSourceAt e s)
  HasSource-of (j ∷ path) k (inr m) s = inr (HasSource-of path k m s)

  IsFine-merged : (p q : List ℕ) → joins p q ≡ true → IsFine p → IsFine q → IsFine (merged p q)
  IsFine-merged p q j (known, _) (known', source) =
      let (k, m, s) = HasSource-mem q source in
      (
        All-of _ (merged p q) (λ x n. elim ((mem-merged p q x).0 n) [
          | inl l ↦ All-at _ x q known' l
          | inr r ↦ All-at _ x p known (but_last-mem p x r)
        ]),
        HasSource-of (merged p q) k ((mem-merged p q k).1 (inl m)) s,
      )

  Leads-Known :
      (s t : ℕ) (path : List ℕ)
      → Known pool (invokeid_dict pool) s
      → Leads (Flow pool) s t path
      → All (Known pool (invokeid_dict pool)) path
  Leads-Known s t [] k h = absurd h
  Leads-Known s t (x ∷ []) k h = (subst (Known pool (invokeid_dict pool)) (sym h.0) k, tt)
  Leads-Known s t (x ∷ y ∷ path) k h =
      let (c, v, m, e, _, _) = h.1 in
      let next = subst (Known pool (invokeid_dict pool)) e (invokeid_dict-Known pool c m) in
      (subst (Known pool (invokeid_dict pool)) (sym h.0) k, Leads-Known y t (y ∷ path) next h.2)

  -- The ids name the calls.
  abbrev pub UniqueIds : Type 0
  UniqueIds = (c d : MethodCall) → c ∈ pool → d ∈ pool → c.invoke_id ≡ d.invoke_id → c ≡ d

  source-Known : (s : ℕ) → s ∈ source_methods pool → Known pool (invokeid_dict pool) s
  unfolding source_methods
  source-Known s m =
      let (c, k, e) = (mem-map_id s (filter is_source_method pool)).0 m in
      subst (Known pool (invokeid_dict pool)) e
        (invokeid_dict-Known pool c ((mem-filter is_source_method c pool).0 k).0)

  source-IsSourceAt : UniqueIds → (s : ℕ) → s ∈ source_methods pool → IsSourceAt s
  unfolding source_methods is_source_method
  source-IsSourceAt unique s m =
      let (c, k, e) = (mem-map_id s (filter is_source_method pool)).0 m in
      let (old, test) = (mem-filter is_source_method c pool).0 k in
      let (d, found, n, i) = source-Known s m in
      let same : d ≡ c = unique d c n old (i ∙ sym e) in (d, found, rw same (ground arith))

  Leads-HasSource :
      (s t : ℕ) (path : List ℕ)
      → IsSourceAt s
      → Leads (Flow pool) s t path
      → HasSource (invokeid_dict pool) path
  Leads-HasSource s t [] f h = absurd h
  Leads-HasSource s t (x ∷ []) f h = inl (subst IsSourceAt (sym h.0) f)
  Leads-HasSource s t (x ∷ y ∷ path) f h = inl (subst IsSourceAt (sym h.0) f)

module _ (nx : Networkx) (signature : Text) (pool : Pool)
    (finds : FindsPaths nx (build_graph pool.calls pool.calls)) (unique : UniqueIds pool.calls)
    (values : (c : MethodCall) → c ∈ pool.calls → HasValues c) where
  -- A search over calls with unique ids, each with "targetValues" and "sourceValues" beside the keys
  -- that MethodCall takes to be there, raises nothing, given that networkx finds paths as documented.
  -- What `results` hands out afterwards is one result for each merged path, in their order, with the
  -- calls of the path as its stack, or, if there is no merged path, the one entry that nothing was
  -- found.
  pub search_reports_paths :
      (e : Engine)
      → (e' : Engine) × (search_pool nx signature pool e ≡ some e')
        × (found : List Found) × (map (λ r. r.stack) found
            ≡ merge_paths (total_paths nx signature pool.calls))
        × (results e' ≡ handed_out found)
  unfolding search_pool prepare
  search_reports_paths e =
      let calls = pool.calls in
      let fine =
        merge_paths-All (IsFine calls) (IsFine-merged calls) (total_paths nx signature calls) (
          All-of (IsFine calls) (total_paths nx signature calls) λ path m.
            let (s, t, j, k, led) = total_paths_sound nx signature calls finds path m in
            (
              Leads-Known calls s t path (source-Known calls s j) led,
              Leads-HasSource calls s t path (source-IsSourceAt calls unique s j) led,
            )) in
      let (e', runs, stacks, truthful) =
        report_paths_lem calls (invokeid_dict calls) (merge_paths (total_paths nx signature calls))
          none (prepare signature pool.version e) values fine (inr (refl, refl)) in
      (e', runs, e'.more_results, stacks, results-Truthful e' truthful)
