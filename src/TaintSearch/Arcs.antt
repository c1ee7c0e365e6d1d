-- ===== src/TaintSearch/Arcs.antt =====
-- The arcs of the graph that VulEngine.search builds, in terms of the calls.
use dong_tai_server.Prelude.{
  ℕ, ◌≡◌, refl, sym, ◌∙◌, ◌↔◌, ◌⊎◌, inl, inr, Option, none, some, List, [], ◌∷◌, ◌++◌, ◌∈◌, map,
  filter, mem-filter, mem-append_left, mem-append_right, mem-append_cases, contains, contains_iff,
  arith, number_comparison, text_comparison, ◌==◌, if◌then◌else◌, ap, subst, Bool-cases,
}
use dong_tai_server.Prelude.Sets.{mem-unique}
use dong_tai_server.Prelude.Text.{codes}
use dong_tai_server.MethodCall.{MethodCall, SourceType}
use dong_tai_server.TaintSearch.{
  Arc, writers, writers_of_any, host_writers, predecessors, arcs_into, build_graph,
}

-- A call of the pool with the id `a` writes the value `h`.
abbrev pub Writes : List MethodCall → ℕ → ℕ → Type 0
Writes pool a h = (c : MethodCall) × (c ∈ pool) × (c.invoke_id ≡ a) × (h ∈ c.target_hash)

-- The values that a call takes its taint from: the last HOST entry of "sourceType" if that key is
-- there, and "sourceHash" if not.
abbrev pub last_host : List SourceType → Option ℕ → Option ℕ
last_host [] h = h
last_host (t ∷ ts) h = last_host ts (if t.kind == codes "HOST" then some t.hash else h)

abbrev pub TakesFrom : MethodCall → ℕ → Type 0
TakesFrom call h = elim call.source_type [
  | some types ↦ last_host types none ≡ some h
  | none ↦ h ∈ call.source_hash
]

pub mem-map_id :
    (a : ℕ) (pool : List MethodCall)
    → (a ∈ map (λ c. c.invoke_id) pool) ↔ ((c : MethodCall) × (c ∈ pool) × (c.invoke_id ≡ a))
mem-map_id a [] = (λ m. absurd m, λ m. absurd m.1)
mem-map_id a (x ∷ xs) = (
  λ m. elim m [
    | inl e ↦ (x, inl refl, sym e)
    | inr r ↦ let (c, k, e) = (mem-map_id a xs).0 r in (c, inr k, e)
  ],
  λ m. elim m.1 [
    | inl q ↦ inl (sym m.2 ∙ ap (λ (c : MethodCall). c.invoke_id) q)
    | inr k ↦ inr ((mem-map_id a xs).1 (m.0, k, m.2))
  ],
)

mem-writers : (pool : List MethodCall) (h a : ℕ) → (a ∈ writers pool h) ↔ Writes pool a h
unfolding writers
mem-writers pool h a =
    let test = λ (c : MethodCall). contains c.target_hash h in
    (
      λ m.
          let (c, k, e) = (mem-map_id a (filter test pool)).0 m in
          let (old, hit) = (mem-filter test c pool).0 k in
          (c, old, e, (contains_iff c.target_hash h).0 hit),
      λ w.
          (mem-map_id a (filter test pool)).1
            (w.0, (mem-filter test w.0 pool).1 (w.1, (contains_iff w.0.target_hash h).1 w.3), w.2),
    )

mem-writers_of_any :
    (pool : List MethodCall) (hs : List ℕ) (a : ℕ)
    → (a ∈ writers_of_any pool hs) ↔ ((h : ℕ) × (h ∈ hs) × Writes pool a h)
unfolding writers_of_any
mem-writers_of_any pool [] a = (λ m. absurd m, λ m. absurd m.1)
mem-writers_of_any pool (x ∷ xs) a = (
  λ m. elim (mem-append_cases a (writers pool x) (writers_of_any pool xs) m) [
    | inl l ↦ (x, inl refl, (mem-writers pool x a).0 l)
    | inr r ↦ let (h, k, w) = (mem-writers_of_any pool xs a).0 r in (h, inr k, w)
  ],
  λ m. elim m.1 [
    | inl e ↦
        mem-append_left a (writers pool x) (writers_of_any pool xs)
          ((mem-writers pool x a).1 (subst (Writes pool a) e m.2))
    | inr k ↦
        mem-append_right a (writers pool x) (writers_of_any pool xs)
          ((mem-writers_of_any pool xs a).1 (m.0, k, m.2))
  ],
)

-- what the loop over "sourceType" holds so far
abbrev writers_at : List MethodCall → Option ℕ → List ℕ
writers_at pool none = []
writers_at pool (some h) = writers pool h

host_writers-eq :
    (pool : List MethodCall) (types : List SourceType) (h : Option ℕ)
    → host_writers pool types (writers_at pool h) ≡ writers_at pool (last_host types h)
unfolding host_writers
host_writers-eq pool [] h = refl
host_writers-eq pool (t ∷ ts) h = elim (Bool-cases (t.kind == codes "HOST")) [
  | inl e ↦ rw (e, if◌then◌else◌) (host_writers-eq pool ts (some t.hash))
  | inr e ↦ rw (e, if◌then◌else◌) (host_writers-eq pool ts h)
]

mem-writers_at :
    (pool : List MethodCall) (o : Option ℕ) (a : ℕ)
    → (a ∈ writers_at pool o) ↔ ((h : ℕ) × (o ≡ some h) × Writes pool a h)
mem-writers_at pool none a = (λ m. absurd m, λ m. cc (m.1))
mem-writers_at pool (some k) a = (
  λ m. (k, refl, (mem-writers pool k a).0 m),
  λ m. (mem-writers pool k a).1 (let e : m.0 ≡ k = cc (m.1) in subst (Writes pool a) e m.2),
)

-- A call takes its taint from exactly those calls that write a value which it takes its taint from.
pub mem-predecessors :
    (pool : List MethodCall) (call : MethodCall) (a : ℕ)
    → (a ∈ predecessors pool call) ↔ ((h : ℕ) × TakesFrom call h × Writes pool a h)
unfolding predecessors
mem-predecessors pool call a = go call.source_type refl
  where
    go :
        (o : Option (List SourceType))
        → call.source_type ≡ o
        → (a ∈ predecessors pool call) ↔ ((h : ℕ) × TakesFrom call h × Writes pool a h)
    go none e =
        let any = mem-writers_of_any pool call.source_hash a in
        let once = mem-unique a (writers_of_any pool call.source_hash) in
        rw e (λ m. any.0 (once.0 m), λ m. once.1 (any.1 m))
    go (some types) e =
        let at = mem-writers_at pool (last_host types none) a in
        let once = mem-unique a (host_writers pool types []) in
        let same = host_writers-eq pool types none in
        rw e (λ m. at.0 (rw same at (once.0 m)), λ m. once.1 (rw same (at.1 m)))

-- A value flows from the calls with the id `a` into those with the id `b`.
abbrev pub Flow : List MethodCall → ℕ → ℕ → Type 0
Flow pool a b =
    (c : MethodCall) × (h : ℕ) × (c ∈ pool) × (c.invoke_id ≡ b) × TakesFrom c h × Writes pool a h

abbrev pub HasArc : List Arc → ℕ → ℕ → Type 0
HasArc [] a b = ⊥
HasArc (e ∷ g) a b = (a ≡ e.source) × (b ≡ e.target) ⊎ HasArc g a b

HasArc-append : (g k : List Arc) (a b : ℕ) → HasArc (g ++ k) a b ↔ (HasArc g a b ⊎ HasArc k a b)
HasArc-append [] k a b = (λ m. inr m, λ m. elim m [ inl q ↦ absurd q | inr q ↦ q ])
HasArc-append (e ∷ g) k a b =
    let ih = HasArc-append g k a b in (ground (arith, ih.0), ground (arith, ih.1))

HasArc-arcs_into :
    (call : MethodCall) (ss : List ℕ) (a b : ℕ)
    → HasArc (arcs_into call ss) a b ↔ (a ∈ ss) × (b ≡ call.invoke_id)
unfolding arcs_into
HasArc-arcs_into call [] a b = (λ m. absurd m, λ m. absurd m.0)
HasArc-arcs_into call (s ∷ ss) a b =
    let ih = HasArc-arcs_into call ss a b in (ground (arith, ih.0), ground (arith, ih.1))

HasArc-build_graph :
    (pool calls : List MethodCall) (a b : ℕ)
    → HasArc (build_graph pool calls) a b
      ↔ ((c : MethodCall) × (c ∈ calls) × (c.invoke_id ≡ b) × (a ∈ predecessors pool c))
unfolding build_graph
HasArc-build_graph pool [] a b = (λ m. absurd m, λ m. absurd m.1)
HasArc-build_graph pool (call ∷ calls) a b =
    let ih = HasArc-build_graph pool calls a b in
    let into = HasArc-arcs_into call (predecessors pool call) a b in
    let app =
      HasArc-append (arcs_into call (predecessors pool call)) (build_graph pool calls) a b in
    (
      λ m. elim (app.0 m) [
        | inl l ↦ let (k, e) = into.0 l in (call, inl refl, sym e, k)
        | inr r ↦ let (c, k, e, p) = ih.0 r in (c, inr k, e, p)
      ],
      λ m. elim m.1 [
        | inl q ↦ app.1 (
            inl (
              into.1 (
                subst (λ c. a ∈ predecessors pool c) q m.3,
                sym m.2 ∙ ap (λ (c : MethodCall). c.invoke_id) q,
              )))
        | inr k ↦ app.1 (inr (ih.1 (m.0, k, m.2, m.3)))
      ],
    )

-- The graph has an arc from `a` to `b` exactly if a call of the pool with the id `b` takes its taint
-- from a value that a call of the pool with the id `a` writes.
pub build_graph_flows :
    (pool : List MethodCall) (a b : ℕ) → HasArc (build_graph pool pool) a b ↔ Flow pool a b
build_graph_flows pool a b =
    let arcs = HasArc-build_graph pool pool a b in
    (
      λ m.
          let (c, k, e, p) = arcs.0 m in
          let (h, takes, writes) = (mem-predecessors pool c a).0 p in (c, h, k, e, takes, writes),
      λ f. arcs.1 (f.0, f.2, f.3, (mem-predecessors pool f.0 a).1 (f.1, f.4, f.5)),
    )
