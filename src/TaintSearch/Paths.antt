-- ===== src/TaintSearch/Paths.antt =====
-- The paths that VulEngine.search collects. The graph algorithms are networkx's and stand as the
-- parameter `Networkx`, with their documented behaviour on a graph as `FindsPaths`.
pub mod Sound
use dong_tai_server.Prelude.{
  ℕ, ◌≡◌, ◌↔◌, ◌⊎◌, Bool, true, false, not, ◌||◌, List, [], ◌∷◌, ◌++◌, if◌then◌else◌,
}
use dong_tai_server.Prelude.Text.{Text}
use dong_tai_server.MethodCall.{MethodCall}
use dong_tai_server.TaintSearch.{
  Arc, build_graph, has_node, is_dropped, source_methods, vul_methods,
}
use dong_tai_server.TaintSearch.Arcs.{HasArc}

-- `path` leads from `s` to `t` along the relation `R`.
abbrev pub Leads : (ℕ → ℕ → Type 0) → ℕ → ℕ → List ℕ → Type 0
Leads R s t [] = ⊥
Leads R s t (x ∷ []) = (x ≡ s) × (s ≡ t)
Leads R s t (x ∷ y ∷ path) = (x ≡ s) × R s y × Leads R y t (y ∷ path)

pub record Networkx : Type 0 where
  pub has_path : List Arc → ℕ → ℕ → Bool
  pub shortest_path : List Arc → ℕ → ℕ → List ℕ

-- On nodes of the graph: has_path says whether a path exists, and shortest_path then gives one.
pub record FindsPaths (nx : Networkx) (g : List Arc) : Type 0 where
  pub found :
      (s t : ℕ)
      → has_node g s ≡ true
      → has_node g t ≡ true
      → nx.has_path g s t ≡ true
      → Leads (HasArc g) s t (nx.shortest_path g s t)
  pub complete :
      (s t : ℕ) (path : List ℕ)
      → has_node g s ≡ true
      → has_node g t ≡ true
      → Leads (HasArc g) s t path
      → nx.has_path g s t ≡ true

module _ (nx : Networkx) (pool : List MethodCall) (g : List Arc) where
  -- One round of the loop over product(source_methods, vul_methods): the path it appends, if any.
  pub path_between : ℕ → ℕ → List (List ℕ)
  path_between s t =
      if not (has_node g s) || not (has_node g t)
      then []
      else if nx.has_path g s t
      then (if is_dropped pool (nx.shortest_path g s t) then [] else nx.shortest_path g s t ∷ [])
      else []

  pub paths_from : ℕ → List ℕ → List (List ℕ)
  paths_from s [] = []
  paths_from s (t ∷ ts) = path_between s t ++ paths_from s ts

  pub paths_between : List ℕ → List ℕ → List (List ℕ)
  paths_between [] ts = []
  paths_between (s ∷ ss) ts = paths_from s ts ++ paths_between ss ts

-- `total_path_list`
pub total_paths : Networkx → Text → List MethodCall → List (List ℕ)
total_paths nx signature pool =
    paths_between nx pool (build_graph pool pool) (source_methods pool) (vul_methods signature pool)
