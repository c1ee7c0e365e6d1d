-- ===== src/TaintSearch/Merge.antt =====
-- dongtai_common/engine/vul_engine.py, VulEngine.search: paths that meet before the same sink are merged into one.
pub mod Covers
pub mod Ends
use dong_tai_server.Prelude.{
  ℕ, zero, suc, ◌≤◌, ◌<◌, ◌≡◌, refl, sym, ◌∙◌, ◌↔◌, ◌⊎◌, inl, inr, Bool, true, false, ◌&&◌, Option,
  none, some, List, [], ◌∷◌, ◌++◌, ◌∈◌, All, All-of, All-at, All-map, mem-append_left,
  mem-append_right, mem-append_cases, arith, Bool-cases, if◌then◌else◌, ◌==◌, number_comparison,
  nat_beq_iff, ap, subst, drop,
}
use dong_tai_server.Prelude.Sorting.{sort_by, sort_by-InOrder, InOrder, up, mem-arrange}
use dong_tai_server.Prelude.Sets.{shares, unique, mem-unique}
use dong_tai_server.Compatibility.{but_last}
use dong_tai_server.TaintSearch.{last?}

abbrev pub both_same : Option ℕ → Option ℕ → Bool
both_same none b = false
both_same (some x) none = false
both_same (some x) (some y) = x == y

-- `path[-1] == target_path[-1]`
pub same_last : List ℕ → List ℕ → Bool
same_last path target_path = both_same (last? path) (last? target_path)

-- `set(path[1:]) & set(target_path[1:]) and path[-1] == target_path[-1]`
pub joins : List ℕ → List ℕ → Bool
joins path target_path = shares (drop 1 path) (drop 1 target_path) && same_last path target_path

-- `sorted(set(target_path + path[:-1]))`
pub merged : List ℕ → List ℕ → List ℕ
merged path target_path = sort_by (λ x. x) (unique (target_path ++ but_last path))

-- One round: the first path that `path` joins takes it in; if there is none, it is appended.
pub merge_into : List ℕ → List (List ℕ) → List (List ℕ)
merge_into path [] = path ∷ []
merge_into path (target_path ∷ final_path) =
    let rest = merge_into path final_path in
    if joins path target_path then merged path target_path ∷ final_path else target_path ∷ rest

pub merge_from : List (List ℕ) → List (List ℕ) → List (List ℕ)
merge_from [] final_path = final_path
merge_from (path ∷ paths) final_path = merge_from paths (merge_into path final_path)

pub merge_paths : List (List ℕ) → List (List ℕ)
merge_paths total_path_list = merge_from total_path_list []
