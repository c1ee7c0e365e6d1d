-- ===== src/TaintGraph/Pruning.antt =====
-- filter_invalid_data ends, and what it leaves.
use dong_tai_server.Prelude.{
  ℕ, zero, suc, ◌+◌, ◌≤◌, ◌<◌, ◌≡◌, refl, ap, ◌⊎◌, inl, inr, Bool, true, false, not, some, List, [],
  ◌∷◌, All, All-of, All-append, mem-filter, filter, contains, length, length-append,
  length-filter-le, arith, Bool-cases, ◌==◌, number_comparison,
}
use dong_tai_server.Prelude.Sets.{unique, length-unique-le, mem-unique}
use dong_tai_server.Prelude.Dict.{keys}
use dong_tai_server.Prelude.Text.{Text}
use dong_tai_server.TaintGraph.{
  Graph, filter_invalid_node, drop_heads, clean_targets, clean_heads, remove_invalid,
  filter_invalid_data,
}

-- All targets of the graph, counted under each head.
abbrev pub size : Graph → ℕ
size [] = 0
size ((head, subs) ∷ g) = length subs + size g

length-filter_split :
    (p : ℕ → Bool) (xs : List ℕ)
    → length (filter (λ x. not (p x)) xs) + length (filter p xs) ≡ length xs
length-filter_split p [] = omega arith
length-filter_split p (x ∷ xs) = ground (arith, length-filter_split p xs)

module _ (node_type : ℕ → Text) where
  size-drop_heads : (g : Graph) → size (drop_heads node_type g) ≡ size g
  unfolding drop_heads
  size-drop_heads [] = refl
  size-drop_heads ((head, subs) ∷ g) = ground (arith, size-drop_heads g)

  clean_targets-shrinks :
      (heads subs : List ℕ)
      → (length (clean_targets node_type heads subs).0 ≤ length subs)
        × ((clean_targets node_type heads subs).1 ≡ true
            → length (clean_targets node_type heads subs).0 < length subs)
  unfolding clean_targets
  clean_targets-shrinks heads subs =
      let leaf_nodes = filter (λ x. not (contains heads x)) subs in
      let inner_nodes = filter (λ x. contains heads x) subs in
      let valid = filter (filter_invalid_node node_type) leaf_nodes in
      let split = length-filter_split (λ x. contains heads x) subs in
      let fewer = length-filter-le (filter_invalid_node node_type) leaf_nodes in
      let once = length-unique-le valid in
      let inner_once = length-unique-le inner_nodes in
      let joined = length-append (unique valid) (unique inner_nodes) in (ground arith, ground arith)

  clean_heads-shrinks :
      (heads : List ℕ) (g : Graph)
      → (size (clean_heads node_type heads g).0 ≤ size g)
        × ((clean_heads node_type heads g).1 ≡ true
            → size (clean_heads node_type heads g).0 < size g)
  unfolding clean_heads
  clean_heads-shrinks heads [] = (omega arith, λ h. cc)
  clean_heads-shrinks heads ((head, subs) ∷ g) =
      let one = clean_targets-shrinks heads subs in
      let rest = clean_heads-shrinks heads g in (omega arith, ground arith)

  remove_invalid-shrinks :
      (g : Graph)
      → (remove_invalid node_type g).1 ≡ true
      → size (remove_invalid node_type g).0 < size g
  unfolding remove_invalid
  remove_invalid-shrinks g h =
      let kept = clean_heads-shrinks (keys (drop_heads node_type g)) (drop_heads node_type g) in
      omega (arith, kept.1 h, size-drop_heads g)

  abbrev IsGood : List ℕ → ℕ → Type 0
  IsGood heads x = (contains heads x ≡ true) ⊎ (filter_invalid_node node_type x ≡ true)

  -- A head of the graph has a target, and each target is a head or no collection class.
  abbrev pub IsClean : List ℕ → Graph → Type 0
  IsClean heads [] = Unit
  IsClean heads ((head, subs) ∷ g) = (0 < length subs) × All (IsGood heads) subs × IsClean heads g

  All-inner : (heads xs : List ℕ) → All (IsGood heads) (unique (filter (λ x. contains heads x) xs))
  All-inner heads xs =
      All-of (IsGood heads) _
        λ a m. inl ((mem-filter (λ x. contains heads x) a xs).0 ((mem-unique a _).0 m)).1

  All-kept :
      (heads xs : List ℕ) → All (IsGood heads) (unique (filter (filter_invalid_node node_type) xs))
  All-kept heads xs =
      All-of (IsGood heads) _
        λ a m. inr ((mem-filter (filter_invalid_node node_type) a xs).0 ((mem-unique a _).0 m)).1

  All-heads :
      (heads xs : List ℕ)
      → length (filter (λ x. not (contains heads x)) xs) ≡ 0
      → All (IsGood heads) xs
  All-heads heads [] h = tt
  All-heads heads (x ∷ xs) h = elim (Bool-cases (contains heads x)) [
    | inl e ↦ (inl e, All-heads heads xs (rw e at h))
    | inr e ↦ absurd (let no_leaf = rw e at h in omega arith)
  ]

  clean_targets-IsGood :
      (heads subs : List ℕ)
      → 0 < length subs
      → All (IsGood heads) (clean_targets node_type heads subs).0
        × ((clean_targets node_type heads subs).1 ≡ false
            → 0 < length (clean_targets node_type heads subs).0)
  unfolding clean_targets
  clean_targets-IsGood heads subs h =
      let leaf_nodes = filter (λ x. not (contains heads x)) subs in
      let valid = filter (filter_invalid_node node_type) leaf_nodes in
      let joined = length-append (unique valid) (unique (filter (λ x. contains heads x) subs)) in
      elim (Bool-cases (length leaf_nodes == 0)) [
        | inl e ↦ rw e (All-heads heads subs (ground arith), λ _. h)
        | inr e ↦
            rw e (All-append _ _ _ (All-kept heads leaf_nodes) (All-inner heads subs), ground arith)
      ]

  keys-clean_heads : (heads : List ℕ) (g : Graph) → keys (clean_heads node_type heads g).0 ≡ keys g
  unfolding clean_heads
  keys-clean_heads heads [] = refl
  keys-clean_heads heads ((head, subs) ∷ g) = ap (λ t. head ∷ t) (keys-clean_heads heads g)

  -- Every head has a target.
  abbrev Inhabited : Graph → Type 0
  Inhabited [] = Unit
  Inhabited ((head, subs) ∷ g) = (0 < length subs) × Inhabited g

  drop_heads-Inhabited : (g : Graph) → Inhabited (drop_heads node_type g)
  unfolding drop_heads
  drop_heads-Inhabited [] = tt
  drop_heads-Inhabited ((head, subs) ∷ g) = elim (Bool-cases (length subs == 0)) [
    | inl e ↦ rw e (drop_heads-Inhabited g)
    | inr e ↦ rw e (ground arith, drop_heads-Inhabited g)
  ]

  clean_heads-IsClean :
      (heads : List ℕ) (g : Graph)
      → Inhabited g
      → (clean_heads node_type heads g).1 ≡ false
      → IsClean heads (clean_heads node_type heads g).0
  unfolding clean_heads
  clean_heads-IsClean heads [] h e = tt
  clean_heads-IsClean heads ((head, subs) ∷ g) h e =
      let good = clean_targets-IsGood heads subs h.0 in
      (good.1 (ground arith), good.0, clean_heads-IsClean heads g h.1 (ground arith))

  remove_invalid-IsClean :
      (g : Graph)
      → (remove_invalid node_type g).1 ≡ false
      → IsClean (keys (remove_invalid node_type g).0) (remove_invalid node_type g).0
  unfolding remove_invalid
  remove_invalid-IsClean g e =
      let g' = drop_heads node_type g in
      rw keys-clean_heads (clean_heads-IsClean (keys g') g' (drop_heads-Inhabited g) e)

  -- The loop ends within as many rounds as the graph has targets and one more, and leaves a graph
  -- in which every head has a target and every target is a head itself or no collection class.
  pub filter_invalid_data_ends :
      (fuel : ℕ) (g : Graph)
      → size g < fuel
      → (g' : Graph) × (filter_invalid_data node_type fuel g ≡ some g') × IsClean (keys g') g'
  unfolding filter_invalid_data
  filter_invalid_data_ends zero g h = absurd (omega arith)
  filter_invalid_data_ends (suc fuel) g h =
      let next = remove_invalid node_type g in
      elim (Bool-cases next.1) [
        | inl e ↦
            rw e (filter_invalid_data_ends fuel next.0 (omega (arith, remove_invalid-shrinks g e)))
        | inr e ↦ rw e (next.0, refl, remove_invalid-IsClean g e)
      ]
