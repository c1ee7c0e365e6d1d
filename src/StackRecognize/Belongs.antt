-- ===== src/StackRecognize/Belongs.antt =====
-- When a stack frame is the system's, in terms of the lists alone.
use dong_tai_server.Prelude.{
  ◌≡◌, refl, ◌↔◌, ◌⊎◌, inl, inr, Bool, true, false, Option, List, [], ◌∷◌, ◌∈◌, Any, arith, subst,
  ℕ, zero, suc, some, length, length-map, get_elem?, if◌then◌else◌,
}
use dong_tai_server.Prelude.Text.{
  Text, codes, IsPrefix, starts_with, starts_with_iff, any_prefix, any_prefix_iff,
}
use dong_tai_server.StackRecognize.Rules.{rules}
use dong_tai_server.StackRecognize.{
  Trie, CodeBelong, user, system, or_empty, is_true, stack_scan, stacks_convert,
}

Any-intro : (P : Text → Type 0) (a : Text) (ps : List Text) → a ∈ ps → P a → Any P ps
Any-intro P a [] m h = absurd m
Any-intro P a (p ∷ ps) (inl e) h = inl (subst P e h)
Any-intro P a (p ∷ ps) (inr m) h = inr (Any-intro P a ps m h)

Any-mem : (P : Text → Type 0) (ps : List Text) → Any P ps → (a : Text) × (a ∈ ps) × P a
Any-mem P [] h = absurd h
Any-mem P (p ∷ ps) (inl h) = (p, inl refl, h)
Any-mem P (p ∷ ps) (inr h) = let (a, m, k) = Any-mem P ps h in (a, inr m, k)

is_true-mem : (ps : List Text) → is_true ps ≡ true → (a : Text) × (a ∈ ps)
is_true-mem [] h = cc
is_true-mem (p ∷ ps) h = (p, inl refl)

is_true_of_mem : (a : Text) (ps : List Text) → a ∈ ps → is_true ps ≡ true
is_true_of_mem a [] m = absurd m
is_true_of_mem a (p ∷ ps) m = refl

-- The decision of the four tests in the order of the code.
abbrev verdict : Bool → Bool → Bool → Bool → CodeBelong
verdict white black jsp built_in =
    if white
    then user
    else if black
    then system
    else if jsp
    then user
    else if built_in
    then system
    else user

verdict_iff :
    (W B J T : Type 0) (w b j t : Bool)
    → (w ≡ true) ↔ W
    → (b ≡ true) ↔ B
    → (j ≡ true) ↔ J
    → (t ≡ true) ↔ T
    → (verdict w b j t ≡ system) ↔ ¬ W × (B ⊎ ¬ J × T)
verdict_iff W B J T true b j t hw hb hj ht = (λ e. cc, λ h. absurd (h.0 (hw.0 refl)))
verdict_iff W B J T false true j t hw hb hj ht =
    (λ e. (λ k. cc (hw.1 k), inl (hb.0 refl)), λ h. refl)
verdict_iff W B J T false false true t hw hb hj ht =
    (λ e. cc, λ h. elim h.1 [ inl k ↦ cc (hb.1 k) | inr (n, k) ↦ absurd (n (hj.0 refl)) ])
verdict_iff W B J T false false false true hw hb hj ht =
    (λ e. (λ k. cc (hw.1 k), inr (λ k. cc (hj.1 k), ht.0 refl)), λ h. refl)
verdict_iff W B J T false false false false hw hb hj ht =
    (λ e. cc, λ h. elim h.1 [ inl k ↦ cc (hb.1 k) | inr (n, k) ↦ cc (ht.1 k) ])

module _ (trie : Trie) where
  -- The trie answers with something exactly if one of its keys is a prefix.
  prefixes_found :
      (keys : List Text) (s : Text)
      → (is_true (trie.prefixes keys s) ≡ true) ↔ Any (λ p. IsPrefix p s) keys
  prefixes_found keys s = (
    λ h.
        let (p, m) = is_true-mem (trie.prefixes keys s) h in
        let (k, e) = (trie.prefixes_iff keys s p).0 m in Any-intro (λ q. IsPrefix q s) p keys k e,
    λ h.
        let (p, k, e) = Any-mem (λ q. IsPrefix q s) keys h in
        is_true_of_mem p (trie.prefixes keys s) ((trie.prefixes_iff keys s p).1 (k, e)),
  )

  module _ (stack : Text) (black white : Option (List Text)) where
    abbrev pub Matches : List Text → Type 0
    Matches ps = Any (λ p. IsPrefix p stack) ps

    abbrev pub IsSystem : Type 0
    IsSystem =
        ¬ Matches (or_empty white)
        × (Matches (or_empty black) ⊎ ¬ IsPrefix (codes "org.apache.jsp._") stack × Matches rules)

    scan-verdict :
        (stack_scan trie stack black white).code_belong
        ≡ verdict
            (any_prefix stack (or_empty white))
            (any_prefix stack (or_empty black))
            (starts_with stack (codes "org.apache.jsp._"))
            (is_true (trie.prefixes rules stack))
    unfolding stack_scan
    scan-verdict = ground arith

    -- A frame is reported with its own text, and as the system's exactly if no rule of the white
    -- list is a prefix of it, and a rule of the black list is one, or a built-in rule is one and
    -- the frame is no compiled JSP page.
    pub stack_scan_exact :
        ((stack_scan trie stack black white).stack ≡ stack)
        × ((stack_scan trie stack black white).code_belong ≡ system ↔ IsSystem)
    unfolding stack_scan
    stack_scan_exact = (
      ground arith,
      rw scan-verdict (
          verdict_iff _ _ _ _ _ _ _ _ (any_prefix_iff stack (or_empty white))
            (any_prefix_iff stack (or_empty black))
            (starts_with_iff stack (codes "org.apache.jsp._")) (prefixes_found rules stack)),
    )

  scan_at :
      (stacks : List Text) (black white : Option (List Text)) (i : ℕ) (frame : Text)
      → get_elem? stacks i ≡ some frame
      → get_elem? (stacks_convert trie stacks black white) i
        ≡ some (stack_scan trie frame black white)
  unfolding stacks_convert
  scan_at [] black white i frame h = cc
  scan_at (x ∷ xs) black white zero frame h = cc
  scan_at (x ∷ xs) black white (suc i) frame h = scan_at xs black white i frame h

  -- The list of verdicts is as long as the list of frames, and each frame has at its own place the
  -- verdict that `stack_scan` gives on it alone.
  pub stacks_convert_frames :
      (stacks : List Text) (black white : Option (List Text))
      → (length (stacks_convert trie stacks black white) ≡ length stacks)
        × ((i : ℕ) (frame : Text)
            → get_elem? stacks i ≡ some frame
            → get_elem? (stacks_convert trie stacks black white) i
              ≡ some (stack_scan trie frame black white))
  unfolding stacks_convert
  stacks_convert_frames stacks black white =
      (length-map (λ x. stack_scan trie x black white) stacks, scan_at stacks black white)
