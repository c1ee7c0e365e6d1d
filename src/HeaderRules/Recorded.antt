-- ===== src/HeaderRules/Recorded.antt =====
-- What check_response_header leaves in the tables.
use dong_tai_server.Prelude.{
  ℕ, ◌≡◌, refl, sym, ◌∙◌, ap, subst, inl, inr, Bool, true, false, none, some, List, [], ◌∷◌, ◌++◌,
  ◌∈◌, filter, mem-append_right, mem-filter, arith, equal_self, nat_beq_iff, Bool-cases,
  Option-cases, if◌then◌else◌, ◌==◌, number_comparison, text_comparison,
}
use dong_tai_server.Prelude.Text.{Text}
use dong_tai_server.Registration.Tables.Found.{mem-put_row}
use dong_tai_server.SaveVul.{Vul, Store}
use dong_tai_server.Prelude.Sorting.{sort_down_by, mem-arrange}
use dong_tai_server.SaveVul.Save.{is_held, first_vul}
use dong_tai_server.HeaderRules.{
  Rule, ReportedPool, Context, HeaderVul, Findings, rule_of, is_of_rule, new_vul, seen_again,
  is_strategy_enable, put_vul, is_header, any_of, put_header, lock_key, record_vul,
}

any_of-append :
    {A : Type 0} (test : A → Bool) (xs ys : List A)
    → any_of test xs ≡ true
    → any_of test (xs ++ ys) ≡ true
any_of-append test [] ys h = absurd (cc)
any_of-append test (x ∷ xs) ys h = elim (Bool-cases (test x)) [
  | inl e ↦ rw e refl
  | inr e ↦ rw e (any_of-append test xs ys (rw e at h))
]

any_of-last :
    {A : Type 0} (test : A → Bool) (xs : List A) (x : A)
    → test x ≡ true
    → any_of test (xs ++ x ∷ []) ≡ true
any_of-last test [] x h = rw h refl
any_of-last test (y ∷ xs) x h = elim (Bool-cases (test y)) [
  | inl e ↦ rw e refl
  | inr e ↦ rw e (any_of-last test xs x h)
]

pub first_vul-mem : (v : Vul) (vs : List Vul) → first_vul vs ≡ some v → v ∈ vs
first_vul-mem v [] e = absurd (cc)
first_vul-mem v (w ∷ vs) e = inl (let same : w ≡ v = cc in sym same)

module _ (context : Context) (p : ReportedPool) where
  abbrev pub version : ℕ
  version = context.version_of p.meta.agent_id

  abbrev pub is_here : ℕ → HeaderVul → Bool
  is_here vul_id = is_header p.meta.project_id version p.meta.uri vul_id

  put_header-there :
      (v : Vul) (t : Findings) → any_of (is_here v.id) (put_header context p v t).headers ≡ true
  unfolding put_header
  put_header-there v t = elim (Bool-cases (any_of (is_here v.id) t.headers)) [
    | inl e ↦ rw (e, put_header) e
    | inr e ↦
        rw (e, put_header)
          (any_of-last (is_here v.id) t.headers _ (
            rw
              (
                equal_self p.meta.project_id,
                equal_self version,
                equal_self p.meta.uri,
                equal_self v.id,
              )
              refl))
  ]

  pub put_header-keeps :
      (v : Vul) (test : HeaderVul → Bool) (t : Findings)
      → any_of test t.headers ≡ true
      → any_of test (put_header context p v t).headers ≡ true
  unfolding put_header
  put_header-keeps v test t h = elim (Bool-cases (any_of (is_here v.id) t.headers)) [
    | inl e ↦ rw (e, put_header) h
    | inr e ↦ rw (e, put_header) (any_of-append test t.headers _ h)
  ]

  -- The vulnerability is that of the rule, and stands in the store.
  put_vul-of_rule :
      (r : Rule) (position value : Text) (now : ℕ) (st : Store)
      → ((put_vul context p r position value now st).0
          ∈ (put_vul context p r position value now st).1.vuls)
        × ((put_vul context p r position value now st).0.strategy_id ≡ r.id)
        × ((put_vul context p r position value now st).0.method_pool_id ≡ p.meta.id)
  unfolding put_vul new_vul seen_again
  put_vul-of_rule r position value now st =
      let key = is_of_rule context r.id version in
      let found = sort_down_by (λ v. v.latest_time) (filter key st.vuls) in
      elim (Option-cases (first_vul found)) [
        | inl e ↦ rw (e, put_vul) (mem-append_right _ st.vuls _ (inl refl), refl, refl)
        | inr (v, e) ↦
            let (m, keyed) =
              (mem-filter key v st.vuls).0
                ((mem-arrange _ v (filter key st.vuls)).0 (first_vul-mem v found e)) in
            let of : (v.strategy_id == r.id) ≡ true = ground (arith, keyed) in
            rw (e, put_vul)
              (
                mem-put_row (λ w. w.id) v (seen_again p position value now v) st.vuls m refl,
                (nat_beq_iff v.strategy_id r.id).0 of,
                refl,
              )
      ]

  pub put_header-store : (v : Vul) (t : Findings) → (put_header context p v t).store ≡ t.store
  unfolding put_header
  put_header-store v t = elim (Bool-cases (any_of (is_here v.id) t.headers)) [
    | inl e ↦ rw (e, put_header) refl
    | inr e ↦ rw (e, put_header) refl
  ]

  abbrev started : Findings → Store
  started t = record t.store { project_updates = t.store.project_updates ++ p.meta.project_id ∷ [] }

  module _ (now : ℕ) (vul_type position value : Text) where
    abbrev written : Rule → Findings → Findings
    written r t =
        let (v, st) = put_vul context p r position value now (started t) in
        put_header context p v (record t { store = st })

    record_vul_is :
        (t : Findings) (r : Rule)
        → is_strategy_enable context vul_type p ≡ true
        → rule_of context vul_type p.user_id context.rules ≡ some r
        → is_held (lock_key context p r) t.store.held ≡ false
        → record_vul context now vul_type position value p t ≡ written r t
    unfolding record_vul is_strategy_enable
    record_vul_is t r enabled rule free =
        ap
          (λ b.
            if b
            then (elim (rule_of context vul_type p.user_id context.rules) [
              | none ↦ t
              | some q ↦ if is_held (lock_key context p q) t.store.held then t else written q t
            ])
            else t)
          enabled
        ∙ ap
            (λ o. elim o [
              | none ↦ t
              | some q ↦ if is_held (lock_key context p q) t.store.held then t else written q t
            ])
            rule
        ∙ ap (λ b. if b then t else written r t) free

    -- If the rule is enabled and its key is not held, there is a vulnerability of the rule with the method pool
    -- afterwards, and a header row for it with the uri of the pool.
    pub record_vul-noted :
        (t : Findings) (r : Rule)
        → is_strategy_enable context vul_type p ≡ true
        → rule_of context vul_type p.user_id context.rules ≡ some r
        → is_held (lock_key context p r) t.store.held ≡ false
        → (v : Vul) × (v ∈ (record_vul context now vul_type position value p t).store.vuls)
          × (v.strategy_id ≡ r.id)
          × (v.method_pool_id ≡ p.meta.id)
          × (any_of (is_here v.id) (record_vul context now vul_type position value p t).headers
              ≡ true)
    record_vul-noted t r enabled rule free =
        let (m, of, pool) = put_vul-of_rule r position value now (started t) in
        let made = put_vul context p r position value now (started t) in
        let there = put_header-there made.0 (record t { store = made.1 }) in
        let kept =
          subst (λ st. made.0 ∈ st.vuls)
            (sym (put_header-store made.0 (record t { store = made.1 }))) m in
        subst
          (λ u.
            (v : Vul) × (v ∈ u.store.vuls)
            × (v.strategy_id ≡ r.id)
            × (v.method_pool_id ≡ p.meta.id)
            × (any_of (is_here v.id) u.headers ≡ true))
          (sym (record_vul_is t r enabled rule free)) (made.0, kept, of, pool, there)
