-- ===== src/HeaderRules/Lasting.antt =====
-- What is recorded for a rule lasts through the checks that follow.
use dong_tai_server.Prelude.{
  ℕ, ◌≡◌, ◌≢◌, refl, sym, ◌∙◌, ap, inl, inr, true, some, List, [], ◌∷◌, ◌∈◌, filter, All-at,
  mem-append_left, mem-filter, arith, nat_beq_iff, Bool-cases, Option-cases, ◌==◌,
  number_comparison, text_comparison,
}
use dong_tai_server.Prelude.Sorting.{sort_down_by, mem-arrange}
use dong_tai_server.Prelude.Text.{Text}
use dong_tai_server.Registration.Tables.{Unique, put_row, put_row-Unique, append-Unique}
use dong_tai_server.Registration.Tables.Found.{mem-put_row}
use dong_tai_server.SaveVul.{Vul, Store}
use dong_tai_server.SaveVul.Save.{first_vul}
use dong_tai_server.HeaderRules.{
  Rule, ReportedPool, Context, Findings, is_of_rule, new_vul, seen_again, put_vul, any_of,
}
use dong_tai_server.HeaderRules.Recorded.{first_vul-mem, is_here}

abbrev pub vul_id : Vul → ℕ
vul_id v = v.id

-- Of two members with one id, there is one.
Unique-mem :
    (v w : Vul) (vs : List Vul) (next : ℕ)
    → Unique vul_id vs next
    → v ∈ vs
    → w ∈ vs
    → v.id ≡ w.id
    → v ≡ w
Unique-mem v w [] next u m n e = absurd m
Unique-mem v w (x ∷ vs) next (l, apart, u) (inl a) (inl b) e = a ∙ sym b
Unique-mem v w (x ∷ vs) next (l, apart, u) (inl a) (inr n) e =
    absurd (All-at (λ y. y.id ≢ x.id) w vs apart n (sym e ∙ ap vul_id a))
Unique-mem v w (x ∷ vs) next (l, apart, u) (inr m) (inl b) e =
    absurd (All-at (λ y. y.id ≢ x.id) v vs apart m (e ∙ ap vul_id b))
Unique-mem v w (x ∷ vs) next (l, apart, u) (inr m) (inr n) e = Unique-mem v w vs next u m n e

mem-put_row_other :
    (v row : Vul) (vs : List Vul) → v ∈ vs → v.id ≢ row.id → v ∈ put_row vul_id row vs
mem-put_row_other v row [] m n = absurd m
mem-put_row_other v row (x ∷ vs) (inl e) n = elim (Bool-cases (x.id == row.id)) [
  | inl f ↦ absurd (n (ap vul_id e ∙ (nat_beq_iff x.id row.id).0 f))
  | inr f ↦ rw f (inl e)
]
mem-put_row_other v row (x ∷ vs) (inr m) n = inr (mem-put_row_other v row vs m n)

module _ (context : Context) (now : ℕ) (p : ReportedPool) where
  -- The ids differ, and a vulnerability of the strategy has a header row for the page.
  abbrev pub IsNoted : ℕ → Findings → Type 0
  IsNoted rule_id t =
      Unique vul_id t.store.vuls t.store.next_id
      × ((v : Vul) × (v ∈ t.store.vuls)
          × (v.strategy_id ≡ rule_id)
          × (any_of (is_here context p v.id) t.headers ≡ true))

  put_vul-found :
      (r : Rule) (position value : Text) (st : Store) (w : Vul)
      → first_vul (
          sort_down_by
            (λ v. v.latest_time)
            (filter (is_of_rule context r.id (context.version_of p.meta.agent_id)) st.vuls))
        ≡ some w
      → w ∈ st.vuls
  put_vul-found r position value st w e =
      let key = is_of_rule context r.id (context.version_of p.meta.agent_id) in
      ((mem-filter key w st.vuls).0
        ((mem-arrange _ w (filter key st.vuls)).0 (first_vul-mem w _ e))).0

  pub put_vul-Unique :
      (r : Rule) (position value : Text) (st : Store)
      → Unique vul_id st.vuls st.next_id
      → Unique vul_id
          (put_vul context p r position value now st).1.vuls
          (put_vul context p r position value now st).1.next_id
  unfolding put_vul new_vul
  put_vul-Unique r position value st u =
      elim (Option-cases (
        first_vul (
          sort_down_by (λ v. v.latest_time)
            (filter (is_of_rule context r.id (context.version_of p.meta.agent_id)) st.vuls)))) [
              | inl e ↦ rw (e, put_vul) (append-Unique vul_id _ st.vuls st.next_id refl u)
              | inr (w, e) ↦ rw (e, put_vul) (put_row-Unique vul_id _ st.vuls st.next_id u)
            ]

  pub put_vul-keeps :
      (r : Rule) (position value : Text) (st : Store) (v : Vul)
      → Unique vul_id st.vuls st.next_id
      → v ∈ st.vuls
      → (v' : Vul) × (v' ∈ (put_vul context p r position value now st).1.vuls)
        × (v'.id ≡ v.id)
        × (v'.strategy_id ≡ v.strategy_id)
  unfolding put_vul seen_again
  put_vul-keeps r position value st v u m =
      elim (Option-cases (
        first_vul (
          sort_down_by (λ v. v.latest_time)
            (filter (is_of_rule context r.id (context.version_of p.meta.agent_id)) st.vuls)))) [
              | inl e ↦ (v, rw (e, put_vul) (mem-append_left v st.vuls _ m), refl, refl)
              | inr (w, e) ↦
                  let n = put_vul-found r position value st w e in
                  elim (Bool-cases (v.id == w.id)) [
                    | inl f ↦
                        let same =
                          Unique-mem v w st.vuls st.next_id u m n ((nat_beq_iff v.id w.id).0 f) in
                        (
                          seen_again p position value now w,
                          rw (e, put_vul)
                              (mem-put_row vul_id w (seen_again p position value now w) st.vuls n
                                refl),
                          ap vul_id (sym same),
                          ap (λ x. x.strategy_id) (sym same),
                        )
                    | inr f ↦ (
                      v,
                      rw (e, put_vul)
                          (mem-put_row_other v (seen_again p position value now w) st.vuls m
                            (ground (arith, f))),
                      refl,
                      refl,
                    )
                  ]
            ]
