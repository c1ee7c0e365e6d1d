-- ===== src/HeaderRules/Complete.antt =====
-- Every failing check of a response is recorded, and what is recorded lasts.
use dong_tai_server.Prelude.{
  ℕ, ◌≡◌, refl, sym, ◌∙◌, ap, subst, inl, inr, true, false, Option, some, List, [], ◌∷◌, ◌++◌, ◌∈◌,
  Option-cases, filter,
}
use dong_tai_server.Prelude.Sorting.{sort_down_by}
use dong_tai_server.Prelude.Text.{Text, codes}
use dong_tai_server.Registration.Tables.{Unique}
use dong_tai_server.SaveVul.{Vul, Store}
use dong_tai_server.SaveVul.Save.{is_held, first_vul}
use dong_tai_server.HeaderRules.{
  Rule, ReportedPool, response, bad_status_line, Context, Findings, rule_of, is_strategy_enable,
  is_of_rule, put_vul, any_of, lock_key, record_vul,
}
use dong_tai_server.HeaderRules.Cases.{started, record_vul-cases}
use dong_tai_server.HeaderRules.Checks.{failing, record_all, check_response_header}
use dong_tai_server.HeaderRules.Content.{ContentRule, Scanners, check_response}
use dong_tai_server.HeaderRules.Content.Kept.{check_response_content_keeps}
use dong_tai_server.HeaderRules.Recorded.{
  is_here, put_header-store, put_header-keeps, record_vul-noted,
}
use dong_tai_server.HeaderRules.Lasting.{vul_id, IsNoted, put_vul-Unique, put_vul-keeps}

module _ (context : Context) (now : ℕ) (p : ReportedPool) where
  abbrev HasIds : Findings → Type 0
  HasIds t = Unique vul_id t.store.vuls t.store.next_id

  record_vul-HasIds :
      (vul_type position value : Text) (t : Findings)
      → HasIds t
      → HasIds (record_vul context now vul_type position value p t)
  record_vul-HasIds vul_type position value t u =
      record_vul-cases context now p vul_type position value t HasIds u (λ r.
        let made =
          put_vul context p r position value now
            (started context now p vul_type position value t) in
        subst (λ st. Unique vul_id st.vuls st.next_id)
          (sym (put_header-store context p made.0 (record t { store = made.1 })))
          (put_vul-Unique context now p r position value
            (started context now p vul_type position value t) u))

  put_vul_held :
      (r : Rule) (position value : Text) (st : Store)
      → (put_vul context p r position value now st).1.held ≡ st.held
  unfolding put_vul
  put_vul_held r position value st =
      elim (Option-cases (
        first_vul (
          sort_down_by (λ v. v.latest_time)
            (filter (is_of_rule context r.id (context.version_of p.meta.agent_id)) st.vuls)))) [
              | inl e ↦ rw (e, put_vul) refl
              | inr (w, e) ↦ rw (e, put_vul) refl
            ]

  record_vul_held :
      (vul_type position value : Text) (t : Findings)
      → (record_vul context now vul_type position value p t).store.held ≡ t.store.held
  record_vul_held vul_type position value t =
      record_vul-cases context now p vul_type position value t (λ u. u.store.held ≡ t.store.held)
        refl
        (λ r.
          let begun = started context now p vul_type position value t in
          let made = put_vul context p r position value now begun in
          ap (λ st. st.held) (put_header-store context p made.0 (record t { store = made.1 }))
          ∙ put_vul_held r position value begun)

  record_vul-IsNoted :
      (i : ℕ) (vul_type position value : Text) (t : Findings)
      → IsNoted context now p i t
      → IsNoted context now p i (record_vul context now vul_type position value p t)
  record_vul-IsNoted i vul_type position value t (u, (v, m, of, there)) = (
    record_vul-HasIds vul_type position value t u,
    record_vul-cases context now p vul_type position value t
        (λ s.
          (v : Vul) × (v ∈ s.store.vuls)
          × (v.strategy_id ≡ i)
          × (any_of (is_here context p v.id) s.headers ≡ true))
        (v, m, of, there)
        (λ r.
          let begun = started context now p vul_type position value t in
          let made = put_vul context p r position value now begun in
          let after = record t { store = made.1 } in
          let (v', m', same, of') = put_vul-keeps context now p r position value begun v u m in
          (
            v',
            subst (λ st. v' ∈ st.vuls) (sym (put_header-store context p made.0 after)) m',
            of' ∙ of,
            put_header-keeps context p made.0 (is_here context p v'.id) after
                (subst (λ j. any_of (is_here context p j) t.headers ≡ true) (sym same) there),
          )),
  )

  record_all-IsNoted :
      (i : ℕ) (failures : List (Text × Text)) (t : Findings)
      → IsNoted context now p i t
      → IsNoted context now p i (record_all context now p failures t)
  unfolding record_all
  record_all-IsNoted i [] t h = h
  record_all-IsNoted i ((vul_type, position) ∷ failures) t h =
      record_all-IsNoted i failures (record_vul context now vul_type position [] p t)
        (record_vul-IsNoted i vul_type position [] t h)

  module _ (vul_type position : Text) (r : Rule)
      (enabled : is_strategy_enable context vul_type p ≡ true)
      (rule : rule_of context vul_type p.user_id context.rules ≡ some r) where
    record_all_notes :
        (failures : List (Text × Text)) (t : Findings)
        → HasIds t
        → is_held (lock_key context p r) t.store.held ≡ false
        → (vul_type, position) ∈ failures
        → IsNoted context now p r.id (record_all context now p failures t)
    unfolding record_all
    record_all_notes [] t u free m = absurd m
    record_all_notes ((other, place) ∷ failures) t u free (inl same) =
        let (v, m, of, pool, there) =
          record_vul-noted context p now vul_type position [] t r enabled rule free in
        let noted : IsNoted context now p r.id (record_vul context now vul_type position [] p t) =
          (record_vul-HasIds vul_type position [] t u, (v, m, of, there)) in
        subst
          (λ f.
            IsNoted context now p r.id
              (record_all context now p failures (record_vul context now f.0 f.1 [] p t)))
          same
          (record_all-IsNoted r.id failures (record_vul context now vul_type position [] p t) noted)
    record_all_notes ((other, place) ∷ failures) t u free (inr m) =
        record_all_notes failures (record_vul context now other place [] p t)
          (record_vul-HasIds other place [] t u)
          (subst (λ held. is_held (lock_key context p r) held ≡ false)
            (sym (record_vul_held other place [] t)) free)
          m

    after_header :
        (getheader : Text → Option Text) (t : Findings)
        → HasIds t
        → is_held (lock_key context p r) t.store.held ≡ false
        → context.parse_response
            (context.strip p.meta.res_header ++ codes "\n\n" ++ context.strip p.meta.res_body)
          ≡ response getheader
        → (vul_type, position) ∈ failing context getheader
        → IsNoted context now p r.id (check_response_header context now p t)
    unfolding check_response_header
    after_header getheader t u free parsed m =
        subst
          (λ o. IsNoted context now p r.id (elim o as (λ x. Findings) [
            | bad_status_line ↦ t
            | response get ↦ record_all context now p (failing context get) t
          ]))
          (sym parsed) (record_all_notes (failing context getheader) t u free m)

-- If the response can be parsed, one of its headers fails its check, the strategy of that check is enabled for
-- the pool, its key is not held, and the ids of the vulnerabilities differ: then after the headers and the
-- content have been checked there is a vulnerability of the strategy, with a header row for the project, the
-- version and the uri of the pool, whatever else is found.
pub check_response_notes :
    (context : Context) (scanners : Scanners) (now : ℕ) (p : ReportedPool)
    (rules : List ContentRule) (t : Findings) (getheader : Text → Option Text)
    (vul_type position : Text) (r : Rule)
    → Unique vul_id t.store.vuls t.store.next_id
    → context.parse_response
        (context.strip p.meta.res_header ++ codes "\n\n" ++ context.strip p.meta.res_body)
      ≡ response getheader
    → (vul_type, position) ∈ failing context getheader
    → is_strategy_enable context vul_type p ≡ true
    → rule_of context vul_type p.user_id context.rules ≡ some r
    → is_held (lock_key context p r) t.store.held ≡ false
    → (v : Vul) × (v ∈ (check_response context scanners now p rules t).store.vuls)
      × (v.strategy_id ≡ r.id)
      × (any_of (is_here context p v.id) (check_response context scanners now p rules t).headers
          ≡ true)
unfolding check_response
check_response_notes context scanners now p rules t getheader vul_type position r u parsed m enabled
      rule free =
    (check_response_content_keeps context scanners now p (IsNoted context now p r.id)
      (λ other place value s h. record_vul-IsNoted context now p r.id other place value s h) rules
      (check_response_header context now p t)
      (after_header context now p vul_type position r enabled rule getheader t u free parsed m)).1
