-- ===== src/HeaderRules/OnePage.antt =====
-- A vulnerability has at most one header row for a page.
use dong_tai_server.Prelude.{
  ℕ, ◌≡◌, refl, sym, ◌≤◌, inl, inr, Bool, true, false, List, [], ◌∷◌, ◌++◌, filter, length, arith,
  nat_beq_iff, text_beq_iff, Bool-cases, ◌==◌, number_comparison, text_comparison,
}
use dong_tai_server.Prelude.Text.{Text}
use dong_tai_server.SaveVul.{Vul}
use dong_tai_server.HeaderRules.{
  ReportedPool, Parsed, bad_status_line, response, Context, HeaderVul, Findings, put_vul, is_header,
  any_of, put_header, record_vul,
}
use dong_tai_server.HeaderRules.Cases.{started, record_vul-cases}
use dong_tai_server.HeaderRules.Checks.{failing, record_all, check_response_header}

-- At most one header row for a project, a version, a url and a vulnerability
abbrev pub HasOneEach : List HeaderVul → Type 0
HasOneEach hs =
    (project_id version : ℕ) (url : Text) (vul_id : ℕ)
    → length (filter (is_header project_id version url vul_id) hs) ≤ 1

module _ {A : Type 0} (test : A → Bool) where
  length-last :
      (hs : List A) (h : A) → any_of test hs ≡ false → length (filter test (hs ++ h ∷ [])) ≤ 1
  length-last [] h e = elim (Bool-cases (test h)) [
    | inl f ↦ rw f (omega arith)
    | inr f ↦ rw f (omega arith)
  ]
  length-last (x ∷ hs) h e = elim (Bool-cases (test x)) [
    | inl f ↦ absurd (let clash = rw f at e in cc)
    | inr f ↦ rw f (length-last hs h (rw f at e))
  ]

  filter_other :
      (hs : List A) (h : A) → test h ≡ false → filter test (hs ++ h ∷ []) ≡ filter test hs
  filter_other [] h e = rw e refl
  filter_other (x ∷ hs) h e =
      let rest = filter_other hs h e in
      elim (Bool-cases (test x)) [ inl f ↦ rw (f, rest) refl | inr f ↦ rw (f, rest) refl ]

append-HasOneEach :
    (hs : List HeaderVul) (h : HeaderVul)
    → any_of (is_header h.project_id h.project_version_id h.url h.vul_id) hs ≡ false
    → HasOneEach hs
    → HasOneEach (hs ++ h ∷ [])
append-HasOneEach hs h fresh one a b c d = elim (Bool-cases (is_header a b c d h)) [
  | inl e ↦
      let p : (h.project_id == a) ≡ true = ground (arith, e) in
      let q : (h.project_version_id == b) ≡ true = ground (arith, e) in
      let r : (h.url == c) ≡ true = ground (arith, e) in
      let s : (h.vul_id == d) ≡ true = ground (arith, e) in
      rw
        (
          sym ((nat_beq_iff h.project_id a).0 p),
          sym ((nat_beq_iff h.project_version_id b).0 q),
          sym ((text_beq_iff h.url c).0 r),
          sym ((nat_beq_iff h.vul_id d).0 s),
        )
        (length-last (is_header h.project_id h.project_version_id h.url h.vul_id) hs h fresh)
  | inr e ↦ rw (filter_other (is_header a b c d) hs h e) (one a b c d)
]

module _ (context : Context) (now : ℕ) (p : ReportedPool) where
  put_header-HasOneEach :
      (v : Vul) (t : Findings)
      → HasOneEach t.headers
      → HasOneEach (put_header context p v t).headers
  unfolding put_header
  put_header-HasOneEach v t one =
      let here = is_header p.meta.project_id (context.version_of p.meta.agent_id) p.meta.uri v.id in
      elim (Bool-cases (any_of here t.headers)) [
        | inl e ↦ rw (e, put_header) one
        | inr e ↦ rw (e, put_header) (append-HasOneEach t.headers _ e one)
      ]

  pub record_vul-HasOneEach :
      (vul_type position value : Text) (t : Findings)
      → HasOneEach t.headers
      → HasOneEach (record_vul context now vul_type position value p t).headers
  record_vul-HasOneEach vul_type position value t one =
      record_vul-cases context now p vul_type position value t (λ u. HasOneEach u.headers) one
        (λ r.
          let made =
            put_vul context p r position value now
              (started context now p vul_type position value t) in
          put_header-HasOneEach made.0 (record t { store = made.1 }) one)

  record_all-HasOneEach :
      (failures : List (Text × Text)) (t : Findings)
      → HasOneEach t.headers
      → HasOneEach (record_all context now p failures t).headers
  unfolding record_all
  record_all-HasOneEach [] t one = one
  record_all-HasOneEach ((vul_type, position) ∷ failures) t one =
      record_all-HasOneEach failures (record_vul context now vul_type position [] p t)
        (record_vul-HasOneEach vul_type position [] t one)

  abbrev checked : Parsed → Findings → Findings
  checked o t = elim o [
    | bad_status_line ↦ t
    | response getheader ↦ record_all context now p (failing context getheader) t
  ]

  if_parsed : (o : Parsed) (t : Findings) → HasOneEach t.headers → HasOneEach (checked o t).headers
  if_parsed bad_status_line t one = one
  if_parsed (response getheader) t one = record_all-HasOneEach (failing context getheader) t one

  -- If a vulnerability has at most one header row for a page of a version before, it has so after the headers of
  -- a response have been checked, whatever they are.
  pub check_response_header-HasOneEach :
      (t : Findings)
      → HasOneEach t.headers
      → HasOneEach (check_response_header context now p t).headers
  unfolding check_response_header
  check_response_header-HasOneEach t one = if_parsed (context.parse_response _) t one
