-- ===== src/TaintSearch/Results/Shared.antt =====
-- The marks on the calls are shared by all results: the last path that meets a call decides.
use dong_tai_server.Prelude.{
  ℕ, ◌≡◌, refl, sym, ◌∙◌, ◌⊎◌, inl, inr, Option, some, List, [], ◌∷◌, ◌∈◌, All, arith, Bool-cases,
  Option-cases, if◌then◌else◌, ◌==◌, number_comparison, nat_beq_iff, ap, subst,
}
use dong_tai_server.Prelude.Dict.{lookup, put, lookup-put}
use dong_tai_server.Prelude.Text.{Text}
use dong_tai_server.MethodCall.{MethodCall}
use dong_tai_server.TaintSearch.{last?}
use dong_tai_server.TaintSearch.Results.{
  Mark, Role, role_of, as_source, as_sink, as_propagator, Engine, Progress, mark_as, report_call,
  report_calls, finish_path, report_path,
}
use dong_tai_server.TaintSearch.Results.Returns.{Known}

-- The role of a call on a path that ends with the id `t`.
abbrev pub role_on : ℕ → MethodCall → Role
role_on t c = if c.source then as_source else if c.invoke_id == t then as_sink else as_propagator

-- The call is marked for its role.
abbrev Marks : ℕ → MethodCall → Progress → Progress → Type 0
Marks t m p p' =
    (mark : Mark) × (mark_as (role_on t m) m ≡ some mark)
    × (p'.engine.marks ≡ put m.invoke_id mark p.engine.marks)

report_call-Marks :
    (t : ℕ) (m : MethodCall) (p p' : Progress) → report_call t m p ≡ some p' → Marks t m p p'
unfolding report_call role_of
report_call-Marks t m p p' h = elim (Bool-cases m.source) [
  | inl e ↦ elim (Option-cases (mark_as as_source m)) [
    | inl q ↦ absurd (let raised = rw (report_call, e, q) at h in ground arith)
    | inr (mark, q) ↦ rw e (mark, q, (let done = rw (report_call, e, q) at h in ground arith))
  ]
  | inr e ↦ elim (Bool-cases (m.invoke_id == t)) [
    | inl f ↦ elim (Option-cases m.target_values) [
      | inl u ↦ absurd (let raised = rw (report_call, e, f, u) at h in ground arith)
      | inr (value, u) ↦ elim (Option-cases (mark_as as_sink m)) [
        | inl q ↦ absurd (let raised = rw (report_call, e, f, u, q) at h in ground arith)
        | inr (mark, q) ↦
            rw (e, f) (mark, q, (let done = rw (report_call, e, f, u, q) at h in ground arith))
      ]
    ]
    | inr f ↦ elim (Option-cases (mark_as as_propagator m)) [
      | inl q ↦ absurd (let raised = rw (report_call, e, f, q) at h in ground arith)
      | inr (mark, q) ↦
          rw (e, f) (mark, q, (let done = rw (report_call, e, f, q) at h in ground arith))
    ]
  ]
]

module _ (pool : List MethodCall) (dict : List (ℕ × MethodCall)) (t k : ℕ) (c : MethodCall)
    (named : lookup k dict ≡ some c) (own : c.invoke_id ≡ k) where
  abbrev IsMarked : Progress → Type 0
  IsMarked p =
      (mark : Mark) × (mark_as (role_on t c) c ≡ some mark) × (lookup k p.engine.marks ≡ some mark)

  report_call-IsMarked :
      (j : ℕ) (m : MethodCall) (p q : Progress)
      → lookup j dict ≡ some m
      → m.invoke_id ≡ j
      → report_call t m p ≡ some q
      → IsMarked p ⊎ (k ≡ j)
      → IsMarked q
  report_call-IsMarked j m p q e i done h =
      let (mark, made, put_mark) = report_call-Marks t m p q done in
      let step = ap (λ d. lookup k d) put_mark ∙ lookup-put m.invoke_id k mark p.engine.marks in
      elim (Bool-cases (m.invoke_id == k)) [
        | inl same ↦
            let at_k : j ≡ k = sym i ∙ (nat_beq_iff m.invoke_id k).0 same in
            let one : m ≡ c = cc (e, named, at_k) in
            (mark, subst (λ n. mark_as (role_on t n) n ≡ some mark) one made, step ∙ rw same refl)
        | inr other ↦ elim h [
          | inl (old_mark, made_old, old) ↦ (old_mark, made_old, step ∙ rw other old)
          | inr r ↦ absurd (let hit = (nat_beq_iff m.invoke_id k).1 (i ∙ sym r) in ground arith)
        ]
      ]

  report_calls-IsMarked :
      (path : List ℕ) (p p' : Progress)
      → All (Known pool dict) path
      → IsMarked p ⊎ (k ∈ path)
      → report_calls dict t path p ≡ some p'
      → IsMarked p'
  unfolding report_calls
  report_calls-IsMarked [] p p' known h e = elim h [
    | inl old ↦ let same : p ≡ p' = cc (e) in subst IsMarked same old
    | inr z ↦ absurd z
  ]
  report_calls-IsMarked (j ∷ path) p p' ((m, found, _, i), known) h e =
      let rest = rw (found, report_calls) at e in
      elim (Option-cases (report_call t m p)) [
        | inl raises ↦ absurd (let ended = rw (raises, report_calls) at rest in ground arith)
        | inr (q, done) ↦
            report_calls-IsMarked path q p' known
              (elim h [
                | inl old ↦ inl (report_call-IsMarked j m p q found i done (inl old))
                | inr n ↦ elim n [
                  | inl r ↦ inl (report_call-IsMarked j m p q found i done (inr r))
                  | inr r ↦ inr r
                ]
              ])
              (rw (done, report_calls) at rest)
      ]

finish_path-marks : (p : Progress) (e : Engine) → finish_path p ≡ some e → e.marks ≡ p.engine.marks
unfolding finish_path
finish_path-marks p e h = ground arith

-- After a path has been reported, each of its calls bears the mark of its role on that path,
-- whatever mark an earlier path had left on it.
pub report_path_marks :
    (pool : List MethodCall) (dict : List (ℕ × MethodCall)) (path : List ℕ)
    (bound bound' : Option Text) (e e' : Engine) (t k : ℕ) (c : MethodCall)
    → All (Known pool dict) path
    → last? path ≡ some t
    → k ∈ path
    → lookup k dict ≡ some c
    → c.invoke_id ≡ k
    → report_path dict path bound e ≡ some (e', bound')
    → (mark : Mark) × (mark_as (role_on t c) c ≡ some mark) × (lookup k e'.marks ≡ some mark)
unfolding report_path
report_path_marks pool dict path bound bound' e e' t k c known last m named own h =
    let start : Progress = record { engine = e; source_signature = bound; stack = [] } in
    let entered = rw (last, report_path) at h in
    elim (Option-cases (report_calls dict t path start)) [
      | inl fails ↦ absurd (let ended = rw (fails, report_path) at entered in ground arith)
      | inr (p, runs) ↦
          let marked =
            report_calls-IsMarked pool dict t k c named own path start p known (inr m) runs in
          let ended = rw (runs, report_path) at entered in
          elim (Option-cases (finish_path p)) [
            | inl unbound ↦
                absurd (let no_result = rw (unbound, report_path) at ended in ground arith)
            | inr (last_engine, done) ↦
                let same : last_engine ≡ e' =
                  let whole = rw (done, report_path) at ended in ground arith in
                let (mark, made, there) = marked in
                (
                  mark,
                  made,
                  subst (λ (x : Engine). lookup k x.marks ≡ some mark) same
                      (ap (λ d. lookup k d) (finish_path-marks p last_engine done) ∙ there),
                )
          ]
    ]
