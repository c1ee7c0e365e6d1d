-- ===== src/TaintSearch/Results/Returns.antt =====
-- A search ends without an exception and reports each merged path.
use dong_tai_server.Prelude.{
  ℕ, ◌<◌, ◌≡◌, refl, sym, ◌∙◌, ◌⊎◌, inl, inr, true, Option, none, some, List, [], ◌∷◌, ◌++◌, ◌∈◌,
  All, map, length, length-append, arith, Bool-cases, ◌==◌, number_comparison, nat_beq_iff, ap,
}
use mathlib.Core.List.{append-nil, append_assoc, map-append}
use mathlib.Core.Path.{ap₂}
use dong_tai_server.TaintSearch.Merge.Covers.{last-exists}
use dong_tai_server.Prelude.Dict.{lookup, put, lookup-put}
use dong_tai_server.Prelude.Text.{Text}
use dong_tai_server.MethodCall.{MethodCall, dotted}
use dong_tai_server.TaintSearch.{invokeid_dict, invokeid_dict_from}
use dong_tai_server.TaintSearch.Results.{
  Engine, Found, Progress, mark_as, role_of, report_call, report_calls, finish_path, report_path,
  report_paths, results,
}

-- `a` stands in the dict for a call of the pool.
abbrev pub Known : List MethodCall → List (ℕ × MethodCall) → ℕ → Type 0
Known pool dict a = (c : MethodCall) × (lookup a dict ≡ some c) × (c ∈ pool) × (c.invoke_id ≡ a)

Known-keeps :
    (all pool : List MethodCall) (d : List (ℕ × MethodCall)) (a : ℕ)
    → ((c : MethodCall) → c ∈ pool → c ∈ all)
    → Known all d a
    → Known all (invokeid_dict_from pool d) a
unfolding invokeid_dict_from
Known-keeps all [] d a sub k = k
Known-keeps all (x ∷ xs) d a sub (c, e, m, i) =
    Known-keeps all xs (put x.invoke_id x d) a (λ y n. sub y (inr n))
      (elim (Bool-cases (x.invoke_id == a)) [
        | inl same ↦ (
          x,
          lookup-put x.invoke_id a x d ∙ rw same,
          sub x (inl refl),
          (nat_beq_iff x.invoke_id a).0 same,
        )
        | inr other ↦ (c, lookup-put x.invoke_id a x d ∙ rw other e, m, i)
      ])

Known-of :
    (all pool : List MethodCall) (d : List (ℕ × MethodCall)) (c : MethodCall)
    → ((y : MethodCall) → y ∈ pool → y ∈ all)
    → c ∈ pool
    → Known all (invokeid_dict_from pool d) c.invoke_id
unfolding invokeid_dict_from
Known-of all [] d c sub m = absurd m
Known-of all (x ∷ xs) d c sub (inl e) =
    Known-keeps all xs (put x.invoke_id x d) c.invoke_id (λ y n. sub y (inr n))
      (
        x,
        lookup-put x.invoke_id c.invoke_id x d ∙ ground arith,
        sub x (inl refl),
        ap (λ (y : MethodCall). y.invoke_id) (sym e),
      )
Known-of all (x ∷ xs) d c sub (inr m) =
    Known-of all xs (put x.invoke_id x d) c (λ y n. sub y (inr n)) m

pub invokeid_dict-Known :
    (pool : List MethodCall) (c : MethodCall)
    → c ∈ pool
    → Known pool (invokeid_dict pool) c.invoke_id
unfolding invokeid_dict
invokeid_dict-Known pool c m = Known-of pool pool [] c (λ y n. n) m

abbrev Bound : Option Text → Type 0
Bound o = (text : Text) × (o ≡ some text)

-- Some call of the path is a source.
abbrev pub HasSource : List (ℕ × MethodCall) → List ℕ → Type 0
HasSource dict [] = ⊥
HasSource dict (k ∷ path) =
    ((c : MethodCall) × (lookup k dict ≡ some c) × (c.source ≡ true)) ⊎ HasSource dict path

-- What the loop over a path leaves, if a source has been met.
abbrev Sourced : Progress → Type 0
Sourced p = Bound p.source_signature × (0 < length p.engine.vul_source_signature)

length-dotted : (m : MethodCall) → 0 < length (dotted m)
length-dotted m = omega (arith, length-append {0} m.class_name (b'.' ∷ m.method_name))

append-assoc_one : (xs : List ℕ) (x : ℕ) (ys : List ℕ) → (xs ++ x ∷ []) ++ ys ≡ xs ++ x ∷ ys
append-assoc_one [] x ys = refl
append-assoc_one (y ∷ xs) x ys = ap (λ t. y ∷ t) (append-assoc_one xs x ys)

-- "targetValues" and "sourceValues" are there.
abbrev pub HasValues : MethodCall → Type 0
HasValues m = Bound m.target_values × Bound m.source_values

-- A call is put on the stack, and bound as the source if it is one.
abbrev Notes : ℕ → MethodCall → Progress → Type 0
Notes t m p =
    (p' : Progress) × (report_call t m p ≡ some p')
    × (p'.stack ≡ p.stack ++ m.invoke_id ∷ [])
    × (p'.engine.more_results ≡ p.engine.more_results)
    × (Sourced p ⊎ (m.source ≡ true) → Sourced p')

report_call_lem : (t : ℕ) (m : MethodCall) (p : Progress) → HasValues m → Notes t m p
unfolding report_call mark_as role_of
report_call_lem t m p ((v, target), (w, source)) = elim (Bool-cases m.source) [
  | inl e ↦
      rw (report_call, e, target) (_, refl, refl, refl, λ _. ((dotted m, refl), length-dotted m))
  | inr e ↦ elim (Bool-cases (m.invoke_id == t)) [
    | inl f ↦
        rw (report_call, e, f, target, source)
          (_, refl, refl, refl, λ h. elim h [ inl s ↦ s | inr g ↦ absurd (ground arith) ])
    | inr f ↦
        rw (report_call, e, f, target, source)
          (_, refl, refl, refl, λ h. elim h [ inl s ↦ s | inr g ↦ absurd (ground arith) ])
  ]
]

-- The loop over a path reaches its end, with the calls of the path on the stack.
abbrev Walks : List (ℕ × MethodCall) → ℕ → List ℕ → Progress → Type 0
Walks dict t path p =
    (p' : Progress) × (report_calls dict t path p ≡ some p')
    × (p'.stack ≡ p.stack ++ path)
    × (p'.engine.more_results ≡ p.engine.more_results)
    × (Sourced p ⊎ HasSource dict path → Sourced p')

report_calls_lem :
    (pool : List MethodCall) (dict : List (ℕ × MethodCall)) (t : ℕ) (path : List ℕ) (p : Progress)
    → ((c : MethodCall) → c ∈ pool → HasValues c)
    → All (Known pool dict) path
    → Walks dict t path p
unfolding report_calls
report_calls_lem pool dict t [] p values h =
    (p, refl, sym (append-nil p.stack), refl, λ s. elim s [ inl q ↦ q | inr z ↦ absurd z ])
report_calls_lem pool dict t (k ∷ path) p values ((c, e, m, i), hs) =
    let (q, noted, stack, more, new) = report_call_lem t c p (values c m) in
    let (p', runs, stack', more', sourced) = report_calls_lem pool dict t path q values hs in
    (
      p',
      rw (e, report_calls) (rw (noted, report_calls) runs),
      stack'
          ∙ ap (λ u. u ++ path) stack
          ∙ append-assoc_one p.stack c.invoke_id path
          ∙ ap (λ n. p.stack ++ n ∷ path) i,
      more' ∙ more,
      λ s. sourced (elim s [
        | inl old ↦ inl (new (inl old))
        | inr f ↦ elim f [
          | inl (d, e', f') ↦ let same : c ≡ d = cc (e, e') in inl (new (inr (rw same f')))
          | inr f' ↦ inr f'
        ]
      ]),
    )

finish_path_lem :
    (p : Progress) (text : Text)
    → p.source_signature ≡ some text
    → (e : Engine) × (finish_path p ≡ some e)
      × (map (λ r. r.stack) e.more_results
          ≡ map (λ r. r.stack) p.engine.more_results ++ p.stack ∷ [])
      × (e.vul_source_signature ≡ p.engine.vul_source_signature)
      × (0 < length e.more_results)
unfolding finish_path
finish_path_lem p text named =
    let found : Found = record {
      stack = p.stack;
      source_signature = text;
      sink_signature = p.engine.vul_method_signature;
      taint_value = p.engine.taint_value;
    } in
    (
      record p.engine { vul_stack = p.stack; more_results = p.engine.more_results ++ found ∷ [] },
      rw (named, finish_path),
      map-append (λ r. r.stack) p.engine.more_results (found ∷ []),
      refl,
      omega (arith, length-append {0} p.engine.more_results (found ∷ [])),
    )

-- One merged path is reported: its calls are the stack of one more result.
abbrev Reports : List (ℕ × MethodCall) → List ℕ → Option Text → Engine → Type 0
Reports dict path bound e =
    (e' : Engine) × (bound' : Option Text) × (report_path dict path bound e ≡ some (e', bound'))
    × (map (λ r. r.stack) e'.more_results ≡ map (λ r. r.stack) e.more_results ++ path ∷ [])
    × (0 < length e'.vul_source_signature)
    × (0 < length e'.more_results)

report_path_lem :
    (pool : List MethodCall) (dict : List (ℕ × MethodCall)) (path : List ℕ) (bound : Option Text)
    (e : Engine)
    → ((c : MethodCall) → c ∈ pool → HasValues c)
    → All (Known pool dict) path
    → HasSource dict path
    → Reports dict path bound e
unfolding report_path
report_path_lem pool dict [] bound e values h f = absurd f
report_path_lem pool dict (k ∷ path) bound e values h f =
    let (t, last) = last-exists k path in
    let start : Progress = record { engine = e; source_signature = bound; stack = [] } in
    let (p, runs, stack, more, sourced) = report_calls_lem pool dict t (k ∷ path) start values h in
    let ((text, named), truthy) = sourced (inr f) in
    let (e', ends, stacks, kept, filled) = finish_path_lem p text named in
    (
      e',
      p.source_signature,
      rw (last, report_path) (rw (runs, report_path) (rw (ends, report_path) refl)),
      stacks ∙ ap₂ (λ (rs : List Found) (x : List ℕ). map (λ r. r.stack) rs ++ x ∷ []) more stack,
      rw kept truthy,
      filled,
    )

-- A source has been met if there are results, and only then.
abbrev pub Truthful : Engine → Type 0
Truthful e =
    ((0 < length e.vul_source_signature) × (0 < length e.more_results))
    ⊎ ((e.vul_source_signature ≡ []) × (e.more_results ≡ []))

pub report_paths_lem :
    (pool : List MethodCall) (dict : List (ℕ × MethodCall)) (paths : List (List ℕ))
    (bound : Option Text) (e : Engine)
    → ((c : MethodCall) → c ∈ pool → HasValues c)
    → All (λ path. All (Known pool dict) path × HasSource dict path) paths
    → Truthful e
    → (e' : Engine) × (report_paths dict paths bound e ≡ some e')
      × (map (λ r. r.stack) e'.more_results ≡ map (λ r. r.stack) e.more_results ++ paths)
      × Truthful e'
unfolding report_paths
report_paths_lem pool dict [] bound e values h t = (e, refl, sym (append-nil _), t)
report_paths_lem pool dict (path ∷ paths) bound e values ((known, source), hs) t =
    let (mid, next, runs, stacks, met, filled) =
      report_path_lem pool dict path bound e values known source in
    let (e', ends, stacks', t') =
      report_paths_lem pool dict paths next mid values hs (inl (met, filled)) in
    (
      e',
      rw (runs, report_paths) ends,
      stacks'
          ∙ ap (λ u. u ++ paths) stacks
          ∙ append_assoc (map (λ r. r.stack) e.more_results) (path ∷ []) paths,
      t',
    )

-- What is handed out for the found ones: each of them, or one entry that nothing was found.
unfoldable pub handed_out : List Found → List (Option Found)
handed_out [] = none ∷ []
handed_out (found ∷ others) = some found ∷ map (λ r. some r) others

handed_out-filled :
    (found : List Found) → 0 < length found → handed_out found ≡ map (λ r. some r) found
unfolding handed_out
handed_out-filled [] h = absurd (omega (arith, h))
handed_out-filled (found ∷ others) h = refl

pub results-Truthful : (e : Engine) → Truthful e → results e ≡ handed_out e.more_results
unfolding results handed_out
results-Truthful e (inl (met, filled)) = rw (handed_out-filled e.more_results filled) (ground arith)
results-Truthful e (inr (none_met, empty)) = rw (none_met, empty) refl
