-- ===== src/SaveVul/Save/OneRow.antt =====
-- A key has at most one vulnerability.
use dong_tai_server.Prelude.{
  ℕ, ◌≤◌, ◌≡◌, ◌≢◌, refl, sym, ◌∙◌, ap, subst, ◌⊎◌, inl, inr, true, false, List, [], ◌∷◌, ◌++◌, ◌∈◌,
  map, filter, length, All, arith, Bool-cases, Option-cases, ◌==◌, number_comparison,
  text_comparison, nat_beq_iff, text_beq_iff,
}
use dong_tai_server.Prelude.Splits.{join}
use dong_tai_server.Prelude.Text.{Text}
use dong_tai_server.TaintOrigin.{Codecs, Names, parse_taint_position}
use dong_tai_server.SaveVul.{
  VulMeta, Sighting, Vul, Store, request_of, parse_target_values_from_vul_stack,
}
use dong_tai_server.SaveVul.Save.{
  VulKey, has_key, is_ignored, any_vul, newest, cache_key, updated, created, save_row, written,
  is_held, save_with, key_of_sighting, pattern_uri_of, save_vul,
}
use dong_tai_server.SaveVul.Save.Recorded.{
  UniqueIds, table_of, newest-mem, newest-none, others-save_row, mem-UniqueIds, save_with-vuls,
  updated-key,
}
use dong_tai_server.SaveVul.Save.Ids.{written-UniqueIds}

-- No two vulnerabilities have the same key.
abbrev pub AtMostOne : List Vul → Type 0
AtMostOne vuls = (k : VulKey) → length (filter (has_key k) vuls) ≤ 1

agrees :
    (j : VulKey) (m : VulMeta) (s : Sighting) (pattern name position : Text) (now id : ℕ) (v : Vul)
    → let k = key_of_sighting m s pattern name in
      has_key j (created m s k position now id) ≡ true → has_key j v ≡ has_key k v
unfolding created
agrees j m s pattern name position now id v h =
    let a : (s.strategy_id == j.strategy_id) ≡ true = ground (arith, h) in
    let b : (pattern == j.pattern_uri) ≡ true = ground (arith, h) in
    let c : (m.http_method == j.http_method) ≡ true = ground (arith, h) in
    let d : (m.project_version_id == j.project_version_id) ≡ true = ground (arith, h) in
    let e : (name == j.param_name) ≡ true = ground (arith, h) in
    rw
      (
        sym ((nat_beq_iff s.strategy_id j.strategy_id).0 a),
        sym ((text_beq_iff pattern j.pattern_uri).0 b),
        sym ((text_beq_iff m.http_method j.http_method).0 c),
        sym ((nat_beq_iff m.project_version_id j.project_version_id).0 d),
        sym ((text_beq_iff name j.param_name).0 e),
      )
      refl

append-length :
    (j k : VulKey) (row : Vul) (vuls : List Vul)
    → ((v : Vul) → has_key j v ≡ has_key k v)
    → length (filter (has_key k) vuls) ≡ 0
    → length (filter (has_key j) (vuls ++ row ∷ [])) ≤ 1
append-length j k row [] same e = elim (Bool-cases (has_key j row)) [
  | inl f ↦ rw f (omega arith)
  | inr f ↦ rw f (omega arith)
]
append-length j k row (v ∷ vuls) same e = elim (Bool-cases (has_key k v)) [
  | inl f ↦ absurd (let here = rw f at e in omega arith)
  | inr f ↦ let here = rw f at e in rw (same v ∙ f) (append-length j k row vuls same here)
]

append-off :
    (j : VulKey) (row : Vul) (vuls : List Vul)
    → has_key j row ≡ false
    → length (filter (has_key j) (vuls ++ row ∷ [])) ≡ length (filter (has_key j) vuls)
append-off j row [] e = rw e refl
append-off j row (v ∷ vuls) e =
    let rest = append-off j row vuls e in
    elim (Bool-cases (has_key j v)) [ inl f ↦ rw (f, rest) refl | inr f ↦ rw (f, rest) refl ]

save_row-length :
    (j : VulKey) (row v : Vul) (vuls : List Vul) (next : ℕ)
    → UniqueIds vuls next
    → v ∈ vuls
    → row.id ≡ v.id
    → has_key j row ≡ has_key j v
    → length (filter (has_key j) (save_row row vuls)) ≡ length (filter (has_key j) vuls)
save_row-length j row v [] next u m same key = absurd m
save_row-length j row v (w ∷ vuls) next (l, apart, u) (inl q) same key =
    let id : w.id ≡ row.id = sym (same ∙ ap (λ (x : Vul). x.id) q) in
    let hit : (w.id == row.id) ≡ true = (nat_beq_iff w.id row.id).1 id in
    let rest = others-save_row row vuls (subst (λ i. All (λ (x : Vul). x.id ≢ i) vuls) id apart) in
    let key' : has_key j row ≡ has_key j w = key ∙ ap (has_key j) q in
    elim (Bool-cases (has_key j w)) [
      | inl e ↦ rw (hit, rest, key' ∙ e, e) refl
      | inr e ↦ rw (hit, rest, key' ∙ e, e) refl
    ]
save_row-length j row v (w ∷ vuls) next (l, apart, u) (inr m) same key =
    let miss = mem-UniqueIds w v vuls apart m in
    let off : (w.id == row.id) ≡ false = ground (arith, miss, same) in
    let rest = save_row-length j row v vuls next u m same key in
    elim (Bool-cases (has_key j w)) [
      | inl e ↦ rw (off, e, rest) refl
      | inr e ↦ rw (off, e, rest) refl
    ]

updated-id :
    (m : VulMeta) (s : Sighting) (position : Text) (now : ℕ) (v : Vul)
    → (updated m s position now v).id ≡ v.id
unfolding updated
updated-id m s position now v = refl

written-AtMostOne :
    (m : VulMeta) (s : Sighting) (pattern name position : Text) (now : ℕ) (st : Store)
    → UniqueIds st.vuls st.next_id
    → AtMostOne st.vuls
    → AtMostOne (written m s (key_of_sighting m s pattern name) position now st).1.vuls
unfolding written
written-AtMostOne m s pattern name position now st unique one j =
    let k = key_of_sighting m s pattern name in
    elim (Option-cases (newest k st.vuls)) [
      | inl e ↦
          let row = created m s k position now st.next_id in
          elim (Bool-cases (has_key j row)) [
            | inl f ↦
                rw (written, e)
                  (append-length j k row st.vuls
                    (λ v. agrees j m s pattern name position now st.next_id v f)
                    (newest-none k st.vuls e))
            | inr f ↦ rw (written, e) (rw (append-off j row st.vuls f) (one j))
          ]
      | inr (v, e) ↦
          let (there, key) = newest-mem k st.vuls v e in
          let same =
            save_row-length j (updated m s position now v) v st.vuls st.next_id unique there
              (updated-id m s position now v) (updated-key j m s position now v) in
          rw (written, e) (rw same (one j))
    ]

-- The ids of the table are all different, and no two vulnerabilities have the same key.
abbrev pub IsTidy : List Vul × ℕ → Type 0
IsTidy t = UniqueIds t.0 t.1 × AtMostOne t.0

-- The table after any sighting: the one of before, or the one that `written` leaves.
save_with-cases :
    (codecs : Codecs) (m : VulMeta) (s : Sighting) (k : VulKey) (position : Text) (now : ℕ)
    (st : Store)
    → (table_of (save_with codecs m s k position now st).1 ≡ table_of st)
      ⊎ (table_of (save_with codecs m s k position now st).1
          ≡ table_of (written m s k position now st).1)
unfolding save_with
save_with-cases codecs m s k position now st = elim (Bool-cases (is_held (cache_key k) st.held)) [
  | inl e ↦ inl (rw (save_with, e) refl)
  | inr e ↦ elim (Bool-cases (any_vul (is_ignored k m.project_id) st.vuls)) [
    | inl f ↦ inl (rw (save_with, e, f) refl)
    | inr f ↦ inr (save_with-vuls codecs m s k position now st e f)
  ]
]

-- Whatever comes of it, an exception included, save_vul leaves a table with different ids and at most
-- one vulnerability for a key, if the table was so before.
pub save_vul-IsTidy :
    (codecs : Codecs) (dumps : Names → Text) (m : VulMeta) (s : Sighting) (now : ℕ) (st : Store)
    → IsTidy (table_of st)
    → IsTidy (table_of (save_vul codecs dumps m s now st).1)
unfolding save_vul
save_vul-IsTidy codecs dumps m s now st tidy =
    elim (Option-cases (parse_target_values_from_vul_stack s.vul_stack)) [
      | inl a ↦ rw (save_vul, a) tidy
      | inr (values, a) ↦
          elim (Option-cases (parse_taint_position codecs s.top_stack (request_of m) values)) [
            | inl b ↦ rw (save_vul, a, b) tidy
            | inr (names, b) ↦ elim (Option-cases (pattern_uri_of m names)) [
              | inl c ↦ rw (save_vul, a, b, c) tidy
              | inr (pattern, c) ↦
                  let k = key_of_sighting m s pattern (dumps names) in
                  let position = join b'/' (map (λ n. n.0) names) in
                  rw (save_vul, a, b, c)
                    (elim (save_with-cases codecs m s k position now st) [
                      | inl e ↦ subst IsTidy (sym e) tidy
                      | inr e ↦ subst IsTidy (sym e) (
                        written-UniqueIds m s k position now st tidy.0,
                        written-AtMostOne m s pattern (dumps names) position now st tidy.0 tidy.1,
                      )
                    ])
            ]
          ]
    ]
