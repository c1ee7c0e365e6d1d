-- ===== src/SaveVul/Save/Recorded.antt =====
-- Every sighting is counted once.
use dong_tai_server.Prelude.{
  ℕ, suc, ◌+◌, ◌<◌, ◌≡◌, ◌≢◌, refl, sym, ◌∙◌, ap, subst, inl, inr, true, false, none, some, List,
  [], ◌∷◌, ◌++◌, ◌∈◌, map, filter, mem-filter, length, All, All-at, arith, Bool-cases, Option-cases,
  if◌then◌else◌, ◌==◌, number_comparison, text_comparison, nat_beq_iff, text_beq_iff,
}
use dong_tai_server.Prelude.Sorting.{sort_down_by, down, mem-arrange, length-arrange}
use dong_tai_server.Prelude.Splits.{split, join}
use dong_tai_server.Prelude.Text.{Text}
use dong_tai_server.TaintOrigin.{Codecs, Names, parse_taint_position}
use dong_tai_server.SaveVul.{
  VulMeta, Sighting, Vul, Store, request_of, parse_target_values_from_vul_stack,
}
use dong_tai_server.SaveVul.Save.{
  VulKey, has_key, is_ignored, any_vul, first_vul, newest, cache_key, updated, created, save_row,
  written, logged, is_held, save_with, key_of_sighting, header_text, replay_uuid, pattern_uri_of,
  save_vul,
}

-- The ids of the table are all different, and below the next one.
abbrev pub UniqueIds : List Vul → ℕ → Type 0
UniqueIds [] next = Unit
UniqueIds (v ∷ vs) next = (v.id < next) × All (λ w. w.id ≢ v.id) vs × UniqueIds vs next

-- The sightings that are counted for a key.
abbrev pub sightings : VulKey → List Vul → ℕ
sightings k [] = 0
sightings k (v ∷ vs) = let rest = sightings k vs in if has_key k v then v.counts + rest else rest

first_vul-mem : (vs : List Vul) (v : Vul) → first_vul vs ≡ some v → v ∈ vs
first_vul-mem [] v e = absurd (cc)
first_vul-mem (w ∷ vs) v e = inl (cc)

first_vul-none : (vs : List Vul) → first_vul vs ≡ none → length vs ≡ 0
first_vul-none [] e = refl
first_vul-none (w ∷ vs) e = absurd (cc)

pub newest-mem :
    (k : VulKey) (vuls : List Vul) (v : Vul)
    → newest k vuls ≡ some v
    → (v ∈ vuls) × (has_key k v ≡ true)
unfolding newest
newest-mem k vuls v e =
    let found = filter (has_key k) vuls in
    (mem-filter (has_key k) v vuls).0 (
      (mem-arrange (down (λ (x : Vul). x.latest_time)) v found).0
        (first_vul-mem (sort_down_by (λ (x : Vul). x.latest_time) found) v e))

pub newest-none :
    (k : VulKey) (vuls : List Vul) → newest k vuls ≡ none → length (filter (has_key k) vuls) ≡ 0
unfolding newest
newest-none k vuls e =
    let found = filter (has_key k) vuls in
    sym (length-arrange (down (λ (x : Vul). x.latest_time)) found)
    ∙ first_vul-none (sort_down_by (λ (x : Vul). x.latest_time) found) e

none-sightings :
    (k : VulKey) (vuls : List Vul) → length (filter (has_key k) vuls) ≡ 0 → sightings k vuls ≡ 0
none-sightings k [] e = refl
none-sightings k (v ∷ vuls) e = elim (Bool-cases (has_key k v)) [
  | inl f ↦ absurd (let here = rw f at e in omega arith)
  | inr f ↦ let here = rw f at e in let rest = none-sightings k vuls here in rw (f, rest) refl
]

append-sightings :
    (k : VulKey) (v : Vul) (vuls : List Vul)
    → has_key k v ≡ true
    → sightings k (vuls ++ v ∷ []) ≡ sightings k vuls + v.counts
append-sightings k v [] h = rw h (omega arith)
append-sightings k v (w ∷ vuls) h =
    let rest = append-sightings k v vuls h in
    elim (Bool-cases (has_key k w)) [ inl e ↦ rw e (omega arith) | inr e ↦ rw e (omega arith) ]

pub others-save_row :
    (row : Vul) (vuls : List Vul) → All (λ w. w.id ≢ row.id) vuls → save_row row vuls ≡ vuls
others-save_row row [] h = refl
others-save_row row (v ∷ vuls) (apart, h) =
    let rest = others-save_row row vuls h in
    elim (Bool-cases (v.id == row.id)) [
      | inl e ↦ absurd (apart ((nat_beq_iff v.id row.id).0 e))
      | inr e ↦ rw (e, rest) refl
    ]

pub mem-UniqueIds : (w v : Vul) (vs : List Vul) → All (λ x. x.id ≢ w.id) vs → v ∈ vs → v.id ≢ w.id
mem-UniqueIds w v vs h m = All-at (λ (x : Vul). x.id ≢ w.id) v vs h m

-- Saving the next sighting of a row.
save_row-sightings :
    (k : VulKey) (row v : Vul) (vuls : List Vul) (next : ℕ)
    → UniqueIds vuls next
    → v ∈ vuls
    → row.id ≡ v.id
    → has_key k v ≡ true
    → has_key k row ≡ true
    → row.counts ≡ suc v.counts
    → sightings k (save_row row vuls) ≡ suc (sightings k vuls)
save_row-sightings k row v [] next u m same h h' c = absurd m
save_row-sightings k row v (w ∷ vuls) next (l, apart, u) (inl q) same h h' c =
    let id : w.id ≡ row.id = sym (same ∙ ap (λ (x : Vul). x.id) q) in
    let hit : (w.id == row.id) ≡ true = (nat_beq_iff w.id row.id).1 id in
    let rest = others-save_row row vuls (subst (λ i. All (λ (x : Vul). x.id ≢ i) vuls) id apart) in
    let here : has_key k w ≡ true = subst (λ (x : Vul). has_key k x ≡ true) q h in
    let count : v.counts ≡ w.counts = ap (λ (x : Vul). x.counts) q in
    rw (hit, rest, h', here) (omega arith)
save_row-sightings k row v (w ∷ vuls) next (l, apart, u) (inr m) same h h' c =
    let miss = mem-UniqueIds w v vuls apart m in
    let off : (w.id == row.id) ≡ false = ground (arith, miss, same) in
    let rest = save_row-sightings k row v vuls next u m same h h' c in
    elim (Bool-cases (has_key k w)) [
      | inl e ↦ rw (off, e) (omega arith)
      | inr e ↦ rw (off, e) (omega arith)
    ]

-- The table of vulnerabilities with its next id.
abbrev pub table_of : Store → List Vul × ℕ
table_of st = (st.vuls, st.next_id)

pub logged-vuls :
    (codecs : Codecs) (v : Vul) (st : Store) → table_of (logged codecs v st).1 ≡ table_of st
unfolding logged
logged-vuls codecs v st = elim (Option-cases (header_text codecs v.req_header)) [
  | inl e ↦ rw (logged, e) refl
  | inr (text, e) ↦ elim (Option-cases (replay_uuid (split b'\n' text))) [
    | inl f ↦ rw (logged, e, f) refl
    | inr (uuid, f) ↦ rw (logged, e, f) refl
  ]
]

abbrev started : VulMeta → Store → Store
started m st = record st { project_updates = st.project_updates ++ m.project_id ∷ [] }

written-started :
    (m : VulMeta) (s : Sighting) (k : VulKey) (position : Text) (now : ℕ) (st : Store)
    → table_of (written m s k position now (started m st)).1
      ≡ table_of (written m s k position now st).1
unfolding written
written-started m s k position now st = elim (Option-cases (newest k st.vuls)) [
  | inl e ↦ rw (written, e) refl
  | inr (v, e) ↦ rw (written, e) refl
]

-- The table after a sighting of a key that is neither held nor ignored.
pub save_with-vuls :
    (codecs : Codecs) (m : VulMeta) (s : Sighting) (k : VulKey) (position : Text) (now : ℕ)
    (st : Store)
    → is_held (cache_key k) st.held ≡ false
    → any_vul (is_ignored k m.project_id) st.vuls ≡ false
    → table_of (save_with codecs m s k position now st).1
      ≡ table_of (written m s k position now st).1
unfolding save_with
save_with-vuls codecs m s k position now st free live =
    rw (free, live) (logged-vuls codecs _ _ ∙ written-started m s k position now st)

pub updated-key :
    (k : VulKey) (m : VulMeta) (s : Sighting) (position : Text) (now : ℕ) (v : Vul)
    → has_key k (updated m s position now v) ≡ has_key k v
unfolding updated
updated-key k m s position now v = refl

pub created-key :
    (m : VulMeta) (s : Sighting) (pattern name position : Text) (now id : ℕ)
    → let k = key_of_sighting m s pattern name in has_key k (created m s k position now id) ≡ true
unfolding created
created-key m s pattern name position now id =
    rw
      (
        (nat_beq_iff s.strategy_id s.strategy_id).1 refl,
        (text_beq_iff pattern pattern).1 refl,
        (text_beq_iff m.http_method m.http_method).1 refl,
        (nat_beq_iff m.project_version_id m.project_version_id).1 refl,
        (text_beq_iff name name).1 refl,
      )
      refl

pub written-sightings :
    (m : VulMeta) (s : Sighting) (pattern name position : Text) (now : ℕ) (st : Store)
    → UniqueIds st.vuls st.next_id
    → let k = key_of_sighting m s pattern name in
      sightings k (written m s k position now st).1.vuls ≡ suc (sightings k st.vuls)
unfolding written updated created
written-sightings m s pattern name position now st unique =
    let k = key_of_sighting m s pattern name in
    elim (Option-cases (newest k st.vuls)) [
      | inl e ↦
          let row = created m s k position now st.next_id in
          let more =
            append-sightings k row st.vuls (created-key m s pattern name position now st.next_id) in
          rw (written, e) (more ∙ (omega arith))
      | inr (v, e) ↦
          let (there, key) = newest-mem k st.vuls v e in
          rw (written, e)
            (save_row-sightings k (updated m s position now v) v st.vuls st.next_id unique there
              refl key key (omega arith))
    ]

-- Where the stack has values, the names and the pattern of the URL are found, the key is not held by a
-- save that is under way, and no such vulnerability is ignored: save_vul counts the sighting once more
-- for the key, be it a new vulnerability or the next sighting of one, if the ids of the table differ.
pub save_vul-sightings :
    (codecs : Codecs) (dumps : Names → Text) (m : VulMeta) (s : Sighting) (now : ℕ) (st : Store)
    (values : List Text) (names : Names) (pattern : Text)
    → parse_target_values_from_vul_stack s.vul_stack ≡ some values
    → parse_taint_position codecs s.top_stack (request_of m) values ≡ some names
    → pattern_uri_of m names ≡ some pattern
    → is_held (cache_key (key_of_sighting m s pattern (dumps names))) st.held ≡ false
    → any_vul (is_ignored (key_of_sighting m s pattern (dumps names)) m.project_id) st.vuls ≡ false
    → UniqueIds st.vuls st.next_id
    → sightings
        (key_of_sighting m s pattern (dumps names))
        (save_vul codecs dumps m s now st).1.vuls
      ≡ suc (sightings (key_of_sighting m s pattern (dumps names)) st.vuls)
unfolding save_vul
save_vul-sightings codecs dumps m s now st values names pattern a b c free live unique =
    let k = key_of_sighting m s pattern (dumps names) in
    let position = join b'/' (map (λ n. n.0) names) in
    rw (save_vul, a, b, c)
      (ap (λ t. sightings k t.0) (save_with-vuls codecs m s k position now st free live)
        ∙ written-sightings m s pattern (dumps names) position now st unique)
