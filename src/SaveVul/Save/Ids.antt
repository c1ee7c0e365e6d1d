-- ===== src/SaveVul/Save/Ids.antt =====
-- The ids of the vulnerabilities stay different.
use dong_tai_server.Prelude.{
  ℕ, suc, ◌≡◌, ◌≢◌, refl, subst, inl, inr, List, [], ◌∷◌, ◌++◌, All, All-append, arith, Bool-cases,
  Option-cases, ◌==◌, number_comparison, text_comparison, nat_beq_iff,
}
use dong_tai_server.Prelude.Text.{Text}
use dong_tai_server.SaveVul.{VulMeta, Sighting, Vul, Store}
use dong_tai_server.SaveVul.Save.{VulKey, newest, updated, created, save_row, written}
use dong_tai_server.SaveVul.Save.Recorded.{UniqueIds}

append-UniqueIds :
    (row : Vul) (vuls : List Vul) (next : ℕ)
    → row.id ≡ next
    → UniqueIds vuls next
    → UniqueIds (vuls ++ row ∷ []) (suc next)
append-UniqueIds row [] next e u = (omega arith, tt, tt)
append-UniqueIds row (v ∷ vuls) next e (l, apart, u) = (
  omega arith,
  All-append (λ w. w.id ≢ v.id) vuls (row ∷ []) apart (omega arith, tt),
  append-UniqueIds row vuls next e u,
)

save_row-apart :
    (i : ℕ) (row : Vul) (vuls : List Vul)
    → All (λ w. w.id ≢ i) vuls
    → All (λ w. w.id ≢ i) (save_row row vuls)
save_row-apart i row [] h = tt
save_row-apart i row (v ∷ vuls) (here, h) =
    let rest = save_row-apart i row vuls h in
    elim (Bool-cases (v.id == row.id)) [
      | inl e ↦ let same : v.id ≡ row.id = (nat_beq_iff v.id row.id).0 e in rw e (omega arith, rest)
      | inr e ↦ rw e (here, rest)
    ]

save_row-UniqueIds :
    (row : Vul) (vuls : List Vul) (next : ℕ)
    → UniqueIds vuls next
    → UniqueIds (save_row row vuls) next
save_row-UniqueIds row [] next u = tt
save_row-UniqueIds row (v ∷ vuls) next (l, apart, u) =
    let rest = save_row-UniqueIds row vuls next u in
    let apart' = save_row-apart v.id row vuls apart in
    elim (Bool-cases (v.id == row.id)) [
      | inl e ↦
          let same : v.id ≡ row.id = (nat_beq_iff v.id row.id).0 e in
          rw e (
            omega arith,
            subst (λ i. All (λ (w : Vul). w.id ≢ i) (save_row row vuls)) same apart',
            rest,
          )
      | inr e ↦ rw e (l, apart', rest)
    ]

pub written-UniqueIds :
    (m : VulMeta) (s : Sighting) (k : VulKey) (position : Text) (now : ℕ) (st : Store)
    → UniqueIds st.vuls st.next_id
    → UniqueIds (written m s k position now st).1.vuls (written m s k position now st).1.next_id
unfolding written created
written-UniqueIds m s k position now st unique = elim (Option-cases (newest k st.vuls)) [
  | inl e ↦
      rw (written, e)
        (append-UniqueIds (created m s k position now st.next_id) st.vuls st.next_id refl unique)
  | inr (v, e) ↦
      rw (written, e) (save_row-UniqueIds (updated m s position now v) st.vuls st.next_id unique)
]
