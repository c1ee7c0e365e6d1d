-- ===== src/Registration/Register/Again/Projects.antt =====
-- What register_project leaves among the projects, for the admin of a tenant.
use dong_tai_server.Prelude.{
  ℕ, ◌≡◌, refl, sym, ◌∙◌, ap, subst, true, inl, inr, Option, some, List, [], ◌∷◌, filter,
  equal_self, Bool-cases, ◌==◌, number_comparison, text_comparison, nat_beq_iff,
}
use dong_tai_server.Prelude.Text.{Text}
use dong_tai_server.Registration.{User, Project, Param, Outside}
use dong_tai_server.Registration.Tables.{Table, Made, IsProper, update_or_create, put_row}
use dong_tai_server.Registration.Tables.Found.{
  filter_within, put_row_settled, update_or_create_found,
}
use dong_tai_server.Registration.Visible.{level_tenant, is_project}
use dong_tai_server.Registration.Rows.{new_project, old_project, set_departments, project_id}
use dong_tai_server.Registration.Register.{◌>>=◌, any_row, register_project}
use dong_tai_server.Registration.Register.Steps.{bind_inv}

is_project_tenant :
    (name : Text) (tenant : ℕ) (p : Project)
    → is_project name (some tenant) p ≡ true
    → (p.tenant == tenant) ≡ true
is_project_tenant name tenant p e = elim (Bool-cases (p.name == name)) [
  | inl f ↦
      let of_tenant = rw f at e in
      ap (λ b. b)
        ((nat_beq_iff p.tenant tenant).1 (sym ((nat_beq_iff tenant p.tenant).0 of_tenant)))
  | inr f ↦ absurd (let clash = rw f at e in cc)
]

-- The user as the admin of the tenant
abbrev pub as_admin : ℕ → User → User
as_admin tenant user = record user { level = level_tenant; tenant = some tenant }

module _ (tenant : ℕ) (user : User) where
  -- The admin of a tenant sees every project of the name in the tenant.
  visible_named :
      (name : Text) (rows : List Project)
      → filter (is_project name (some tenant)) (filter (λ p. p.tenant == tenant) rows)
        ≡ filter (is_project name (some tenant)) rows
  visible_named name rows =
      filter_within (λ p. p.tenant == tenant) (is_project name (some tenant)) rows
        (is_project_tenant name tenant)

  module _ (around : Outside) (param : Param) where
    abbrev pub store_project : Text → Table Project → Option (Made Project)
    store_project name t =
        update_or_create project_id (filter (is_project name (some tenant)) t.rows)
          (any_row (is_project name (some tenant)) t.rows)
          (new_project around (as_admin tenant user) param name tenant)
          (old_project around (as_admin tenant user) param) t

    abbrev pub without_departments : Made Project → Made Project
    without_departments made =
        let row = set_departments (as_admin tenant user) made.row in
        record made {
          row = row;
          table = record made.table { rows = put_row project_id row made.table.rows };
        }

    pub register_project_admin :
        (name : Text) (t : Table Project)
        → register_project around (as_admin tenant user) param name t
          ≡ (store_project name t >>= λ made. some (without_departments made))
    unfolding register_project
    register_project_admin name t = rw (visible_named name t.rows) refl

    pub register_project_found :
        (name : Text) (t : Table Project) (made : Made Project)
        → IsProper project_id t
        → register_project around (as_admin tenant user) param name t ≡ some made
        → IsProper project_id made.table
          × (filter (is_project name (some tenant)) made.table.rows ≡ made.row ∷ [])
    unfolding new_project old_project
    register_project_found name t made proper e =
        let run : (store_project name t >>= λ made. some (without_departments made)) ≡ some made =
          sym (register_project_admin name t) ∙ e in
        let (stored, is_stored, rest) =
          bind_inv (store_project name t) (λ made. some (without_departments made)) made run in
        let is_made : without_departments stored ≡ made = cc in
        let (proper', one) =
          update_or_create_found project_id (is_project name (some tenant))
            (new_project around (as_admin tenant user) param name tenant)
            (old_project around (as_admin tenant user) param) (λ i. refl)
            (λ i. rw (equal_self name, equal_self tenant) refl) (λ p. refl) (λ p h. h)
            (any_row (is_project name (some tenant)) t.rows) t stored proper is_stored in
        subst
          (λ m.
            IsProper project_id m.table
            × (filter (is_project name (some tenant)) m.table.rows ≡ m.row ∷ []))
          is_made
          (put_row_settled project_id (is_project name (some tenant)) stored.table stored.row
            (set_departments (as_admin tenant user) stored.row) proper' one refl refl)
