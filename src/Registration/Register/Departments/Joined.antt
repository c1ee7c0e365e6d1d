-- ===== src/Registration/Register/Departments/Joined.antt =====
-- Registrations of a user of two or more departments: how often the join of get_projects finds a project.
use dong_tai_server.Prelude.{
  ℕ, suc, ◌≤◌, ◌≡◌, ◌≢◌, refl, sym, ◌∙◌, ap, subst, inl, inr, Bool, true, false, ◌&&◌, Option, none,
  some, List, [], ◌∷◌, ◌++◌, ◌∈◌, map, filter, length, length-append, contains, contains_iff,
  mem-append_cases, mem-filter, equal_self, arith, Bool-cases, Option-cases, if◌then◌else◌, ◌==◌,
  number_comparison,
}
use dong_tai_server.Prelude.Text.{Text}
use dong_tai_server.Registration.{User, Project, Param, Outside}
use dong_tai_server.Registration.Tables.{Table, Made, update_or_create, put_row}
use dong_tai_server.Registration.Tables.Found.{mem_made, mem-put_row, update_or_create_many}
use dong_tai_server.Registration.Register.Steps.{bind_inv}
use dong_tai_server.Registration.Visible.{
  level_tenant, level_super, is_tenant_admin, is_of, departments_of, seen_as, joined_projects,
  get_projects, is_project,
}
use dong_tai_server.Registration.Rows.{new_project, old_project, set_departments, project_id}
use dong_tai_server.Registration.Register.{◌>>=◌, any_row, register_project}

-- A user that is no admin
abbrev pub IsNormal : User → Type 0
IsNormal user = (user.level ≢ level_tenant) × (user.level ≢ level_super)

filter-contains :
    (ds es : List ℕ) → ((d : ℕ) → d ∈ ds → d ∈ es) → filter (λ d. contains es d) ds ≡ ds
filter-contains [] es within = refl
filter-contains (d ∷ ds) es within =
    let rest = filter-contains ds es (λ e m. within e (inr m)) in
    rw ((contains_iff es d).1 (within d (inl refl)), rest) refl

filter_copies :
    (test : Project → Bool) (p : Project) (ds : List ℕ)
    → test p ≡ true
    → length (filter test (map (λ d. p) ds)) ≡ length ds
filter_copies test p [] e = refl
filter_copies test p (d ∷ ds) e = rw e (ap suc (filter_copies test p ds e))

filter_append :
    {A : Type 0} (test : A → Bool) (xs ys : List A)
    → filter test (xs ++ ys) ≡ filter test xs ++ filter test ys
filter_append test [] ys = refl
filter_append test (x ∷ xs) ys =
    let rest = filter_append test xs ys in
    elim (Bool-cases (test x)) [ inl e ↦ rw (e, rest) refl | inr e ↦ rw (e, rest) refl ]

module _ (user : User) (test : Project → Bool) (normal : IsNormal user) where
  departments_of_normal : departments_of user ≡ user.departments
  departments_of_normal = ground (arith, normal)

  seen_often :
      (p : Project)
      → p.departments ≡ user.departments
      → test p ≡ true
      → length user.departments ≤ length (filter test (seen_as user p))
  seen_often p of passes =
      let all : filter (λ d. contains (departments_of user) d) p.departments ≡ p.departments =
        filter-contains p.departments (departments_of user)
          (λ d m. subst (λ ds. d ∈ ds) (of ∙ sym departments_of_normal) m) in
      let copies =
        filter_copies test p (filter (λ d. contains (departments_of user) d) p.departments)
          passes in
      let counted : length (filter (λ d. contains (departments_of user) d) p.departments)
          ≡ length user.departments =
        ap length (all ∙ of) in
      let once = if length p.departments == 0 && is_of user.tenant p.tenant then p ∷ [] else [] in
      let found = map (λ d. p) (filter (λ d. contains (departments_of user) d) p.departments) in
      rw (filter_append test found once, length-append (filter test found) (filter test once))
        (omega (arith, copies, counted))

  -- A project of the user's departments is found at least once for each of them.
  found_often :
      (p : Project) (ps : List Project)
      → p ∈ ps
      → p.departments ≡ user.departments
      → test p ≡ true
      → length user.departments ≤ length (filter test (joined_projects user ps))
  unfolding joined_projects
  found_often p [] m of passes = absurd m
  found_often p (q ∷ ps) (inl e) of passes =
      let here =
        subst (λ r. length user.departments ≤ length (filter test (seen_as user r))) e
          (seen_often p of passes) in
      rw
        (
          filter_append test (seen_as user q) (joined_projects user ps),
          length-append (filter test (seen_as user q)) (filter test (joined_projects user ps)),
        )
        (omega (arith, here))
  found_often p (q ∷ ps) (inr m) of passes =
      let rest = found_often p ps m of passes in
      rw
        (
          filter_append test (seen_as user q) (joined_projects user ps),
          length-append (filter test (seen_as user q)) (filter test (joined_projects user ps)),
        )
        (omega (arith, rest))

  copies_same : (p q : Project) (ds : List ℕ) → p ∈ map (λ d. q) ds → p ≡ q
  copies_same p q [] m = absurd m
  copies_same p q (d ∷ ds) (inl e) = e
  copies_same p q (d ∷ ds) (inr m) = copies_same p q ds m

  seen_same : (p q : Project) → p ∈ seen_as user q → p ≡ q
  seen_same p q m =
      elim (mem-append_cases p
        (map (λ d. q) (filter (λ d. contains (departments_of user) d) q.departments)) _ m) [
          | inl copy ↦
              copies_same p q (filter (λ d. contains (departments_of user) d) q.departments) copy
          | inr once ↦ elim (Bool-cases (length q.departments == 0 && is_of user.tenant q.tenant)) [
            | inl e ↦ elim (rw e at once) [ inl same ↦ same | inr none_left ↦ absurd none_left ]
            | inr e ↦ absurd (rw e at once)
          ]
        ]

  joined_within : (p : Project) (ps : List Project) → p ∈ joined_projects user ps → p ∈ ps
  unfolding joined_projects
  joined_within p [] m = m
  joined_within p (q ∷ ps) m =
      elim (mem-append_cases p (seen_as user q) (joined_projects user ps) m) [
        | inl here ↦ inl (seen_same p q here)
        | inr there ↦ inr (joined_within p ps there)
      ]

  get_projects-joined_projects :
      (ps : List Project) → get_projects user ps ≡ some (joined_projects user ps)
  unfolding get_projects
  get_projects-joined_projects ps =
      let no_admin : is_tenant_admin user ≡ false = ground (arith, normal) in rw no_admin refl

module _ (user : User) (normal : IsNormal user) (around : Outside) (param : Param)
    (name : Text) where
  abbrev store_project : ℕ → List Project → Table Project → Option (Made Project)
  store_project tenant visible t =
      update_or_create project_id (filter (is_project name user.tenant) visible)
        (any_row (is_project name user.tenant) t.rows) (new_project around user param name tenant)
        (old_project around user param) t

  abbrev shared : Made Project → Made Project
  shared made =
      let row = set_departments user made.row in
      record made {
        row = row;
        table = record made.table { rows = put_row project_id row made.table.rows };
      }

  register_project_normal :
      (tenant : ℕ) (t : Table Project)
      → user.tenant ≡ some tenant
      → register_project around user param name t
        ≡ (store_project tenant (joined_projects user t.rows) t >>= λ made. some (shared made))
  unfolding register_project
  register_project_normal tenant t has =
      ap
        (λ o. elim o [
          | none ↦ none
          | some tn ↦
              (get_projects user t.rows >>= λ visible.
              store_project tn visible t >>= λ made. some (shared made))
        ])
        has
      ∙ ap (λ o. o >>= λ visible. store_project tenant visible t >>= λ made. some (shared made))
          (get_projects-joined_projects user (λ p. true) normal t.rows)

  register_project_alone :
      (t : Table Project) → user.tenant ≡ none → register_project around user param name t ≡ none
  unfolding register_project
  register_project_alone t alone =
      ap
        (λ o. elim o [
          | none ↦ none
          | some tn ↦
              (get_projects user t.rows >>= λ visible.
              store_project tn visible t >>= λ made. some (shared made))
        ])
        alone

  no_admin_departments : (p : Project) → (set_departments user p).departments ≡ user.departments
  no_admin_departments p =
      let no_admin : is_tenant_admin user ≡ false = ground (arith, normal) in rw no_admin refl

  abbrev pub IsShared : Project → List Project → Type 0
  IsShared p ps =
      (p ∈ ps) × (is_project name user.tenant p ≡ true) × (p.departments ≡ user.departments)

  -- The project that is registered has the departments of the user.
  pub register_project-IsShared :
      (t : Table Project) (made : Made Project)
      → register_project around user param name t ≡ some made
      → IsShared made.row made.table.rows
  unfolding new_project old_project
  register_project-IsShared t made e = elim (Option-cases user.tenant) [
    | inl alone ↦ absurd (let clash = sym (register_project_alone t alone) ∙ e in cc)
    | inr (tenant, has) ↦
        let run = sym (register_project_normal tenant t has) ∙ e in
        let (stored, is_stored, rest) =
          bind_inv (store_project tenant (joined_projects user t.rows) t)
            (λ made. some (shared made)) made run in
        let (m, named) =
          mem_made project_id (is_project name user.tenant)
            (new_project around user param name tenant) (old_project around user param)
            (λ i. rw (has, equal_self name, equal_self tenant) refl) (λ q. refl) (λ q h. h)
            (filter (is_project name user.tenant) (joined_projects user t.rows))
            (any_row (is_project name user.tenant) t.rows) t stored
            (λ q m.
              let (within, h) =
                (mem-filter (is_project name user.tenant) q (joined_projects user t.rows)).0 m in
              (joined_within user (λ r. true) normal q t.rows within, h))
            is_stored in
        let is_made : shared stored ≡ made = cc in
        subst (λ m. IsShared m.row m.table.rows) is_made
          (
            mem-put_row project_id stored.row (set_departments user stored.row) stored.table.rows m
                refl,
            named,
            no_admin_departments stored.row,
          )
  ]

  -- A project that is shared by two or more departments of the user is found more than once.
  pub register_project_many :
      (t : Table Project) (p : Project)
      → 2 ≤ length user.departments
      → IsShared p t.rows
      → register_project around user param name t ≡ none
  register_project_many t p many (m, named, of) = elim (Option-cases user.tenant) [
    | inl alone ↦ register_project_alone t alone
    | inr (tenant, has) ↦
        let often = found_often user (is_project name user.tenant) normal p t.rows m of named in
        register_project_normal tenant t has
        ∙ ap (λ o. o >>= λ made. some (shared made))
            (update_or_create_many project_id _ _ _ _ t (omega (arith, many, often)))
  ]
