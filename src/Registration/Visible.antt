-- ===== src/Registration/Visible.antt =====
-- dongtai_common/models/user.py: the projects that a user sees.
use dong_tai_server.Prelude.{
  ℕ, Bool, false, ◌&&◌, Option, none, some, List, [], ◌∷◌, ◌++◌, map, filter, contains, length,
  if◌then◌else◌, ◌==◌, number_comparison, text_comparison,
}
use dong_tai_server.Prelude.Text.{Text}
use dong_tai_server.Registration.{User, Project}

abbrev pub level_tenant : ℕ
level_tenant = 100

abbrev pub level_super : ℕ
level_super = 200

abbrev pub is_tenant_admin : User → Bool
is_tenant_admin user = user.level == level_tenant

abbrev pub is_of : Option ℕ → ℕ → Bool
is_of none tenant = false
is_of (some t) tenant = t == tenant

-- get_departments of a user that is no admin of a tenant
abbrev pub departments_of : User → List ℕ
departments_of user = if user.level == level_super then [] else user.departments

-- How often the join yields a project: once for each of its departments that the user is in, and once
-- if it has none and is of the user's tenant.
abbrev pub seen_as : User → Project → List Project
seen_as user p =
    map (λ d. p) (filter (λ d. contains (departments_of user) d) p.departments)
    ++ (if length p.departments == 0 && is_of user.tenant p.tenant then p ∷ [] else [])

unfoldable pub joined_projects : User → List Project → List Project
joined_projects user [] = []
joined_projects user (p ∷ ps) = seen_as user p ++ joined_projects user ps

-- For the admin of no tenant, `self.tenant.projects` raises.
unfoldable pub get_projects : User → List Project → Option (List Project)
unfolding joined_projects
get_projects user projects =
    if is_tenant_admin user
    then elim user.tenant [ none ↦ none | some t ↦ some (filter (λ p. p.tenant == t) projects) ]
    else some (joined_projects user projects)

abbrev pub is_project : Text → Option ℕ → Project → Bool
is_project name tenant p = p.name == name && is_of tenant p.tenant
