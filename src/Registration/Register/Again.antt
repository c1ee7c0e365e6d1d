-- ===== src/Registration/Register/Again.antt =====
-- What a registration of the admin of a tenant leaves in the tables, and what the next one for the same
-- project, version and token does there.
mod Projects
mod Rest
mod Servers
mod Settles
pub mod Repeats
use dong_tai_server.Prelude.{
  ℕ, ◌≡◌, refl, sym, ◌∙◌, ap, subst, Option, none, some, List, [], ◌∷◌, ◌⊎◌, inl, inr,
}
use dong_tai_server.Prelude.Text.{Text}
use dong_tai_server.Registration.{User, Param, Outside, env_of}
use dong_tai_server.Registration.Visible.{level_tenant}
use dong_tai_server.Registration.Rows.{port_of}
use dong_tai_server.Registration.Register.{
  Db, register, Response, success, failed, bad_parameters, responded, post,
}
use dong_tai_server.Registration.Register.Endpoint.{post_inv, post_sent}
use dong_tai_server.Registration.Register.Again.Settles.{AreProper}
use dong_tai_server.Registration.Register.Again.Repeats.{HasSameRows, register_again}

-- On tables with proper ids, let the admin of a tenant register with a project name and a version name that
-- are not empty, and let the registration succeed with an agent id. Then the next registration of this user
-- with the same names, token and agent version, whose env can be decoded and whose port is a number (what
-- else it sends may differ), succeeds with the same agent id, and leaves the same rows, by their ids, in all
-- four tables.
pub post_again :
    (around around' : Outside) (user : User) (param param' : Param) (b c : ℕ) (s t : Text)
    (tenant : ℕ) (db db1 : Db) (id : ℕ) (env : Text) (port : ℕ)
    → user.level ≡ level_tenant
    → user.tenant ≡ some tenant
    → AreProper db
    → param.project_name ≡ some (b ∷ s)
    → param.project_version ≡ some (c ∷ t)
    → param'.project_name ≡ some (b ∷ s)
    → param'.project_version ≡ some (c ∷ t)
    → param'.name ≡ param.name
    → param'.version ≡ param.version
    → env_of around' param'.server_env ≡ some env
    → port_of param'.server_port ≡ some port
    → post around user param db ≡ (success id, db1)
    → (db2 : Db) × (post around' user param' db1 ≡ (success id, db2)) × HasSameRows db1 db2
post_again around around' user param param' b c s t tenant db db1 id env port admin has proper n v
      n' v' same_token same_version is_env is_port first =
    let (x, token, y, version, is_token, is_version_, run) =
      post_inv around user param db db1 id first in
    let (db2, again, rows) =
      register_again around around' user param param' (x ∷ token) (y ∷ version) b c s t tenant db
        db1 id env port admin has proper n v n' v' is_env is_port run in
    (
      db2,
      post_sent around' user param' db1 x y token version (same_token ∙ is_token)
            (same_version ∙ is_version_)
          ∙ ap (responded db1) again,
      rows,
    )
