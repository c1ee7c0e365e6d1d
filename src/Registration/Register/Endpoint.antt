-- ===== src/Registration/Register/Endpoint.antt =====
-- The endpoint of registrations around its transaction.
use dong_tai_server.Prelude.{ℕ, ◌≡◌, refl, sym, ◌∙◌, ap, Option, none, some, [], ◌∷◌, ◌⊎◌, inl, inr}
use dong_tai_server.Prelude.Text.{Text}
use dong_tai_server.Registration.{User, Param, Outside}
use dong_tai_server.Registration.Register.{Db, register, success, responded, post}

sent_cases :
    (o : Option Text) → (o ≡ none) ⊎ ((o ≡ some []) ⊎ ((c : ℕ) × (s : Text) × (o ≡ some (c ∷ s))))
sent_cases none = inl refl
sent_cases (some []) = inr (inl refl)
sent_cases (some (c ∷ s)) = inr (inr (c, s, refl))

pub responded_inv :
    (db db1 : Db) (o : Option (ℕ × Db)) (id : ℕ)
    → responded db o ≡ (success id, db1)
    → o ≡ some (id, db1)
responded_inv db db1 none id e = absurd (let clash = ap (λ r. r.0) e in cc)
responded_inv db db1 (some (i, db')) id e =
    let same_id : i ≡ id = let f = ap (λ r. r.0) e in cc in rw (same_id, ap (λ r. r.1) e) refl

pub post_sent :
    (around : Outside) (user : User) (param : Param) (db : Db) (b c : ℕ) (token version : Text)
    → param.name ≡ some (b ∷ token)
    → param.version ≡ some (c ∷ version)
    → post around user param db
      ≡ responded db (register around user param (b ∷ token) (c ∷ version) db)
unfolding post
post_sent around user param db b c token version n v = rw (n, v, post) refl

-- A registration that succeeds has sent a token and a version.
pub post_inv :
    (around : Outside) (user : User) (param : Param) (db db1 : Db) (id : ℕ)
    → post around user param db ≡ (success id, db1)
    → (b : ℕ) × (token : Text) × (c : ℕ) × (version : Text) × (param.name ≡ some (b ∷ token))
      × (param.version ≡ some (c ∷ version))
      × (register around user param (b ∷ token) (c ∷ version) db ≡ some (id, db1))
unfolding post
post_inv around user param db db1 id e = elim (sent_cases param.name) [
  | inl n ↦ absurd (let clash = ap (λ r. r.0) (rw (n, post) at e) in cc)
  | inr (inl n) ↦ absurd (let clash = ap (λ r. r.0) (rw (n, post) at e) in cc)
  | inr (inr (b, token, n)) ↦ elim (sent_cases param.version) [
    | inl v ↦ absurd (let clash = ap (λ r. r.0) (rw (n, v, post) at e) in cc)
    | inr (inl v) ↦ absurd (let clash = ap (λ r. r.0) (rw (n, v, post) at e) in cc)
    | inr (inr (c, version, v)) ↦ (
      b,
      token,
      c,
      version,
      n,
      v,
      responded_inv db db1 (register around user param (b ∷ token) (c ∷ version) db) id
          (sym (post_sent around user param db b c token version n v) ∙ e),
    )
  ]
]
