-- ===== src/HeaderRules/Checks/Unterminated.antt =====
-- The expression for max-age asks for a semicolon.
use dong_tai_server.Prelude.{
  ℕ, zero, suc, ◌≡◌, ◌≢◌, refl, ◌∙◌, ap, ltb, false, Option, none, some, [], ◌∷◌, drop, length, All,
  inl, inr, Bool-cases, ◌==◌, number_comparison, nat_beq_iff,
}
use dong_tai_server.Prelude.Splits.{is_digit}
use dong_tai_server.Prelude.Text.{Text, codes, starts_with}
use dong_tai_server.HeaderRules.Checks.{
  digits_until, max_age_name, max_age_of, half_a_year, check_strict_transport_security,
}

abbrev pub HasNoSemicolon : Text → Type 0
HasNoSemicolon s = All (λ c. c ≢ b';') s

digits_until-none : (s : Text) → HasNoSemicolon s → digits_until s ≡ none
unfolding digits_until
digits_until-none [] h = refl
digits_until-none (c ∷ s) (n, h) =
    let rest = digits_until-none s h in
    elim (Bool-cases (c == b';')) [
      | inl e ↦ absurd (n ((nat_beq_iff c b';').0 e))
      | inr e ↦ elim (Bool-cases (is_digit c)) [
        | inl d ↦ rw (e, d, rest) refl
        | inr d ↦ rw (e, d) refl
      ]
    ]

drop-HasNoSemicolon : (n : ℕ) (s : Text) → HasNoSemicolon s → HasNoSemicolon (drop n s)
drop-HasNoSemicolon zero s h = h
drop-HasNoSemicolon (suc n) [] h = tt
drop-HasNoSemicolon (suc n) (c ∷ s) (m, h) = drop-HasNoSemicolon n s h

max_age_of-none : (header : Text) → HasNoSemicolon header → max_age_of header ≡ none
unfolding max_age_of
max_age_of-none header h =
    let unread =
      digits_until-none (drop (length max_age_name) header)
        (drop-HasNoSemicolon (length max_age_name) header h) in
    elim (Bool-cases (starts_with header max_age_name)) [
      | inl e ↦ rw (e, unread) refl
      | inr e ↦ rw e refl
    ]

-- A Strict-Transport-Security header without a semicolon passes the check, however short its max-age is.
pub check_strict_transport_security_misses :
    (getheader : Text → Option Text) (header : Text)
    → getheader (codes "Strict-Transport-Security") ≡ some header
    → HasNoSemicolon header
    → check_strict_transport_security getheader ≡ false
unfolding check_strict_transport_security
check_strict_transport_security_misses getheader header e h =
    ap
      (λ o. elim o [
        | none ↦ false
        | some s ↦ elim (max_age_of s) [ none ↦ false | some n ↦ ltb n half_a_year ]
      ])
      e
    ∙ ap (λ o. elim o [ none ↦ false | some n ↦ ltb n half_a_year ]) (max_age_of-none header h)
