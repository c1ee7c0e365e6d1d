-- ===== src/HeaderRules/Content/Kept.antt =====
-- What every record_vul keeps, the checks of a method pool keep.
use dong_tai_server.Prelude.{
  ℕ, Bool, true, false, ◌&&◌, ◌||◌, none, some, List, [], ◌∷◌, filter, length, if◌then◌else◌, ◌==◌,
  number_comparison,
}
use dong_tai_server.Prelude.Splits.{join}
use dong_tai_server.Prelude.Text.{Text, codes}
use dong_tai_server.HeaderRules.{ReportedPool, Context, Findings, record_vul}
use dong_tai_server.HeaderRules.Checks.{check_response_header}
use dong_tai_server.HeaderRules.OnePage.{
  HasOneEach, record_vul-HasOneEach, check_response_header-HasOneEach,
}
use dong_tai_server.HeaderRules.Content.{
  ContentRule, failed, no_match, matched, Scanners, in_body, not_empty, needed_check_data,
  search_values, query_body, check_rule, check_content_rules, card_values, search_cards,
  search_id_card_leak, check_response_content, check_response,
}

module _ (context : Context) (scanners : Scanners) (now : ℕ) (p : ReportedPool)
    (P : Findings → Type 0)
    (kept : (vul_type position value : Text) (t : Findings)
      → P t
      → P (record_vul context now vul_type position value p t)) where
  one_of : (b : Bool) (t u : Findings) → P t → P u → P (if b then t else u)
  one_of true t u h k = h
  one_of false t u h k = k

  search_values_keep :
      (rule : ContentRule) (values : List (Text × Text)) (t : Findings)
      → P t
      → P (search_values context scanners now p rule values t)
  unfolding search_values
  search_values_keep rule [] t h = h
  search_values_keep rule ((key, value) ∷ values) t h =
      elim (scanners.search rule.pattern value)
        as (λ m. P (elim m [
          | failed ↦ search_values context scanners now p rule values t
          | no_match ↦ search_values context scanners now p rule values t
          | matched whole has_groups ↦ search_values context scanners now p rule values (
              if has_groups || not_empty whole
              then record_vul context now rule.vul_type key whole p t
              else t)
        ])) [
          | failed ↦ search_values_keep rule values t h
          | no_match ↦ search_values_keep rule values t h
          | matched whole has_groups ↦
              search_values_keep rule values _
                (one_of (has_groups || not_empty whole) _ t (kept rule.vul_type key whole t h) h)
        ]

  query_body_keeps :
      (rule : ContentRule) (t : Findings) → P t → P (query_body context scanners now p rule t)
  unfolding query_body
  query_body_keeps rule t h =
      elim (scanners.query rule.pattern p.meta.res_body)
        as (λ o. P (elim o [
          | none ↦ t
          | some [] ↦ t
          | some (r ∷ results) ↦
              record_vul context now rule.vul_type in_body (join b' ' (r ∷ results)) p t
        ])) [
          | none ↦ h
          | some [] ↦ h
          | some (r ∷ results) ↦ kept rule.vul_type in_body (join b' ' (r ∷ results)) t h
        ]

  check_rule_keeps :
      (rule : ContentRule) (t : Findings) → P t → P (check_rule context scanners now p rule t)
  unfolding check_rule
  check_rule_keeps rule t h =
      one_of (rule.pattern_type == 1) _ _ (search_values_keep rule (needed_check_data p) t h) (
        one_of (scanners.is_json p.meta.res_body && rule.pattern_type == 2) _ t
          (query_body_keeps rule t h) h)

  check_content_rules_keep :
      (rules : List ContentRule) (t : Findings)
      → P t
      → P (check_content_rules context scanners now p rules t)
  unfolding check_content_rules
  check_content_rules_keep [] t h = h
  check_content_rules_keep (rule ∷ rules) t h =
      check_content_rules_keep rules (check_rule context scanners now p rule t)
        (check_rule_keeps rule t h)

  search_cards_keep :
      (values : List (Text × Text)) (t : Findings)
      → P t
      → P (search_cards context scanners now p values t)
  unfolding search_cards
  search_cards_keep [] t h = h
  search_cards_keep ((key, value) ∷ values) t h =
      elim (scanners.find_card value)
        as (λ o. P (elim o [
          | some (some card) ↦ search_cards context scanners now p values (
              if scanners.is_valid card
              then record_vul context now (codes "ID Number Leak") key card p t
              else t)
          | _ ↦ search_cards context scanners now p values t
        ])) [
          | some (some card) ↦
              search_cards_keep values _
                (one_of (scanners.is_valid card) _ t (kept (codes "ID Number Leak") key card t h) h)
          | some none ↦ search_cards_keep values t h
          | none ↦ search_cards_keep values t h
        ]

  pub check_response_content_keeps :
      (rules : List ContentRule) (t : Findings)
      → P t
      → P (check_response_content context scanners now p rules t)
  unfolding check_response_content search_id_card_leak
  check_response_content_keeps rules t h =
      let enabled = filter (λ r. r.status == 1) rules in
      one_of (length enabled == 0) t _ h
        (search_cards_keep (card_values p) _ (check_content_rules_keep enabled t h))

-- If a vulnerability has at most one header row for a page of a version, it has so after the headers and the
-- content of a method pool have been checked, whatever the response, the rules and the scanners are.
pub check_response-HasOneEach :
    (context : Context) (scanners : Scanners) (now : ℕ) (p : ReportedPool)
    (rules : List ContentRule) (t : Findings)
    → HasOneEach t.headers
    → HasOneEach (check_response context scanners now p rules t).headers
unfolding check_response
check_response-HasOneEach context scanners now p rules t one =
    check_response_content_keeps context scanners now p (λ u. HasOneEach u.headers)
      (λ vul_type position value u h.
        record_vul-HasOneEach context now p vul_type position value u h)
      rules (check_response_header context now p t)
      (check_response_header-HasOneEach context now p t one)
