-- ===== src/HeaderRules/Content.antt =====
-- dongtai_engine/plugins/strategy_sensitive.py: the rules for the content of a request and its response, and
-- both checks of a method pool in a row, as search_vul_from_method_pool of dongtai_engine/tasks.py runs them.
pub mod Kept
use dong_tai_server.Prelude.{
  ℕ, Bool, true, false, not, ◌&&◌, ◌||◌, Option, none, some, List, [], ◌∷◌, ◌++◌, filter, length,
  if◌then◌else◌, ◌==◌, number_comparison,
}
use dong_tai_server.Prelude.Splits.{join}
use dong_tai_server.Prelude.Text.{Text, codes}
use dong_tai_server.HeaderRules.{ReportedPool, Context, Findings, record_vul}
use dong_tai_server.HeaderRules.Checks.{check_response_header}

pub record ContentRule : Type 0 where
  pub pattern_type : ℕ
  pub pattern : Text
  pub status : ℕ
  pub vul_type : Text

-- What a search with a regular expression comes to: an error, no match, or the text of the match and whether
-- the expression has groups.
pub data Match : Type 0 where
  failed no_match : Match
  matched : Text → Bool → Match

-- Code from elsewhere: re2, whether json.loads gives something that is true, jq (`none` is an error), the
-- first group of the expression for the numbers of identity cards, if there is a match (`some none`: the group
-- took no part in it), and is_valid of id_validator.
pub record Scanners : Type 0 where
  pub search : Text → Text → Match
  pub is_json : Text → Bool
  pub query : Text → Text → Option (List Text)
  pub find_card : Text → Option (Option Text)
  pub is_valid : Text → Bool

abbrev pub in_body : Text
in_body = codes "HTTP Response Body"

abbrev pub in_params : Text
in_params = codes "HTTP Request Params"

abbrev pub in_data : Text
in_data = codes "HTTP Request Data"

-- A value under its key, if it is not empty.
abbrev pub nonempty_value : Text → Text → List (Text × Text)
nonempty_value key [] = []
nonempty_value key (c ∷ s) = (key, c ∷ s) ∷ []

abbrev pub optional_value :
    (Text → Text → List (Text × Text)) → Text → Option Text → List (Text × Text)
optional_value put key none = []
optional_value put key (some s) = put key s

abbrev pub always_value : Text → Text → List (Text × Text)
always_value key s = (key, s) ∷ []

abbrev pub not_empty : Text → Bool
not_empty s = not (length s == 0)

pub needed_check_data : ReportedPool → List (Text × Text)
needed_check_data p =
    nonempty_value in_body p.meta.res_body
    ++ nonempty_value in_params p.meta.req_params
    ++ optional_value nonempty_value in_data p.meta.req_data

-- The values of search_id_card_leak, the empty ones included
abbrev pub card_values : ReportedPool → List (Text × Text)
card_values p =
    always_value in_body p.meta.res_body
    ++ always_value in_params p.meta.req_params
    ++ optional_value always_value in_data p.meta.req_data

module _ (context : Context) (scanners : Scanners) (now : ℕ) (p : ReportedPool) where
  -- `result and (result.groups() or result.group())`
  pub search_values : ContentRule → List (Text × Text) → Findings → Findings
  search_values rule [] t = t
  search_values rule ((key, value) ∷ values) t = elim (scanners.search rule.pattern value) [
    | failed ↦ search_values rule values t
    | no_match ↦ search_values rule values t
    | matched whole has_groups ↦
        let found = record_vul context now rule.vul_type key whole p t in
        search_values rule values (if has_groups || not_empty whole then found else t)
  ]

  -- A pattern for jq; an error of it ends the rule, and `if result` is a list that is not empty.
  pub query_body : ContentRule → Findings → Findings
  query_body rule t = elim (scanners.query rule.pattern p.meta.res_body) [
    | none ↦ t
    | some [] ↦ t
    | some (r ∷ results) ↦
        record_vul context now rule.vul_type in_body (join b' ' (r ∷ results)) p t
  ]

  pub check_rule : ContentRule → Findings → Findings
  unfolding search_values query_body needed_check_data
  check_rule rule t =
      if rule.pattern_type == 1
      then search_values rule (needed_check_data p) t
      else if scanners.is_json p.meta.res_body && rule.pattern_type == 2
      then query_body rule t
      else t

  pub check_content_rules : List ContentRule → Findings → Findings
  unfolding check_rule
  check_content_rules [] t = t
  check_content_rules (rule ∷ rules) t = check_content_rules rules (check_rule rule t)

  -- The loop of search_id_card_leak; check_id_card of None is false.
  pub search_cards : List (Text × Text) → Findings → Findings
  search_cards [] t = t
  search_cards ((key, value) ∷ values) t = elim (scanners.find_card value) [
    | some (some card) ↦
        let found = record_vul context now (codes "ID Number Leak") key card p t in
        search_cards values (if scanners.is_valid card then found else t)
    | _ ↦ search_cards values t
  ]

  pub search_id_card_leak : Findings → Findings
  unfolding search_cards
  search_id_card_leak t = search_cards (card_values p) t

  -- Without an enabled rule it returns before the search for identity cards.
  pub check_response_content : List ContentRule → Findings → Findings
  unfolding check_content_rules search_id_card_leak
  check_response_content rules t =
      let enabled = filter (λ r. r.status == 1) rules in
      if length enabled == 0 then t else search_id_card_leak (check_content_rules enabled t)

  -- Both checks, in the order of the task.
  unfoldable pub check_response : List ContentRule → Findings → Findings
  unfolding check_response_content
  check_response rules t = check_response_content rules (check_response_header context now p t)
