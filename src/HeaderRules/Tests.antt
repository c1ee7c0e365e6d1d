-- ===== src/HeaderRules/Tests.antt =====
-- The header rules on a small response.
use dong_tai_server.Prelude.{
  ◌≡◌, refl, ◌∈◌, inl, inr, true, false, Option, none, some, [], ◌∷◌, arith, if◌then◌else◌, ◌==◌,
  text_comparison,
}
use dong_tai_server.Prelude.Splits.{digits, digits_from}
use dong_tai_server.Prelude.Text.{Text, codes}
use dong_tai_server.SaveVul.{Vul}
use dong_tai_server.SaveVul.Save.Sample.{vul_meta}
use dong_tai_server.HeaderRules.{
  Rule, ReportedPool, response, Context, Findings, any_of, rule_of, is_strategy_enable,
}
use dong_tai_server.HeaderRules.Checks.{
  no_frame_options, in_header, check_strict_transport_security, failing,
}
use dong_tai_server.HeaderRules.Checks.Unterminated.{check_strict_transport_security_misses}
use dong_tai_server.HeaderRules.Recorded.{is_here}
use dong_tai_server.HeaderRules.Complete.{check_response_notes}
use dong_tai_server.HeaderRules.OnePage.{HasOneEach}
use dong_tai_server.HeaderRules.Content.{ContentRule, Scanners, matched, check_response}
use dong_tai_server.HeaderRules.Content.Kept.{check_response-HasOneEach}

abbrev no_headers : Text → Option Text
no_headers name = none

abbrev rule : Rule
rule = record {
  id = 7;
  vul_type = no_frame_options;
  state = codes "enable";
  user_id = 1;
  level = 2;
}

abbrev context : Context
context = record {
  parse_response = λ s. response no_headers;
  strip = λ s. s;
  admin_id = 1;
  rules = rule ∷ [];
  scan_content = λ i. some (codes "3,7");
  version_of = λ i. 5;
}

abbrev pool : ReportedPool
pool = record { meta = vul_meta; user_id = 4; req_header_fs = codes "GET / HTTP/1.1" }

abbrev empty : Findings
empty = record {
  store = record {
    vuls = [];
    next_id = 1;
    vul_pools = [];
    held = [];
    project_updates = [];
    notified = [];
    replay_logs = [];
  };
  headers = [];
  next_header = 1;
  details = [];
}

abbrev scanners : Scanners
scanners = record {
  search = λ pattern value. matched value false;
  is_json = λ s. false;
  query = λ pattern body. none;
  find_card = λ s. some (some s);
  is_valid = λ s. true;
}

abbrev content_rule : ContentRule
content_rule = record {
  pattern_type = 1;
  pattern = codes ".";
  status = 1;
  vul_type = no_frame_options;
}

check_response-HasOneEach_example :
    HasOneEach (check_response context scanners 9 pool (content_rule ∷ []) empty).headers
check_response-HasOneEach_example =
    check_response-HasOneEach context scanners 9 pool (content_rule ∷ []) empty
      (λ a b c d. omega arith)

check_response_notes_example :
    (v : Vul) × (v ∈ (check_response context scanners 9 pool (content_rule ∷ []) empty).store.vuls)
    × (v.strategy_id ≡ 7)
    × (any_of
          (is_here context pool v.id)
          (check_response context scanners 9 pool (content_rule ∷ []) empty).headers
        ≡ true)
unfolding failing is_strategy_enable rule_of digits digits_from
check_response_notes_example =
    check_response_notes context scanners 9 pool (content_rule ∷ []) empty no_headers
      no_frame_options in_header rule tt refl (inr (inr (inl refl))) refl refl refl

abbrev one_second : Text → Option Text
one_second name =
    if name == codes "Strict-Transport-Security" then some (codes "max-age=1") else none

check_strict_transport_security_misses_example : check_strict_transport_security one_second ≡ false
check_strict_transport_security_misses_example =
    check_strict_transport_security_misses one_second (codes "max-age=1") refl (
      omega arith,
      (
        omega arith,
        (
          omega arith,
          (
            omega arith,
            (omega arith, (omega arith, (omega arith, (omega arith, (omega arith, tt))))),
          ),
        ),
      ),
    )
