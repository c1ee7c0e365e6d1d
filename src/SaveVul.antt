-- ===== src/SaveVul.antt =====
-- save_vul of dongtai_engine/signals/handlers/vul_handler.py: a sighting of a taint flow becomes a new
-- vulnerability, or the next sighting of one that is there. The tables that it writes are explicit.
pub mod Save
use dong_tai_server.Prelude.{
  ℕ, suc, ◌+◌, Bool, true, false, not, ◌&&◌, ◌||◌, Option, none, some, List, [], ◌∷◌, ◌++◌, map,
  filter, drop, length, if◌then◌else◌, ◌==◌, number_comparison, text_comparison,
}
use mathlib.Core.Option
use dong_tai_server.Prelude.Dict.{put}
use dong_tai_server.Prelude.Sorting.{sort_down_by}
use dong_tai_server.Prelude.Splits.{split, join, digits}
use dong_tai_server.Prelude.Text.{Text, codes, starts_with}
use dong_tai_server.Compatibility.{Report, method_pool_3_to_2, method_pool_is_3, parse_target_value}
use dong_tai_server.TaintOrigin.{Codecs, Request, Names, names_at, parse_taint_position}
use dong_tai_server.TaintOrigin.Url.{get_original_url}

-- VUL_PENDING, VUL_CONFIRMED and VUL_IGNORE
abbrev pub vul_pending : ℕ
vul_pending = 1

abbrev pub vul_confirmed : ℕ
vul_confirmed = 3

abbrev pub vul_ignore : ℕ
vul_ignore = 7

-- A method pool with the columns of its agent that are read.
pub record VulMeta : Type 0 where
  pub id : ℕ
  pub agent_id : ℕ
  pub project_id : ℕ
  pub project_version_id : ℕ
  pub server_id : ℕ
  pub language : Text
  pub url : Text
  pub uri : Text
  pub http_method : Text
  pub http_scheme : Text
  pub http_protocol : Text
  pub req_header : Text
  pub req_params : Text
  pub req_data : Option Text
  pub res_header : Text
  pub res_body : Text
  pub context_path : Text
  pub clent_ip : Text
  pub create_time : ℕ
  pub method_pool : List Report

-- The other arguments of save_vul. `full_stack` is json.dumps of the stack.
pub record Sighting : Type 0 where
  pub vul_level : ℕ
  pub strategy_id : ℕ
  pub vul_stack : List (List Report)
  pub full_stack : Text
  pub top_stack : Text
  pub bottom_stack : Text
  pub taint_value : Text

pub record Vul : Type 0 where
  pub id : ℕ
  pub strategy_id : ℕ
  pub level_id : ℕ
  pub url : Text
  pub uri : Text
  pub pattern_uri : Text
  pub http_method : Text
  pub http_scheme : Text
  pub http_protocol : Text
  pub req_header : Text
  pub req_params : Text
  pub req_data : Option Text
  pub res_header : Text
  pub res_body : Text
  pub full_stack : Text
  pub top_stack : Text
  pub bottom_stack : Text
  pub taint_value : Text
  pub taint_position : Text
  pub agent_id : ℕ
  pub language : Text
  pub context_path : Text
  pub counts : ℕ
  pub first_time : ℕ
  pub latest_time : ℕ
  pub client_ip : Text
  pub param_name : Text
  pub is_del : ℕ
  pub method_pool_id : ℕ
  pub status_id : ℕ
  pub project_id : ℕ
  pub project_version_id : ℕ
  pub server_id : ℕ

-- What save_vul writes: the vulnerabilities, the method pool of each, the keys that the cache holds, the
-- tasks and signals that it sends, and the log of replays.
pub record Store : Type 0 where
  pub vuls : List Vul
  pub next_id : ℕ
  pub vul_pools : List (ℕ × VulMeta)
  pub held : List Text
  pub project_updates : List ℕ
  pub notified : List ℕ
  pub replay_logs : List (ℕ × Text)

-- An exception, `None`, or the vulnerability.
pub data Saved : Type 0 where
  raised skipped : Saved
  saved : Vul → Saved

-- `d["targetValues"]` of each element
unfoldable pub target_values_of : List Report → Option (List Text)
target_values_of [] = some []
target_values_of (r ∷ rs) =
    let rest = target_values_of rs in
    elim r.target_values [ none ↦ none | some v ↦ Option.map (λ vs. v ∷ vs) rest ]

abbrev pub first_is_3 : List Report → Bool
first_is_3 [] = false
first_is_3 (r ∷ rs) = method_pool_is_3 r

unfoldable pub parse_target_values_from_vul_stack : List (List Report) → Option (List Text)
unfolding target_values_of
parse_target_values_from_vul_stack [] = none
parse_target_values_from_vul_stack (stack ∷ stacks) =
    Option.map (λ vs. if first_is_3 stack then map parse_target_value vs else vs)
      (target_values_of stack)

abbrev pub pattern_method : Text
pattern_method = codes "org.springframework.web.util.pattern.PathPattern.getPatternString()"

-- `method_pool["targetValues"]`, converted first if the key is not there.
unfoldable pub pattern_of : Report → Option Text
pattern_of r = elim r.target_values [
  | some v ↦ some v
  | none ↦ elim (method_pool_3_to_2 r) [ none ↦ none | some r' ↦ r'.target_values ]
]

-- get_real_url: the last call with the signature; `some []` if there is none.
unfoldable pub get_real_url : List Report → Option Text
unfolding pattern_of
get_real_url pools = last_pattern pools (some [])
  where
    last_pattern : List Report → Option Text → Option Text
    last_pattern [] found = found
    last_pattern (r ∷ rs) found =
        last_pattern rs (if r.signature == pattern_method then pattern_of r else found)

unfoldable pub request_of : VulMeta → Request
request_of vul_meta = record {
  req_params = some vul_meta.req_params;
  req_data = vul_meta.req_data;
  req_header = some vul_meta.req_header;
  uri = some vul_meta.uri;
}
