-- ===== src/HeaderRules.antt =====
-- dongtai_engine/plugins/strategy_headers.py and is_strategy_enable of dongtai_engine/plugins: which security
-- headers a response lacks, and the vulnerabilities that are written for them.
pub mod Checks
pub mod Cases
pub mod Recorded
pub mod Lasting
pub mod Complete
pub mod OnePage
pub mod Content
mod Tests
use dong_tai_server.Prelude.{
  ℕ, suc, ◌+◌, Bool, true, false, not, ◌&&◌, ◌||◌, Option, none, some, List, [], ◌∷◌, ◌++◌, map,
  filter, drop, length, contains, ltb, if◌then◌else◌, ◌==◌, number_comparison, text_comparison,
}
use dong_tai_server.Prelude.Sorting.{sort_down_by}
use dong_tai_server.Prelude.Splits.{split, digits, is_digit, number_of}
use dong_tai_server.Prelude.Text.{Text, codes, starts_with}
use dong_tai_server.SaveVul.{VulMeta, Vul, Store, vul_confirmed}
use dong_tai_server.SaveVul.Save.{save_row, is_held, first_vul}

-- The columns of a strategy that are read here.
pub record Rule : Type 0 where
  pub id : ℕ
  pub vul_type : Text
  pub state : Text
  pub user_id : ℕ
  pub level : ℕ

-- The method pool, with the user of its agent and its request header in plain text.
pub record ReportedPool : Type 0 where
  pub meta : VulMeta
  pub user_id : ℕ
  pub req_header_fs : Text

-- What http.client makes of a response: a BadStatusLine, or its getheader.
pub data Parsed : Type 0 where
  bad_status_line : Parsed
  response : (Text → Option Text) → Parsed

-- Code from elsewhere, and what is looked up: the parser of responses, `strip`, the id of the admin, the
-- strategies, the content of the scan template of a project (`none` if one of them is not there), and the
-- project version of an agent.
pub record Context : Type 0 where
  pub parse_response : Text → Parsed
  pub strip : Text → Text
  pub admin_id : ℕ
  pub rules : List Rule
  pub scan_content : ℕ → Option Text
  pub version_of : ℕ → ℕ

-- Rows of IastHeaderVulnerability and of IastHeaderVulnerabilityDetail.
pub record HeaderVul : Type 0 where
  pub id : ℕ
  pub project_id : ℕ
  pub project_version_id : ℕ
  pub url : Text
  pub vul_id : ℕ

pub record HeaderDetail : Type 0 where
  pub agent_id : ℕ
  pub method_pool_id : ℕ
  pub header_vul_id : ℕ
  pub req_header : Text
  pub res_header : Text

pub record Findings : Type 0 where
  pub store : Store
  pub headers : List HeaderVul
  pub next_header : ℕ
  pub details : List HeaderDetail

-- The enabled strategy of the type, of the admin or of the user.
pub rule_of : Context → Text → ℕ → List Rule → Option Rule
rule_of context vul_type user_id [] = none
rule_of context vul_type user_id (r ∷ rules) =
    let rest = rule_of context vul_type user_id rules in
    if r.vul_type == vul_type
      && r.state == codes "enable"
      && (r.user_id == context.admin_id || r.user_id == user_id)
    then some r
    else rest

pub is_strategy_enable : Context → Text → ReportedPool → Bool
unfolding rule_of
is_strategy_enable context vul_type p = elim (rule_of context vul_type p.user_id context.rules) [
  | none ↦ false
  | some r ↦ elim (context.scan_content p.meta.project_id) [
    | none ↦ false
    | some content ↦ contains (split b',' content) (digits r.id)
  ]
]

-- The query for the vulnerability goes by the version that the agent has now.
abbrev pub is_of_rule : Context → ℕ → ℕ → Vul → Bool
is_of_rule context rule_id version v =
    v.strategy_id == rule_id
    && v.uri == []
    && v.http_method == []
    && context.version_of v.agent_id == version

-- The columns of update_fields; the language is set on the object and not saved.
pub seen_again : ReportedPool → Text → Text → ℕ → Vul → Vul
seen_again p position value now v = record v {
  url = [];
  req_header = p.meta.req_header;
  req_params = p.meta.req_params;
  req_data = p.meta.req_data;
  res_header = p.meta.res_header;
  res_body = p.meta.res_body;
  taint_value = value;
  taint_position = position;
  context_path = p.meta.context_path;
  client_ip = p.meta.clent_ip;
  counts = v.counts + 1;
  latest_time = now;
  method_pool_id = p.meta.id;
}

pub new_vul : Context → ReportedPool → Rule → Text → Text → ℕ → ℕ → Vul
new_vul context p r position value now id = record {
  id = id;
  strategy_id = r.id;
  level_id = r.level;
  url = [];
  uri = [];
  pattern_uri = [];
  http_method = [];
  http_scheme = p.meta.http_scheme;
  http_protocol = p.meta.http_protocol;
  req_header = p.meta.req_header;
  req_params = p.meta.req_params;
  req_data = p.meta.req_data;
  res_header = p.meta.res_header;
  res_body = p.meta.res_body;
  full_stack = [];
  top_stack = [];
  bottom_stack = [];
  taint_value = value;
  taint_position = position;
  agent_id = p.meta.agent_id;
  language = p.meta.language;
  context_path = p.meta.context_path;
  counts = 1;
  first_time = p.meta.create_time;
  latest_time = now;
  client_ip = p.meta.clent_ip;
  param_name = [];
  is_del = 0;
  method_pool_id = p.meta.id;
  status_id = vul_confirmed;
  project_id = p.meta.project_id;
  project_version_id = context.version_of p.meta.agent_id;
  server_id = p.meta.server_id;
}

-- `if vul: … else: …`: the vulnerability, and the store that it is written to.
pub put_vul : Context → ReportedPool → Rule → Text → Text → ℕ → Store → Vul × Store
unfolding seen_again new_vul
put_vul context p r position value now st =
    elim (first_vul (
      sort_down_by (λ v. v.latest_time)
        (filter (is_of_rule context r.id (context.version_of p.meta.agent_id)) st.vuls))) [
          | some v ↦
              let row = seen_again p position value now v in
              (row, record st { vuls = save_row row st.vuls })
          | none ↦
              let row = new_vul context p r position value now st.next_id in
              (
                row,
                record st {
                  vuls = st.vuls ++ row ∷ [];
                  next_id = suc st.next_id;
                  notified = st.notified ++ st.next_id ∷ [];
                },
              )
        ]

abbrev pub is_header : ℕ → ℕ → Text → ℕ → HeaderVul → Bool
is_header project_id version url vul_id h =
    h.project_id == project_id
    && h.project_version_id == version
    && h.url == url
    && h.vul_id == vul_id

abbrev pub any_of : {A : Type 0} → (A → Bool) → List A → Bool
any_of test [] = false
any_of test (x ∷ xs) = test x || any_of test xs

abbrev pub is_detail : ℕ → ℕ → HeaderDetail → Bool
is_detail agent_id header_vul_id d = d.agent_id == agent_id && d.header_vul_id == header_vul_id

-- From the test for the header on. A detail is written for a header that is new.
pub put_header : Context → ReportedPool → Vul → Findings → Findings
put_header context p v t =
    let version = context.version_of p.meta.agent_id in
    if any_of (is_header p.meta.project_id version p.meta.uri v.id) t.headers then t else record t {
      headers =
          t.headers
          ++ record {
            id = t.next_header;
            project_id = p.meta.project_id;
            project_version_id = version;
            url = p.meta.uri;
            vul_id = v.id;
          }
            ∷ [];
      next_header = suc t.next_header;
      details =
          if any_of (is_detail p.meta.agent_id t.next_header) t.details
          then t.details
          else t.details
            ++ record {
              agent_id = p.meta.agent_id;
              method_pool_id = p.meta.id;
              header_vul_id = t.next_header;
              req_header = p.req_header_fs;
              res_header = p.meta.res_header;
            }
              ∷ [];
    }

abbrev pub lock_key : Context → ReportedPool → Rule → Text
lock_key context p r =
    codes "vul_save-"
    ++ digits r.id
    ++ b'-' ∷ b'-' ∷ p.meta.http_method
    ++ b'-' ∷ digits (context.version_of p.meta.agent_id)

-- `save_vul`. The key of the cache is set and deleted within the call.
pub record_vul : Context → ℕ → Text → Text → Text → ReportedPool → Findings → Findings
unfolding rule_of is_strategy_enable put_vul put_header
record_vul context now vul_type position value p t =
    if is_strategy_enable context vul_type p
    then elim (rule_of context vul_type p.user_id context.rules) [
      | none ↦ t
      | some r ↦
          if is_held (lock_key context p r) t.store.held
          then t
          else let started = record t.store {
            project_updates = t.store.project_updates ++ p.meta.project_id ∷ [];
          } in
            let (v, st) = put_vul context p r position value now started in
            put_header context p v (record t { store = st })
    ]
    else t
