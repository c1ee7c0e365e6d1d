-- ===== src/SaveVul/Save.antt =====
-- save_vul itself, from the names and the pattern of the URL on to the log of the replay.
pub mod Recorded
pub mod Ids
pub mod OneRow
pub mod Sample
mod Tests
use dong_tai_server.Prelude.{
  ℕ, suc, ◌+◌, Bool, true, false, not, ◌&&◌, ◌||◌, Option, none, some, List, [], ◌∷◌, ◌++◌, map,
  filter, drop, length, if◌then◌else◌, ◌==◌, number_comparison, text_comparison,
}
use dong_tai_server.Prelude.Dict.{put}
use dong_tai_server.Prelude.Sorting.{sort_down_by}
use dong_tai_server.Prelude.Splits.{split, join, digits}
use dong_tai_server.Prelude.Text.{Text, codes, starts_with}
use dong_tai_server.TaintOrigin.{Codecs, Names, names_at, parse_taint_position}
use dong_tai_server.TaintOrigin.Url.{get_original_url}
use dong_tai_server.SaveVul.{
  VulMeta, Sighting, Vul, Store, Saved, raised, skipped, saved, vul_pending, vul_ignore, request_of,
  get_real_url, parse_target_values_from_vul_stack,
}

-- What the queries of save_vul compare.
pub record VulKey : Type 0 where
  pub strategy_id : ℕ
  pub pattern_uri : Text
  pub http_method : Text
  pub project_version_id : ℕ
  pub param_name : Text

abbrev pub has_key : VulKey → Vul → Bool
has_key k v =
    v.strategy_id == k.strategy_id
    && v.pattern_uri == k.pattern_uri
    && v.http_method == k.http_method
    && v.project_version_id == k.project_version_id
    && v.param_name == k.param_name

-- The query for an ignored vulnerability goes by the project, whatever the version.
unfoldable pub is_ignored : VulKey → ℕ → Vul → Bool
is_ignored k project_id v =
    v.strategy_id == k.strategy_id
    && v.pattern_uri == k.pattern_uri
    && v.http_method == k.http_method
    && v.project_id == project_id
    && v.param_name == k.param_name
    && v.status_id == vul_ignore

abbrev pub any_vul : (Vul → Bool) → List Vul → Bool
any_vul test [] = false
any_vul test (v ∷ vs) = test v || any_vul test vs

-- `.first()`
abbrev pub first_vul : List Vul → Option Vul
first_vul [] = none
first_vul (v ∷ vs) = some v

-- The newest vulnerability with the key.
unfoldable pub newest : VulKey → List Vul → Option Vul
newest k vuls = first_vul (sort_down_by (λ v. v.latest_time) (filter (has_key k) vuls))

pub cache_key : VulKey → Text
cache_key k =
    codes "vul_save-"
    ++ digits k.strategy_id
    ++ b'-' ∷ k.pattern_uri
    ++ b'-' ∷ k.http_method
    ++ b'-' ∷ digits k.project_version_id
    ++ b'-' ∷ k.param_name

-- The columns that an update writes.
unfoldable pub updated : VulMeta → Sighting → Text → ℕ → Vul → Vul
updated m s taint_position now v = record v {
  url = m.url;
  uri = m.uri;
  req_header = m.req_header;
  req_params = m.req_params;
  req_data = m.req_data;
  res_header = m.res_header;
  res_body = m.res_body;
  taint_value = s.taint_value;
  taint_position = taint_position;
  context_path = m.context_path;
  client_ip = m.clent_ip;
  top_stack = s.top_stack;
  bottom_stack = s.bottom_stack;
  counts = v.counts + 1;
  latest_time = now;
  method_pool_id = m.id;
  language = m.language;
  full_stack = s.full_stack;
  is_del = 0;
}

unfoldable pub created : VulMeta → Sighting → VulKey → Text → ℕ → ℕ → Vul
created m s k taint_position now id = record {
  id = id;
  strategy_id = s.strategy_id;
  level_id = s.vul_level;
  url = m.url;
  uri = m.uri;
  pattern_uri = k.pattern_uri;
  http_method = m.http_method;
  http_scheme = m.http_scheme;
  http_protocol = m.http_protocol;
  req_header = m.req_header;
  req_params = m.req_params;
  req_data = m.req_data;
  res_header = m.res_header;
  res_body = m.res_body;
  full_stack = s.full_stack;
  top_stack = s.top_stack;
  bottom_stack = s.bottom_stack;
  taint_value = s.taint_value;
  taint_position = taint_position;
  agent_id = m.agent_id;
  language = m.language;
  context_path = m.context_path;
  counts = 1;
  first_time = m.create_time;
  latest_time = now;
  client_ip = m.clent_ip;
  param_name = k.param_name;
  is_del = 0;
  method_pool_id = m.id;
  status_id = vul_pending;
  project_id = m.project_id;
  project_version_id = m.project_version_id;
  server_id = m.server_id;
}

abbrev pub save_row : Vul → List Vul → List Vul
save_row row vuls = map (λ v. if v.id == row.id then row else v) vuls

-- `if vul: … else: …`: the vulnerability, and the store that it is written to.
unfoldable pub written : VulMeta → Sighting → VulKey → Text → ℕ → Store → Vul × Store
unfolding updated created
written m s k taint_position now st = elim (newest k st.vuls) [
  | some v ↦
      let row = updated m s taint_position now v in (row, record st { vuls = save_row row st.vuls })
  | none ↦
      let row = created m s k taint_position now st.next_id in
      (
        row,
        record st {
          vuls = st.vuls ++ row ∷ [];
          next_id = suc st.next_id;
          notified = st.notified ++ st.next_id ∷ [];
        },
      )
]

abbrev pub replay_header : Text
replay_header = codes "iast-server-replay-uuid:"

-- The loop over the lines of the header, up to its `break`.
unfoldable pub replay_uuid : List Text → Option Text
replay_uuid [] = none
replay_uuid (h ∷ hs) =
    let rest = replay_uuid hs in
    if starts_with h replay_header then some (drop (length replay_header) h) else rest

unfoldable pub header_text : Codecs → Text → Option Text
header_text codecs header = elim (codecs.b64decode header) [
  | none ↦ none
  | some bytes ↦ codecs.decode_utf8 bytes
]

-- From the last comment on; `none` for the header is an exception, after everything else has been written.
unfoldable pub logged : Codecs → Vul → Store → Saved × Store
unfolding header_text replay_uuid
logged codecs v st = elim (header_text codecs v.req_header) [
  | none ↦ (raised, st)
  | some text ↦ elim (replay_uuid (split b'\n' text)) [
    | none ↦ (saved v, st)
    | some uuid ↦ (saved v, record st { replay_logs = st.replay_logs ++ (v.id, uuid) ∷ [] })
  ]
]

abbrev pub is_held : Text → List Text → Bool
is_held key [] = false
is_held key (k ∷ ks) = k == key || is_held key ks

-- From the key of the cache on. The key is not given back where an ignored vulnerability is found.
unfoldable pub save_with : Codecs → VulMeta → Sighting → VulKey → Text → ℕ → Store → Saved × Store
unfolding cache_key written logged
save_with codecs m s k taint_position now st =
    if is_held (cache_key k) st.held
    then (skipped, st)
    else if any_vul (is_ignored k m.project_id) st.vuls
    then (skipped, record st { held = cache_key k ∷ st.held })
    else let started = record st { project_updates = st.project_updates ++ m.project_id ∷ [] } in
      let (row, st') = written m s k taint_position now started in
      logged codecs row (record st' { vul_pools = put row.id m st'.vul_pools })

abbrev pub path_names : Names → List Text
path_names names = names_at (codes "PATH") names

unfoldable pub pattern_uri_of : VulMeta → Names → Option Text
unfolding get_real_url
pattern_uri_of m names = elim (get_real_url m.method_pool) [
  | none ↦ none
  | some [] ↦ get_original_url m.uri (path_names names)
  | some (c ∷ s) ↦ some (c ∷ s)
]

abbrev pub key_of_sighting : VulMeta → Sighting → Text → Text → VulKey
key_of_sighting m s pattern_uri param_name = record {
  strategy_id = s.strategy_id;
  pattern_uri = pattern_uri;
  http_method = m.http_method;
  project_version_id = m.project_version_id;
  param_name = param_name;
}

-- `dumps` is json.dumps, `codecs` the other libraries of the parsers.
unfoldable pub save_vul : Codecs → (Names → Text) → VulMeta → Sighting → ℕ → Store → Saved × Store
unfolding pattern_uri_of save_with request_of parse_target_values_from_vul_stack
save_vul codecs dumps m s now st = elim (parse_target_values_from_vul_stack s.vul_stack) [
  | none ↦ (raised, st)
  | some values ↦ elim (parse_taint_position codecs s.top_stack (request_of m) values) [
    | none ↦ (raised, st)
    | some names ↦ elim (pattern_uri_of m names) [
      | none ↦ (raised, st)
      | some pattern_uri ↦
          save_with codecs m s (key_of_sighting m s pattern_uri (dumps names))
            (join b'/' (map (λ n. n.0) names)) now st
    ]
  ]
]
