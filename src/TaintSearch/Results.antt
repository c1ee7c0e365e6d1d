-- ===== src/TaintSearch/Results.antt =====
-- dongtai_common/engine/vul_engine.py: the results that VulEngine.search builds from the merged
-- paths, the marks of copy_method, and what `result` and `results` hand out.
pub mod Returns
pub mod Shared
pub mod Complete
use dong_tai_server.Prelude.{
  ℕ, ◌≡◌, Bool, true, false, Option, none, some, List, [], ◌∷◌, ◌++◌, map, length, if◌then◌else◌,
  ◌==◌, number_comparison,
}
use dong_tai_server.Prelude.Dict.{lookup, put}
use dong_tai_server.Prelude.Text.{Text, codes}
use dong_tai_server.MethodCall.{MethodCall, dotted}
use dong_tai_server.Compatibility.{parse_target_value, Report}
use dong_tai_server.TaintSearch.{Pool, invokeid_dict, last?, set_method_pool}
use dong_tai_server.TaintSearch.Paths.{Networkx, total_paths}
use dong_tai_server.TaintSearch.Merge.{merge_paths}

-- What copy_method writes into the dict of a call. `tag` is `none` where it writes no tag.
pub record Mark : Type 0 where
  pub tag : Option Text
  pub code : Text

abbrev pub em : Text → Text
em values = codes "<em>" ++ (values ++ codes "</em>")

pub data Role : Type 0 where
  as_source as_propagator as_filter as_sink as_plain : Role

-- The flags in the order in which copy_method tests them.
unfoldable pub role_of : Bool → Bool → Bool → Bool → Role
role_of sink source propagator filter =
    if source
    then as_source
    else if propagator
    then as_propagator
    else if filter
    then as_filter
    else if sink
    then as_sink
    else as_plain

-- `<em>{targetValues}</em> = {signature}(..., <em>{sourceValues}</em>, ...)`
abbrev pub through_code : MethodCall → Text → Text → Text
through_code m target_values source_values =
    em target_values
    ++ (codes " = " ++ (m.signature ++ (codes "(..., " ++ (em source_values ++ codes ", ...)"))))

-- The branch that copy_method takes; `none` is the KeyError of a value that is not there.
unfoldable pub mark_as : Role → MethodCall → Option Mark
mark_as as_source m = elim m.target_values [
  | none ↦ none
  | some v ↦ some (record {
    tag = some (codes "source");
    code = em v ++ (codes " = " ++ (m.signature ++ codes "(...)"));
  })
]
mark_as as_propagator m = elim m.target_values [
  | none ↦ none
  | some v ↦ elim m.source_values [
    | none ↦ none
    | some w ↦ some (record { tag = some (codes "propagator"); code = through_code m v w })
  ]
]
mark_as as_filter m = elim m.target_values [
  | none ↦ none
  | some v ↦ elim m.source_values [
    | none ↦ none
    | some w ↦ some (record { tag = some (codes "filter"); code = through_code m v w })
  ]
]
mark_as as_sink m = elim m.source_values [
  | none ↦ none
  | some w ↦ some (record {
    tag = some (codes "sink");
    code = m.signature ++ (codes "(..., " ++ (em w ++ codes ", ...)"));
  })
]
mark_as as_plain m = some (record { tag = none; code = m.signature })

-- One entry of more_results: its stack names the calls, whose marks stand in the shared store.
pub record Found : Type 0 where
  pub stack : List ℕ
  pub source_signature : Text
  pub sink_signature : Text
  pub taint_value : Text

pub record Engine : Type 0 where
  pub version : ℕ
  pub vul_stack : List ℕ
  pub vul_source_signature : Text
  pub vul_method_signature : Text
  pub taint_value : Text
  pub more_results : List Found
  pub marks : List (ℕ × Mark)

-- The variables of the loop over one path. `source_signature` is the local vul_source_signature,
-- `none` until it is bound.
pub record Progress : Type 0 where
  pub engine : Engine
  pub source_signature : Option Text
  pub stack : List ℕ

-- The three branches on one call of the path whose last id is `t`; `none` is the KeyError of a value
-- that is not there.
unfoldable pub report_call : ℕ → MethodCall → Progress → Option Progress
unfolding mark_as role_of
report_call t m p =
    let e = p.engine in
    if m.source
    then elim (mark_as (role_of false true false false) m) [
      | none ↦ none
      | some mark ↦ some (record {
        engine = record e { vul_source_signature = dotted m; marks = put m.invoke_id mark e.marks };
        source_signature = some (dotted m);
        stack = p.stack ++ m.invoke_id ∷ [];
      })
    ]
    else if m.invoke_id == t
    then elim m.target_values [
      | none ↦ none
      | some value ↦ elim (mark_as (role_of true false false false) m) [
        | none ↦ none
        | some mark ↦ some (record p {
          engine = record e {
            taint_value = if e.version == 3 then parse_target_value value else value;
            marks = put m.invoke_id mark e.marks;
          };
          stack = p.stack ++ m.invoke_id ∷ [];
        })
      ]
    ]
    else elim (mark_as (role_of false false true false) m) [
      | none ↦ none
      | some mark ↦ some (record p {
        engine = record e { marks = put m.invoke_id mark e.marks };
        stack = p.stack ++ m.invoke_id ∷ [];
      })
    ]

-- `for path_key in total_path`; `none` is the KeyError of invokeid_dict or of a call.
unfoldable pub report_calls : List (ℕ × MethodCall) → ℕ → List ℕ → Progress → Option Progress
report_calls dict t [] p = some p
report_calls dict t (path_key ∷ path) p = elim (lookup path_key dict) [
  | none ↦ none
  | some m ↦ elim (report_call t m p) [ none ↦ none | some q ↦ report_calls dict t path q ]
]

-- The end of a round: vul_stack and more_results. `none` is the error of an unbound local.
unfoldable pub finish_path : Progress → Option Engine
finish_path p = elim p.source_signature [
  | none ↦ none
  | some source_signature ↦ some (record p.engine {
    vul_stack = p.stack;
    more_results =
        p.engine.more_results
        ++ record {
          stack = p.stack;
          source_signature = source_signature;
          sink_signature = p.engine.vul_method_signature;
          taint_value = p.engine.taint_value;
        }
          ∷ [];
  })
]

-- One round of `for total_path in final_path`. The local source signature of the round before is
-- still bound.
unfoldable pub report_path :
    List (ℕ × MethodCall) → List ℕ → Option Text → Engine → Option (Engine × Option Text)
unfolding report_calls finish_path
report_path dict total_path bound e = elim (last? total_path) [
  | none ↦ none
  | some t ↦
      elim (report_calls dict t total_path
        (record { engine = e; source_signature = bound; stack = [] })) [
          | none ↦ none
          | some p ↦ elim (finish_path p) [ none ↦ none | some e' ↦ some (e', p.source_signature) ]
        ]
]

pub report_paths : List (ℕ × MethodCall) → List (List ℕ) → Option Text → Engine → Option Engine
report_paths dict [] bound e = some e
report_paths dict (path ∷ paths) bound e = elim (report_path dict path bound e) [
  | none ↦ none
  | some (e', bound') ↦ report_paths dict paths bound' e'
]

-- What prepare sets.
pub prepare : Text → ℕ → Engine → Engine
prepare signature version e = record e {
  version = version;
  vul_method_signature = signature;
  vul_stack = [];
  vul_source_signature = [];
  more_results = [];
}

-- `search`; the pool of the setter is handed on in place of the engine's attribute.
pub search_pool : Networkx → Text → Pool → Engine → Option Engine
unfolding report_paths prepare
search_pool nx signature pool e =
    report_paths (invokeid_dict pool.calls) (merge_paths (total_paths nx signature pool.calls)) none
      (prepare signature pool.version e)

pub search : Networkx → List Report → Text → Engine → Option Engine
unfolding search_pool
search nx method_pool signature e = elim (set_method_pool e.version method_pool) [
  | none ↦ none
  | some pool ↦ search_pool nx signature pool e
]

-- `results()`: the found ones, or, without a source (the empty text is false), the one entry
-- `(False, None, None, None, None)`, which is `none` here. The cut of taint_value for version 3, which
-- goes before, changes nothing that is handed out.
pub results : Engine → List (Option Found)
results e =
    if length e.vul_source_signature == 0
    then none ∷ []
    else map (λ found. some found) e.more_results
