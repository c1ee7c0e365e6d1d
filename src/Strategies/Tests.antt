-- ===== src/Strategies/Tests.antt =====
-- Runs and instances for the loading of strategies.
use dong_tai_server.Prelude.{ℕ, ◌≡◌, refl, none, some, List, [], ◌∷◌, ◌∈◌}
use dong_tai_server.Prelude.Splits.{number_of, number_from}
use dong_tai_server.Prelude.Text.{Text, codes}
use dong_tai_server.Compatibility.{rfind}
use dong_tai_server.TaintOrigin.Listed.{NoRepeats}
use dong_tai_server.Strategies.{
  Strategy, Hook, Sink, template_ids, numbers_of, type_query, languages, language_id_of,
  load_sink_strategy, strategy_models, first_of_each, sub_method_signature, sink_of, vul_filter,
}
use dong_tai_server.Strategies.Loaded.{values, Selects, load_sink_strategy-exact}

abbrev sql : Strategy
sql = record {
  id = 8;
  vul_type = codes "sql";
  level = 1;
  vul_name = codes "SQL";
  state = codes "enable";
}

abbrev hook : ℕ → Text → Hook
hook id value = record { id = id; value = value; strategy_id = 8; language_id = 1 }

abbrev hooks : List Hook
hooks = hook 1 (codes "a.b(c)") ∷ hook 2 (codes "a.b(d)") ∷ hook 3 (codes "e") ∷ []

load_sink_strategy-exact_example :
    (sinks : List Sink) × (load_sink_strategy
        (some (codes "JAVA"))
        (some (codes "8,9"))
        (sql ∷ [])
        hooks
      ≡ some sinks)
    × NoRepeats (values sinks)
    × ((s : Sink)
        → s ∈ sinks
        → Selects
            (languages (language_id_of (some (codes "JAVA"))))
            (type_query (some (8 ∷ 9 ∷ [])) (sql ∷ []))
            hooks
            s)
    × ((s : Sink)
        → Selects
            (languages (language_id_of (some (codes "JAVA"))))
            (type_query (some (8 ∷ 9 ∷ [])) (sql ∷ []))
            hooks
            s
        → s.value ∈ values sinks)
unfolding template_ids numbers_of number_of number_from
load_sink_strategy-exact_example =
    load_sink_strategy-exact (some (codes "JAVA")) (some (codes "8,9")) (sql ∷ []) hooks
      (some (8 ∷ 9 ∷ [])) refl

-- Two hooks with one signature make one sink.
loaded_run :
    load_sink_strategy (some (codes "JAVA")) none (sql ∷ []) hooks
    ≡ some (sink_of (hook 1 (codes "a.b(c)")) sql ∷ sink_of (hook 3 (codes "e")) sql ∷ [])
unfolding load_sink_strategy template_ids strategy_models first_of_each sub_method_signature rfind
    type_query languages language_id_of
loaded_run = refl

xss_run : vul_filter ([] ∷ []) (codes "reflected-xss") ≡ none
unfolding vul_filter
xss_run = refl
