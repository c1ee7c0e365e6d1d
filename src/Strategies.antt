-- ===== src/Strategies.antt =====
-- load_sink_strategy of dongtai_engine/common/queryset.py: the sink methods that a pool is searched for,
-- by the language of the agent and the scan template of the project; and vul_filter of
-- dongtai_engine/filters/main.py, which drops some of what is found.
pub mod Loaded
mod Tests
use dong_tai_server.Prelude.{
  ℕ, zero, suc, Bool, true, false, not, ◌&&◌, Option, none, some, List, [], ◌∷◌, map, filter, take,
  contains, length, if◌then◌else◌, ◌==◌, number_comparison, text_comparison,
}
use dong_tai_server.Prelude.Splits.{split, number_of}
use dong_tai_server.Prelude.Text.{Text, codes}
use dong_tai_server.Compatibility.{Report, rfind}

-- A row of IastStrategyModel, and one of HookStrategy.
pub record Strategy : Type 0 where
  pub id : ℕ
  pub vul_type : Text
  pub level : ℕ
  pub vul_name : Text
  pub state : Text

pub record Hook : Type 0 where
  pub id : ℕ
  pub value : Text
  pub strategy_id : ℕ
  pub language_id : ℕ

pub record Sink : Type 0 where
  pub hook : ℕ
  pub vul_type : Text
  pub value : Text
  pub level : ℕ
  pub vul_name : Text
  pub strategy_id : ℕ

-- LANGUAGE_MAP; 0 for a language that is not there, and for none.
pub language_id_of : Option Text → ℕ
language_id_of none = 0
language_id_of (some l) =
    if l == codes "JAVA"
    then 1
    else if l == codes "PYTHON"
    then 2
    else if l == codes "PHP"
    then 3
    else if l == codes "GO"
    then 4
    else 0

pub languages : ℕ → List ℕ
languages zero = 1 ∷ 2 ∷ 3 ∷ 4 ∷ []
languages (suc n) = suc n ∷ []

-- `[int(i) for i in …]`, of texts of digits; `none` is a ValueError.
pub numbers_of : List Text → Option (List ℕ)
numbers_of [] = some []
numbers_of (t ∷ ts) =
    let rest = numbers_of ts in
    elim (number_of t) [
      | none ↦ none
      | some n ↦ elim rest [ none ↦ none | some ns ↦ some (n ∷ ns) ]
    ]

-- The ids that a scan template allows; with no template, all.
pub template_ids : Option Text → Option (Option (List ℕ))
unfolding numbers_of
template_ids none = some none
template_ids (some content) = elim (numbers_of (split b',' content)) [
  | none ↦ none
  | some ids ↦ some (some ids)
]

abbrev pub allows : Option (List ℕ) → ℕ → Bool
allows none id = true
allows (some ids) id = contains ids id

-- type_query
pub type_query : Option (List ℕ) → List Strategy → List Strategy
type_query ids strategies = filter (λ s. s.state == codes "enable" && allows ids s.id) strategies

abbrev pub strategy_of : ℕ → List Strategy → Option Strategy
strategy_of id [] = none
strategy_of id (s ∷ ss) = let rest = strategy_of id ss in if s.id == id then some s else rest

-- `value[: value.rfind("(")] if value.rfind("(") > 0 else value`
pub sub_method_signature : Text → Text
sub_method_signature value = elim (rfind b'(' value) [
  | none ↦ value
  | some i ↦ if i == 0 then value else take i value
]

abbrev pub sink_of : Hook → Strategy → Sink
sink_of h s = record {
  hook = h.id;
  vul_type = s.vul_type;
  value = sub_method_signature h.value;
  level = s.level;
  vul_name = s.vul_name;
  strategy_id = h.strategy_id;
}

-- strategy_models: the hooks of the strategies and languages, with their strategies.
pub strategy_models : List ℕ → List Strategy → List Hook → List Sink
unfolding sub_method_signature
strategy_models language_ids strategies [] = []
strategy_models language_ids strategies (h ∷ hooks) =
    let rest = strategy_models language_ids strategies hooks in
    elim (strategy_of h.strategy_id strategies) [
      | none ↦ rest
      | some s ↦ if contains language_ids h.language_id then sink_of h s ∷ rest else rest
    ]

-- The loop, with the set of signatures so far.
pub first_of_each : List Text → List Sink → List Sink
first_of_each seen [] = []
first_of_each seen (s ∷ sinks) = elim (contains seen s.value) [
  | true ↦ first_of_each seen sinks
  | false ↦ s ∷ first_of_each (s.value ∷ seen) sinks
]

-- `content` is that of the scan template, if there is one.
pub load_sink_strategy : Option Text → Option Text → List Strategy → List Hook → Option (List Sink)
unfolding template_ids type_query languages language_id_of strategy_models first_of_each
load_sink_strategy language content strategies hooks = elim (template_ids content) [
  | none ↦ none
  | some ids ↦ some (
      first_of_each []
        (strategy_models (languages (language_id_of language)) (type_query ids strategies) hooks))
]

abbrev pub filter_source_signature : List Text
filter_source_signature =
    codes "javax.servlet.http.HttpServletRequest.getHeader(java.lang.String)"
    ∷ codes "javax.servlet.http.HttpServletRequest.getHeaderNames()"
    ∷ codes "javax.servlet.http.HttpServletRequest.getParts()"
    ∷ codes "javax.servlet.http.HttpServletRequest.getPart(java.lang.String)"
    ∷ codes "javax.servlet.http.HttpServletRequest.getHeaders(java.lang.String)"
    ∷ codes "jakarta.servlet.http.HttpServletRequest.getHeader(java.lang.String)"
    ∷ codes "jakarta.servlet.http.HttpServletRequest.getHeaders(java.lang.String)"
    ∷ codes "jakarta.servlet.http.HttpServletRequest.getHeaderNames()"
    ∷ codes "jakarta.servlet.http.HttpServletRequest.getParts()"
    ∷ codes "jakarta.servlet.http.HttpServletRequest.getPart(java.lang.String)"
    ∷ codes
        "org.apache.struts2.dispatcher.multipart.MultiPartRequest.getParameterValues(java.lang.String)"
    ∷ codes
        "org.apache.commons.fileupload.FileUploadBase.parseRequest(org.apache.commons.fileupload.RequestContext)"
    ∷ []

-- `none` is the IndexError of an empty stack.
pub vul_filter : List (List Report) → Text → Option Bool
vul_filter stack vul_type =
    if vul_type == codes "reflected-xss"
    then elim stack [
      | [] ↦ none
      | [] ∷ rest ↦ none
      | (call ∷ calls) ∷ rest ↦ some (not (contains filter_source_signature call.signature))
    ]
    else some true
