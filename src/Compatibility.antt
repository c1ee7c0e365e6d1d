-- ===== src/Compatibility.antt =====
-- dongtai_common/engine/compatibility.py: the reports of protocol version 3 are brought into the
-- shape of version 2, and taint values are cut out of what an agent sends as `[value]*length`.
pub mod Positions
mod Tests
use dong_tai_server.Prelude.{
  ℕ, zero, suc, ◌+◌, ◌-◌, Bool, true, false, ◌&&◌, Option, none, some, List, [], ◌∷◌, ◌++◌, length,
  take, drop, if◌then◌else◌, ◌==◌, number_comparison, text_comparison,
}
use mathlib.Core.Option
use dong_tai_server.Prelude.Text.{Text, codes, starts_with}
use dong_tai_server.MethodCall.{SourceType, TargetRange}

pub record Parameter : Type 0 where
  pub index : Text
  pub value : Text

-- The dict under "taintPosition".
pub record TaintPosition : Type 0 where
  pub source : Option (List Text)
  pub target : Option (List Text)

-- A report as it comes in. `none`: the key is not there (or, for `target_hash`, the value is null).
pub record Report : Type 0 where
  pub invoke_id : ℕ
  pub class_name : Text
  pub method_name : Text
  pub signature : Text
  pub source : Bool
  pub source_hash : List ℕ
  pub target_hash : Option (List ℕ)
  pub source_values : Option Text
  pub target_values : Option Text
  pub source_type : Option (List SourceType)
  pub target_range : Option (List TargetRange)
  pub taint_position : Option TaintPosition
  pub parameter_values : Option (List Parameter)
  pub obj_value : Option Text
  pub ret_value : Option Text

unfoldable pub method_pool_is_3 : Report → Bool
method_pool_is_3 dic = elim dic.taint_position [ none ↦ false | some p ↦ true ]

abbrev pub or_default {ℓ} : {A : Type ℓ} → A → Option A → A
or_default d none = d
or_default d (some a) = a

-- `pdict[position]`, where the last entry with an index counts.
pub parameter_at : List Parameter → Text → Option Text
parameter_at [] position = none
parameter_at (pv ∷ pvs) position =
    let later = parameter_at pvs position in
    elim later [
      | some value ↦ some value
      | none ↦ if pv.index == position then some pv.value else none
    ]

-- The three tests on one position, in turn; a missing parameter is passed over.
pub values_at : List Parameter → Text → Text → Text → List Text
unfolding parameter_at
values_at parameters obj_value ret_value position =
    (if position == codes "O" then obj_value ∷ [] else [])
    ++ ((if position == codes "R" then ret_value ∷ [] else [])
        ++ (if starts_with position (codes "P")
            then elim (parameter_at parameters position) [ none ↦ [] | some value ↦ value ∷ [] ]
            else []))

pub all_values : List Parameter → Text → Text → List Text → List Text
all_values parameters obj_value ret_value [] = []
all_values parameters obj_value ret_value (position ∷ positions) =
    values_at parameters obj_value ret_value position
    ++ all_values parameters obj_value ret_value positions

-- `",".join(values)`
pub join_comma : List Text → Text
join_comma [] = []
join_comma (v ∷ []) = v
join_comma (v ∷ w ∷ vs) = v ++ (b',' ∷ join_comma (w ∷ vs))

-- `none` is the KeyError of a report with no "taintPosition".
pub method_pool_3_to_2 : Report → Option Report
method_pool_3_to_2 dic =
    Option.map
      (λ position.
        let parameters = or_default [] dic.parameter_values in
        let sources = or_default [] position.source in
        let targets = or_default [] position.target in
        let obj_value = or_default [] dic.obj_value in
        let ret_value = or_default [] dic.ret_value in
        record dic {
          parameter_values = some parameters;
          taint_position = some (record { source = some sources; target = some targets });
          obj_value = some obj_value;
          ret_value = some ret_value;
          source_values = some (join_comma (all_values parameters obj_value ret_value sources));
          target_values = some (join_comma (all_values parameters obj_value ret_value targets));
        })
      dic.taint_position

-- `s.rfind(c)`; `none` stands for -1.
unfoldable pub rfind : ℕ → Text → Option ℕ
rfind c [] = none
rfind c (d ∷ s) =
    let later = rfind c s in
    elim later [ some i ↦ some (suc i) | none ↦ if d == c then some 0 else none ]

-- `s[:-1]` and `s[1:]`
abbrev pub but_last {ℓ} : {A : Type ℓ} → List A → List A
but_last [] = []
but_last (c ∷ []) = []
but_last (c ∷ d ∷ s) = c ∷ but_last (d ∷ s)

-- `target_value[0:position][1:-1]`, where a position of -1 cuts the last character off.
unfoldable pub parse_target_value : Text → Text
parse_target_value [] = []
parse_target_value (c ∷ s) = but_last (
    drop 1 (elim (rfind b'*' (c ∷ s)) [
      | none ↦ but_last (c ∷ s)
      | some position ↦ take position (c ∷ s)
    ]))
