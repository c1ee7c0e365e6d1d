-- ===== src/MethodCall.antt =====
-- One element of a method pool: the call of a propagating method that an agent has reported, as
-- dongtai_common/engine reads it. The hashes name taint values and are only compared.
use dong_tai_server.Prelude.{
  ℕ, Bool, Option, List, ◌∷◌, ◌++◌, map, if◌then◌else◌, ◌==◌, number_comparison,
}
use dong_tai_server.Prelude.Text.{Text}

-- One entry of "sourceType" and of "targetRange", with what the program reads of them.
pub record SourceType : Type 0 where
  pub kind : Text
  pub hash : ℕ

pub record Range : Type 0 where
  pub start : ℕ
  pub stop : ℕ

pub record TargetRange : Type 0 where
  pub ranges : Option (List Range)

-- `none` in an optional field: the key is not there. The keys of the other fields are taken to be there.
pub record MethodCall : Type 0 where
  pub invoke_id : ℕ
  pub class_name : Text
  pub method_name : Text
  pub signature : Text
  pub source : Bool
  pub source_hash : List ℕ
  pub target_hash : List ℕ
  pub source_values : Option Text
  pub target_values : Option Text
  pub source_type : Option (List SourceType)
  pub target_range : Option (List TargetRange)

-- `f"{method.get('className')}.{method.get('methodName')}"`
abbrev pub dotted : MethodCall → Text
dotted method = method.class_name ++ (b'.' ∷ method.method_name)

-- `replace('/', '.')`
abbrev pub slash_to_dot : ℕ → ℕ
slash_to_dot c = if c == b'/' then b'.' else c

abbrev pub dots : Text → Text
dots = map slash_to_dot
