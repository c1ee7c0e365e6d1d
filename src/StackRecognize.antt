-- ===== src/StackRecognize.antt =====
-- dongtai_common/utils/stack_recognize.py: whether a stack frame belongs to the user's code or to
-- a framework. The trie is the package marisa_trie, and stands as the parameter `Trie`.
pub mod Rules
pub mod Belongs
mod Tests
use dong_tai_server.Prelude.{
  ◌↔◌, Bool, true, false, Option, none, some, List, [], ◌∷◌, map, ◌∈◌, if◌then◌else◌,
}
use dong_tai_server.Prelude.Text.{Text, codes, IsPrefix, starts_with, any_prefix}
use Rules.{rules}

-- `Trie(keys).prefixes(s)`: documented as the keys that are prefixes of `s`.
pub record Trie : Type 0 where
  pub prefixes : List Text → Text → List Text
  pub prefixes_iff :
      (keys : List Text) (s p : Text) → (p ∈ prefixes keys s) ↔ (p ∈ keys) × IsPrefix p s

pub data CodeBelong : Type 0 where
  user system : CodeBelong

pub record CodeStack : Type 0 where
  pub stack : Text
  pub code_belong : CodeBelong

abbrev pub or_empty : Option (List Text) → List Text
or_empty none = []
or_empty (some l) = l

-- A Python list is true if it is not empty.
abbrev pub is_true : List Text → Bool
is_true [] = false
is_true (p ∷ ps) = true

module _ (trie : Trie) where
  pub stack_scan : Text → Option (List Text) → Option (List Text) → CodeStack
  stack_scan stack extend_black_list extend_white_list =
      if any_prefix stack (or_empty extend_white_list)
      then record { stack = stack; code_belong = user }
      else if any_prefix stack (or_empty extend_black_list)
      then record { stack = stack; code_belong = system }
      else if starts_with stack (codes "org.apache.jsp._")
      then record { stack = stack; code_belong = user }
      else if is_true (trie.prefixes rules stack)
      then record { stack = stack; code_belong = system }
      else record { stack = stack; code_belong = user }

  pub stacks_convert : List Text → Option (List Text) → Option (List Text) → List CodeStack
  stacks_convert stacks extend_black_list extend_white_list =
      map (λ x. stack_scan x extend_black_list extend_white_list) stacks
