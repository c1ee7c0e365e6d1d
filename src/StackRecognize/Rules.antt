-- ===== src/StackRecognize/Rules.antt =====
-- dongtai_common/utils/stack_recognize.py: `rules`, in the order of the source.
mod ToJdk
mod FromJersey
use dong_tai_server.Prelude.{List, ◌++◌}
use dong_tai_server.Prelude.Text.{Text}
use ToJdk.{rules_to_jdk}
use FromJersey.{rules_from_jersey}

unfoldable pub rules : List Text
unfolding rules_to_jdk rules_from_jersey
rules = rules_to_jdk ++ rules_from_jersey
