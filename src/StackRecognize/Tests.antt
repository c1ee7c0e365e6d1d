-- ===== src/StackRecognize/Tests.antt =====
-- Runs and instances for stack_recognize.py, over a trie that tries every key.
use dong_tai_server.Prelude.{◌≡◌, refl, ◌↔◌, none, some, List, [], ◌∷◌, ◌∈◌, filter, mem-filter}
use dong_tai_server.Prelude.Text.{Text, codes, IsPrefix, starts_with, starts_with_iff}
use dong_tai_server.StackRecognize.Rules.{rules}
use dong_tai_server.StackRecognize.{Trie, user, system, stack_scan}
use dong_tai_server.StackRecognize.Belongs.{IsSystem, stack_scan_exact}

scan_keys :
    (keys : List Text) (s p : Text) → (p ∈ filter (starts_with s) keys) ↔ (p ∈ keys) × IsPrefix p s
scan_keys keys s p = (
  λ m. let (k, e) = (mem-filter (starts_with s) p keys).0 m in (k, (starts_with_iff s p).0 e),
  λ m. (mem-filter (starts_with s) p keys).1 (m.0, (starts_with_iff s p).1 m.1),
)

abbrev trie : Trie
trie = record { prefixes = λ keys s. filter (starts_with s) keys; prefixes_iff = scan_keys }

abbrev frame : Text
frame = codes "org.apache.jsp._.Page"

spring_frame : (stack_scan trie (codes "org.springframework.web.X") none none).code_belong ≡ system
unfolding stack_scan rules
spring_frame = refl

jsp_frame : (stack_scan trie frame none none).code_belong ≡ user
unfolding stack_scan rules
jsp_frame = refl

stack_scan_exact_example :
    ((stack_scan trie frame none (some (frame ∷ []))).stack ≡ frame)
    × ((stack_scan trie frame none (some (frame ∷ []))).code_belong ≡ system
        ↔ IsSystem trie frame none (some (frame ∷ [])))
stack_scan_exact_example = stack_scan_exact trie frame none (some (frame ∷ []))
