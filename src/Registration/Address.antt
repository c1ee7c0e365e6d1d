-- ===== src/Registration/Address.antt =====
-- get_ipaddress and get_ipaddresslist: which addresses are taken from the network interfaces.
pub mod Preferred
use dong_tai_server.Prelude.{ℕ, Bool, true, false, Option, none, some, List, [], ◌∷◌, if◌then◌else◌}
use dong_tai_server.Prelude.Text.{Text, codes, starts_with}
use dong_tai_server.Registration.{Interface, Network, invalid, interfaces, dict}

-- The loop, with `res` so far; `none` is the KeyError.
pub chosen : Text → List Interface → Option Text
chosen res [] = some res
chosen res (i ∷ is_) = elim i.name [
  | none ↦ none
  | some name ↦ if i.is_address then i.ip else elim (starts_with name (codes "en")) [
    | true ↦ elim i.ip [ none ↦ none | some ip ↦ chosen ip is_ ]
    | false ↦ chosen res is_
  ]
]

-- An exception makes the empty text.
abbrev pub text_or_empty : Option Text → Text
text_or_empty none = []
text_or_empty (some s) = s

abbrev pub of_interfaces : List Interface → Text
of_interfaces [] = []
of_interfaces (i ∷ is_) = elim i.ip [ none ↦ [] | some ip ↦ text_or_empty (chosen ip (i ∷ is_)) ]

pub get_ipaddress : Network → Text
unfolding chosen
get_ipaddress (interfaces is_) = of_interfaces is_
get_ipaddress _ = []

pub all_ips : List Interface → Option (List Text)
all_ips [] = some []
all_ips (i ∷ is_) =
    let rest = all_ips is_ in
    elim i.ip [ none ↦ none | some ip ↦ elim rest [ none ↦ none | some ips ↦ some (ip ∷ ips) ] ]

pub get_ipaddresslist : Network → List Text
unfolding all_ips
get_ipaddresslist invalid = []
get_ipaddresslist (interfaces is_) = elim (all_ips is_) [ none ↦ [] | some ips ↦ ips ]
get_ipaddresslist (dict none) = []
get_ipaddresslist (dict (some ip)) = ip ∷ []
