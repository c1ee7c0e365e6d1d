-- ===== src/Registration.antt =====
-- dongtai_protocol/views/agent_register.py: an agent reports for duty, and gets its rows in the tables of
-- projects, versions, agents and servers. `none` is an exception, after which the transaction leaves the
-- tables as they were.
pub mod Tables
pub mod Address
pub mod Visible
pub mod Rows
pub mod Register
use dong_tai_server.Prelude.{
  ℕ, Bool, true, false, not, ◌&&◌, ◌||◌, Option, none, some, List, [], ◌∷◌, ◌++◌, map, filter, drop,
  contains, length, if◌then◌else◌, ◌==◌, number_comparison, text_comparison,
}
use dong_tai_server.Prelude.Splits.{split, join}
use dong_tai_server.Prelude.Text.{Text, codes, is_in}

-- The columns of a user that a registration reads, with the level of its role. The departments differ.
pub record User : Type 0 where
  pub id : ℕ
  pub level : ℕ
  pub tenant : Option ℕ
  pub departments : List ℕ

pub record Project : Type 0 where
  pub id : ℕ
  pub name : Text
  pub tenant : ℕ
  pub departments : List ℕ
  pub template_id : Option ℕ
  pub scan_id : Option ℕ
  pub latest_time : ℕ
  pub current_version : Option ℕ

pub record Version : Type 0 where
  pub id : ℕ
  pub version_name : Text
  pub project : ℕ

pub record AgentRow : Type 0 where
  pub id : ℕ
  pub token : Text
  pub version : Text
  pub user : ℕ
  pub project : ℕ
  pub project_version : ℕ
  pub hostname : Text
  pub language : Text
  pub latest_time : ℕ
  pub ip : Text
  pub port : ℕ
  pub path : Text
  pub cmdline : Text
  pub env : List Text
  pub pid : ℕ
  pub ipaddresslist : List Text
  pub server_id : Option ℕ

pub record ServerRow : Type 0 where
  pub id : ℕ
  pub hostname : Text
  pub ip : Text
  pub port : ℕ
  pub pid : ℕ
  pub network : Text
  pub env : Text
  pub path : Text
  pub status : Text
  pub container : Text
  pub container_path : Text
  pub cluster_name : Text
  pub cluster_version : Text
  pub command : Text
  pub runtime : Text
  pub create_time : ℕ
  pub update_time : ℕ
  pub ipaddresslist : List Text

-- `serverPort`: not there, a number, or a text.
pub data Port : Type 0 where
  missing : Port
  number : ℕ → Port
  text : Text → Port

-- What the agent sends. The texts that are stored as they are stand here as texts.
pub record Param : Type 0 where
  pub name : Option Text
  pub version : Option Text
  pub project_name : Option Text
  pub project_version : Option Text
  pub project_template_id : Option ℕ
  pub hostname : Text
  pub language : Text
  pub network : Text
  pub container_name : Text
  pub server_addr : Text
  pub server_port : Port
  pub server_path : Text
  pub server_env : Text
  pub cluster_name : Text
  pub cluster_version : Text
  pub pid : ℕ

-- An entry of the network interfaces; `none`: the key is not there.
pub record Interface : Type 0 where
  pub name : Option Text
  pub ip : Option Text
  pub is_address : Bool

-- What json.loads makes of "network": an error or something else, a list, or a dict with its "ip".
pub data Network : Type 0 where
  invalid : Network
  interfaces : List Interface → Network
  dict : Option Text → Network

-- Code from elsewhere, and what is looked up: base64 with utf-8, `lower`, json, the hex text of a uuid, the
-- date of today, the ids of the project templates that a user sees, and the first scan template.
pub record Outside : Type 0 where
  pub decode_env : Text → Option Text
  pub lower : Text → Text
  pub load_network : Text → Network
  pub hex : Text
  pub today : Text
  pub now : ℕ
  pub templates : User → List ℕ
  pub first_scan : User → Option ℕ

abbrev pub is_empty : Text → Bool
is_empty s = length s == 0

-- `"=".join(env.split("=")[1:])`
abbrev pub after_sign : Text → Text
after_sign env = join b'=' (drop 1 (split b'=' env))

-- get_command and get_runtime, by what they look for.
pub value_in : (Text → Text) → Text → List Text → Text
value_in lower key [] = []
value_in lower key (env ∷ envs) =
    let rest = value_in lower key envs in if is_in key (lower env) then after_sign env else rest

abbrev pub get_command : (Text → Text) → List Text → Text
get_command lower envs = value_in lower (codes "sun.java.command") envs

abbrev pub get_runtime : (Text → Text) → List Text → Text
get_runtime lower envs = value_in lower (codes "java.runtime.name") envs

-- The env without its braces, and its parts; both are empty if nothing is sent.
abbrev pub bare : Text → Text
bare env = filter (λ c. not (c == b'{' || c == b'}')) env

pub env_of : Outside → Text → Option Text
env_of around [] = some []
env_of around (c ∷ s) = elim (around.decode_env (c ∷ s)) [
  | none ↦ none
  | some env ↦ some (bare env)
]

abbrev pub env_list_of : Text → Text → List Text
env_list_of [] env = []
env_list_of (c ∷ s) env = split b',' env

-- `os.path.basename`
abbrev pub last_of : List Text → Text
last_of [] = []
last_of (p ∷ []) = p
last_of (p ∷ q ∷ ps) = last_of (q ∷ ps)

abbrev pub first_of : List Text → Text
first_of [] = []
first_of (p ∷ ps) = p

abbrev pub slashes : Text → Text
slashes command = map (λ c. if c == b'\\' then b'/' else c) command

abbrev pub command_name : Text → Text
command_name command = first_of (split b' ' (last_of (split b'/' (slashes command))))

-- The name of the project: as sent, or from the command, or a new one.
pub project_name_of : Outside → Option Text → Text → Text
project_name_of around (some (c ∷ s)) command = c ∷ s
project_name_of around _ command =
    if is_empty command
    then around.hex
    else if is_empty (command_name command)
    then around.hex
    else command_name command
