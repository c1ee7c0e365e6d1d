-- ===== src/Registration/Register/Tests.antt =====
-- Registrations on small tables, and the theorems about them at concrete inputs.
use dong_tai_server.Prelude.{◌≡◌, refl, Bool, false, some, [], ◌∷◌, arith}
use dong_tai_server.Prelude.Text.{Text, codes}
use dong_tai_server.Registration.{
  User, Param, Outside, Interface, missing, number, interfaces, env_of,
}
use dong_tai_server.Registration.Address.{get_ipaddress}
use dong_tai_server.Registration.Address.Preferred.{get_ipaddress-preferred}
use dong_tai_server.Registration.Tables.{update_or_create}
use dong_tai_server.Registration.Visible.{level_tenant}
use dong_tai_server.Registration.Register.{Db, success, failed, post}
use dong_tai_server.Registration.Register.Again.{post_again}
use dong_tai_server.Registration.Register.Again.Repeats.{HasSameRows}
use dong_tai_server.Registration.Register.Departments.{post_twice_fails}

abbrev plain : Outside
plain = record {
  decode_env = λ s. some s;
  lower = λ s. s;
  load_network = λ s. interfaces (
      record { name = some (codes "eth0"); ip = some (codes "10.0.0.1"); is_address = false } ∷ []);
  hex = codes "0";
  today = codes "2024-01-01";
  now = 7;
  templates = λ u. 3 ∷ [];
  first_scan = λ u. some 5;
}

abbrev admin : User
admin = record { id = 1; level = level_tenant; tenant = some 9; departments = [] }

abbrev colleague : User
colleague = record { id = 2; level = 2; tenant = some 9; departments = 4 ∷ 6 ∷ [] }

abbrev demo : Param
demo = record {
  name = some (codes "token");
  version = some (codes "1.0");
  project_name = some (codes "shop");
  project_version = some (codes "v1");
  project_template_id = some 3;
  hostname = codes "host";
  language = codes "JAVA";
  network = [];
  container_name = codes "tomcat";
  server_addr = codes "127.0.0.1";
  server_port = number 8080;
  server_path = codes "/opt";
  server_env = codes "{sun.java.command=shop.jar,a=b}";
  cluster_name = [];
  cluster_version = [];
  pid = 42;
}

abbrev nothing : Db
nothing = record {
  projects = record { rows = []; next_id = 1 };
  versions = record { rows = []; next_id = 1 };
  agents = record { rows = []; next_id = 1 };
  servers = record { rows = []; next_id = 1 };
}

-- The next registration, from another port and host
abbrev later : Param
later = record demo { hostname = codes "other"; server_port = missing }

abbrev registered : Db
registered = (post plain admin demo nothing).1

first_registration : post plain admin demo nothing ≡ (success 1, registered)
unfolding post update_or_create
first_registration = refl

post_again_example :
    (db2 : Db) × (post plain admin later registered ≡ (success 1, db2)) × HasSameRows registered db2
unfolding env_of
post_again_example =
    post_again plain plain admin demo later _ _ _ _ 9 nothing registered 1 _ 0 refl refl
      (tt, tt, tt) refl refl refl refl refl refl refl refl first_registration

abbrev shared : Db
shared = (post plain colleague demo nothing).1

first_shared : post plain colleague demo nothing ≡ (success 1, shared)
unfolding post update_or_create
first_shared = refl

post_twice_fails_example : post plain colleague later shared ≡ (failed, shared)
post_twice_fails_example =
    post_twice_fails plain plain colleague demo later _ _ nothing shared 1 (omega arith)
      (omega arith) (omega arith) refl refl refl refl first_shared

abbrev interface : Text → Text → Bool → Interface
interface name ip is_address = record { name = some name; ip = some ip; is_address = is_address }

get_ipaddress-preferred_example :
    get_ipaddress (
      interfaces (
        interface (codes "lo") (codes "127.0.0.1") false
        ∷ interface (codes "en0") (codes "10.0.0.2") false
        ∷ []))
    ≡ codes "10.0.0.2"
get_ipaddress-preferred_example =
    get_ipaddress-preferred (interface (codes "lo") (codes "127.0.0.1") false)
      (interface (codes "en0") (codes "10.0.0.2") false ∷ [])
      ((_, _, refl, refl), ((_, _, refl, refl), tt))
