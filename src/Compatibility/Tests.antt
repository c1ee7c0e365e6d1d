-- ===== src/Compatibility/Tests.antt =====
-- Runs for compatibility.py.
use dong_tai_server.Prelude.{◌≡◌, refl, ◌++◌, ◌∷◌, [], some, none, false, arith}
use dong_tai_server.Prelude.Text.{codes}
use dong_tai_server.Compatibility.{
  Report, method_pool_3_to_2, all_values, values_at, parameter_at, join_comma, parse_target_value,
  rfind,
}
use dong_tai_server.Compatibility.Positions.{parse_target_value-wrapped}

parse_runs : parse_target_value (codes "[ab*c]*4") ≡ codes "ab*c"
unfolding parse_target_value rfind
parse_runs = refl

parse_target_value-wrapped_example : parse_target_value (codes "[a*]" ++ codes "*12") ≡ codes "a*"
parse_target_value-wrapped_example =
    parse_target_value-wrapped (codes "a*") (codes "12") b'[' b']' (omega arith)

abbrev report : Report
report = record {
  invoke_id = 4;
  class_name = [];
  method_name = [];
  signature = [];
  source = false;
  source_hash = [];
  target_hash = some (7 ∷ []);
  source_values = none;
  target_values = none;
  source_type = none;
  target_range = none;
  taint_position =
      some (record { source = some (codes "O" ∷ codes "P2" ∷ codes "P1" ∷ []); target = none });
  parameter_values = some (record { index = codes "P1"; value = codes "w" } ∷ []);
  obj_value = some (codes "v");
  ret_value = none;
}

abbrev converted : Report
converted = record report {
  taint_position =
      some (record { source = some (codes "O" ∷ codes "P2" ∷ codes "P1" ∷ []); target = some [] });
  ret_value = some [];
  source_values = some (codes "v,w");
  target_values = some [];
}

convert_runs : method_pool_3_to_2 report ≡ some converted
unfolding method_pool_3_to_2 all_values values_at parameter_at join_comma
convert_runs = refl
