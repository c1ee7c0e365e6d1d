-- ===== src/VulHandler/Tests.antt =====
-- Runs and instances for the handlers of vulnerabilities.
use dong_tai_server.Prelude.{◌≡◌, refl, true, none, [], ◌∷◌, All, ◌==◌, number_comparison}
use dong_tai_server.Prelude.Text.{codes}
use dong_tai_server.Prelude.Splits.{split}
use dong_tai_server.Compatibility.{method_pool_is_3}
use dong_tai_server.Heartbeat.{minus_one, null}
use dong_tai_server.TaintOrigin.{
  parse_taint_position, get_parser_location, note_values, note_locations,
}
use dong_tai_server.ReplayQueue.{new_row, is_validated}
use dong_tai_server.ReplayQueue.Closed.{IsFor, IsClosed, HasOpen}
use dong_tai_server.SaveVul.{
  saved, vul_confirmed, get_real_url, pattern_of, target_values_of,
  parse_target_values_from_vul_stack,
}
use dong_tai_server.SaveVul.Save.{
  save_vul, save_with, created, updated, pattern_uri_of, is_ignored, written, newest, logged,
  replay_uuid, header_text,
}
use dong_tai_server.SaveVul.Save.Sample.{codecs, dumps, vul_meta, sighting, store, known}
use dong_tai_server.VulHandler.{
  Surroundings, Tables, handler_replay_vul, handler_vul, handle_pool, pool_saved, parse_dast_mark,
  bind_dast, method_pool, confirm,
}
use dong_tai_server.VulHandler.Confirmed.{handler_replay_vul-confirms}
use dong_tai_server.VulHandler.Queued.{handler_vul-HasOpen}

abbrev around : Surroundings
around = record {
  codecs = codecs;
  dumps = dumps;
  validation = λ agent. none;
  global_state = true;
  payloads = λ strategy agent. 3 ∷ [];
  excluded = λ status. status == 3;
  words = λ s. split b' ' s;
  strip = λ s. s;
  vul_type = λ strategy. codes "sql";
  dast_settings = none;
  dast_vuls = λ mark. [];
}

abbrev tables : Tables
tables = record {
  store = store;
  queue = record { rows = new_row 0 1 5 minus_one 7 ∷ new_row 0 1 5 null 8 ∷ []; next_id = 9 };
  marks = [];
  relations = [];
}

handler_replay_vul-confirms_example :
    ((handler_replay_vul around vul_meta sighting 99 1 7 tables).0 ≡ saved (confirm 99 known))
    × All
        (λ w. w.id ≡ known.id → w.status_id ≡ vul_confirmed)
        (handler_replay_vul around vul_meta sighting 99 1 7 tables).1.store.vuls
    × All
        (λ r. IsFor known.id r → IsClosed r)
        (handler_replay_vul around vul_meta sighting 99 1 7 tables).1.queue.rows
unfolding created
handler_replay_vul-confirms_example =
    handler_replay_vul-confirms around vul_meta sighting 99 1 7 tables known refl refl

handler_vul-HasOpen_example :
    HasOpen 1 (handler_vul around method_pool vul_meta sighting 99 tables).1.queue.rows
unfolding handler_vul handle_pool pool_saved parse_dast_mark bind_dast save_vul save_with
    parse_target_values_from_vul_stack target_values_of parse_taint_position get_parser_location
    note_values note_locations pattern_uri_of get_real_url pattern_of is_ignored created updated
    written newest logged replay_uuid header_text method_pool_is_3 is_validated
handler_vul-HasOpen_example =
    handler_vul-HasOpen around vul_meta sighting 99 tables (updated vul_meta sighting [] 99 known)
      refl refl
