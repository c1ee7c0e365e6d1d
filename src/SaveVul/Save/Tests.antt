-- ===== src/SaveVul/Save/Tests.antt =====
-- Runs and instances for save_vul.
use dong_tai_server.SaveVul.Save.Sample.{codecs, dumps, vul_meta, sighting, store, key, known}
use dong_tai_server.Prelude.{suc, ◌≡◌, refl, [], ◌∷◌, arith, Bool-cases, inl, inr}
use dong_tai_server.Prelude.Text.{codes}
use dong_tai_server.Compatibility.{method_pool_is_3}
use dong_tai_server.TaintOrigin.{
  parse_taint_position, get_parser_location, note_values, note_locations,
}
use dong_tai_server.SaveVul.{
  saved, pattern_of, target_values_of, get_real_url, parse_target_values_from_vul_stack,
}
use dong_tai_server.SaveVul.Save.{
  save_vul, save_with, created, updated, pattern_uri_of, has_key, is_ignored, written, newest,
  logged, replay_uuid, header_text,
}
use dong_tai_server.SaveVul.Save.Recorded.{sightings, table_of, save_vul-sightings}
use dong_tai_server.SaveVul.Save.OneRow.{IsTidy, AtMostOne, save_vul-IsTidy}

save_vul-sightings_example :
    sightings key (save_vul codecs dumps vul_meta sighting 99 store).1.vuls
    ≡ suc (sightings key store.vuls)
unfolding parse_target_values_from_vul_stack target_values_of parse_taint_position
    get_parser_location note_values note_locations pattern_uri_of get_real_url pattern_of is_ignored
    created method_pool_is_3
save_vul-sightings_example =
    save_vul-sightings codecs dumps vul_meta sighting 99 store (codes "ab" ∷ []) []
      (codes "/u/{id}") refl refl refl refl refl (omega arith, tt, tt)

only-known : AtMostOne (known ∷ [])
only-known k = elim (Bool-cases (has_key k known)) [
  | inl e ↦ rw e (omega arith)
  | inr e ↦ rw e (omega arith)
]

save_vul-IsTidy_example : IsTidy (table_of (save_vul codecs dumps vul_meta sighting 99 store).1)
unfolding created
save_vul-IsTidy_example =
    save_vul-IsTidy codecs dumps vul_meta sighting 99 store ((omega arith, tt, tt), only-known)

-- The second sighting is one more of the vulnerability that is there.
again :
    (save_vul codecs dumps vul_meta sighting 99 store).0
    ≡ saved (updated vul_meta sighting [] 99 known)
unfolding save_vul save_with parse_target_values_from_vul_stack target_values_of
    parse_taint_position get_parser_location note_values note_locations pattern_uri_of get_real_url
    pattern_of is_ignored created updated written newest logged replay_uuid header_text
    method_pool_is_3
again = refl
