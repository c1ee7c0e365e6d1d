-- ===== src/ReplayQueue/Sweep/Tests.antt =====
-- Runs and instances for vul_recheck.
use dong_tai_server.Prelude.{
  ℕ, ◌≡◌, ◌≢◌, refl, sym, subst, true, false, none, some, List, [], ◌∷◌, ◌∈◌, inl, inr, map, All,
}
use dong_tai_server.Prelude.Text.{Text, codes}
use dong_tai_server.Heartbeat.{Replay, PayloadRef, null, minus_one, waiting}
use dong_tai_server.ReplayRequest.{
  Named, name, positions, Wire, Sent, replace_in, replace_item, rewrite_position, rewrite_positions,
}
use dong_tai_server.ReplayQueue.{pending, new_row}
use dong_tai_server.ReplayQueue.Sweep.{
  Vulnerability, vul_recheck, sub_replay_queue, recheck_payload, sent_of, sweep, save_all, save,
  rounds, round, prepared, made_ready, ready, replay_payload_data, fail_row,
}
use dong_tai_server.ReplayQueue.Sweep.Blocked.{vul_recheck_blocked}
use dong_tai_server.ReplayQueue.Sweep.Progress.{vul_recheck_progress}
use dong_tai_server.ReplayQueue.Sweep.Rewritten.{IsRewritable}

abbrev found : List (Text × Named)
found = (codes "GET", name (codes "b")) ∷ []

abbrev wire : Wire
wire = record {
  load_positions = λ s. positions found;
  set_in_json = λ body key value. none;
  decode_header = λ s. some s;
  encode_header = λ s. some s;
}

abbrev vul : Vulnerability
vul = record {
  id = 40;
  agent = 5;
  uri = codes "/u";
  http_method = codes "GET";
  http_scheme = codes "http";
  req_header = codes "h";
  req_params = codes "a=1&b=2";
  req_data = none;
  taint_value = codes "2";
  param_name = codes "{}";
}

abbrev row : ℕ → PayloadRef → Replay
row id payload_id = new_row 0 40 5 payload_id id

abbrev stuck : List Replay
stuck = row 1 minus_one ∷ row 2 null ∷ []

vul_recheck_blocked_example :
    vul_recheck wire [] 9 (vul ∷ []) stuck ≡ record { rows = stuck; finished = false }
unfolding sub_replay_queue
vul_recheck_blocked_example =
    vul_recheck_blocked wire [] 9 (vul ∷ []) stuck (row 2 null) (row 1 minus_one ∷ []) refl
      (refl, (refl, tt)) refl

abbrev going : List Replay
going = row 1 minus_one ∷ []

abbrev text : Text
text = codes ".%2F..%2F%60dongtai"

rewritten :
    (sent : Sent) × (rewrite_positions wire text vul.taint_value found (sent_of vul) ≡ some sent)
unfolding rewrite_positions rewrite_position replace_in replace_item
rewritten = (record (sent_of vul) { params = codes "a=1&b=.%2F..%2F%60dongtai" }, refl)

vul-IsRewritable : (v : Vulnerability) → v ∈ (vul ∷ []) → IsRewritable wire text v
vul-IsRewritable v (inl e) = subst (IsRewritable wire text) (sym e) (
  λ q. cc,
  λ params h.
      let same : found ≡ params = cc in
      subst
        (λ ps.
          (sent : Sent) × (rewrite_positions wire text vul.taint_value ps (sent_of vul)
            ≡ some sent))
        same rewritten,
)
vul-IsRewritable v (inr m) = absurd m

vul_recheck_progress_example :
    ((vul_recheck wire [] 9 (vul ∷ []) going).finished ≡ true)
    × ((map (λ r. r.id) (vul_recheck wire [] 9 (vul ∷ []) going).rows ≡ map (λ r. r.id) going)
        × ((x : Replay)
            → x ∈ (vul_recheck wire [] 9 (vul ∷ []) going).rows
            → x.state ≡ pending
            → (x ∈ going) × All (λ (r : Replay). x.id ≢ r.id) (sub_replay_queue going)))
unfolding sub_replay_queue recheck_payload
vul_recheck_progress_example =
    vul_recheck_progress wire [] 9 (vul ∷ []) going ((text, refl, vul-IsRewritable), tt)

sent_run :
    map {B = ℕ × Text} (λ r. (r.state, r.params)) (vul_recheck wire [] 9 (vul ∷ []) going).rows
    ≡ (waiting, codes "a=1&b=.%2F..%2F%60dongtai") ∷ []
unfolding vul_recheck sweep sub_replay_queue recheck_payload rewrite_positions rewrite_position
    replace_in replace_item fail_row save_all save rounds round prepared made_ready ready
    replay_payload_data
sent_run = refl
