-- ===== src/ReplayQueue/Lifecycle/Tests.antt =====
-- Runs and instances for the events of the replay queue.
use dong_tai_server.Prelude.{ℕ, ◌≡◌, refl, true, none, List, [], ◌∷◌, map, arith}
use dong_tai_server.Prelude.Text.{codes}
use dong_tai_server.Heartbeat.{Replay, minus_one, waiting, solved, solving}
use dong_tai_server.ReplayQueue.{Queue, new_row, edit}
use dong_tai_server.ReplayQueue.Resent.{
  RawRequest, row_of, resend, sent_row, send_request_to_replay_queue,
}
use dong_tai_server.ReplayQueue.Rows.{Pairs}
use dong_tai_server.ReplayQueue.Lifecycle.{
  Event, polled, replayed, verified, unverified, requested, resent, run,
}
use dong_tai_server.ReplayQueue.Lifecycle.Goes.{Goes, IsProper, run-Goes}
use dong_tai_server.ReplayQueue.Lifecycle.Solved.{runs, StaysSolved, runs-StaysSolved}

abbrev row : ℕ → ℕ → Replay
row id state = record (new_row 0 40 5 minus_one id) { state = state; uri = codes "/u" }

abbrev queue : Queue
queue = record { rows = row 1 solved ∷ row 2 waiting ∷ row 4 solving ∷ []; next_id = 6 }

abbrev request : Event
request = requested none true 9 40 5 (3 ∷ [])

run-Goes_example : Goes request queue (run request queue) × IsProper (run request queue)
run-Goes_example = run-Goes request queue (omega arith, (omega arith, (omega arith, omega arith)))

abbrev events : List Event
events = polled 9 (5 ∷ []) ∷ replayed 2 ∷ verified 10 2 40 ∷ unverified 11 1 ∷ []

runs-StaysSolved_example : Pairs StaysSolved queue.rows (runs events queue).rows
runs-StaysSolved_example =
    runs-StaysSolved events queue (tt, (tt, (tt, (tt, tt))))
      (omega arith, (omega arith, (omega arith, omega arith)))

-- A user sends a request for a row that is solved, and one for which there is no row.
abbrev raw : RawRequest
raw = record {
  uri = codes "/v";
  method = codes "GET";
  scheme = codes "HTTP/1.1";
  header = [];
  params = [];
  body = [];
}

reopened_run :
    map (λ r. r.state) (run (resent 9 40 5 raw 1) queue).rows ≡ waiting ∷ waiting ∷ solving ∷ []
unfolding run send_request_to_replay_queue row_of resend edit
reopened_run = refl

added_run :
    map (λ r. r.state) (run (resent 9 40 6 raw 3) queue).rows
    ≡ solved ∷ waiting ∷ solving ∷ waiting ∷ []
unfolding run send_request_to_replay_queue row_of sent_row
added_run = refl
