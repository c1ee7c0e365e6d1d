-- ===== src/ReplayQueue/Tests.antt =====
-- Runs for the replay queue.
use dong_tai_server.Prelude.{ℕ, ◌≡◌, refl, true, none, [], ◌∷◌, map}
use dong_tai_server.Heartbeat.{Replay, PayloadRef, null, solved}
use dong_tai_server.ReplayQueue.{
  discard, new_row, confirmed, create_vul_recheck_task, edit, enqueue, new_rows, is_validated,
  replay_of,
}

abbrev row : ℕ → PayloadRef → Replay
row id payload_id = new_row 0 40 5 payload_id id

-- The task that is created for a vulnerability without payloads has a row with none.
created :
    (create_vul_recheck_task none true 0 40 5 [] (record { rows = []; next_id = 2 })).rows
    ≡ row 2 null ∷ []
unfolding create_vul_recheck_task enqueue new_rows is_validated replay_of
created = refl

-- A second row of a vulnerability that was found again is discarded, but not one that is solved.
discard_run :
    map
      (λ r. r.state)
      (confirmed 9 1 40 (record {
        rows = row 1 null ∷ row 2 null ∷ record (row 3 null) { state = solved } ∷ [];
        next_id = 4;
      })).rows
    ≡ solved ∷ discard ∷ solved ∷ []
unfolding confirmed edit
discard_run = refl
