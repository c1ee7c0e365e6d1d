-- ===== src/ReplayQueue/Lifecycle/Solved.antt =====
-- A replay that is solved stays solved until a task is created or a user sends a request.
use dong_tai_server.Prelude.{◌≡◌, sym, List, [], ◌∷◌, All, arith, subst}
use dong_tai_server.Heartbeat.{Replay, solved}
use dong_tai_server.ReplayQueue.{Queue}
use dong_tai_server.ReplayQueue.Rows.{
  Pairs, Advances, Ascending, Pairs-map, Pairs-refl, Pairs-trans, Ascending-Pairs,
}
use dong_tai_server.ReplayQueue.Lifecycle.{Event, run, IsNoRequest, run-Advances}

-- The events in their order.
pub runs : List Event → Queue → Queue
runs [] q = q
runs (e ∷ es) q = runs es (run e q)

abbrev pub StaysSolved : Replay → Replay → Type 0
StaysSolved r s = r.state ≡ solved → s.state ≡ solved

-- Along any events of Lifecycle among which no task is created and no request is sent by a user, the
-- table keeps its rows in their order with their ids, and those that are solved stay solved, if the ids
-- of the table go up.
pub runs-StaysSolved :
    (es : List Event) (q : Queue)
    → All IsNoRequest es
    → Ascending 0 q.rows q.next_id
    → Pairs StaysSolved q.rows (runs es q).rows
unfolding runs
runs-StaysSolved [] q ok asc = Pairs-refl StaysSolved (λ r h. h) q.rows
runs-StaysSolved (e ∷ es) q (ok, oks) asc =
    let (pairs, next) = run-Advances e q ok asc in
    let asc' =
      subst (Ascending 0 (run e q).rows) (sym next)
        (Ascending-Pairs Advances 0 q.next_id q.rows (run e q).rows pairs asc) in
    Pairs-trans StaysSolved (λ r s t h k x. k (h x)) q.rows (run e q).rows (runs es (run e q)).rows
      (Pairs-map Advances StaysSolved (λ r s h. ground (arith, h)) q.rows (run e q).rows pairs)
      (runs-StaysSolved es (run e q) oks asc')
