-- ===== src/VulHandler/Queued.antt =====
-- A method pool in which a flow is found.
use dong_tai_server.Prelude.{ℕ, ◌≡◌, sym, subst, true, Option-cases, inl, inr}
use dong_tai_server.ReplayQueue.{is_validated}
use dong_tai_server.ReplayQueue.Closed.{HasOpen, create_vul_recheck_task-HasOpen}
use dong_tai_server.SaveVul.{VulMeta, Sighting, Vul, Store, Saved, raised, skipped, saved}
use dong_tai_server.SaveVul.Save.{save_vul}
use dong_tai_server.VulHandler.{
  Surroundings, Tables, pool_saved, handle_pool, handler_vul, method_pool, mark_of, bind_dast,
  checked_again,
}

pool_saved-HasOpen :
    (around : Surroundings) (now : ℕ) (t : Tables) (result : Saved × Store) (v : Vul)
    → (pool_saved around now t result).0 ≡ saved v
    → is_validated (around.validation v.agent_id) around.global_state ≡ true
    → HasOpen v.id (pool_saved around now t result).1.queue.rows
unfolding pool_saved
pool_saved-HasOpen around now t (raised, store) v out valid = absurd (cc)
pool_saved-HasOpen around now t (skipped, store) v out valid = absurd (cc)
pool_saved-HasOpen around now t (saved w, store) v out valid =
    elim (Option-cases (mark_of around w)) [
      | inl f ↦ absurd (let no = rw (pool_saved, f) at out in cc)
      | inr (mark, f) ↦
          let here = rw (pool_saved, f) at out in
          let same : w ≡ v = cc in
          let bound = bind_dast around w mark (record t { store = store }) in
          let valid' =
            subst
              (λ (x : Vul). is_validated (around.validation x.agent_id) around.global_state ≡ true)
              (sym same) valid in
          rw (pool_saved, f)
            (subst (λ (x : Vul). HasOpen x.id (checked_again around now w bound.queue).rows) same
              (create_vul_recheck_task-HasOpen (around.validation w.agent_id) around.global_state
                now w.id w.agent_id (around.payloads w.strategy_id w.agent_id) bound.queue valid'))
    ]

-- If a flow in a method pool is saved as a vulnerability, nothing is raised, and the vulnerability is to be
-- verified by the settings, then the queue has an open row for it afterwards.
pub handler_vul-HasOpen :
    (around : Surroundings) (m : VulMeta) (s : Sighting) (now : ℕ) (t : Tables) (v : Vul)
    → (handler_vul around method_pool m s now t).0 ≡ saved v
    → is_validated (around.validation v.agent_id) around.global_state ≡ true
    → HasOpen v.id (handler_vul around method_pool m s now t).1.queue.rows
unfolding handler_vul handle_pool
handler_vul-HasOpen around m s now t v out valid =
    pool_saved-HasOpen around now t (save_vul around.codecs around.dumps m s now t.store) v out
      valid
