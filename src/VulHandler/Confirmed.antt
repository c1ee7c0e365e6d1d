-- ===== src/VulHandler/Confirmed.antt =====
-- A replay that finds its vulnerability again.
use dong_tai_server.Prelude.{
  ℕ, ◌≡◌, refl, true, some, List, [], ◌∷◌, All, Bool-cases, inl, inr, ◌==◌, number_comparison,
  nat_beq_iff,
}
use dong_tai_server.ReplayQueue.Closed.{IsFor, IsClosed, confirmed-IsClosed}
use dong_tai_server.SaveVul.{VulMeta, Sighting, Vul, saved, vul_confirmed}
use dong_tai_server.SaveVul.Save.{save_row}
use dong_tai_server.VulHandler.{
  Surroundings, Tables, found_vul, is_referred, confirm, confirm_vul, handler_replay_vul,
}

save_row-confirms :
    (now : ℕ) (v : Vul) (vuls : List Vul)
    → All (λ w. w.id ≡ v.id → w.status_id ≡ vul_confirmed) (save_row (confirm now v) vuls)
save_row-confirms now v [] = tt
save_row-confirms now v (w ∷ vuls) =
    let rest = save_row-confirms now v vuls in
    elim (Bool-cases (w.id == v.id)) [
      | inl e ↦ rw e ((λ q. refl), rest)
      | inr e ↦ rw e ((λ q. absurd (let same = (nat_beq_iff w.id v.id).1 q in cc)), rest)
    ]

-- If the replay of a vulnerability that is not excluded finds a flow of its strategy, then it returns the
-- vulnerability as confirmed, which it is in the table, and no replay of it is left open.
pub handler_replay_vul-confirms :
    (around : Surroundings) (m : VulMeta) (s : Sighting) (now relation_id replay_id : ℕ)
    (t : Tables) (v : Vul)
    → found_vul (is_referred around relation_id) t.store.vuls ≡ some v
    → (v.strategy_id == s.strategy_id) ≡ true
    → let out = handler_replay_vul around m s now relation_id replay_id t in
      (out.0 ≡ saved (confirm now v))
      × All (λ w. w.id ≡ v.id → w.status_id ≡ vul_confirmed) out.1.store.vuls
      × All (λ r. IsFor v.id r → IsClosed r) out.1.queue.rows
unfolding handler_replay_vul confirm_vul
handler_replay_vul-confirms around m s now relation_id replay_id t v found same =
    rw (handler_replay_vul, found, same)
      (refl, save_row-confirms now v t.store.vuls, confirmed-IsClosed now replay_id v.id t.queue)
