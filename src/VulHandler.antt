-- ===== src/VulHandler.antt =====
-- handler_replay_vul and handler_vul of dongtai_engine/signals/handlers/vul_handler.py: what becomes of
-- a taint flow that is found in a method pool or in a replay, in the table of vulnerabilities, in the
-- replay queue, and in the relations to the findings of other scanners.
pub mod Confirmed
pub mod Queued
mod Tests
use dong_tai_server.Prelude.{
  ℕ, Bool, true, false, not, ◌&&◌, ◌||◌, Option, none, some, List, [], ◌∷◌, ◌++◌, map, filter,
  contains, if◌then◌else◌, ◌==◌, number_comparison, text_comparison,
}
use dong_tai_server.Prelude.Text.{Text, codes, starts_with}
use dong_tai_server.Prelude.Splits.{split}
use dong_tai_server.Heartbeat.{vul_replay}
use dong_tai_server.TaintOrigin.{Codecs, Names}
use dong_tai_server.ReplayQueue.{Queue, confirmed, create_vul_recheck_task}
use dong_tai_server.SaveVul.{
  VulMeta, Sighting, Vul, Store, Saved, raised, skipped, saved, vul_confirmed,
}
use dong_tai_server.SaveVul.Save.{save_vul, save_row, header_text}

-- A finding of another scanner that a mark leads to.
pub record DastVul : Type 0 where
  pub id : ℕ
  pub dongtai_vul_type : List Text
  pub urls : List Text

-- The value of "dast_validation_settings".
pub record DastSettings : Type 0 where
  pub validation_status : Bool
  pub strategy_ids : List ℕ

-- Code from elsewhere, and what the handlers look up: json.dumps and the decoders, the vul_validation
-- of the project of an agent, the global switch, the payloads of a strategy for an agent's user, the
-- type of a strategy, the settings and findings of other scanners, and `split()` and `strip()` of texts.
-- `excluded` is the test of Django's `status_id=(3, 5, 6)`.
pub record Surroundings : Type 0 where
  pub codecs : Codecs
  pub dumps : Names → Text
  pub validation : ℕ → Option ℕ
  pub global_state : Bool
  pub payloads : ℕ → ℕ → List ℕ
  pub excluded : ℕ → Bool
  pub words : Text → List Text
  pub strip : Text → Text
  pub vul_type : ℕ → Text
  pub dast_settings : Option DastSettings
  pub dast_vuls : Text → List DastVul

-- The tables, with IastvulDtMarkRelation and IastDastIntegrationRelation.
pub record Tables : Type 0 where
  pub store : Store
  pub queue : Queue
  pub marks : List (Text × ℕ)
  pub relations : List (ℕ × ℕ)

abbrev pub found_vul : (Vul → Bool) → List Vul → Option Vul
found_vul test [] = none
found_vul test (v ∷ vs) = let rest = found_vul test vs in if test v then some v else rest

-- `Q(pk=relation_id) & ~Q(status_id=…)`
abbrev pub is_referred : Surroundings → ℕ → Vul → Bool
is_referred around relation_id v = v.id == relation_id && not (around.excluded v.status_id)

abbrev pub confirm : ℕ → Vul → Vul
confirm now v = record v { status_id = vul_confirmed; latest_time = now }

-- The branch for the vulnerability that is found again.
pub confirm_vul : ℕ → VulMeta → ℕ → Vul → Tables → Saved × Tables
confirm_vul now m replay_id v t =
    let row = confirm now v in
    (
      saved row,
      record t {
        store = record t.store {
          vuls = save_row row t.store.vuls;
          project_updates = t.store.project_updates ++ m.project_id ∷ [];
        };
        queue = confirmed now replay_id v.id t.queue;
      },
    )

abbrev pub checked_again : Surroundings → ℕ → Vul → Queue → Queue
checked_again around now v q =
    create_vul_recheck_task (around.validation v.agent_id) around.global_state now v.id v.agent_id
      (around.payloads v.strategy_id v.agent_id) q

-- What follows save_vul. With `None` for the vulnerability, `vul.id` raises.
pub checked_saved : Surroundings → ℕ → Tables → Saved × Store → Saved × Tables
checked_saved around now t (raised, store) = (raised, record t { store = store })
checked_saved around now t (skipped, store) = (raised, record t { store = store })
checked_saved around now t (saved v, store) =
    (saved v, record t { store = store; queue = checked_again around now v t.queue })

pub save_and_check : Surroundings → VulMeta → Sighting → ℕ → Tables → Saved × Tables
unfolding checked_saved
save_and_check around m s now t =
    checked_saved around now t (save_vul around.codecs around.dumps m s now t.store)

-- Without a vulnerability the line of the log raises, as it reads `vul.strategy_id`.
pub handler_replay_vul : Surroundings → VulMeta → Sighting → ℕ → ℕ → ℕ → Tables → Saved × Tables
unfolding confirm_vul save_and_check
handler_replay_vul around m s now relation_id replay_id t =
    elim (found_vul (is_referred around relation_id) t.store.vuls) [
      | none ↦ (raised, t)
      | some v ↦
          if v.strategy_id == s.strategy_id
          then confirm_vul now m replay_id v t
          else save_and_check around m s now t
    ]

abbrev pub second : List Text → Option Text
second [] = none
second (a ∷ []) = none
second (a ∷ b ∷ rest) = some b

-- parse_dast_mark over the words of the header; `none` is the IndexError.
pub parse_dast_mark : (Text → Text) → List Text → Option Text
parse_dast_mark strip [] = some []
parse_dast_mark strip (w ∷ ws) =
    let rest = parse_dast_mark strip ws in
    if starts_with w (codes "dt-mark-header")
    then elim (second (split b':' w)) [ none ↦ none | some mark ↦ some (strip mark) ]
    else rest

abbrev pub has_text : List Text → Text → Bool
has_text [] s = false
has_text (x ∷ xs) s = x == s || has_text xs s

abbrev pub off_settings : Option DastSettings → ℕ → Bool
off_settings none strategy_id = false
off_settings (some d) strategy_id = d.validation_status && not (contains d.strategy_ids strategy_id)

-- Whether a finding of another scanner is the vulnerability.
pub is_same_finding : Surroundings → Vul → DastVul → Bool
is_same_finding around v d =
    not (off_settings around.dast_settings v.strategy_id)
    && (has_text d.dongtai_vul_type (around.vul_type v.strategy_id) && has_text d.urls v.uri)

-- The `if mark:`
pub bind_dast : Surroundings → Vul → Text → Tables → Tables
unfolding is_same_finding
bind_dast around v [] t = t
bind_dast around v (c ∷ mark) t = record t {
  marks = t.marks ++ (c ∷ mark, v.id) ∷ [];
  relations =
      t.relations
      ++ map (λ d. (v.id, d.id)) (filter (is_same_finding around v) (around.dast_vuls (c ∷ mark)));
}

-- The header that cannot be decoded is the empty text.
abbrev pub mark_of : Surroundings → Vul → Option Text
mark_of around v = elim (header_text around.codecs v.req_header) [
  | none ↦ parse_dast_mark around.strip (around.words [])
  | some header ↦ parse_dast_mark around.strip (around.words (around.strip header))
]

-- The branch for a method pool, after save_vul.
pub pool_saved : Surroundings → ℕ → Tables → Saved × Store → Saved × Tables
unfolding bind_dast parse_dast_mark
pool_saved around now t (raised, store) = (raised, record t { store = store })
pool_saved around now t (skipped, store) = (skipped, record t { store = store })
pool_saved around now t (saved v, store) = elim (mark_of around v) [
  | none ↦ (raised, record t { store = store })
  | some mark ↦
      let bound = bind_dast around v mark (record t { store = store }) in
      (saved v, record bound { queue = checked_again around now v bound.queue })
]

pub handle_pool : Surroundings → VulMeta → Sighting → ℕ → Tables → Saved × Tables
unfolding pool_saved
handle_pool around m s now t =
    pool_saved around now t (save_vul around.codecs around.dumps m s now t.store)

-- What was searched: a method pool, or a replay with its type, the vulnerability and its row in the queue.
pub data Searched : Type 0 where
  method_pool : Searched
  replay : ℕ → ℕ → ℕ → Searched

abbrev pub request_replay : ℕ
request_replay = 2

pub handler_vul : Surroundings → Searched → VulMeta → Sighting → ℕ → Tables → Saved × Tables
unfolding handler_replay_vul handle_pool save_and_check
handler_vul around method_pool m s now t = handle_pool around m s now t
handler_vul around (replay replay_type relation_id replay_id) m s now t =
    if replay_type == vul_replay
    then handler_replay_vul around m s now relation_id replay_id t
    else if replay_type == request_replay
    then (skipped, t)
    else save_and_check around m s now t
