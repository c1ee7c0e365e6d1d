-- ===== src/HeaderRules/Cases.antt =====
-- record_vul changes nothing, or writes the vulnerability and the header of a rule.
use dong_tai_server.Prelude.{ℕ, Bool, true, false, Option, none, some, [], ◌∷◌, ◌++◌, if◌then◌else◌}
use dong_tai_server.Prelude.Text.{Text}
use dong_tai_server.SaveVul.{Store}
use dong_tai_server.SaveVul.Save.{is_held}
use dong_tai_server.HeaderRules.{
  Rule, ReportedPool, Context, Findings, rule_of, is_strategy_enable, put_vul, put_header, lock_key,
  record_vul,
}

module _ (context : Context) (now : ℕ) (p : ReportedPool) (vul_type position value : Text)
    (t : Findings) where
  abbrev pub started : Store
  started = record t.store { project_updates = t.store.project_updates ++ p.meta.project_id ∷ [] }

  abbrev pub written : Rule → Findings
  written r =
      let (v, st) = put_vul context p r position value now started in
      put_header context p v (record t { store = st })

  module _ (P : Findings → Type 0) (same : P t) (writes : (r : Rule) → P (written r)) where
    unless_held : (r : Rule) (held : Bool) → P (if held then t else written r)
    unless_held r true = same
    unless_held r false = writes r

    if_enabled :
        (enabled : Bool) (o : Option Rule)
        → P (
            if enabled
            then (elim o [
              | none ↦ t
              | some r ↦ if is_held (lock_key context p r) t.store.held then t else written r
            ])
            else t)
    if_enabled false o = same
    if_enabled true none = same
    if_enabled true (some r) = unless_held r (is_held (lock_key context p r) t.store.held)

    pub record_vul-cases : P (record_vul context now vul_type position value p t)
    unfolding record_vul is_strategy_enable
    record_vul-cases =
        if_enabled (is_strategy_enable context vul_type p)
          (rule_of context vul_type p.user_id context.rules)
