-- ===== src/Strategies/Loaded.antt =====
-- Which sinks are loaded: each signature once, and no signature is lost.
use dong_tai_server.Prelude.{
  ℕ, ◌≡◌, refl, sym, ◌∙◌, ap, subst, ◌⊎◌, inl, inr, true, false, Option, some, List, [], ◌∷◌, ◌∈◌,
  map, contains, contains_iff, Bool-cases, Option-cases, number_comparison, text_comparison,
}
use dong_tai_server.Prelude.Text.{Text}
use dong_tai_server.TaintOrigin.Listed.{NoRepeats}
use dong_tai_server.Strategies.{
  Strategy, Hook, Sink, template_ids, type_query, languages, language_id_of, strategy_models,
  strategy_of, sink_of, first_of_each, load_sink_strategy,
}

abbrev pub values : List Sink → List Text
values sinks = map (λ s. s.value) sinks

seen_lem : (seen : List Text) (v : Text) → contains seen v ≡ false → ¬ (v ∈ seen)
seen_lem seen v e m = let there = (contains_iff seen v).1 m in cc

first_of_each-fresh :
    (seen : List Text) (sinks : List Sink) (v : Text)
    → v ∈ values (first_of_each seen sinks)
    → ¬ (v ∈ seen)
unfolding first_of_each
first_of_each-fresh seen [] v m = absurd m
first_of_each-fresh seen (s ∷ sinks) v m = elim (Bool-cases (contains seen s.value)) [
  | inl e ↦ first_of_each-fresh seen sinks v (rw (first_of_each, e) at m)
  | inr e ↦ elim (rw (first_of_each, e) at m) [
    | inl q ↦ λ k. seen_lem seen s.value e (subst (λ x. x ∈ seen) q k)
    | inr k ↦ λ there. first_of_each-fresh (s.value ∷ seen) sinks v k (inr there)
  ]
]

first_of_each-NoRepeats :
    (seen : List Text) (sinks : List Sink) → NoRepeats (values (first_of_each seen sinks))
unfolding first_of_each
first_of_each-NoRepeats seen [] = tt
first_of_each-NoRepeats seen (s ∷ sinks) = elim (Bool-cases (contains seen s.value)) [
  | inl e ↦ rw (first_of_each, e) (first_of_each-NoRepeats seen sinks)
  | inr e ↦
      rw (first_of_each, e)
        (
          (λ m. first_of_each-fresh (s.value ∷ seen) sinks s.value m (inl refl)),
          first_of_each-NoRepeats (s.value ∷ seen) sinks,
        )
]

mem-first_of_each :
    (seen : List Text) (sinks : List Sink) (s : Sink) → s ∈ first_of_each seen sinks → s ∈ sinks
unfolding first_of_each
mem-first_of_each seen [] s m = absurd m
mem-first_of_each seen (t ∷ sinks) s m = elim (Bool-cases (contains seen t.value)) [
  | inl e ↦ inr (mem-first_of_each seen sinks s (rw (first_of_each, e) at m))
  | inr e ↦ elim (rw (first_of_each, e) at m) [
    | inl q ↦ inl q
    | inr k ↦ inr (mem-first_of_each (t.value ∷ seen) sinks s k)
  ]
]

-- The signature of every sink is among those of the result, or was seen before.
first_of_each-keeps :
    (seen : List Text) (sinks : List Sink) (s : Sink)
    → s ∈ sinks
    → (s.value ∈ values (first_of_each seen sinks)) ⊎ (s.value ∈ seen)
unfolding first_of_each
first_of_each-keeps seen [] s m = absurd m
first_of_each-keeps seen (t ∷ sinks) s m = elim (Bool-cases (contains seen t.value)) [
  | inl e ↦
      rw (first_of_each, e)
        (elim m [
          | inl q ↦
              inr (subst (λ (x : Sink). x.value ∈ seen) (sym q) ((contains_iff seen t.value).0 e))
          | inr k ↦ first_of_each-keeps seen sinks s k
        ])
  | inr e ↦
      rw (first_of_each, e)
        (elim m [
          | inl q ↦ inl (inl (ap (λ (x : Sink). x.value) q))
          | inr k ↦ elim (first_of_each-keeps (t.value ∷ seen) sinks s k) [
            | inl h ↦ inl (inr h)
            | inr (inl q) ↦ inl (inl q)
            | inr (inr h) ↦ inr h
          ]
        ])
]

-- The hook is one of a strategy of the list and of one of the languages.
abbrev pub Selects : List ℕ → List Strategy → List Hook → Sink → Type 0
Selects language_ids strategies hooks sink =
    (h : Hook) × (s : Strategy) × (h ∈ hooks)
    × (strategy_of h.strategy_id strategies ≡ some s)
    × (contains language_ids h.language_id ≡ true)
    × (sink ≡ sink_of h s)

selected-mem :
    (language_ids : List ℕ) (strategies : List Strategy) (hooks : List Hook) (sink : Sink)
    → Selects language_ids strategies hooks sink
    → sink ∈ strategy_models language_ids strategies hooks
unfolding strategy_models
selected-mem language_ids strategies [] sink (h, s, there, known, spoken, same) = absurd there
selected-mem language_ids strategies (g ∷ hooks) sink (h, s, inl q, known, spoken, same) =
    let known' : strategy_of g.strategy_id strategies ≡ some s =
      ap (λ (x : Hook). strategy_of x.strategy_id strategies) (sym q) ∙ known in
    let spoken' : contains language_ids g.language_id ≡ true =
      ap (λ (x : Hook). contains language_ids x.language_id) (sym q) ∙ spoken in
    rw (strategy_models, known', spoken') (inl (same ∙ ap (λ (x : Hook). sink_of x s) q))
selected-mem language_ids strategies (g ∷ hooks) sink (h, s, inr m, known, spoken, same) =
    let rest = selected-mem language_ids strategies hooks sink (h, s, m, known, spoken, same) in
    elim (Option-cases (strategy_of g.strategy_id strategies)) [
      | inl e ↦ rw (strategy_models, e) rest
      | inr (t, e) ↦ elim (Bool-cases (contains language_ids g.language_id)) [
        | inl f ↦ rw (strategy_models, e, f) (inr rest)
        | inr f ↦ rw (strategy_models, e, f) rest
      ]
    ]

mem-selected :
    (language_ids : List ℕ) (strategies : List Strategy) (hooks : List Hook) (sink : Sink)
    → sink ∈ strategy_models language_ids strategies hooks
    → Selects language_ids strategies hooks sink
unfolding strategy_models
mem-selected language_ids strategies [] sink m = absurd m
mem-selected language_ids strategies (g ∷ hooks) sink m =
    elim (Option-cases (strategy_of g.strategy_id strategies)) [
      | inl e ↦
          later g (mem-selected language_ids strategies hooks sink (rw (strategy_models, e) at m))
      | inr (t, e) ↦ elim (Bool-cases (contains language_ids g.language_id)) [
        | inl f ↦ elim (rw (strategy_models, e, f) at m) [
          | inl q ↦ (g, t, inl refl, e, f, q)
          | inr k ↦ later g (mem-selected language_ids strategies hooks sink k)
        ]
        | inr f ↦
            later g
              (mem-selected language_ids strategies hooks sink (rw (strategy_models, e, f) at m))
      ]
    ]
  where
    later :
        (g : Hook)
        → Selects language_ids strategies hooks sink
        → Selects language_ids strategies (g ∷ hooks) sink
    later g (h, s, there, known, spoken, same) = (h, s, inr there, known, spoken, same)

-- If the scan template is a list of numbers, then sinks are loaded, each is that of a hook of an enabled
-- strategy that the template allows, in a language that is asked for, no signature comes twice, and the
-- signature of every such hook is there.
pub load_sink_strategy-exact :
    (language content : Option Text) (strategies : List Strategy) (hooks : List Hook)
    (ids : Option (List ℕ))
    → template_ids content ≡ some ids
    → (sinks : List Sink) × (load_sink_strategy language content strategies hooks ≡ some sinks)
      × NoRepeats (values sinks)
      × ((s : Sink)
          → s ∈ sinks
          → Selects (languages (language_id_of language)) (type_query ids strategies) hooks s)
      × ((s : Sink)
          → Selects (languages (language_id_of language)) (type_query ids strategies) hooks s
          → s.value ∈ values sinks)
unfolding load_sink_strategy
load_sink_strategy-exact language content strategies hooks ids e =
    let language_ids = languages (language_id_of language) in
    let chosen = type_query ids strategies in
    let models = strategy_models language_ids chosen hooks in
    (
      first_of_each [] models,
      rw (load_sink_strategy, e) refl,
      first_of_each-NoRepeats [] models,
      (λ s m. mem-selected language_ids chosen hooks s (mem-first_of_each [] models s m)),
      (λ s k. elim (first_of_each-keeps [] models s (selected-mem language_ids chosen hooks s k)) [
        | inl h ↦ h
        | inr z ↦ absurd z
      ]),
    )
