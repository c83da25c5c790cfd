-- ===== src/Threads/Routing/Composed.antt =====
-- One choice after another, and a choice with a plugin beside one without.
use llama_pack.Prelude.{
  ℕ, Bool, true, false, ◌≡◌, ◌≢◌, refl, sym, ◌∙◌, ap, subst, ◌⊎◌, inl, inr, Option, none, some,
  List, [], ◌∷◌, ◌++◌, arith, Bool-cases, Option-cases, text_eq, text_eq_iff, text_has_eq,
  if◌then◌else◌, ◌||◌,
}
use llama_pack.Prelude.Dict.{lookup}
use llama_pack.Prelude.Json.{str, Fields, end, field, get}
use llama_pack.Prelude.Text.{Text, codes}
use llama_pack.Threads.Routing.Probes.{
  CheckResult, returned, raised, Probes, NodeConfig, Config, Candidate, candidate,
  candidate_model_running, answered, ClassifierHint, RouteDecision, Choice, chosen, error,
}
use llama_pack.Threads.Routing.Choice.{
  text_field, previous_pair, choose_thread_affinity, or_else, choose_auto, choose_deterministic,
}
use llama_pack.Threads.Routing.Plugin.{
  RoutingPlugin, effective_request_type, annotate_reason, annotate_decision, annotate_choice,
  consult, consult_plugin, choose,
}
use llama_pack.Threads.Routing.Served.{Running, running_check-same}
use llama_pack.Threads.Routing.Sources.{KnownNode}
use llama_pack.Threads.Routing.Liveness.{is_no_target, no_node_prefix}

-- {"node": node, "model": model}
abbrev pub recorded_route : Text → Text → Fields
recorded_route node model = field (codes "node") (str node) (field (codes "model") (str model) end)

-- A choice for that node and model, for the sake of the thread.
abbrev pub StaysAt : Text → Text → Choice → Type 0
StaysAt node model (chosen d) =
    (d.node ≡ node)
    × (d.model ≡ model)
    × (d.reason ≡ codes "thread_affinity")
    × (d.startup_needed ≡ false)
StaysAt node model (error message) = ⊥

previous_pair-recorded_route :
    (node model : Text) → previous_pair (some (recorded_route node model)) ≡ some (node, model)
unfolding previous_pair text_field get llama_pack.Prelude.Equality.text_eq
previous_pair-recorded_route node model = refl

module _ (cfg : Config) (p : Probes) where
  reports : (c : Candidate) → Running p c.node c.model → (candidate_model_running p c).0 ≡ true
  unfolding candidate_model_running answered
  reports c r = rw (candidate_model_running, r) refl

  affinity-StaysAt :
      (node model : Text) (known : NodeConfig) (rest : Choice)
      → lookup node cfg.nodes ≡ some known
      → Running p node model
      → StaysAt node model
          (or_else (choose_thread_affinity cfg p (some (recorded_route node model))) rest)
  unfolding choose_thread_affinity or_else
  affinity-StaysAt node model known rest k r =
      let c = candidate node model (codes "previous_route") in
      let same = running_check-same p c in
      rw (choose_thread_affinity, previous_pair-recorded_route node model, k, reports c r)
        (same.0, same.1, refl, refl)

  -- In controller mode and without a named target, the choice for a previous route stays there, if
  -- its node is configured and its model runs.
  pub choose_deterministic-StaysAt :
      (request_type : Text) (requested : Option Text) (target node model : Text)
      → cfg.mode ≡ codes "controller"
      → (target ≡ []) ⊎ (target ≡ codes "auto")
      → KnownNode cfg node
      → Running p node model
      → StaysAt node model (
          choose_deterministic cfg p request_type requested target
            (some (recorded_route node model)))
  unfolding choose_deterministic choose_auto
  choose_deterministic-StaysAt request_type requested target node model mode auto known r =
      let is_controller = (text_eq_iff cfg.mode (codes "controller")).1 mode in
      elim (Option-cases (lookup node cfg.nodes)) [
        | inl n ↦ absurd (known n)
        | inr (found_node, k) ↦
            rw
              (
                choose_deterministic,
                is_controller,
                no_node_prefix target auto,
                is_no_target target auto,
              )
              (affinity-StaysAt node model found_node _ k r)
      ]

-- A choice annotated with a hint and with why the plugin did not choose.
abbrev pub Annotated : Option ClassifierHint → Text → Choice → Choice → Type 0
Annotated hint note (chosen d) (chosen e) =
    e ≡ record d { reason = d.reason ++ codes " (" ++ note ++ codes ")"; classifier_hint = hint }
Annotated hint note (error message) (error message') = message ≡ message'
Annotated hint note _ _ = ⊥

-- Why a plugin that answers so does not choose.
abbrev pub Declines : CheckResult (Option RouteDecision) → Text → Type 0
Declines (returned none) note = note ≡ codes "plugin_returned_none"
Declines (returned (some d)) note = ⊥
Declines (raised e) note = note ≡ codes "plugin_error:" ++ e.error_type

annotate_choice-Annotated :
    (hint : Option ClassifierHint) (n : ℕ) (note : Text) (o : Choice)
    → Annotated hint (n ∷ note) o (annotate_choice hint (some (n ∷ note)) o)
unfolding annotate_choice annotate_decision annotate_reason
annotate_choice-Annotated none n note (chosen d) = refl
annotate_choice-Annotated (some h) n note (chosen d) = refl
annotate_choice-Annotated hint n note (error message) = refl

-- A plugin that raises or returns nothing does not change where a turn goes: the choice is the
-- deterministic one for the hinted request type, with a note of what happened, and an error stays the
-- same error.
pub choose-Annotated :
    (cfg : Config) (p : Probes) (plugin : RoutingPlugin) (request_type : Text)
    (requested : Option Text) (target : Text) (previous : Option Fields)
    (hint : Option ClassifierHint) (note : Text)
    → Declines
        (plugin (effective_request_type hint request_type) requested target previous hint)
        note
    → Annotated hint note
        (choose_deterministic cfg p
          (effective_request_type hint request_type)
          requested
          target
          previous)
        (choose cfg p (some plugin) request_type requested target previous hint)
unfolding choose consult_plugin consult
choose-Annotated cfg p plugin request_type requested target previous hint note =
    by_answer (plugin (effective_request_type hint request_type) requested target previous hint)
      refl
  where
    by_answer :
        (a : CheckResult (Option RouteDecision))
        → plugin (effective_request_type hint request_type) requested target previous hint ≡ a
        → Declines a note
        → Annotated hint note
            (choose_deterministic cfg p
              (effective_request_type hint request_type)
              requested
              target
              previous)
            (choose cfg p (some plugin) request_type requested target previous hint)
    by_answer (returned none) e d =
        rw (choose, consult_plugin, e, d) (annotate_choice-Annotated hint _ _ _)
    by_answer (returned (some r)) e d = elim d [ ]
    by_answer (raised f) e d =
        rw (choose, consult_plugin, e, d) (annotate_choice-Annotated hint _ _ _)
