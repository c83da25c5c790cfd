-- ===== src/Threads/Routing/FanoutFlag.antt =====
-- The policy of routing.py with fan-out off and with fan-out on.
use llama_pack.Prelude.{
  Bool, true, false, ◌≡◌, refl, ap, ◌⊎◌, inl, inr, Option, none, some, List, [], ◌∷◌, Bool-cases,
  Option-cases, text_eq, ◌||◌, text_leb, sort_by, text_has_eq,
}
use llama_pack.Prelude.Dict.{lookup}
use llama_pack.Prelude.Json.{Fields}
use llama_pack.Prelude.Text.{Text, codes, strip_prefix}
use llama_pack.Threads.Routing.Probes.{
  Probes, Config, Candidate, candidate, candidate_model_running, RouteDecision, Choice, chosen,
  error,
}
use llama_pack.Threads.Routing.Choice.{
  request_type_candidates, choose_request_type, choose_thread_affinity, or_else, after_request_type,
  choose_auto, or_model, fallback_loop, choose_fallback, decide_found, names_of,
  choose_explicit_node, choose_local_agent, single_local_model, choose_deterministic,
}

abbrev pub with_flag : Bool → Config → Config
with_flag b cfg = record cfg { routing_fanout_enabled = b }

-- The same error, or a decision for the same node, with the same model, strategy, reason and
-- candidates; what it says of a start is the same too, or is lost.
abbrev pub SameRoute : Choice → Choice → Type 0
SameRoute (chosen d) (chosen e) =
    (e.node ≡ d.node)
    × (e.model ≡ d.model)
    × (e.strategy ≡ d.strategy)
    × (e.reason ≡ d.reason)
    × (e.candidates ≡ d.candidates)
    × ((e ≡ d) ⊎ ((e.startup_needed ≡ false) × (e.startup_decision ≡ none)))
SameRoute (error message) (error message') = message' ≡ message
SameRoute _ _ = ⊥

SameRoute-refl : (o : Choice) → SameRoute o o
SameRoute-refl (chosen d) = (refl, refl, refl, refl, refl, inl refl)
SameRoute-refl (error message) = refl

SameRoute-or_else :
    (o : Option RouteDecision) (c c' : Choice)
    → SameRoute c c'
    → SameRoute (or_else o c) (or_else o c')
unfolding or_else
SameRoute-or_else none c c' h = h
SameRoute-or_else (some d) c c' h = SameRoute-refl (chosen d)

-- The choices but the one by request type do not read the flag.
module _ (b : Bool) (cfg : Config) (p : Probes) where
  fallback_loop-flag :
      (requested : Option Text) (names : List Text) (before : List Candidate)
      → fallback_loop (with_flag b cfg) p requested before names
        ≡ fallback_loop cfg p requested before names
  unfolding fallback_loop
  fallback_loop-flag requested [] before = refl
  fallback_loop-flag requested (name ∷ names) before = elim (Option-cases (lookup name cfg.nodes)) [
    | inl none_there ↦ rw (fallback_loop, none_there) (fallback_loop-flag requested names before)
    | inr (node, there) ↦ elim (Option-cases (or_model requested node.default_model)) [
      | inl no_model ↦
          rw (fallback_loop, there, no_model) (fallback_loop-flag requested names before)
      | inr (model, named) ↦
          let asked = candidate_model_running p (candidate name model (codes "fallback")) in
          elim (Bool-cases asked.0) [
            | inl r ↦ rw (fallback_loop, there, named, r) refl
            | inr r ↦ rw (fallback_loop, there, named, r) (fallback_loop-flag requested names _)
          ]
    ]
  ]

  choose_fallback-flag :
      (requested : Option Text)
      → choose_fallback (with_flag b cfg) p requested ≡ choose_fallback cfg p requested
  unfolding choose_fallback
  choose_fallback-flag requested =
      ap (decide_found p (codes "fallback"))
        (fallback_loop-flag requested (sort_by text_leb (names_of cfg.nodes)) [])

  choose_thread_affinity-flag :
      (previous : Option Fields)
      → choose_thread_affinity (with_flag b cfg) p previous ≡ choose_thread_affinity cfg p previous
  unfolding choose_thread_affinity
  choose_thread_affinity-flag previous = refl

  choose_request_type-flag :
      (request_type : Text)
      → choose_request_type (with_flag b cfg) p request_type
        ≡ choose_request_type cfg p request_type
  unfolding choose_request_type request_type_candidates
  choose_request_type-flag request_type = refl

  choose_explicit_node-flag :
      (name : Text) (requested : Option Text)
      → choose_explicit_node (with_flag b cfg) p name requested
        ≡ choose_explicit_node cfg p name requested
  unfolding choose_explicit_node
  choose_explicit_node-flag name requested = refl

  choose_local_agent-flag :
      (requested : Option Text) (previous : Option Fields)
      → choose_local_agent (with_flag b cfg) p requested previous
        ≡ choose_local_agent cfg p requested previous
  unfolding choose_local_agent single_local_model
  choose_local_agent-flag requested previous = refl

module _ (cfg : Config) (p : Probes) (request_type : Text) (requested : Option Text) where
  after_request_type-SameRoute :
      (found : Option RouteDecision)
      → SameRoute
          (after_request_type (with_flag false cfg) p request_type requested found)
          (after_request_type (with_flag true cfg) p request_type requested found)
  unfolding after_request_type
  after_request_type-SameRoute (some d) = (refl, refl, refl, refl, refl, inr (refl, refl))
  after_request_type-SameRoute none =
      rw (choose_fallback-flag false cfg p requested, choose_fallback-flag true cfg p requested)
        (SameRoute-refl _)

  choose_auto-SameRoute :
      (previous : Option Fields)
      → SameRoute
          (choose_auto (with_flag false cfg) p request_type requested previous)
          (choose_auto (with_flag true cfg) p request_type requested previous)
  unfolding choose_auto
  choose_auto-SameRoute previous =
      rw
        (
          choose_auto,
          choose_thread_affinity-flag false cfg p previous,
          choose_thread_affinity-flag true cfg p previous,
          choose_fallback-flag false cfg p requested,
          choose_fallback-flag true cfg p requested,
          choose_request_type-flag false cfg p request_type,
          choose_request_type-flag true cfg p request_type,
        )
        (SameRoute-or_else _ _ _ (SameRoute-or_else _ _ _ (after_request_type-SameRoute _)))

  -- Fan-out does not change where a turn goes: whatever is asked for, with fan-out on the policy
  -- returns the same error as with fan-out off, or decides for the same node and model, with the same
  -- strategy, reason and candidates. What that decision says of a start is the same as with fan-out
  -- off, or is that none is needed.
  pub choose_deterministic-SameRoute :
      (target : Text) (previous : Option Fields)
      → SameRoute
          (choose_deterministic (with_flag false cfg) p request_type requested target previous)
          (choose_deterministic (with_flag true cfg) p request_type requested target previous)
  unfolding choose_deterministic
  choose_deterministic-SameRoute target previous =
      elim (Bool-cases (text_eq cfg.mode (codes "controller"))) [
        | inl controller ↦ elim (Option-cases (strip_prefix (codes "node:") target)) [
          | inl no_node ↦ elim (Bool-cases (text_eq target [] || text_eq target (codes "auto"))) [
            | inl auto ↦
                rw (choose_deterministic, controller, no_node, auto)
                  (choose_auto-SameRoute previous)
            | inr other ↦ rw (choose_deterministic, controller, no_node, other) refl
          ]
          | inr (name, named) ↦
              rw
                (
                  choose_deterministic,
                  controller,
                  named,
                  choose_explicit_node-flag false cfg p name requested,
                  choose_explicit_node-flag true cfg p name requested,
                )
                (SameRoute-refl _)
        ]
        | inr agent ↦
            rw
              (
                choose_deterministic,
                agent,
                choose_local_agent-flag false cfg p requested previous,
                choose_local_agent-flag true cfg p requested previous,
              )
              (SameRoute-refl _)
      ]
