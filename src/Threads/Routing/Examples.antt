-- ===== src/Threads/Routing/Examples.antt =====
-- Two nodes with a route for general requests, and the theorems of routing.py at them.
use mathlib.Core.List.{Mem}
use llama_pack.Prelude.{
  suc, ◌≤◌, max, Bool, true, false, ◌≡◌, ◌≢◌, refl, ◌⊎◌, inl, inr, Option, none, some, List, [],
  ◌∷◌, All, length, text_has_eq, sort_by, text_leb, if◌then◌else◌,
}
use llama_pack.Prelude.Equality.{text_eq}
use llama_pack.Prelude.Dict.{lookup}
use llama_pack.Prelude.Text.{strip_prefix}
use llama_pack.Prelude.Int.{ℤ, pos}
use llama_pack.Prelude.Text.{Text, codes}
use llama_pack.Threads.Routing.Probes.{
  CheckResult, returned, raised, Probes, NodeConfig, Config, chosen, RouteDecision, decision,
  candidate, Candidate, candidate_model_running, answered, before_in_order, get_artifact_presence,
  candidate_artifact_presence, is_startup_allowed, candidate_startup_allowed, start_now,
}
use llama_pack.Threads.Routing.Availability.{
  choose_available_candidate, has_state, best_or, presence_loop, best_of, set, decide_present,
  choose_present,
}
use llama_pack.Threads.Routing.Choice.{
  choose_deterministic, choose_request_type, choose_auto, choose_thread_affinity, names_profile,
  routes_for, candidate_of, collect_fanout_targets, or_model, running_loop, decide_found,
  request_type_candidates, previous_pair, or_else, after_request_type,
}
use llama_pack.Threads.Routing.Plugin.{RoutingPlugin, effective_request_type, choose}
use llama_pack.Threads.Routing.Served.{Served}
use llama_pack.Threads.Routing.Sound.{Routable, choose_deterministic-Served}
use llama_pack.Threads.Routing.Liveness.{Offers, choose_deterministic-decides}
use llama_pack.Threads.Routing.Order.{First, choose_request_type-First}
use llama_pack.Threads.Routing.Preference.{choose_available-prefers}
use llama_pack.Threads.Routing.Fanout.{GoodTarget, collect_fanout_targets-good}
use llama_pack.Threads.Routing.FanoutFlag.{with_flag, SameRoute, choose_deterministic-SameRoute}
use llama_pack.Threads.Routing.Composed.{Annotated, choose-Annotated}

abbrev node_a : NodeConfig
node_a = record {
  default_model = none;
  request_types = (codes "general", record { model = codes "big"; priority = pos 5 }) ∷ [];
}

abbrev node_b : NodeConfig
node_b = record {
  default_model = some (codes "small");
  request_types = (codes "general", record { model = codes "mid"; priority = pos 1 }) ∷ [];
}

abbrev two_nodes : Bool → Config
two_nodes fanout = record {
  mode = codes "controller";
  models = [];
  nodes = (codes "a", node_a) ∷ (codes "b", node_b) ∷ [];
  routing_fanout_enabled = fanout;
  routing_fanout_max = pos 2;
}

-- Every model runs.
abbrev all_run : Probes
all_run = record {
  model_running = λ node model. returned true;
  model_available = λ node model. returned true;
  model_artifact_presence = none;
  node_startup_allowed = none;
}

-- No model runs, and each is registered where its node is "a", and a file elsewhere.
abbrev presence_a : Text → Text → CheckResult (Option Text)
presence_a node model =
    returned (some (if text_eq node (codes "a") then codes "registered" else codes "gguf_present"))

abbrev none_run : Probes
none_run = record {
  model_running = λ node model. returned false;
  model_available = λ node model. raised (record { error_type = codes "OSError"; message = [] });
  model_artifact_presence = some presence_a;
  node_startup_allowed = none;
}

abbrev candidate_a : Candidate
candidate_a = record (candidate (codes "a") (codes "big") (codes "request_type")) {
  priority = some (pos 5);
}

abbrev candidate_b : Candidate
candidate_b = record (candidate (codes "b") (codes "mid") (codes "request_type")) {
  priority = some (pos 1);
}

-- The choice by request type where all models run.
abbrev runs_b : RouteDecision
runs_b =
    decision (codes "b") (codes "mid") (codes "deterministic") (codes "request_type")
      (record candidate_b { model_running = some true } ∷ candidate_a ∷ [])

-- The choice by request type where none does.
abbrev starts_a : RouteDecision
starts_a =
    record (decision (codes "a") (codes "big") (codes "deterministic")
      (codes "request_type_artifact_registered")
      (record candidate_b {
        model_running = some false;
        artifact_state = some (some (codes "gguf_present"));
      }
        ∷ record candidate_a {
          model_running = some false;
          artifact_state = some (some (codes "registered"));
        }
        ∷ [])) { startup_needed = true; startup_decision = some start_now }

by_running : choose_request_type (two_nodes false) all_run (codes "general") ≡ some runs_b
unfolding choose_request_type request_type_candidates routes_for running_loop decide_found
    candidate_model_running answered before_in_order lookup text_eq sort_by text_leb
by_running = refl

by_presence :
    (fanout : Bool)
    → choose_request_type (two_nodes fanout) none_run (codes "general") ≡ some starts_a
unfolding choose_request_type request_type_candidates routes_for running_loop decide_found
    candidate_model_running answered before_in_order lookup text_eq sort_by text_leb
    choose_available_candidate choose_present presence_loop best_or best_of has_state
    candidate_artifact_presence get_artifact_presence decide_present candidate_startup_allowed
    is_startup_allowed set
by_presence fanout = refl

decides_b :
    choose_deterministic (two_nodes false) all_run (codes "general") none (codes "auto") none
    ≡ chosen runs_b
unfolding choose_deterministic strip_prefix choose_auto choose_thread_affinity previous_pair
    names_profile or_else after_request_type text_eq
decides_b = rw (by_running) refl

choose_deterministic-Served_example : Served all_run (Routable (two_nodes false)) runs_b
choose_deterministic-Served_example =
    choose_deterministic-Served (two_nodes false) all_run (codes "general") none (codes "auto") none
      runs_b refl decides_b

b-Offers_small : Offers (two_nodes false) (codes "coding") none (codes "b") (codes "small")
unfolding lookup text_eq or_model
b-Offers_small = (node_b, refl, inr refl)

choose_deterministic-decides_example :
    (d : RouteDecision) × (choose_deterministic
        (two_nodes false)
        all_run
        (codes "coding")
        none
        (codes "auto")
        none
      ≡ chosen d)
choose_deterministic-decides_example =
    choose_deterministic-decides (two_nodes false) all_run (codes "coding") none (codes "auto") none
      (codes "b") (codes "small") refl (inr refl) b-Offers_small (inl refl)

choose_request_type-First_example :
    (r : ℤ × Candidate) × Mem r (routes_for (codes "general") (two_nodes false).nodes)
    × (codes "b" ≡ (candidate_of r).node)
    × (codes "mid" ≡ (candidate_of r).model)
    × First all_run r (routes_for (codes "general") (two_nodes false).nodes)
choose_request_type-First_example =
    choose_request_type-First (two_nodes false) all_run (codes "general") runs_b by_running refl

abbrev tried : List Candidate
tried = candidate (codes "b") (codes "mid") (codes "explicit") ∷ []

abbrev starts_b : RouteDecision
starts_b =
    record (decision (codes "b") (codes "mid") (codes "deterministic")
      (codes "explicit_target_artifact_gguf_present")
      (record (candidate (codes "b") (codes "mid") (codes "explicit")) {
        artifact_state = some (some (codes "gguf_present"));
      }
        ∷ [])) { startup_needed = true; startup_decision = some start_now }

file_only : choose_available_candidate none_run tried (codes "explicit_target") ≡ some starts_b
unfolding choose_available_candidate choose_present presence_loop best_or best_of has_state
    candidate_artifact_presence get_artifact_presence decide_present candidate_startup_allowed
    is_startup_allowed set answered text_eq
file_only = refl

choose_available-prefers_example :
    (presence_a (codes "b") (codes "mid") ≡ returned (some (codes "registered")))
    ⊎ ((presence_a (codes "b") (codes "mid") ≡ returned (some (codes "gguf_present")))
        × All (λ c. presence_a c.node c.model ≢ returned (some (codes "registered"))) tried)
choose_available-prefers_example =
    choose_available-prefers none_run presence_a (codes "explicit_target") tried starts_b refl
      file_only

collect_fanout_targets-good_example :
    All
      (GoodTarget (two_nodes true) all_run (codes "b"))
      (collect_fanout_targets (two_nodes true) all_run (codes "b") (codes "general"))
    × (suc (length (collect_fanout_targets (two_nodes true) all_run (codes "b") (codes "general")))
        ≤ max 1 2)
collect_fanout_targets-good_example =
    collect_fanout_targets-good (two_nodes true) all_run (codes "b") (codes "general")

choose_deterministic-SameRoute_example :
    SameRoute
      (choose_deterministic
        (with_flag false (two_nodes true))
        none_run
        (codes "general")
        none
        (codes "auto")
        none)
      (choose_deterministic
        (with_flag true (two_nodes true))
        none_run
        (codes "general")
        none
        (codes "auto")
        none)
choose_deterministic-SameRoute_example =
    choose_deterministic-SameRoute (two_nodes true) none_run (codes "general") none (codes "auto")
      none

abbrev broken_plugin : RoutingPlugin
broken_plugin request_type requested target previous hint =
    raised (record { error_type = codes "KeyError"; message = [] })

choose-Annotated_example :
    Annotated none
      (codes "plugin_error:KeyError")
      (choose_deterministic
        (two_nodes false)
        all_run
        (effective_request_type none (codes "general"))
        none
        (codes "auto")
        none)
      (choose
        (two_nodes false)
        all_run
        (some broken_plugin)
        (codes "general")
        none
        (codes "auto")
        none
        none)
choose-Annotated_example =
    choose-Annotated (two_nodes false) all_run broken_plugin (codes "general") none (codes "auto")
      none none (codes "plugin_error:KeyError") refl
