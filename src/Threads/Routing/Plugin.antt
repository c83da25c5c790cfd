-- ===== src/Threads/Routing/Plugin.antt =====
-- `choose` of routing.py: a plugin may choose first, and a hint of a classifier is kept with the
-- decision. The plugin is a parameter: what it returns or raises for its arguments.
use llama_pack.Prelude.{Option, none, some, [], ◌∷◌, ◌++◌}
use llama_pack.Prelude.Json.{Fields}
use llama_pack.Prelude.Text.{Text, codes}
use llama_pack.Threads.Routing.Probes.{
  CheckResult, returned, raised, Probes, Config, ClassifierHint, RouteDecision, Choice, chosen,
  error,
}
use llama_pack.Threads.Routing.Choice.{choose_deterministic}

abbrev pub RoutingPlugin : Type 0
RoutingPlugin =
    Text
    → Option Text
    → Text
    → Option Fields
    → Option ClassifierHint
    → CheckResult (Option RouteDecision)

-- hint.request_type if (hint and hint.request_type) else request_type
unfoldable pub effective_request_type : Option ClassifierHint → Text → Text
effective_request_type none request_type = request_type
effective_request_type (some hint) request_type = elim hint.request_type [
  | none ↦ request_type
  | some [] ↦ request_type
  | some (c ∷ s) ↦ c ∷ s
]

-- f"{decision.reason} ({plugin_fallback})" if plugin_fallback else decision.reason
unfoldable pub annotate_reason : Text → Option Text → Text
annotate_reason reason none = reason
annotate_reason reason (some []) = reason
annotate_reason reason (some (c ∷ s)) = reason ++ codes " (" ++ (c ∷ s) ++ codes ")"

unfoldable pub annotate_decision :
    RouteDecision → Option ClassifierHint → Option Text → RouteDecision
unfolding annotate_reason
annotate_decision decision none none = decision
annotate_decision decision hint plugin_fallback = record decision {
  reason = annotate_reason decision.reason plugin_fallback;
  classifier_hint = hint;
}

unfoldable pub annotate_choice : Option ClassifierHint → Option Text → Choice → Choice
annotate_choice hint plugin_fallback (chosen d) = chosen (annotate_decision d hint plugin_fallback)
annotate_choice hint plugin_fallback (error message) = error message

-- What the plugin's answer means: its decision, or why there is none.
pub data Consulted : Type 0 where
  decided : RouteDecision → Consulted
  fell_back : Option Text → Consulted

unfoldable pub consult : CheckResult (Option RouteDecision) → Consulted
consult (returned (some d)) = decided d
consult (returned none) = fell_back (some (codes "plugin_returned_none"))
consult (raised e) = fell_back (some (codes "plugin_error:" ++ e.error_type))

unfoldable pub consult_plugin :
    Option RoutingPlugin
    → Text
    → Option Text
    → Text
    → Option Fields
    → Option ClassifierHint
    → Consulted
unfolding consult
consult_plugin none request_type requested_model target previous_route hint = fell_back none
consult_plugin (some plugin) request_type requested_model target previous_route hint =
    consult (plugin request_type requested_model target previous_route hint)

unfoldable pub choose :
    Config
    → Probes
    → Option RoutingPlugin
    → Text
    → Option Text
    → Text
    → Option Fields
    → Option ClassifierHint
    → Choice
choose cfg p plugin request_type requested_model explicit_target previous_route hint =
    let effective = effective_request_type hint request_type in
    elim (consult_plugin plugin effective requested_model explicit_target previous_route hint) [
      | decided d ↦ chosen d
      | fell_back plugin_fallback ↦
          annotate_choice hint plugin_fallback
            (choose_deterministic cfg p effective requested_model explicit_target previous_route)
    ]
