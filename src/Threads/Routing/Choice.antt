-- ===== src/Threads/Routing/Choice.antt =====
-- `_choose_deterministic` of routing.py and the choices that it is made of.
use llama_pack.Prelude.{
  ℕ, ◌-◌, text_has_eq, Bool, true, false, ◌||◌, Option, none, some, List, [], ◌∷◌, ◌++◌, map,
  nat_eq, text_eq, text_leb, sort_by, if◌then◌else◌,
}
use llama_pack.Prelude.Dict.{Dict, lookup}
use llama_pack.Prelude.Int.{ℤ, pos, negsuc}
use llama_pack.Prelude.Json.{str, Fields, get}
use llama_pack.Prelude.Text.{Text, codes, strip_prefix}
use llama_pack.Threads.Routing.Probes.{
  Probes, NodeConfig, Config, Candidate, candidate, candidate_model_running, before_in_order,
  Target, RouteDecision, decision, Choice, chosen, error,
}
use llama_pack.Threads.Routing.Availability.{choose_available_candidate}

-- `a or b` at models: an empty name is passed over.
unfoldable pub or_model : Option Text → Option Text → Option Text
or_model (some (c ∷ s)) other = some (c ∷ s)
or_model (some []) other = other
or_model none other = other

-- A loop over candidates stops at the first whose model runs.
pub data Found : Type 0 where
  found : Candidate → List Candidate → Found
  missed : List Candidate → Found

unfoldable pub running_loop : Probes → List Candidate → List Candidate → Found
running_loop p before [] = missed before
running_loop p before (c ∷ rest) =
    let (running, c') = candidate_model_running p c in
    elim running [
      | true ↦ let c'' = record c' { model_running = some true } in found c'' (before ++ c'' ∷ rest)
      | false ↦ running_loop p (before ++ record c' { model_running = some false } ∷ []) rest
    ]

abbrev pub deterministic : Text → Candidate → List Candidate → RouteDecision
deterministic reason c candidates =
    decision c.node c.model (codes "deterministic") reason candidates

-- The return within the loop, or the availability pass after it.
unfoldable pub decide_found : Probes → Text → Found → Option RouteDecision
decide_found p reason (found c candidates) = some (deterministic reason c candidates)
decide_found p reason (missed candidates) = choose_available_candidate p candidates reason

-- The nodes with a route for the request type, with their priorities.
unfoldable pub routes_for : Text → Dict Text NodeConfig → List (ℤ × Candidate)
routes_for request_type [] = []
routes_for request_type ((node_name, node) ∷ rest) = elim (lookup request_type node.request_types) [
  | none ↦ routes_for request_type rest
  | some route ↦
      (
        route.priority,
        record (candidate node_name route.model (codes "request_type")) {
          priority = some route.priority;
        },
      )
      ∷ routes_for request_type rest
]

abbrev pub candidate_of : ℤ × Candidate → Candidate
candidate_of (priority, c) = c

unfoldable pub request_type_candidates : Config → Text → List Candidate
unfolding routes_for
request_type_candidates cfg request_type =
    map candidate_of (sort_by before_in_order (routes_for request_type cfg.nodes))

unfoldable pub choose_request_type : Config → Probes → Text → Option RouteDecision
choose_request_type cfg p request_type =
    decide_found p (codes "request_type")
      (running_loop p [] (request_type_candidates cfg request_type))

-- The loop of `_choose_fallback` over the names that are left. Only the candidates so far are kept.
unfoldable pub fallback_loop : Config → Probes → Option Text → List Candidate → List Text → Found
fallback_loop cfg p requested_model before [] = missed before
fallback_loop cfg p requested_model before (node_name ∷ rest) = elim (lookup node_name cfg.nodes) [
  | none ↦ fallback_loop cfg p requested_model before rest
  | some node ↦ elim (or_model requested_model node.default_model) [
    | none ↦ fallback_loop cfg p requested_model before rest
    | some model ↦
        let (running, c) =
          candidate_model_running p (candidate node_name model (codes "fallback")) in
        elim running [
          | true ↦ let c' = record c { model_running = some true } in found c' (before ++ c' ∷ [])
          | false ↦
              fallback_loop cfg p requested_model
                (before ++ record c { model_running = some false } ∷ []) rest
        ]
  ]
]

abbrev pub names_of : Dict Text NodeConfig → List Text
names_of [] = []
names_of ((node_name, node) ∷ rest) = node_name ∷ names_of rest

unfoldable pub choose_fallback : Config → Probes → Option Text → Option RouteDecision
choose_fallback cfg p requested_model =
    decide_found p (codes "fallback")
      (fallback_loop cfg p requested_model [] (sort_by text_leb (names_of cfg.nodes)))

abbrev pub no_eligible : Text
no_eligible = codes "No eligible running model found"

-- previous_route.get(key), if it is a text.
unfoldable pub text_field : Text → Fields → Option Text
text_field key fields = elim (get key fields) [ some (str s) ↦ some s | _ ↦ none ]

unfoldable pub previous_route_model : Option Fields → Option Text
previous_route_model none = none
previous_route_model (some fields) = or_model (text_field (codes "model") fields) none

unfoldable pub single_local_model : Config → Option Text
single_local_model cfg = elim cfg.models [ model ∷ [] ↦ some model | _ ↦ none ]

unfoldable pub choose_local_agent : Config → Probes → Option Text → Option Fields → Choice
choose_local_agent cfg p requested_model previous_route =
    elim (or_model requested_model
      (or_model (previous_route_model previous_route) (single_local_model cfg))) [
        | none ↦ error no_eligible
        | some model ↦
            let (running, c) =
              candidate_model_running p (candidate (codes "local") model (codes "local")) in
            elim running [
              | true ↦ chosen (
                  decision (codes "local") model (codes "deterministic") (codes "local_agent")
                    (record c { model_running = some true } ∷ []))
              | false ↦ error no_eligible
            ]
      ]

unfoldable pub choose_explicit_node : Config → Probes → Text → Option Text → Choice
choose_explicit_node cfg p node_name requested_model = elim (lookup node_name cfg.nodes) [
  | none ↦ error (codes "Unknown node target: " ++ node_name)
  | some node ↦ elim (or_model requested_model node.default_model) [
    | none ↦ error (codes "No model specified for node target: " ++ node_name)
    | some model ↦
        let (running, c) =
          candidate_model_running p (candidate node_name model (codes "explicit")) in
        elim running [
          | true ↦
              chosen
                (decision node_name model (codes "explicit") (codes "explicit_target") (c ∷ []))
          | false ↦ elim (choose_available_candidate p (c ∷ []) (codes "explicit_target")) [
            | some available ↦ chosen (record available { strategy = codes "explicit" })
            | none ↦ error (codes "No eligible running model found for node target: " ++ node_name)
          ]
        ]
  ]
]

-- The node and the model of the previous route, if both are texts.
unfoldable pub previous_pair : Option Fields → Option (Text × Text)
unfolding text_field
previous_pair none = none
previous_pair (some fields) = elim (text_field (codes "node") fields) [
  | none ↦ none
  | some node ↦ elim (text_field (codes "model") fields) [
    | none ↦ none
    | some model ↦ some (node, model)
  ]
]

unfoldable pub choose_thread_affinity : Config → Probes → Option Fields → Option RouteDecision
choose_thread_affinity cfg p previous_route = elim (previous_pair previous_route) [
  | none ↦ none
  | some (node, model) ↦ elim (lookup node cfg.nodes) [
    | none ↦ none
    | some known ↦
        let (running, c) =
          candidate_model_running p (candidate node model (codes "previous_route")) in
        elim running [
          | true ↦ some (deterministic (codes "thread_affinity") c (c ∷ []))
          | false ↦ none
        ]
  ]
]

-- The loop of `_collect_fanout_targets`, with the number of slots that are left.
unfoldable pub fanout_loop : Probes → Text → ℕ → List Candidate → List Target
fanout_loop p primary slots [] = []
fanout_loop p primary slots (c ∷ rest) = elim (nat_eq slots 0) [
  | true ↦ []
  | false ↦ elim (text_eq c.node primary) [
    | true ↦ fanout_loop p primary slots rest
    | false ↦
        let (running, c') = candidate_model_running p c in
        elim running [
          | false ↦ fanout_loop p primary slots rest
          | true ↦
              record {
                node = c.node;
                model = c.model;
                strategy = codes "deterministic";
                reason = codes "fanout";
                candidates = c' ∷ [];
              }
              ∷ fanout_loop p primary (slots - 1) rest
        ]
  ]
]

-- max(self.config.routing_fanout_max - 1, 0)
unfoldable pub fanout_slots : Config → ℕ
fanout_slots cfg = elim cfg.routing_fanout_max [ pos n ↦ n - 1 | negsuc n ↦ 0 ]

unfoldable pub collect_fanout_targets : Config → Probes → Text → Text → List Target
unfolding fanout_slots
collect_fanout_targets cfg p primary request_type =
    fanout_loop p primary (fanout_slots cfg) (request_type_candidates cfg request_type)

-- ":" in text
unfoldable pub has_colon : Text → Bool
has_colon [] = false
has_colon (c ∷ s) = nat_eq c 58 || has_colon s

-- requested_model and ":" in requested_model
unfoldable pub names_profile : Option Text → Bool
unfolding has_colon
names_profile none = false
names_profile (some model) = has_colon model

-- `if x is not None: return x`, else what follows.
unfoldable pub or_else : Option RouteDecision → Choice → Choice
or_else (some d) rest = chosen d
or_else none rest = rest

abbrev pub with_fanout : Config → Probes → Text → RouteDecision → RouteDecision
with_fanout cfg p request_type d =
    if cfg.routing_fanout_enabled
    then record (decision d.node d.model d.strategy d.reason d.candidates) {
      fanout_targets = collect_fanout_targets cfg p d.node request_type;
    }
    else d

-- What follows the choice by request type.
unfoldable pub after_request_type :
    Config → Probes → Text → Option Text → Option RouteDecision → Choice
after_request_type cfg p request_type requested_model (some d) =
    chosen (with_fanout cfg p request_type d)
after_request_type cfg p request_type requested_model none =
    or_else (choose_fallback cfg p requested_model) (error no_eligible)

-- The choice where no target is named.
unfoldable pub choose_auto : Config → Probes → Text → Option Text → Option Fields → Choice
choose_auto cfg p request_type requested_model previous_route =
    or_else (choose_thread_affinity cfg p previous_route) (
      or_else
        (if names_profile requested_model then choose_fallback cfg p requested_model else none)
        (after_request_type cfg p request_type requested_model
          (choose_request_type cfg p request_type)))

unfoldable pub choose_deterministic :
    Config → Probes → Text → Option Text → Text → Option Fields → Choice
choose_deterministic cfg p request_type requested_model explicit_target previous_route =
    if text_eq cfg.mode (codes "controller")
    then (elim (strip_prefix (codes "node:") explicit_target) [
      | some node_name ↦ choose_explicit_node cfg p node_name requested_model
      | none ↦
          if text_eq explicit_target [] || text_eq explicit_target (codes "auto")
          then choose_auto cfg p request_type requested_model previous_route
          else error (codes "Unsupported explicit target: " ++ explicit_target)
    ])
    else choose_local_agent cfg p requested_model previous_route
