-- ===== src/Threads/Turns.antt =====
-- The preparation of a turn, llama_pack/core/threads/turns.py.
use mathlib.Core.List.{reverse}
use llama_pack.Prelude.{
  Bool, true, false, ◌&&◌, ◌||◌, Option, none, some, List, [], ◌∷◌, ◌++◌, text_eq, if◌then◌else◌,
}
use llama_pack.Prelude.Json.{Value, null, str, arr, obj, Fields, end, get}
use llama_pack.Prelude.Text.{Text, codes, strip, strip_prefix}
use llama_pack.Threads.Routing.Probes.{RouteDecision}
use llama_pack.Threads.Session.{
  ThreadEvent, World, Env, value_error, M, return, throw, object, values, opt,
}
use llama_pack.Threads.Store.{list_events}

-- `if s`, at a text that may be missing.
abbrev pub is_given : Option Text → Bool
is_given none = false
is_given (some []) = false
is_given (some (c ∷ s)) = true

-- A value of a dictionary, if any, is that text, or is None like it.
unfoldable pub value_is : Option Value → Option Text → Bool
value_is (some (str s)) (some t) = text_eq s t
value_is (some null) none = true
value_is none none = true
value_is _ _ = false

abbrev pub route_fields : Option Fields → Fields
route_fields none = end
route_fields (some fs) = fs

unfoldable pub has_profile : Option Text → Option Text → Fields → Bool
unfolding value_is
has_profile model_family context_profile route =
    if is_given model_family || is_given context_profile
    then value_is (get (codes "family") route) model_family
      && value_is (get (codes "profile") route) context_profile
    else true

-- The node and the model of an answer, if the event is one that both are known of.
unfoldable pub answered_by : ThreadEvent → Option (Text × Text)
answered_by e =
    if text_eq e.event_type (codes "assistant_message") && is_given e.agent_node && is_given e.model
    then elim e.agent_node [
      | none ↦ none
      | some node ↦ elim e.model [ none ↦ none | some model ↦ some (node, model) ]
    ]
    else none

-- The loop over the events, the latest first.
unfoldable pub previous_in : Option Text → Option Text → List ThreadEvent → Option (Text × Text)
unfolding answered_by has_profile
previous_in model_family context_profile [] = none
previous_in model_family context_profile (e ∷ es) = elim (answered_by e) [
  | none ↦ previous_in model_family context_profile es
  | some pair ↦ elim (has_profile model_family context_profile (route_fields e.route)) [
    | true ↦ some pair
    | false ↦ previous_in model_family context_profile es
  ]
]

abbrev pub pair_fields : Option (Text × Text) → Option Fields
pair_fields none = none
pair_fields (some (node, model)) =
    some (object ((codes "node", str node) ∷ (codes "model", str model) ∷ []))

unfoldable pub previous_route : Text → Option Text → Option Text → World → Option Fields
unfolding previous_in list_events
previous_route thread_id model_family context_profile w =
    pair_fields (previous_in model_family context_profile (reverse (list_events thread_id true w)))

unfoldable pub assigned_in : List ThreadEvent → Option Text
assigned_in [] = none
assigned_in (e ∷ es) =
    let rest = assigned_in es in
    if text_eq e.event_type (codes "assistant_message") && is_given e.agent_node
    then e.agent_node
    else rest

unfoldable pub assigned_node : Text → World → Option Text
unfolding assigned_in list_events
assigned_node thread_id w = assigned_in (reverse (list_events thread_id true w))

-- The node that a target names, if it names one.
unfoldable pub requested_node : Text → Option Text
requested_node target = elim (strip_prefix (codes "node:") (strip target)) [
  | none ↦ none
  | some name ↦ elim (strip name) [ [] ↦ none | c ∷ s ↦ some (c ∷ s) ]
]

abbrev pub other_node : Text → Text → Text
other_node assigned requested =
    codes "This thread is already routed to node '"
    ++ assigned
    ++ codes "'. Start a new thread to use node '"
    ++ requested
    ++ codes "'."

unfoldable pub check_target : Option Text → Option Text → M (Unit {0})
check_target none assigned = return tt
check_target (some requested) none = return tt
check_target (some requested) (some assigned) =
    if text_eq assigned requested
    then return tt
    else throw value_error (other_node assigned requested)

unfoldable pub require_thread_node_target : Text → Text → M (Unit {0})
unfolding requested_node assigned_node check_target
require_thread_node_target thread_id target env w =
    check_target (requested_node target) (assigned_node thread_id w) env w

unfoldable pub requested_model_name : Option Text → Option Text → Option Text → Option Text
requested_model_name model (some (c ∷ s)) (some (d ∷ t)) = some ((c ∷ s) ++ codes ":" ++ (d ∷ t))
requested_model_name model _ _ = model

unfoldable pub route_from_decision : RouteDecision → Option Text → Option Text → Fields
route_from_decision d model_family context_profile = object (
    (codes "node", str d.node)
    ∷ (codes "model", str d.model)
    ∷ (codes "family", opt model_family)
    ∷ (codes "profile", opt context_profile)
    ∷ (codes "strategy", str d.strategy)
    ∷ (codes "reason", str d.reason)
    ∷ [])

-- The texts of the blocks of type text.
unfoldable pub block_texts : List Value → List Text
block_texts [] = []
block_texts (obj block ∷ rest) = elim (get (codes "type") block) [
  | some (str kind) ↦ elim (text_eq kind (codes "text")) [
    | true ↦ elim (get (codes "text") block) [
      | some (str s) ↦ s ∷ block_texts rest
      | _ ↦ block_texts rest
    ]
    | false ↦ block_texts rest
  ]
  | _ ↦ block_texts rest
]
block_texts (_ ∷ rest) = block_texts rest

unfoldable pub join_lines : List Text → Text
join_lines [] = []
join_lines (s ∷ []) = s
join_lines (s ∷ t ∷ rest) = s ++ 10 ∷ join_lines (t ∷ rest)

unfoldable pub message_display_text : Env → Value → Text
unfolding block_texts join_lines
message_display_text env (str s) = s
message_display_text env (arr blocks) = join_lines (block_texts (values blocks))
message_display_text env v = env.to_text v
