-- ===== src/Threads/Preparing.antt =====
-- A turn from its message to its route, `prepare_message_route` of llama_pack/core/threads/turns.py.
use llama_pack.Prelude.{
  suc, Bool, true, Option, none, some, List, [], ◌∷◌, ◌++◌, map, text_eq, if◌then◌else◌,
}
use llama_pack.Prelude.Int.{ℤ}
use llama_pack.Prelude.Json.{Value, null, bool, num, str, arr, obj, Fields, get}
use llama_pack.Prelude.Text.{Text, codes}
use llama_pack.Threads.Routing.Probes.{CheckError, Candidate, RouteDecision, Choice, chosen, error}
use llama_pack.Threads.Routing.Plugin.{choose}
use llama_pack.Threads.Session.{
  Thread, Exc, value_error, ErrorKind, Outcome, ok, failed, M, ◌>>=◌, ◌>>◌, return, throw, rethrow,
  try, fresh_id, gets, asks, object, items, merge,
}
use llama_pack.Threads.Store.{NewEvent, get_thread}
use llama_pack.Threads.Events.{append_and_publish, append_error_async}
use llama_pack.Threads.FanoutRun.{internal_event}
use llama_pack.Threads.Turns.{
  previous_route, require_thread_node_target, requested_model_name, route_from_decision,
  message_display_text,
}
use llama_pack.Threads.Context.{public_messages}
use llama_pack.Threads.Compaction.{managed_thread_messages}

pub record PreparedThreadTurn : Type 0 where
  pub thread : Thread
  pub request_metadata : Fields
  pub messages : List Value
  pub turn_id : Text
  pub route : Fields
  pub decision : RouteDecision
  pub model_family : Option Text
  pub context_profile : Option Text
  pub context_management : Option Fields

-- The arguments of prepare_message_route.
pub record TurnRequest : Type 0 where
  pub thread_id : Text
  pub role : Text
  pub content : Value
  pub model : Option Text
  pub model_family : Option Text
  pub context_profile : Option Text
  pub target : Text
  pub metadata : Option Fields

-- {**thread.get("metadata", {}), **(metadata or {})}
unfoldable pub request_metadata_of : Thread → Option Fields → Fields
unfolding merge
request_metadata_of thread none = thread.metadata
request_metadata_of thread (some metadata) = merge thread.metadata metadata

-- request_metadata.get("request_type") or "general"; a request type is a text.
unfoldable pub request_type_of : Fields → Text
request_type_of metadata = elim (get (codes "request_type") metadata) [
  | some (str (c ∷ s)) ↦ c ∷ s
  | _ ↦ codes "general"
]

-- requested_model or thread.get("default_model")
abbrev pub or_default : Option Text → Option Text → Option Text
or_default (some (c ∷ s)) default = some (c ∷ s)
or_default (some []) default = default
or_default none default = default

abbrev pub flag : Text → Option Bool → List (Text × Value)
flag key none = []
flag key (some b) = (key, bool b) ∷ []

abbrev pub state_entry : Option (Option Text) → List (Text × Value)
state_entry none = []
state_entry (some none) = (codes "artifact_state", null) ∷ []
state_entry (some (some s)) = (codes "artifact_state", str s) ∷ []

abbrev pub priority_entry : Option ℤ → List (Text × Value)
priority_entry none = []
priority_entry (some n) = (codes "priority", num n 0) ∷ []

abbrev pub check_error : CheckError → Value
check_error e = obj (
    object (
      (codes "check", str e.check)
      ∷ (codes "error_type", str e.failure.error_type)
      ∷ (codes "message", str e.failure.message)
      ∷ []))

abbrev pub errors_entry : List CheckError → List (Text × Value)
errors_entry [] = []
errors_entry (e ∷ es) = (codes "route_check_errors", arr (items (map check_error (e ∷ es)))) ∷ []

unfoldable pub candidate_value : Candidate → Value
candidate_value c = obj (
    object (
      (codes "node", str c.node)
        ∷ (codes "model", str c.model)
        ∷ (codes "source", str c.source)
        ∷ priority_entry c.priority
      ++ flag (codes "model_running") c.model_running
      ++ flag (codes "model_available") c.model_available
      ++ state_entry c.artifact_state
      ++ errors_entry c.route_check_errors))

-- {"role": "user", "content": content}
abbrev pub sent_message : Value → Value
sent_message content =
    obj (object ((codes "role", str (codes "user")) ∷ (codes "content", content) ∷ []))

abbrev pub user_message : TurnRequest → Text → Text → Fields → NewEvent
user_message r turn_id display_text request_metadata =
    record (internal_event r.thread_id turn_id (codes "user_message") (
      object (
        (codes "text", str display_text)
        ∷ (codes "request_content", r.content)
        ∷ (codes "metadata", obj request_metadata)
        ∷ []))) { role = some (codes "user"); public = true }

abbrev pub routing_event : TurnRequest → Text → Fields → RouteDecision → NewEvent
routing_event r turn_id route d =
    record (internal_event r.thread_id turn_id (codes "routing_decision") (
      merge route
        (object ((codes "candidates", arr (items (map candidate_value d.candidates))) ∷ [])))) {
          route = some route;
          agent_node = some d.node;
          model = some d.model;
        }

unfoldable pub decision_or_error : Choice → M RouteDecision
decision_or_error (chosen d) = return d
decision_or_error (error message) = throw value_error message

-- self.routing_policy.choose
unfoldable pub choose_route : Text → Option Text → Text → Option Fields → M RouteDecision
unfolding decision_or_error
choose_route request_type requested_model target previous env w =
    decision_or_error
      (choose env.config (env.probes w.choices) env.plugin request_type requested_model target
        previous none)
      env (record w { choices = suc w.choices })

unfoldable pub require_user : Text → M (Unit {0})
require_user role =
    if text_eq role (codes "user")
    then return tt
    else throw value_error (codes "ThreadService only accepts user messages")

-- `except ValueError`: the error is noted in the thread, and goes on.
unfoldable pub note_routing_error : {A : Type 0} → Text → Text → Exc → ErrorKind → M A
note_routing_error thread_id turn_id exc value_error = do
  append_error_async thread_id (codes "ROUTING_ERROR") exc (some turn_id)
  rethrow exc
note_routing_error thread_id turn_id exc _ = rethrow exc

unfoldable pub or_routing_error : {A : Type 0} → Text → Text → Outcome A → M A
unfolding note_routing_error
or_routing_error thread_id turn_id (ok a) = return a
or_routing_error thread_id turn_id (failed exc) =
    note_routing_error thread_id turn_id exc exc.error_kind

-- From the check of the target on.
unfoldable pub route_turn :
    TurnRequest → Thread → Option Fields → List Value → Text → M PreparedThreadTurn
unfolding or_routing_error choose_route request_metadata_of request_type_of candidate_value
route_turn r thread previous history turn_id = do
  checked ← try (require_thread_node_target r.thread_id r.target)
  or_routing_error r.thread_id turn_id checked
  routed ← try (
      choose_route (request_type_of (request_metadata_of thread r.metadata))
        (or_default (requested_model_name r.model r.model_family r.context_profile)
          thread.default_model)
        r.target previous)
  decision ← or_routing_error r.thread_id turn_id routed
  let route = route_from_decision decision r.model_family r.context_profile
  append_and_publish (routing_event r turn_id route decision)
  managed ←
      managed_thread_messages r.thread_id turn_id (history ++ sent_message r.content ∷ [])
        decision.model route
  return (record {
    thread = thread;
    request_metadata = request_metadata_of thread r.metadata;
    messages = managed.messages;
    turn_id = turn_id;
    route = route;
    decision = decision;
    model_family = r.model_family;
    context_profile = r.context_profile;
    context_management = managed.metadata;
  })

unfoldable pub prepare_message_route : TurnRequest → M PreparedThreadTurn
unfolding require_user route_turn
prepare_message_route r = do
  require_user r.role
  thread ← get_thread r.thread_id
  previous ← gets (previous_route r.thread_id r.model_family r.context_profile)
  display_text ← asks (λ env. message_display_text env r.content)
  history ← gets (public_messages r.thread_id)
  turn_id ← fresh_id
  append_and_publish (user_message r turn_id display_text (request_metadata_of thread r.metadata))
  route_turn r thread previous history turn_id
