-- ===== src/Threads/FanoutRun.antt =====
-- One message to all targets of a decision, llama_pack/core/threads/fanout.py.
use llama_pack.Prelude.{true, false, Option, none, some, List, [], ◌∷◌, ◌++◌, map}
use llama_pack.Prelude.Json.{Value, bool, str, arr, obj, cons, Fields, get}
use llama_pack.Prelude.Text.{Text, codes}
use llama_pack.Threads.Routing.Probes.{Target, RouteDecision}
use llama_pack.Threads.Session.{
  other_error, Outcome, ok, failed, M, ◌>>=◌, ◌>>◌, return, throw, try, chat_with, object, items,
}
use llama_pack.Threads.Store.{NewEvent}
use llama_pack.Threads.Events.{append_and_publish}

-- An event that is not public, and has no role, no route and no error.
abbrev pub internal_event : Text → Text → Text → Fields → NewEvent
internal_event thread_id turn_id event_type content = record {
  thread_id = thread_id;
  event_type = event_type;
  role = none;
  content = content;
  public = false;
  turn_id = some turn_id;
  route = none;
  agent_node = none;
  model = none;
  error_code = none;
  error_detail = none;
}

-- raw_response["choices"][0]["message"]["content"]; a key or an index that is not there raises.
unfoldable pub choice_content : Value → Option Value
choice_content (obj response) = elim (get (codes "choices") response) [
  | some (arr (cons (obj choice) rest)) ↦ elim (get (codes "message") choice) [
    | some (obj message) ↦ get (codes "content") message
    | _ ↦ none
  ]
  | _ ↦ none
]
choice_content _ = none

unfoldable pub content_or_throw : Option Value → M Value
content_or_throw (some content) = return content
content_or_throw none = throw other_error (codes "content")

-- An entry of agent_outputs.
pub data Output : Type 0 where
  answer : Text → Text → Value → Output
  no_answer : Text → Text → Text → Output

abbrev pub target_of : RouteDecision → Target
target_of d = record {
  node = d.node;
  model = d.model;
  strategy = d.strategy;
  reason = d.reason;
  candidates = d.candidates;
}

abbrev pub target_route : Target → Fields
target_route t = object (
    (codes "node", str t.node)
    ∷ (codes "model", str t.model)
    ∷ (codes "strategy", str t.strategy)
    ∷ (codes "reason", str t.reason)
    ∷ [])

-- {"messages": messages, "target": f"node:{node}", TRUSTED_CONTROLLER_TARGET_KEY: True}
abbrev pub request_payload : List Value → Text → Fields
request_payload messages node = object (
    (codes "messages", arr (items messages))
    ∷ (codes "target", str (codes "node:" ++ node))
    ∷ (codes "_trusted_controller_target", bool true)
    ∷ [])

abbrev pub agent_request : Text → Text → List Value → Target → NewEvent
agent_request thread_id turn_id messages t =
    record (internal_event thread_id turn_id (codes "agent_request") (
      object (
        (codes "node", str t.node)
        ∷ (codes "model", str t.model)
        ∷ (codes "messages", arr (items messages))
        ∷ []))) { agent_node = some t.node; model = some t.model }

abbrev pub agent_response : Text → Text → Target → Value → NewEvent
agent_response thread_id turn_id t text =
    record (internal_event thread_id turn_id (codes "agent_response")
      (object ((codes "text", text) ∷ []))) {
        route = some (target_route t);
        agent_node = some t.node;
        model = some t.model;
      }

-- What the `try` does: the call, and the event for its answer.
unfoldable pub ask_target : Text → Text → List Value → Target → M Output
unfolding choice_content content_or_throw
ask_target thread_id turn_id messages t = do
  (raw_response, response_meta) ← chat_with t.model (request_payload messages t.node)
  content ← content_or_throw (choice_content raw_response)
  append_and_publish (agent_response thread_id turn_id t content)
  return (answer t.node t.model content)

unfoldable pub output_of : Text → Text → Target → Outcome Output → M Output
output_of thread_id turn_id t (ok output) = return output
output_of thread_id turn_id t (failed exc) = do
  append_and_publish
      (agent_response thread_id turn_id t (str (codes "[error: " ++ exc.text ++ codes "]")))
  return (no_answer t.node t.model exc.text)

unfoldable pub run_target : Text → Text → List Value → Target → M Output
unfolding ask_target output_of
run_target thread_id turn_id messages t = do
  append_and_publish (agent_request thread_id turn_id messages t)
  outcome ← try (ask_target thread_id turn_id messages t)
  output_of thread_id turn_id t outcome

unfoldable pub run_targets : Text → Text → List Value → List Target → M (List Output)
unfolding run_target
run_targets thread_id turn_id messages [] = return []
run_targets thread_id turn_id messages (t ∷ ts) = do
  output ← run_target thread_id turn_id messages t
  outputs ← run_targets thread_id turn_id messages ts
  return (output ∷ outputs)

abbrev pub output_value : Output → Value
output_value (answer node model content) = obj (
    object
      ((codes "node", str node) ∷ (codes "model", str model) ∷ (codes "content", content) ∷ []))
output_value (no_answer node model error) = obj (
    object
      ((codes "node", str node) ∷ (codes "model", str model) ∷ (codes "error", str error) ∷ []))

-- The contents of the answers. `join` raises if one is no text.
unfoldable pub successful : List Output → List Value
successful [] = []
successful (answer node model content ∷ rest) = content ∷ successful rest
successful (no_answer node model error ∷ rest) = successful rest

unfoldable pub join_texts : Text → List Value → Option Text
join_texts separator [] = some []
join_texts separator (str s ∷ []) = some s
join_texts separator (str s ∷ v ∷ vs) =
    let rest = join_texts separator (v ∷ vs) in
    elim rest [ some t ↦ some (s ++ separator ++ t) | none ↦ none ]
join_texts separator (_ ∷ vs) = none

unfoldable pub text_or_throw : Option Text → M Text
text_or_throw (some text) = return text
text_or_throw none = throw other_error (codes "sequence item: expected str instance")

unfoldable pub aggregated : List Value → M Text
unfolding join_texts text_or_throw
aggregated [] = return (codes "[no successful agent responses]")
aggregated (v ∷ vs) = text_or_throw (join_texts (10 ∷ 10 ∷ codes "---" ++ 10 ∷ 10 ∷ []) (v ∷ vs))

abbrev pub assistant_message : Text → Text → Text → Fields → RouteDecision → NewEvent
assistant_message thread_id turn_id text route primary =
    record (internal_event thread_id turn_id (codes "assistant_message")
      (object ((codes "text", str text) ∷ []))) {
        role = some (codes "assistant");
        public = true;
        route = some route;
        agent_node = some primary.node;
        model = some primary.model;
      }

-- The text of the answer; the response repeats the thread, the role and the route.
unfoldable pub post_message_fanout : Text → Text → List Value → RouteDecision → Fields → M Text
unfolding successful aggregated
post_message_fanout thread_id turn_id messages primary route = do
  outputs ← run_targets thread_id turn_id messages (target_of primary ∷ primary.fanout_targets)
  append_and_publish (
      internal_event thread_id turn_id (codes "aggregation")
        (object ((codes "outputs", arr (items (map output_value outputs))) ∷ [])))
  text ← aggregated (successful outputs)
  append_and_publish (assistant_message thread_id turn_id text route primary)
  return text
