-- ===== src/Threads/Examples.antt =====
-- One thread on one node, and the theorems on threads at it.
use mathlib.Core.Option as Option
use llama_pack.Prelude.{
  leb, length, ℕ, suc, ◌+◌, Bool, true, false, ◌≡◌, refl, inl, inr, Option, none, some, List, [],
  ◌∷◌, ◌++◌, if◌then◌else◌,
}
use llama_pack.Prelude.Dict.{lookup}
use llama_pack.Prelude.Int.{pos}
use llama_pack.Prelude.Json.{Value, null, str, arr, obj, nil, Fields, end, field, get}
use llama_pack.Prelude.Text.{Text, codes, strip, strip_left, strip_prefix, is_space}
use llama_pack.Threads.Routing.Probes.{
  returned, Probes, Config, RouteDecision, decision, candidate, candidate_model_running, answered,
}
use llama_pack.Threads.Routing.Choice.{choose_deterministic, choose_explicit_node, or_model}
use llama_pack.Threads.Routing.Plugin.{
  RoutingPlugin, fell_back, choose, consult_plugin, effective_request_type, annotate_choice,
  annotate_decision,
}
use llama_pack.Threads.Routing.Sources.{KnownNode}
use llama_pack.Threads.Session.{
  Thread, World, Env, ok, continue, ◌>>=◌, return, throw, try, gets, asks, utc_now, fresh_id,
  chat_with, object, items,
}
use llama_pack.Threads.Store.{
  find_thread, get_thread, monotonic_timestamp, has_event, touch, store_event, append_event,
  list_events,
}
use llama_pack.Threads.Events.{
  publish, append_and_publish, bounded_plugin_content, is_left_out, bounded_value,
}
use llama_pack.Threads.FanoutRun.{
  choice_content, content_or_throw, ask_target, output_of, run_target, run_targets, successful,
  join_texts, text_or_throw, aggregated, post_message_fanout, target_of,
}
use llama_pack.Threads.Turns.{
  value_is, previous_route, previous_in, answered_by, has_profile, message_display_text,
  requested_model_name, route_from_decision, assigned_in, assigned_node, requested_node,
  check_target, require_thread_node_target,
}
use llama_pack.Threads.Preparing.{
  TurnRequest, PreparedThreadTurn, sent_message, request_metadata_of, request_type_of,
  decision_or_error, choose_route, require_user, or_routing_error, route_turn,
  prepare_message_route,
}
use llama_pack.Threads.Summaries.{get_or}
use llama_pack.Threads.Context.{
  public_messages, public_message_events, is_message_event, has_text, event_message,
}
use llama_pack.Threads.Compaction.{managed_thread_messages}
use llama_pack.Threads.Calls.{ThreadCall, create, fan_out, perform_all, no_threads}
use llama_pack.Threads.Timeline.{Timeline}
use llama_pack.Threads.Results.{returned_with}
use llama_pack.Threads.History.{Extends, perform_all-Timeline, perform_all-Extends}
use llama_pack.Threads.Following.{Goes, post_message_fanout-Goes}
use llama_pack.Threads.Trace.{Added}
use llama_pack.Threads.FanTrace.{fan_trace, post_message_fanout-Added}
use llama_pack.Threads.Assigned.{prepare_message_route-same_node}
use llama_pack.Threads.Content.{AllSmall, bounded_plugin_content_lem}

abbrev one_node : Config
one_node = record {
  mode = codes "controller";
  models = [];
  nodes = (codes "a", record { default_model = some (codes "m"); request_types = [] }) ∷ [];
  routing_fanout_enabled = false;
  routing_fanout_max = pos 1;
}

abbrev runs : Probes
runs = record {
  model_running = λ node model. returned true;
  model_available = λ node model. returned false;
  model_artifact_presence = none;
  node_startup_allowed = none;
}

-- {"choices": [{"message": {"content": "hi"}}]}
abbrev says_hi : Value
says_hi = obj (
    object (
      (
        codes "choices",
        arr (
            items (
              obj (
                object
                  ((codes "message", obj (object ((codes "content", str (codes "hi")) ∷ []))) ∷ []))
              ∷ [])),
      )
      ∷ []))

-- The clock stands still.
abbrev pub quiet : Env
quiet = record {
  now = λ n. 7;
  uuid4 = λ n. (n + 65) ∷ [];
  chat_with_meta = λ n model payload. ok (says_hi, null);
  probes = λ n. runs;
  plugin = none;
  config = one_node;
  context = record {
    summarization_enabled = false;
    compaction_enabled = false;
    model_ctx = λ model. none;
    min_prompt_tokens = 6000;
    trigger_of = λ n. n;
    recent_messages = 4;
    summary_max_tokens = 768;
  };
  to_text = λ v. [];
  has_event_bus = false;
}

abbrev the_thread : Thread
the_thread = record {
  id = codes "t";
  title = none;
  default_model = none;
  metadata = end;
  created_by = none;
  created_at = 7;
  updated_at = 7;
}

abbrev pub one_thread : World
one_thread = record no_threads { threads = the_thread ∷ [] }

abbrev to_a : RouteDecision
to_a = decision (codes "a") (codes "m") (codes "explicit") (codes "explicit_target") []

abbrev some_calls : List ThreadCall
some_calls =
    create none none end none
    ∷ fan_out (65 ∷ []) (codes "turn") [] to_a end
    ∷ fan_out (codes "missing") (codes "turn") [] to_a end
    ∷ []

perform_all-Extends_example : Extends one_thread (perform_all quiet some_calls one_thread)
perform_all-Extends_example = perform_all-Extends quiet some_calls one_thread

perform_all-Timeline_example : Timeline (perform_all quiet some_calls no_threads)
perform_all-Timeline_example = perform_all-Timeline quiet some_calls

abbrev fanned : World
fanned = (post_message_fanout (codes "t") (codes "turn") [] to_a end quiet one_thread).1

answers :
    post_message_fanout (codes "t") (codes "turn") [] to_a end quiet one_thread
    ≡ returned_with (codes "hi") fanned
unfolding post_message_fanout run_targets run_target ask_target output_of choice_content
    content_or_throw successful aggregated join_texts text_or_throw append_and_publish publish
    append_event get_thread find_thread monotonic_timestamp store_event has_event touch ◌>>=◌
    continue return throw try utc_now fresh_id chat_with get llama_pack.Prelude.Equality.text_eq
answers = refl

node_a-known : KnownNode one_node (codes "a")
unfolding lookup llama_pack.Prelude.Equality.text_eq
node_a-known e = cc

-- A fan-out whose route has a family.
abbrev route_q : Fields
route_q = field (codes "family") (str (codes "q")) end

abbrev fanned_q : World
fanned_q = (post_message_fanout (codes "t") (codes "turn") [] to_a route_q quiet one_thread).1

answers_q :
    post_message_fanout (codes "t") (codes "turn") [] to_a route_q quiet one_thread
    ≡ returned_with (codes "hi") fanned_q
unfolding post_message_fanout run_targets run_target ask_target output_of choice_content
    content_or_throw successful aggregated join_texts text_or_throw append_and_publish publish
    append_event get_thread find_thread monotonic_timestamp store_event has_event touch ◌>>=◌
    continue return throw try utc_now fresh_id chat_with get llama_pack.Prelude.Equality.text_eq
answers_q = refl

has_family_q : has_profile (some (codes "q")) none route_q ≡ true
unfolding has_profile value_is get llama_pack.Prelude.Equality.text_eq
has_family_q = refl

-- A plugin that never decides.
abbrev silent : RoutingPlugin
silent request_type requested target previous hint = returned none

silent-fell_back :
    consult_plugin
      (some silent)
      (effective_request_type none (codes "general"))
      none
      (codes "auto")
      (previous_route (codes "t") (some (codes "q")) none fanned_q)
      none
    ≡ fell_back (some (codes "plugin_returned_none"))
unfolding consult_plugin
silent-fell_back = refl

post_message_fanout-Goes_example : Goes (codes "a") (codes "m") (
    choose one_node runs
      (some silent)
      (codes "general")
      none
      (codes "auto")
      (previous_route (codes "t") (some (codes "q")) none fanned_q)
      none)
post_message_fanout-Goes_example =
    post_message_fanout-Goes (codes "t") (codes "turn") [] to_a route_q quiet one_thread fanned_q
      (codes "hi") (some (codes "q")) none one_node runs (some silent) (codes "general") none
      (codes "auto") none (some (codes "plugin_returned_none")) answers_q refl refl has_family_q
      silent-fell_back refl (inr refl) node_a-known refl

abbrev ask_a : TurnRequest
ask_a = record {
  thread_id = codes "t";
  role = codes "user";
  content = str (codes "hello");
  model = none;
  model_family = none;
  context_profile = none;
  target = codes "node:a";
  metadata = none;
}

abbrev explicit_a : RouteDecision
explicit_a =
    decision (codes "a") (codes "m") (codes "explicit") (codes "explicit_target")
      (candidate (codes "a") (codes "m") (codes "explicit") ∷ [])

abbrev turn_at_a : PreparedThreadTurn
turn_at_a = record {
  thread = record the_thread { updated_at = 11 };
  request_metadata = end;
  messages =
      obj (
        object ((codes "role", str (codes "assistant")) ∷ (codes "content", str (codes "hi")) ∷ []))
      ∷ sent_message (str (codes "hello"))
      ∷ [];
  turn_id = 69 ∷ [];
  route = route_from_decision explicit_a none none;
  decision = explicit_a;
  model_family = none;
  context_profile = none;
  context_management = none;
}

abbrev prepared : World
prepared = (prepare_message_route ask_a quiet fanned).1

prepares : prepare_message_route ask_a quiet fanned ≡ returned_with turn_at_a prepared
unfolding prepare_message_route route_turn require_user or_routing_error choose_route
    decision_or_error request_metadata_of request_type_of previous_route previous_in answered_by
    has_profile message_display_text public_messages public_message_events is_message_event has_text
    event_message requested_model_name require_thread_node_target requested_node assigned_node
    assigned_in check_target list_events managed_thread_messages route_from_decision get_or choose
    consult_plugin effective_request_type annotate_choice annotate_decision choose_deterministic
    choose_explicit_node or_model candidate_model_running answered lookup strip strip_left
    strip_prefix is_space post_message_fanout run_targets run_target ask_target output_of
    choice_content content_or_throw successful aggregated join_texts text_or_throw
    append_and_publish publish append_event get_thread find_thread monotonic_timestamp store_event
    has_event touch ◌>>=◌ continue return throw try gets asks utc_now fresh_id chat_with get
    llama_pack.Prelude.Equality.text_eq
prepares = refl

assigned_a : assigned_node (codes "t") fanned ≡ some (codes "a")
unfolding assigned_node assigned_in list_events post_message_fanout run_targets run_target
    ask_target output_of choice_content content_or_throw successful aggregated join_texts
    text_or_throw append_and_publish publish append_event get_thread find_thread monotonic_timestamp
    store_event has_event touch ◌>>=◌ continue return throw try utc_now fresh_id chat_with get
    llama_pack.Prelude.Equality.text_eq
assigned_a = refl

requests_a : requested_node (codes "node:a") ≡ some (codes "a")
unfolding requested_node strip strip_left strip_prefix is_space
requests_a = refl

prepare_message_route-same_node_example : codes "a" ≡ codes "a"
prepare_message_route-same_node_example =
    prepare_message_route-same_node ask_a quiet fanned prepared turn_at_a (codes "a") (codes "a")
      prepares assigned_a requests_a

abbrev a_content : Fields
a_content = object ((codes "text", str (codes "hi")) ∷ (codes "messages", arr nil) ∷ [])

bounded_plugin_content_lem_example :
    AllSmall (bounded_plugin_content a_content)
    × ((key : Text)
        → get key (bounded_plugin_content a_content)
          ≡ (if is_left_out key then none else Option.map bounded_value (get key a_content)))
bounded_plugin_content_lem_example = bounded_plugin_content_lem a_content

post_message_fanout-Added_example : Added one_thread fanned (
    fan_trace
      (target_of to_a ∷ [])
      ((codes "aggregation", none) ∷ (codes "assistant_message", some (codes "a")) ∷ []))
post_message_fanout-Added_example =
    post_message_fanout-Added (codes "t") (codes "turn") [] to_a end quiet one_thread fanned
      (codes "hi") answers
