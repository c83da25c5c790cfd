-- ===== src/Threads/Compaction.antt =====
-- The summaries of a thread's history, llama_pack/core/threads/context.py.
use llama_pack.Prelude.{
  ℕ, true, false, Option, none, some, List, [], ◌∷◌, ◌++◌, map, leb, length, if◌then◌else◌,
}
use llama_pack.Prelude.Json.{Value, null, bool, str, arr, obj, Fields}
use llama_pack.Prelude.Text.{Text, codes}
use llama_pack.Threads.Session.{ThreadEvent, World, Env, M, ◌>>=◌, return, try, object, items, ok}
use llama_pack.Threads.Store.{NewEvent}
use llama_pack.Threads.Events.{append_and_publish}
use llama_pack.Threads.FanoutRun.{internal_event}
use llama_pack.Threads.Summaries.{
  get_or, estimate_prompt_tokens, should_summarize_messages, summary_system_message,
  summary_prompt_messages,
}
use llama_pack.Threads.Context.{
  event_message, public_message_events, latest_history_summary, covered_of, previous_of,
  unsummarized_events, current_messages, all_but_last, last_of, Managed, number, ask_summary,
  summary_or_error,
}

abbrev pub event_ids : List ThreadEvent → List Text
event_ids events = map (λ e. e.id) events

abbrev pub text_values : List Text → Value
text_values ids = arr (items (map (λ id. str id) ids))

-- f"node:{route['node']}" and route["node"], of a route that names its node.
abbrev pub route_node : Fields → Option Text
route_node route = elim (get_or (codes "node") null route) [ str s ↦ some s | _ ↦ none ]

abbrev pub node_target : Option Text → Text
node_target none = codes "node:None"
node_target (some s) = codes "node:" ++ s

abbrev pub summary_payload : Env → Fields → Option Text → List ThreadEvent → Fields
summary_payload env route previous old_events = object (
    (
      codes "messages",
      arr (items (summary_prompt_messages env previous (map event_message old_events))),
    )
    ∷ (codes "temperature", number 0)
    ∷ (codes "max_tokens", number env.context.summary_max_tokens)
    ∷ (codes "target", str (node_target (route_node route)))
    ∷ (codes "_trusted_controller_target", bool true)
    ∷ (codes "_skip_context_management", bool true)
    ∷ [])

abbrev pub compacted_messages : Text → List ThreadEvent → List Value
compacted_messages summary recent_events =
    summary_system_message summary ∷ map event_message recent_events

-- What a compaction works on.
pub record Compaction : Type 0 where
  pub thread_id : Text
  pub turn_id : Option Text
  pub model : Text
  pub route : Fields
  pub source : Text
  pub covered : List Text
  pub old_events : List ThreadEvent
  pub recent_events : List ThreadEvent
  pub previous_summary : Option Text
  pub current : List Value

abbrev pub summary_event : Env → Compaction → Text → Value → NewEvent
summary_event env c summary response_meta =
    record (internal_event c.thread_id [] (codes "history_summary") (
      object (
        (codes "summary", str summary)
        ∷ (codes "covered_event_ids", text_values (c.covered ++ event_ids c.old_events))
        ∷ (codes "source_event_ids", text_values (event_ids c.old_events))
        ∷ (codes "prompt_tokens_before", number (estimate_prompt_tokens env c.current))
        ∷ (
          codes "prompt_tokens_after",
          number (estimate_prompt_tokens env (compacted_messages summary c.recent_events)),
        )
        ∷ (
          codes "summary_tokens_estimated",
          number (estimate_prompt_tokens env (summary_system_message summary ∷ [])),
        )
        ∷ (codes "summary_model", str c.model)
        ∷ (codes "model", str c.model)
        ∷ (codes "route", obj c.route)
        ∷ (codes "response_meta", response_meta)
        ∷ (codes "source", str c.source)
        ∷ []))) {
          turn_id = c.turn_id;
          route = some c.route;
          agent_node = route_node c.route;
          model = some c.model;
        }

abbrev pub summarized : Env → Compaction → Text → ThreadEvent → Managed
summarized env c summary event = record {
  messages = compacted_messages summary c.recent_events;
  metadata = some (
      object (
        (codes "summarized", bool true)
        ∷ (codes "summary_event_id", str event.id)
        ∷ (codes "prompt_tokens_before", number (estimate_prompt_tokens env c.current))
        ∷ (
          codes "prompt_tokens_after",
          number (estimate_prompt_tokens env (compacted_messages summary c.recent_events)),
        )
        ∷ (codes "summary", str summary)
        ∷ (codes "covered_event_count", number (length c.old_events))
        ∷ []));
}

unfoldable pub summarize : Env → Compaction → M Managed
unfolding ask_summary summary_or_error
summarize env c = do
  outcome ← try (ask_summary c.model (summary_payload env c.route c.previous_summary c.old_events))
  (summary, response_meta) ← summary_or_error c.thread_id c.turn_id c.model outcome
  event ← append_and_publish (summary_event env c summary response_meta)
  return (summarized env c summary event)

abbrev pub too_few : List Value → ℕ → Managed
too_few messages count = record {
  messages = messages;
  metadata = some (
      object (
        (codes "summarized", bool false)
        ∷ (codes "reason", str (codes "not_enough_unsummarized_events"))
        ∷ (codes "unsummarized_event_count", number count)
        ∷ []));
}

unfoldable pub compact_thread_history : Text → Option Text → Text → Fields → ℕ → Text → M Managed
unfolding summarize unsummarized_events current_messages latest_history_summary
compact_thread_history thread_id turn_id model route recent_message_count source env w =
    let events = unsummarized_events env thread_id w in
    let latest = latest_history_summary env thread_id w in
    let messages = current_messages env thread_id w in
    elim (leb (length events) recent_message_count) [
      | true ↦ (ok (too_few messages (length events)), w)
      | false ↦
          summarize env
            (record {
              thread_id = thread_id;
              turn_id = turn_id;
              model = model;
              route = route;
              source = source;
              covered = covered_of latest;
              old_events = all_but_last recent_message_count events;
              recent_events = last_of recent_message_count events;
              previous_summary = previous_of latest;
              current = messages;
            })
            env w
    ]

abbrev pub unmanaged : List Value → Managed
unmanaged messages = record { messages = messages; metadata = none }

unfoldable pub managed_thread_messages : Text → Text → List Value → Text → Fields → M Managed
unfolding compact_thread_history public_message_events current_messages
managed_thread_messages thread_id turn_id messages model route env w =
    elim env.context.summarization_enabled [
      | false ↦ (ok (unmanaged messages), w)
      | true ↦ elim (public_message_events thread_id w) [
        | [] ↦ (ok (unmanaged messages), w)
        | e ∷ es ↦
            let current = current_messages env thread_id w in
            elim (should_summarize_messages env model current) [
              | false ↦ (ok (unmanaged current), w)
              | true ↦
                  compact_thread_history thread_id (some turn_id) model route
                    env.context.recent_messages (codes "auto") env w
            ]
      ]
    ]

abbrev pub pending_summary : Option Text → Text
pending_summary (some (c ∷ s)) = c ∷ s
pending_summary _ = codes "A summary will be generated before the next model response."

unfoldable pub preview_thread_messages : Env → Text → List Value → Text → World → List Value
unfolding current_messages latest_history_summary
preview_thread_messages env thread_id incoming_messages model w =
    let messages = current_messages env thread_id w ++ incoming_messages in
    if should_summarize_messages env model messages
    then summary_system_message
        (pending_summary (previous_of (latest_history_summary env thread_id w)))
      ∷ last_of env.context.recent_messages messages
    else messages
