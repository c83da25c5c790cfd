-- ===== src/Threads/SummaryExamples.antt =====
-- A thread of two messages whose first is summarized.
use llama_pack.Prelude.{
  leb, length, ℕ, suc, ◌+◌, Bool, true, false, ◌≡◌, refl, inl, inr, Option, none, some, List, [],
  ◌∷◌, ◌++◌, if◌then◌else◌,
}
use llama_pack.Prelude.Json.{str, get}
use llama_pack.Prelude.Text.{Text, codes, strip, strip_left, is_space}
use llama_pack.Threads.Routing.Composed.{recorded_route}
use llama_pack.Threads.Session.{
  ThreadEvent, Outcome, failed, World, ok, continue, ◌>>=◌, return, throw, try, utc_now, fresh_id,
  chat_with, object,
}
use llama_pack.Threads.Store.{
  find_thread, get_thread, monotonic_timestamp, has_event, touch, store_event, append_event,
  list_events,
}
use llama_pack.Threads.Events.{publish, append_and_publish}
use llama_pack.Threads.FanoutRun.{choice_content}
use llama_pack.Threads.Summaries.{assistant_summary_content, summary_text, stripped_content}
use llama_pack.Threads.Context.{
  public_message_events, is_message_event, has_text, Managed, ask_summary, summary_or_error,
  unsummarized_events, current_messages, latest_history_summary, latest_in, summary_in, has_id,
  covered_of, all_but_last, last_of,
}
use llama_pack.Threads.Compaction.{
  compact_thread_history, unmanaged, summarize, event_ids, compacted_messages,
}
use llama_pack.Threads.ReadBack.{compact_thread_history-read_back}
use llama_pack.Threads.Results.{returned_with}
use llama_pack.Threads.Examples.{quiet, one_thread}

abbrev message_event : Text → Text → Text → ThreadEvent
message_event id kind role = record {
  id = id;
  thread_id = codes "t";
  event_type = kind;
  role = some role;
  content = object ((codes "text", str (codes "hello")) ∷ []);
  public = true;
  turn_id = none;
  route = none;
  agent_node = none;
  model = none;
  error_code = none;
  error_detail = none;
  created_at = 7;
}

abbrev two_messages : World
two_messages = record one_thread {
  events =
      message_event (codes "one") (codes "user_message") (codes "user")
      ∷ message_event (codes "two") (codes "assistant_message") (codes "assistant")
      ∷ [];
}

abbrev managed_of : Outcome Managed → Managed
managed_of (ok m) = m
managed_of (failed e) = unmanaged []

abbrev compacted : Outcome Managed × World
compacted =
    compact_thread_history (codes "t") none (codes "m") (recorded_route (codes "a") (codes "m")) 1
      (codes "manual") quiet two_messages

two_are_more : leb (length (unsummarized_events quiet (codes "t") two_messages)) 1 ≡ false
unfolding unsummarized_events latest_history_summary latest_in summary_in public_message_events
    is_message_event has_text list_events has_id get llama_pack.Prelude.Equality.text_eq
two_are_more = refl

compacts : compacted ≡ returned_with (managed_of compacted.0) compacted.1
unfolding compact_thread_history summarize ask_summary summary_or_error assistant_summary_content
    summary_text stripped_content unsummarized_events current_messages latest_history_summary
    latest_in summary_in public_message_events is_message_event has_text has_id choice_content
    list_events strip strip_left is_space append_and_publish publish append_event get_thread
    find_thread monotonic_timestamp store_event has_event touch ◌>>=◌ continue return throw try
    utc_now fresh_id chat_with get llama_pack.Prelude.Equality.text_eq
compacts = refl

compact_thread_history-read_back_example :
    (summary : Text) × ((managed_of compacted.0).messages
      ≡ compacted_messages summary (last_of 1 (unsummarized_events quiet (codes "t") two_messages)))
    × (latest_history_summary quiet (codes "t") compacted.1
        ≡ some (record {
          summary = summary;
          covered_event_ids =
              covered_of (latest_history_summary quiet (codes "t") two_messages)
              ++ event_ids (all_but_last 1 (unsummarized_events quiet (codes "t") two_messages));
        }))
compact_thread_history-read_back_example =
    compact_thread_history-read_back (codes "t") none (codes "m")
      (recorded_route (codes "a") (codes "m")) 1 (codes "manual") quiet two_messages compacted.1
      (managed_of compacted.0) two_are_more compacts
