-- ===== src/Threads/Context.antt =====
-- Which messages a model is sent, llama_pack/core/threads/context.py: the history of a thread, or a
-- summary of it and its latest messages.
use mathlib.Core.List.{reverse}
use llama_pack.Prelude.{
  ℕ, ◌-◌, Bool, true, false, not, ◌&&◌, ◌||◌, Option, none, some, List, [], ◌∷◌, ◌++◌, map, filter,
  take, drop, length, nat_eq, text_eq, if◌then◌else◌,
}
use llama_pack.Prelude.Int.{pos}
use llama_pack.Prelude.Json.{Value, null, num, str, arr, obj, Fields, get}
use llama_pack.Prelude.Text.{Text, codes}
use llama_pack.Threads.Session.{
  ThreadEvent, World, Env, Exc, context_error, Outcome, ok, failed, M, ◌>>=◌, ◌>>◌, return, throw,
  chat_with, object, values, opt,
}
use llama_pack.Threads.Store.{list_events}
use llama_pack.Threads.Events.{append_error_async}
use llama_pack.Threads.Summaries.{str_of, get_or, summary_system_message, assistant_summary_content}

abbrev pub is_message_role : Option Text → Bool
is_message_role none = false
is_message_role (some role) = text_eq role (codes "user") || text_eq role (codes "assistant")

abbrev pub is_message_type : Text → Bool
is_message_type kind =
    text_eq kind (codes "user_message") || text_eq kind (codes "assistant_message")

unfoldable pub has_text : Fields → Bool
has_text content = elim (get (codes "text") content) [ some (str s) ↦ true | _ ↦ false ]

unfoldable pub is_message_event : ThreadEvent → Bool
unfolding has_text
is_message_event e = is_message_type e.event_type && has_text e.content && is_message_role e.role

unfoldable pub public_message_events : Text → World → List ThreadEvent
unfolding list_events is_message_event
public_message_events thread_id w = filter is_message_event (list_events thread_id false w)

-- {"role": str(event["role"]), "content": str(event["content"]["text"])}, of an event with both.
unfoldable pub event_message : ThreadEvent → Value
event_message e = obj (
    object
      ((codes "role", opt e.role) ∷ (codes "content", get_or (codes "text") null e.content) ∷ []))

unfoldable pub public_messages : Text → World → List Value
unfolding public_message_events event_message
public_messages thread_id w = map event_message (public_message_events thread_id w)

pub record Summary : Type 0 where
  pub summary : Text
  pub covered_event_ids : List Text

-- The summary of an event, if its content has one.
unfoldable pub summary_in : Env → ThreadEvent → Option Summary
summary_in env e =
    if text_eq e.event_type (codes "history_summary")
    then elim (get (codes "summary") e.content) [
      | some (str s) ↦ elim (get (codes "covered_event_ids") e.content) [
        | some (arr ids) ↦
            some (record { summary = s; covered_event_ids = map (str_of env) (values ids) })
        | _ ↦ none
      ]
      | _ ↦ none
    ]
    else none

unfoldable pub latest_in : Env → List ThreadEvent → Option Summary
unfolding summary_in
latest_in env [] = none
latest_in env (e ∷ es) = elim (summary_in env e) [ some s ↦ some s | none ↦ latest_in env es ]

unfoldable pub latest_history_summary : Env → Text → World → Option Summary
unfolding latest_in
latest_history_summary env thread_id w = latest_in env (reverse (list_events thread_id true w))

abbrev pub covered_of : Option Summary → List Text
covered_of none = []
covered_of (some s) = s.covered_event_ids

-- The previous summary, if it is not empty.
abbrev pub previous_of : Option Summary → Option Text
previous_of none = none
previous_of (some s) = some s.summary

unfoldable pub has_id : Text → List Text → Bool
has_id id [] = false
has_id id (i ∷ is) = text_eq i id || has_id id is

abbrev pub not_covered : List Text → List ThreadEvent → List ThreadEvent
not_covered ids events = filter (λ e. not (has_id e.id ids)) events

unfoldable pub unsummarized_events : Env → Text → World → List ThreadEvent
unfolding latest_history_summary public_message_events has_id
unsummarized_events env thread_id w =
    not_covered (covered_of (latest_history_summary env thread_id w))
      (public_message_events thread_id w)

-- [summary_system_message(previous_summary), *messages], if there is one.
abbrev pub with_summary : Option Text → List Value → List Value
with_summary none messages = messages
with_summary (some []) messages = messages
with_summary (some (c ∷ s)) messages = summary_system_message (c ∷ s) ∷ messages

unfoldable pub current_messages : Env → Text → World → List Value
unfolding unsummarized_events event_message
current_messages env thread_id w =
    with_summary (previous_of (latest_history_summary env thread_id w))
      (map event_message (unsummarized_events env thread_id w))

-- xs[:-n]; xs[:-0] is empty.
abbrev pub all_but_last {ℓ} : {A : Type ℓ} → ℕ → List A → List A
all_but_last n xs = if nat_eq n 0 then [] else take (length xs - n) xs

-- xs[-n:]; xs[-0:] is all.
abbrev pub last_of {ℓ} : {A : Type ℓ} → ℕ → List A → List A
last_of n xs = if nat_eq n 0 then xs else drop (length xs - n) xs

pub record Managed : Type 0 where
  pub messages : List Value
  pub metadata : Option Fields

abbrev pub number : ℕ → Value
number n = num (pos n) 0

-- chat_with_meta and assistant_summary_content, as the `try` calls them.
unfoldable pub ask_summary : Text → Fields → M (Text × Value)
unfolding assistant_summary_content
ask_summary model payload = do
  (response, response_meta) ← chat_with model payload
  summary ← assistant_summary_content response
  return (summary, response_meta)

abbrev pub summary_failed : Text → Text → Exc → Text
summary_failed thread_id model e =
    codes "Failed to summarize thread "
    ++ thread_id
    ++ codes " for model "
    ++ model
    ++ codes ": "
    ++ e.text

unfoldable pub summary_or_error :
    Text → Option Text → Text → Outcome (Text × Value) → M (Text × Value)
summary_or_error thread_id turn_id model (ok answer) = return answer
summary_or_error thread_id turn_id model (failed e) = do
  append_error_async thread_id (codes "CONTEXT_SUMMARY_ERROR") e turn_id
  throw context_error (summary_failed thread_id model e)
