-- ===== src/Threads/Store.antt =====
-- The store of threads, llama_pack/core/threads/store.py.
use llama_pack.Prelude.{
  ℕ, ◌+◌, Bool, true, false, ◌&&◌, ◌||◌, Option, none, some, List, [], ◌∷◌, ◌++◌, leb, length,
  filter, text_eq, if◌then◌else◌,
}
use llama_pack.Prelude.Json.{Fields}
use llama_pack.Prelude.Text.{Text, codes}
use llama_pack.Threads.Session.{
  Thread, ThreadEvent, World, key_error, integrity_error, ok, M, ◌>>=◌, throw, utc_now, fresh_id,
}

-- The arguments of append_event.
pub record NewEvent : Type 0 where
  pub thread_id : Text
  pub event_type : Text
  pub role : Option Text
  pub content : Fields
  pub public : Bool
  pub turn_id : Option Text
  pub route : Option Fields
  pub agent_node : Option Text
  pub model : Option Text
  pub error_code : Option Text
  pub error_detail : Option Text

unfoldable pub find_thread : Text → List Thread → Option Thread
find_thread id [] = none
find_thread id (t ∷ ts) = let rest = find_thread id ts in if text_eq t.id id then some t else rest

unfoldable pub get_thread : Text → M Thread
unfolding find_thread
get_thread thread_id env w = elim (find_thread thread_id w.threads) [
  | some t ↦ (ok t, w)
  | none ↦ throw key_error thread_id env w
]

-- One microsecond after the last update, if the clock is not later.
unfoldable pub monotonic_timestamp : ℕ → ℕ → ℕ
monotonic_timestamp now previous = if leb now previous then previous + 1 else now

abbrev pub event_record : NewEvent → Text → ℕ → ThreadEvent
event_record new id created_at = record {
  id = id;
  thread_id = new.thread_id;
  event_type = new.event_type;
  role = new.role;
  content = new.content;
  public = new.public;
  turn_id = new.turn_id;
  route = new.route;
  agent_node = new.agent_node;
  model = new.model;
  error_code = new.error_code;
  error_detail = new.error_detail;
  created_at = created_at;
}

unfoldable pub has_event : Text → List ThreadEvent → Bool
has_event id [] = false
has_event id (e ∷ es) = text_eq e.id id || has_event id es

-- UPDATE threads SET updated_at = ? WHERE id = ?
unfoldable pub touch : Text → ℕ → List Thread → List Thread
touch id timestamp [] = []
touch id timestamp (t ∷ ts) =
    (if text_eq t.id id then record t { updated_at = timestamp } else t) ∷ touch id timestamp ts

-- The two statements of the transaction. An id that is taken fails the first, and nothing is done.
unfoldable pub store_event : ThreadEvent → M ThreadEvent
unfolding has_event touch
store_event event env w = elim (has_event event.id w.events) [
  | true ↦ throw integrity_error (codes "UNIQUE constraint failed: thread_events.id") env w
  | false ↦ (
    ok event,
    record w {
      events = w.events ++ event ∷ [];
      threads = touch event.thread_id event.created_at w.threads;
    },
  )
]

unfoldable pub append_event : NewEvent → M ThreadEvent
unfolding get_thread monotonic_timestamp store_event
append_event new = do
  thread ← get_thread new.thread_id
  now ← utc_now
  id ← fresh_id
  store_event (event_record new id (monotonic_timestamp now thread.updated_at))

abbrev pub new_thread : Option Text → Option Text → Fields → Option Text → Text → ℕ → Thread
new_thread title default_model metadata created_by id now = record {
  id = id;
  title = title;
  default_model = default_model;
  metadata = metadata;
  created_by = created_by;
  created_at = now;
  updated_at = now;
}

unfoldable pub insert_thread : Thread → M Thread
insert_thread thread env w = elim (find_thread thread.id w.threads) [
  | some t ↦ throw integrity_error (codes "UNIQUE constraint failed: threads.id") env w
  | none ↦ (ok thread, record w { threads = w.threads ++ thread ∷ [] })
]

unfoldable pub create_thread : Option Text → Option Text → Fields → Option Text → M Thread
unfolding insert_thread
create_thread title default_model metadata created_by = do
  now ← utc_now
  id ← fresh_id
  insert_thread (new_thread title default_model metadata created_by id now)

-- WHERE thread_id = ? [AND public = ?] ORDER BY sequence ASC
unfoldable pub list_events : Text → Bool → World → List ThreadEvent
list_events thread_id include_internal w =
    filter (λ e. text_eq e.thread_id thread_id && (include_internal || e.public)) w.events

unfoldable pub count_threads : World → ℕ
count_threads w = length w.threads
