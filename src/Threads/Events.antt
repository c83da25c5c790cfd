-- ===== src/Threads/Events.antt =====
-- The publisher of a thread's events, llama_pack/core/threads/events.py: what is stored, and what goes
-- to the event bus. A bus delivers a message to its subscribers, whose exceptions it keeps to itself.
use llama_pack.Prelude.{
  ℕ, Bool, true, false, Option, none, some, [], ◌∷◌, ◌++◌, take, text_eq, ◌||◌, if◌then◌else◌,
}
use llama_pack.Prelude.Int.{pos}
use llama_pack.Prelude.Json.{
  Value, null, bool, num, str, arr, obj, Items, nil, cons, Fields, end, field, get,
}
use llama_pack.Prelude.Text.{Text, codes}
use llama_pack.Threads.Session.{ThreadEvent, Emission, Exc, ok, M, ◌>>=◌, ◌>>◌, return, object, opt}
use llama_pack.Threads.Store.{NewEvent, append_event}

-- (content or {}).get("status")
unfoldable pub status_is : Text → Fields → Bool
status_is status content = elim (get (codes "status") content) [
  | some (str s) ↦ text_eq s status
  | _ ↦ false
]

unfoldable pub plugin_thread_event_type : Text → Fields → Text
unfolding status_is
plugin_thread_event_type event_type content =
    let created = codes "llama_pack.thread." ++ event_type ++ codes ".created" in
    if text_eq event_type (codes "workflow_step")
    then (if status_is (codes "running") content
        then codes "llama_pack.thread.workflow_step.started"
        else if status_is (codes "complete") content
        then codes "llama_pack.thread.workflow_step.completed"
        else if status_is (codes "failed") content
        then codes "llama_pack.thread.workflow_step.failed"
        else created)
    else created

unfoldable pub take_items : ℕ → Items → Items
take_items Prim.Native.Nat.zero vs = nil
take_items (Prim.Native.Nat.suc n) nil = nil
take_items (Prim.Native.Nat.suc n) (cons v vs) = cons v (take_items n vs)

unfoldable pub take_fields : ℕ → Fields → Fields
take_fields Prim.Native.Nat.zero fs = end
take_fields (Prim.Native.Nat.suc n) end = end
take_fields (Prim.Native.Nat.suc n) (field k v fs) = field k v (take_fields n fs)

unfoldable pub bounded_value : Value → Value
unfolding take_items take_fields
bounded_value (str s) = str (take 1000 s)
bounded_value (arr vs) = arr (take_items 20 vs)
bounded_value (obj fs) = obj (take_fields 20 fs)
bounded_value v = v

-- {"raw_response", "messages"}
abbrev pub is_left_out : Text → Bool
is_left_out key = text_eq key (codes "raw_response") || text_eq key (codes "messages")

unfoldable pub bounded_plugin_content : Fields → Fields
unfolding bounded_value
bounded_plugin_content end = end
bounded_plugin_content (field key value rest) =
    let others = bounded_plugin_content rest in
    if is_left_out key then others else field key (bounded_value value) others

abbrev pub opt_fields : Option Fields → Value
opt_fields none = null
opt_fields (some fs) = obj fs

unfoldable pub plugin_thread_event_payload : ThreadEvent → Fields
unfolding bounded_plugin_content
plugin_thread_event_payload event = object (
    (codes "event_id", str event.id)
    ∷ (codes "thread_id", str event.thread_id)
    ∷ (codes "event_type", str event.event_type)
    ∷ (codes "turn_id", opt event.turn_id)
    ∷ (codes "role", opt event.role)
    ∷ (codes "public", bool event.public)
    ∷ (codes "route", opt_fields event.route)
    ∷ (codes "agent_node", opt event.agent_node)
    ∷ (codes "model", opt event.model)
    ∷ (codes "error_code", opt event.error_code)
    ∷ (codes "error_detail", opt event.error_detail)
    ∷ (codes "content", obj (bounded_plugin_content event.content))
    ∷ (codes "created_at", num (pos event.created_at) 0)
    ∷ [])

-- event.get("turn_id") or event["id"]
abbrev pub correlation_of : Option Text → Text → Text
correlation_of (some (c ∷ s)) id = c ∷ s
correlation_of (some []) id = id
correlation_of none id = id

abbrev pub emission_of : ThreadEvent → Emission
emission_of event = record {
  emitted_type = plugin_thread_event_type event.event_type event.content;
  payload = plugin_thread_event_payload event;
  correlation_id = correlation_of event.turn_id event.id;
}

unfoldable pub publish : ThreadEvent → M (Unit {0})
unfolding plugin_thread_event_type plugin_thread_event_payload
publish event env w = (
  ok tt,
  if env.has_event_bus then record w { emitted = w.emitted ++ emission_of event ∷ [] } else w,
)

-- ThreadEventPublisher.append_event
unfoldable pub append_and_publish : NewEvent → M ThreadEvent
unfolding publish
append_and_publish new = do event ← append_event new; publish event; return event

abbrev pub error_event : Text → Text → Exc → Option Text → NewEvent
error_event thread_id error_code exc turn_id = record {
  thread_id = thread_id;
  event_type = codes "error";
  role = none;
  content = object ((codes "text", str exc.text) ∷ []);
  public = true;
  turn_id = turn_id;
  route = none;
  agent_node = none;
  model = none;
  error_code = some error_code;
  error_detail = some exc.text;
}

-- append_error, which publishes nothing.
unfoldable pub append_error : Text → Text → Exc → Option Text → M ThreadEvent
append_error thread_id error_code exc turn_id =
    append_event (error_event thread_id error_code exc turn_id)

unfoldable pub append_error_async : Text → Text → Exc → Option Text → M ThreadEvent
unfolding append_and_publish
append_error_async thread_id error_code exc turn_id =
    append_and_publish (error_event thread_id error_code exc turn_id)
