-- ===== src/Threads/Session.antt =====
-- What the services of a thread work on, and their calls as state passing: the tables of threads
-- and events, what went to the event bus, and how often the surroundings were asked. An exception
-- leaves what was written before it.
use llama_pack.Prelude.{ℕ, suc, Bool, Option, none, some, List, [], ◌∷◌, text_eq, if◌then◌else◌}
use llama_pack.Prelude.Json.{Value, null, str, Items, nil, cons, Fields, end, field}
use llama_pack.Prelude.Text.{Text}
use llama_pack.Threads.Routing.Probes.{Config, Probes}
use llama_pack.Threads.Routing.Plugin.{RoutingPlugin}

-- A row of `threads`, as `_thread_from_row` returns it. Times are microseconds.
pub record Thread : Type 0 where
  pub id : Text
  pub title : Option Text
  pub default_model : Option Text
  pub metadata : Fields
  pub created_by : Option Text
  pub created_at : ℕ
  pub updated_at : ℕ

-- A row of `thread_events`, as `_event_from_row` returns it.
pub record ThreadEvent : Type 0 where
  pub id : Text
  pub thread_id : Text
  pub event_type : Text
  pub role : Option Text
  pub content : Fields
  pub public : Bool
  pub turn_id : Option Text
  pub route : Option Fields
  pub agent_node : Option Text
  pub model : Option Text
  pub error_code : Option Text
  pub error_detail : Option Text
  pub created_at : ℕ

-- A message on the event bus: its type, its payload and its correlation id.
pub record Emission : Type 0 where
  pub emitted_type : Text
  pub payload : Fields
  pub correlation_id : Text

-- The events are in the order of their sequence numbers.
pub record World : Type 0 where
  pub threads : List Thread
  pub events : List ThreadEvent
  pub emitted : List Emission
  pub clock_reads : ℕ
  pub ids_given : ℕ
  pub choices : ℕ
  pub chats : ℕ

pub data ErrorKind : Type 0 where
  value_error key_error integrity_error context_error other_error : ErrorKind

-- An exception, with its text as `str` gives it.
pub record Exc : Type 0 where
  pub error_kind : ErrorKind
  pub text : Text

pub data Outcome (A : Type 0) : Type 0 where
  ok : A → Outcome A
  failed : Exc → Outcome A

-- The settings of context summaries: the context size of a model, if it is known, and what
-- `int(window * context_summarization_trigger_ratio)` gives for a window.
pub record ContextSettings : Type 0 where
  pub summarization_enabled : Bool
  pub compaction_enabled : Bool
  pub model_ctx : Text → Option ℕ
  pub min_prompt_tokens : ℕ
  pub trigger_of : ℕ → ℕ
  pub recent_messages : ℕ
  pub summary_max_tokens : ℕ

-- The surroundings: the n-th reading of the clock, uuid4, the n-th answer of `chat_with_meta`, and
-- what routing asks at its n-th choice; Python's `str` of a value that is no text; the settings.
pub record Env : Type 0 where
  pub now : ℕ → ℕ
  pub uuid4 : ℕ → Text
  pub chat_with_meta : ℕ → Text → Fields → Outcome (Value × Value)
  pub probes : ℕ → Probes
  pub plugin : Option RoutingPlugin
  pub config : Config
  pub context : ContextSettings
  pub to_text : Value → Text
  pub has_event_bus : Bool

abbrev pub M : Type 0 → Type 0
M A = Env → World → Outcome A × World

-- What follows a result; an exception goes on.
unfoldable pub continue : {A B : Type 0} → (A → M B) → Env → Outcome A × World → Outcome B × World
continue f env (ok a, w) = f a env w
continue f env (failed e, w) = (failed e, w)

infixl 5 ◌>>=◌ ◌>>◌
unfoldable pub ◌>>=◌ : {A B : Type 0} → M A → (A → M B) → M B
unfolding continue
(m >>= f) env w = continue f env (m env w)

abbrev pub ◌>>◌ : {A B : Type 0} → M A → M B → M B
m >> n = m >>= (λ a. n)

unfoldable pub return : {A : Type 0} → A → M A
return a env w = (ok a, w)

unfoldable pub throw : {A : Type 0} → ErrorKind → Text → M A
throw kind text env w = (failed (record { error_kind = kind; text = text }), w)

unfoldable pub rethrow : {A : Type 0} → Exc → M A
rethrow e env w = (failed e, w)

-- `try`: the result or the exception.
unfoldable pub try : {A : Type 0} → M A → M (Outcome A)
try m env w = let (o, w') = m env w in (ok o, w')

-- What is read of the tables, or of the surroundings.
unfoldable pub gets : {A : Type 0} → (World → A) → M A
gets f env w = (ok (f w), w)

unfoldable pub asks : {A : Type 0} → (Env → A) → M A
asks f env w = (ok (f env), w)

unfoldable pub utc_now : M ℕ
utc_now env w = (ok (env.now w.clock_reads), record w { clock_reads = suc w.clock_reads })

unfoldable pub fresh_id : M Text
fresh_id env w = (ok (env.uuid4 w.ids_given), record w { ids_given = suc w.ids_given })

-- await chat_proxy.chat_with_meta(model, payload)
unfoldable pub chat_with : Text → Fields → M (Value × Value)
chat_with model payload env w =
    (env.chat_with_meta w.chats model payload, record w { chats = suc w.chats })

-- A dictionary's literal.
abbrev pub object : List (Text × Value) → Fields
object [] = end
object ((k, v) ∷ rest) = field k v (object rest)

abbrev pub items : List Value → Items
items [] = nil
items (v ∷ vs) = cons v (items vs)

abbrev pub values : Items → List Value
values nil = []
values (cons v vs) = v ∷ values vs

abbrev pub opt : Option Text → Value
opt none = null
opt (some s) = str s

-- d[k] = v, and {**a, **b}.
unfoldable pub put : Text → Value → Fields → Fields
put k v end = field k v end
put k v (field j u fs) = if text_eq j k then field j v fs else field j u (put k v fs)

unfoldable pub merge : Fields → Fields → Fields
merge a end = a
merge a (field k v fs) = merge (put k v a) fs
