-- ===== src/Threads/Calls.antt =====
-- The calls of a thread's services, one after another. A call that raises leaves what it wrote.
use llama_pack.Prelude.{ℕ, Option, List, [], ◌∷◌}
use llama_pack.Prelude.Json.{Value, Fields}
use llama_pack.Prelude.Text.{Text}
use llama_pack.Threads.Routing.Probes.{RouteDecision}
use llama_pack.Threads.Session.{World, Env}
use llama_pack.Threads.Store.{NewEvent, create_thread, append_event}
use llama_pack.Threads.Events.{append_and_publish}
use llama_pack.Threads.FanoutRun.{post_message_fanout}
use llama_pack.Threads.Compaction.{compact_thread_history}
use llama_pack.Threads.Preparing.{TurnRequest, prepare_message_route}

pub data ThreadCall : Type 0 where
  create : Option Text → Option Text → Fields → Option Text → ThreadCall
  append : NewEvent → ThreadCall
  append_published : NewEvent → ThreadCall
  prepare : TurnRequest → ThreadCall
  fan_out : Text → Text → List Value → RouteDecision → Fields → ThreadCall
  compact : Text → Option Text → Text → Fields → ℕ → Text → ThreadCall

unfoldable pub perform : Env → ThreadCall → World → World
perform env (create title model metadata created_by) w =
    (create_thread title model metadata created_by env w).1
perform env (append new) w = (append_event new env w).1
perform env (append_published new) w = (append_and_publish new env w).1
perform env (prepare request) w = (prepare_message_route request env w).1
perform env (fan_out thread_id turn_id messages primary route) w =
    (post_message_fanout thread_id turn_id messages primary route env w).1
perform env (compact thread_id turn_id model route recent source) w =
    (compact_thread_history thread_id turn_id model route recent source env w).1

unfoldable pub perform_all : Env → List ThreadCall → World → World
unfolding perform
perform_all env [] w = w
perform_all env (c ∷ cs) w = perform_all env cs (perform env c w)

abbrev pub no_threads : World
no_threads = record {
  threads = [];
  events = [];
  emitted = [];
  clock_reads = 0;
  ids_given = 0;
  choices = 0;
  chats = 0;
}
