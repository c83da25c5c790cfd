-- ===== src/Threads/Programs.antt =====
-- The steps of fan-out, of compaction and of the preparation of a turn.
use llama_pack.Prelude.{
  ℕ, true, ◌≡◌, refl, Option, none, some, List, [], ◌∷◌, leb, length, Bool-cases, inl, inr,
}
use llama_pack.Prelude.Json.{Value, Fields}
use llama_pack.Prelude.Text.{Text, codes}
use llama_pack.Threads.Routing.Probes.{Target, RouteDecision}
use llama_pack.Threads.Session.{
  ThreadEvent, World, Env, value_error, context_error, other_error, Outcome, ok, failed,
}
use llama_pack.Threads.Store.{NewEvent, append_event}
use llama_pack.Threads.FanoutRun.{
  content_or_throw, Output, ask_target, output_of, run_target, run_targets, successful, aggregated,
  text_or_throw, post_message_fanout,
}
use llama_pack.Threads.Summaries.{assistant_summary_content, summary_text}
use llama_pack.Threads.Context.{
  ask_summary, summary_or_error, public_message_events, current_messages, unsummarized_events,
}
use llama_pack.Threads.Compaction.{
  Compaction, summarize, compact_thread_history, managed_thread_messages,
}
use llama_pack.Threads.Summaries.{should_summarize_messages}
use llama_pack.Threads.Steps.{
  Steps, bind-Steps, try-Steps, return-Steps, throw-Steps, chat_with-Steps,
  append_and_publish-Steps, append_error_async-Steps,
}

module _ (R : World → World → Type 0)
    (idle : (w w' : World) → w'.threads ≡ w.threads → w'.events ≡ w.events → R w w')
    (trans : (u v w : World) → R u v → R v w → R u w)
    (appends : (new : NewEvent) → Steps R (append_event new)) where
  content_or_throw-Steps : (o : Option Value) → Steps R (content_or_throw o)
  unfolding content_or_throw
  content_or_throw-Steps (some v) = return-Steps R idle trans v
  content_or_throw-Steps none = throw-Steps R idle trans _ other_error (codes "content")

  ask_target-Steps :
      (thread_id turn_id : Text) (messages : List Value) (t : Target)
      → Steps R (ask_target thread_id turn_id messages t)
  unfolding ask_target
  ask_target-Steps thread_id turn_id messages t =
      bind-Steps R idle trans _ _ (chat_with-Steps R idle trans t.model _) (λ answer.
        bind-Steps R idle trans _ _ (content_or_throw-Steps _) (λ content.
          bind-Steps R idle trans _ _ (append_and_publish-Steps R idle trans appends _)
            (λ event. return-Steps R idle trans _)))

  output_of-Steps :
      (thread_id turn_id : Text) (t : Target) (o : Outcome Output)
      → Steps R (output_of thread_id turn_id t o)
  unfolding output_of
  output_of-Steps thread_id turn_id t (ok output) = return-Steps R idle trans output
  output_of-Steps thread_id turn_id t (failed e) =
      bind-Steps R idle trans _ _ (append_and_publish-Steps R idle trans appends _)
        (λ event. return-Steps R idle trans _)

  run_target-Steps :
      (thread_id turn_id : Text) (messages : List Value) (t : Target)
      → Steps R (run_target thread_id turn_id messages t)
  unfolding run_target
  run_target-Steps thread_id turn_id messages t =
      bind-Steps R idle trans _ _ (append_and_publish-Steps R idle trans appends _) (λ event.
        bind-Steps R idle trans _ _
          (try-Steps R idle trans _ (ask_target-Steps thread_id turn_id messages t))
          (output_of-Steps thread_id turn_id t))

  run_targets-Steps :
      (thread_id turn_id : Text) (messages : List Value) (ts : List Target)
      → Steps R (run_targets thread_id turn_id messages ts)
  unfolding run_targets
  run_targets-Steps thread_id turn_id messages [] = return-Steps R idle trans []
  run_targets-Steps thread_id turn_id messages (t ∷ ts) =
      bind-Steps R idle trans _ _ (run_target-Steps thread_id turn_id messages t) (λ output.
        bind-Steps R idle trans _ _ (run_targets-Steps thread_id turn_id messages ts)
          (λ outputs. return-Steps R idle trans _))

  text_or_throw-Steps : (o : Option Text) → Steps R (text_or_throw o)
  unfolding text_or_throw
  text_or_throw-Steps (some t) = return-Steps R idle trans t
  text_or_throw-Steps none = throw-Steps R idle trans _ other_error _

  aggregated-Steps : (vs : List Value) → Steps R (aggregated vs)
  unfolding aggregated
  aggregated-Steps [] = return-Steps R idle trans _
  aggregated-Steps (v ∷ vs) = text_or_throw-Steps _

  pub post_message_fanout-Steps :
      (thread_id turn_id : Text) (messages : List Value) (primary : RouteDecision) (route : Fields)
      → Steps R (post_message_fanout thread_id turn_id messages primary route)
  unfolding post_message_fanout
  post_message_fanout-Steps thread_id turn_id messages primary route =
      bind-Steps R idle trans _ _ (run_targets-Steps thread_id turn_id messages _) (λ outputs.
        bind-Steps R idle trans _ _ (append_and_publish-Steps R idle trans appends _) (λ event.
          bind-Steps R idle trans _ _ (aggregated-Steps (successful outputs)) (λ text.
            bind-Steps R idle trans _ _ (append_and_publish-Steps R idle trans appends _)
              (λ last. return-Steps R idle trans text))))

  summary_text-Steps : (env' : Env) (v : Value) (o : Option Text) → Steps R (summary_text env' v o)
  unfolding summary_text
  summary_text-Steps env' v none = throw-Steps R idle trans _ value_error _
  summary_text-Steps env' v (some []) = throw-Steps R idle trans _ value_error _
  summary_text-Steps env' v (some (c ∷ s)) = return-Steps R idle trans _

  assistant_summary-Steps : (v : Value) → Steps R (assistant_summary_content v)
  unfolding assistant_summary_content
  assistant_summary-Steps v env w = summary_text-Steps env v _ env w

  ask_summary-Steps : (model : Text) (payload : Fields) → Steps R (ask_summary model payload)
  unfolding ask_summary
  ask_summary-Steps model payload =
      bind-Steps R idle trans _ _ (chat_with-Steps R idle trans model payload) (λ answer.
        bind-Steps R idle trans _ _ (assistant_summary-Steps answer.0)
          (λ summary. return-Steps R idle trans _))

  summary_or_error-Steps :
      (thread_id : Text) (turn_id : Option Text) (model : Text) (o : Outcome (Text × Value))
      → Steps R (summary_or_error thread_id turn_id model o)
  unfolding summary_or_error
  summary_or_error-Steps thread_id turn_id model (ok answer) = return-Steps R idle trans answer
  summary_or_error-Steps thread_id turn_id model (failed e) =
      bind-Steps R idle trans _ _
        (append_error_async-Steps R idle trans appends thread_id _ e turn_id)
        (λ event. throw-Steps R idle trans _ context_error _)

  summarize-Steps : (env' : Env) (c : Compaction) → Steps R (summarize env' c)
  unfolding summarize
  summarize-Steps env' c =
      bind-Steps R idle trans _ _ (try-Steps R idle trans _ (ask_summary-Steps c.model _)) (λ o.
        bind-Steps R idle trans _ _ (summary_or_error-Steps c.thread_id c.turn_id c.model o)
          (λ answer.
            bind-Steps R idle trans _ _ (append_and_publish-Steps R idle trans appends _)
              (λ event. return-Steps R idle trans _)))

  pub compact_thread_history-Steps :
      (thread_id : Text) (turn_id : Option Text) (model : Text) (route : Fields) (recent : ℕ)
      (source : Text)
      → Steps R (compact_thread_history thread_id turn_id model route recent source)
  unfolding compact_thread_history
  compact_thread_history-Steps thread_id turn_id model route recent source env w =
      elim (Bool-cases (leb (length (unsummarized_events env thread_id w)) recent)) [
        | inl e ↦ rw (compact_thread_history, e) (idle w w refl refl)
        | inr e ↦ rw (compact_thread_history, e) (summarize-Steps env _ env w)
      ]

  pub managed-Steps :
      (thread_id turn_id : Text) (messages : List Value) (model : Text) (route : Fields)
      → Steps R (managed_thread_messages thread_id turn_id messages model route)
  unfolding managed_thread_messages
  managed-Steps thread_id turn_id messages model route env w =
      elim (Bool-cases env.context.summarization_enabled) [
        | inr e ↦ rw (managed_thread_messages, e) (idle w w refl refl)
        | inl e ↦ listed e (public_message_events thread_id w) refl
      ]
    where
      listed :
          env.context.summarization_enabled ≡ true
          → (events : List ThreadEvent) → public_message_events thread_id w ≡ events
          → R w (managed_thread_messages thread_id turn_id messages model route env w).1
      listed e [] l = rw (managed_thread_messages, e, l) (idle w w refl refl)
      listed e (m ∷ ms) l =
          elim (Bool-cases
            (should_summarize_messages env model (current_messages env thread_id w))) [
              | inr s ↦ rw (managed_thread_messages, e, l, s) (idle w w refl refl)
              | inl s ↦
                  rw (managed_thread_messages, e, l, s)
                    (compact_thread_history-Steps thread_id (some turn_id) model route
                      env.context.recent_messages (codes "auto") env w)
            ]
