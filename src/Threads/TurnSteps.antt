-- ===== src/Threads/TurnSteps.antt =====
-- The steps of the preparation of a turn.
use llama_pack.Prelude.{suc, ◌≡◌, refl, Option, none, some, List, text_eq, Bool-cases, inl, inr}
use llama_pack.Prelude.Json.{Value, Fields}
use llama_pack.Prelude.Text.{Text, codes}
use llama_pack.Threads.Routing.Probes.{RouteDecision, Choice, chosen, error}
use llama_pack.Threads.Session.{
  Thread, World, Exc, ErrorKind, value_error, key_error, integrity_error, context_error,
  other_error, Outcome, ok, failed,
}
use llama_pack.Threads.Store.{NewEvent, append_event}
use llama_pack.Threads.Turns.{
  require_thread_node_target, check_target, requested_node, assigned_node,
}
use llama_pack.Threads.Preparing.{
  TurnRequest, decision_or_error, choose_route, require_user, note_routing_error, or_routing_error,
  route_turn, prepare_message_route,
}
use llama_pack.Threads.Steps.{
  Steps, bind-Steps, try-Steps, return-Steps, throw-Steps, rethrow-Steps, gets-Steps, asks-Steps,
  fresh_id-Steps, get_thread-Steps, append_and_publish-Steps, append_error_async-Steps,
}
use llama_pack.Threads.Programs.{managed-Steps}

module _ (R : World → World → Type 0)
    (idle : (w w' : World) → w'.threads ≡ w.threads → w'.events ≡ w.events → R w w')
    (trans : (u v w : World) → R u v → R v w → R u w)
    (appends : (new : NewEvent) → Steps R (append_event new)) where
  require_user-Steps : (role : Text) → Steps R (require_user role)
  unfolding require_user
  require_user-Steps role env w = elim (Bool-cases (text_eq role (codes "user"))) [
    | inl e ↦ rw e (return-Steps R idle trans tt env w)
    | inr e ↦ rw e (throw-Steps R idle trans Unit value_error _ env w)
  ]

  note-Steps :
      (A : Type 0) (thread_id turn_id : Text) (e : Exc) (kind : ErrorKind)
      → Steps R (note_routing_error {A = A} thread_id turn_id e kind)
  unfolding note_routing_error
  note-Steps A thread_id turn_id e value_error =
      bind-Steps R idle trans _ _ (append_error_async-Steps R idle trans appends thread_id _ e _)
        (λ event. rethrow-Steps R idle trans A e)
  note-Steps A thread_id turn_id e key_error = rethrow-Steps R idle trans A e
  note-Steps A thread_id turn_id e integrity_error = rethrow-Steps R idle trans A e
  note-Steps A thread_id turn_id e context_error = rethrow-Steps R idle trans A e
  note-Steps A thread_id turn_id e other_error = rethrow-Steps R idle trans A e

  or_routing_error-Steps :
      {A : Type 0} (thread_id turn_id : Text) (o : Outcome A)
      → Steps R (or_routing_error thread_id turn_id o)
  unfolding or_routing_error
  or_routing_error-Steps thread_id turn_id (ok a) = return-Steps R idle trans a
  or_routing_error-Steps thread_id turn_id (failed e) =
      note-Steps _ thread_id turn_id e e.error_kind

  check_target-Steps :
      (requested assigned : Option Text) → Steps R (check_target requested assigned)
  unfolding check_target
  check_target-Steps none assigned env w = return-Steps R idle trans tt env w
  check_target-Steps (some requested) none env w = return-Steps R idle trans tt env w
  check_target-Steps (some requested) (some assigned) env w =
      elim (Bool-cases (text_eq assigned requested)) [
        | inl e ↦ rw e (return-Steps R idle trans tt env w)
        | inr e ↦ rw e (throw-Steps R idle trans Unit value_error _ env w)
      ]

  require_target-Steps :
      (thread_id target : Text) → Steps R (require_thread_node_target thread_id target)
  unfolding require_thread_node_target
  require_target-Steps thread_id target env w =
      check_target-Steps (requested_node target) (assigned_node thread_id w) env w

  decision-Steps : (c : Choice) → Steps R (decision_or_error c)
  unfolding decision_or_error
  decision-Steps (chosen d) = return-Steps R idle trans d
  decision-Steps (error message) = throw-Steps R idle trans RouteDecision value_error message

  choose_route-Steps :
      (request_type : Text) (requested : Option Text) (target : Text) (previous : Option Fields)
      → Steps R (choose_route request_type requested target previous)
  unfolding choose_route
  choose_route-Steps request_type requested target previous env w =
      trans w _ _ (idle w (record w { choices = suc w.choices }) refl refl)
        (decision-Steps _ env (record w { choices = suc w.choices }))

  routed-Steps :
      (r : TurnRequest) (thread : Thread) (previous : Option Fields) (history : List Value)
      (turn_id : Text)
      → Steps R (route_turn r thread previous history turn_id)
  unfolding route_turn
  routed-Steps r thread previous history turn_id =
      bind-Steps R idle trans _ _
        (try-Steps R idle trans _ (require_target-Steps r.thread_id r.target))
        (λ checked.
          bind-Steps R idle trans _ _ (or_routing_error-Steps r.thread_id turn_id checked) (λ u.
            bind-Steps R idle trans _ _
              (try-Steps R idle trans _ (choose_route-Steps _ _ r.target previous))
              (λ routed.
                bind-Steps R idle trans _ _ (or_routing_error-Steps r.thread_id turn_id routed)
                  (λ d.
                    bind-Steps R idle trans _ _ (append_and_publish-Steps R idle trans appends _)
                      (λ event.
                        bind-Steps R idle trans _ _
                          (managed-Steps R idle trans appends r.thread_id turn_id _ d.model _)
                          (λ managed. return-Steps R idle trans _))))))

  pub prepare_message_route-Steps : (r : TurnRequest) → Steps R (prepare_message_route r)
  unfolding prepare_message_route
  prepare_message_route-Steps r = bind-Steps R idle trans _ _ (require_user-Steps r.role) (λ u.
      bind-Steps R idle trans _ _ (get_thread-Steps R idle trans r.thread_id) (λ thread.
        bind-Steps R idle trans _ _ (gets-Steps R idle trans _) (λ previous.
          bind-Steps R idle trans _ _ (asks-Steps R idle trans _) (λ display_text.
            bind-Steps R idle trans _ _ (gets-Steps R idle trans _) (λ history.
              bind-Steps R idle trans _ _ (fresh_id-Steps R idle trans) (λ turn_id.
                bind-Steps R idle trans _ _ (append_and_publish-Steps R idle trans appends _)
                  (λ event. routed-Steps r thread previous history turn_id)))))))
