-- ===== src/Threads/Following.antt =====
-- The previous route that a turn after a fan-out reads (turns.py), and its routing (routing.py).
use mathlib.Core.List.{reverse, reverse-append}
use llama_pack.Prelude.{
  ℕ, Bool, true, false, ◌≡◌, refl, sym, ◌∙◌, ap, subst, ◌⊎◌, inl, inr, Option, none, some, List, [],
  ◌∷◌, ◌++◌, filter, text_eq, text_eq_iff, Bool-cases, ◌&&◌, ◌||◌,
}
use llama_pack.Prelude.Json.{Value, Fields}
use llama_pack.Prelude.Text.{Text, codes}
use llama_pack.Threads.Session.{ThreadEvent, World, Env, return}
use llama_pack.Threads.Store.{NewEvent, event_record, list_events}
use llama_pack.Threads.Events.{append_and_publish}
use llama_pack.Threads.Routing.Probes.{
  Probes, Config, ClassifierHint, RouteDecision, Choice, chosen, error,
}
use llama_pack.Threads.Routing.Plugin.{
  RoutingPlugin, effective_request_type, fell_back, consult_plugin, annotate_decision,
  annotate_choice, choose,
}
use llama_pack.Threads.Routing.Served.{Running}
use llama_pack.Threads.Routing.Sources.{KnownNode}
use llama_pack.Threads.Routing.Composed.{recorded_route, StaysAt, choose_deterministic-StaysAt}
use llama_pack.Threads.FanoutRun.{
  post_message_fanout, run_targets, aggregated, assistant_message, successful,
}
use llama_pack.Threads.Turns.{
  is_given, answered_by, has_profile, previous_in, pair_fields, previous_route,
}
use llama_pack.Threads.Results.{returned_with, ok_inj, bind-ok, Appended, append_and_publish-ok}

-- The last event is the answer of the thread, at the primary node.
post_message_fanout-Appended :
    (thread_id turn_id : Text) (messages : List Value) (primary : RouteDecision) (route : Fields)
    (env : Env) (w w' : World) (text : Text)
    → post_message_fanout thread_id turn_id messages primary route env w ≡ returned_with text w'
    → (before : World) × (e : ThreadEvent) × (after : World) × Appended
        (assistant_message thread_id turn_id text route primary)
        before
        e
        after
      × (w'.events ≡ after.events)
unfolding post_message_fanout return
post_message_fanout-Appended thread_id turn_id messages primary route env w w' text h =
    let (outputs, u, ran, h1) =
      bind-ok (run_targets thread_id turn_id messages _) _ env w w' text h in
    let (event, v, noted, h2) = bind-ok (append_and_publish _) _ env u w' text h1 in
    let (answer, x, joined, h3) = bind-ok (aggregated (successful outputs)) _ env v w' text h2 in
    let (last, y, said, h4) =
      bind-ok (append_and_publish (assistant_message thread_id turn_id answer route primary)) _ env
        x w' text h3 in
    let r = ok_inj h4 in
    let appended : Appended (assistant_message thread_id turn_id answer route primary) x last y =
      append_and_publish-ok _ env x y last said in
    let named =
      subst (λ t. Appended (assistant_message thread_id turn_id t route primary) x last y) r.0
        appended in
    (x, last, y, named, ap (λ o. o.events) (sym r.1))

pub filter-append :
    (p : ThreadEvent → Bool) (xs : List ThreadEvent) (e : ThreadEvent)
    → p e ≡ true
    → filter p (xs ++ e ∷ []) ≡ filter p xs ++ e ∷ []
filter-append p [] e h = rw h refl
filter-append p (x ∷ xs) e h = elim (Bool-cases (p x)) [
  | inl q ↦ rw q (ap (λ l. x ∷ l) (filter-append p xs e h))
  | inr q ↦ rw q (filter-append p xs e h)
]

abbrev pub of_thread : Text → ThreadEvent → Bool
of_thread thread_id e = text_eq e.thread_id thread_id && (true || e.public)

pub listed_last :
    (thread_id : Text) (new : NewEvent) (before w : World) (id : Text) (created_at : ℕ)
    → new.thread_id ≡ thread_id
    → w.events ≡ before.events ++ event_record new id created_at ∷ []
    → reverse (list_events thread_id true w)
      ≡ event_record new id created_at ∷ reverse (list_events thread_id true before)
unfolding list_events
listed_last thread_id new before w id created_at here events =
    let own : (text_eq new.thread_id thread_id && true) ≡ true =
      rw ((text_eq_iff new.thread_id thread_id).1 here) refl in
    let e = event_record new id created_at in
    ap (λ l. reverse (filter (of_thread thread_id) l)) events
    ∙ ap reverse (filter-append (of_thread thread_id) before.events e own)
    ∙ reverse-append (filter (of_thread thread_id) before.events) (e ∷ [])

answer_found :
    (family profile : Option Text) (new : NewEvent) (route : Fields) (id node model : Text)
    (created_at : ℕ) (es : List ThreadEvent)
    → new.event_type ≡ codes "assistant_message"
    → new.agent_node ≡ some node
    → new.model ≡ some model
    → new.route ≡ some route
    → has_profile family profile route ≡ true
    → is_given (some node) ≡ true
    → is_given (some model) ≡ true
    → previous_in family profile (event_record new id created_at ∷ es) ≡ some (node, model)
unfolding previous_in answered_by
answer_found family profile new route id node model created_at es kind at with_model way same n m =
    let is_answer = (text_eq_iff new.event_type (codes "assistant_message")).1 kind in
    rw (previous_in, answered_by, is_answer, at, with_model, n, m, way, same) refl

-- After a fan-out that answered, at a primary node and model that are named, the latest route of the
-- thread is theirs, for a family and a profile that the route of the answer has.
post_message_fanout-previous :
    (thread_id turn_id : Text) (messages : List Value) (primary : RouteDecision) (route : Fields)
    (env : Env) (w w' : World) (text : Text) (family profile : Option Text)
    → is_given (some primary.node) ≡ true
    → is_given (some primary.model) ≡ true
    → has_profile family profile route ≡ true
    → post_message_fanout thread_id turn_id messages primary route env w ≡ returned_with text w'
    → previous_route thread_id family profile w' ≡ some (recorded_route primary.node primary.model)
unfolding previous_route
post_message_fanout-previous thread_id turn_id messages primary route env w w' text family profile n
      m here h =
    let (before, e, after, (id, created_at, named, events), same) =
      post_message_fanout-Appended thread_id turn_id messages primary route env w w' text h in
    let new = assistant_message thread_id turn_id text route primary in
    let listed = listed_last thread_id new before w' id created_at refl (same ∙ events) in
    ap (λ l. pair_fields (previous_in family profile l)) listed
    ∙ ap pair_fields (
        answer_found family profile new route id primary.node primary.model created_at _ refl refl
          refl refl here n m)

-- A choice for that node and model, which are running.
abbrev pub Goes : Text → Text → Choice → Type 0
Goes node model (chosen d) = (d.node ≡ node) × (d.model ≡ model) × (d.startup_needed ≡ false)
Goes node model (error message) = ⊥

-- A hint and a note change neither the node nor the model.
annotate_choice-Goes :
    (node model : Text) (hint : Option ClassifierHint) (why : Option Text) (o : Choice)
    → StaysAt node model o
    → Goes node model (annotate_choice hint why o)
unfolding annotate_choice annotate_decision
annotate_choice-Goes node model none none (chosen d) h = (h.0, h.1, h.3)
annotate_choice-Goes node model none (some why) (chosen d) h = (h.0, h.1, h.3)
annotate_choice-Goes node model (some hint) why (chosen d) h = (h.0, h.1, h.3)
annotate_choice-Goes node model hint why (error message) h = absurd h

-- After a fan-out that answered, at a primary node and model that are not empty,
-- the routing of a turn in that thread chooses the same node and model, running, whatever the request
-- type and the requested model are, if: the turn's family and profile are those of the answer's
-- route, or it names neither; its target is empty or auto; no plugin decides; the mode is controller;
-- the node is still configured; and the probe finds the model running there.
pub post_message_fanout-Goes :
    (thread_id turn_id : Text) (messages : List Value) (primary : RouteDecision) (route : Fields)
    (env : Env) (w w' : World) (text : Text) (family profile : Option Text) (cfg : Config)
    (p : Probes) (plugin : Option RoutingPlugin) (request_type : Text) (requested : Option Text)
    (target : Text) (hint : Option ClassifierHint) (why : Option Text)
    → post_message_fanout thread_id turn_id messages primary route env w ≡ returned_with text w'
    → is_given (some primary.node) ≡ true
    → is_given (some primary.model) ≡ true
    → has_profile family profile route ≡ true
    → consult_plugin plugin
        (effective_request_type hint request_type)
        requested
        target
        (previous_route thread_id family profile w')
        hint
      ≡ fell_back why
    → cfg.mode ≡ codes "controller"
    → (target ≡ []) ⊎ (target ≡ codes "auto")
    → KnownNode cfg primary.node
    → Running p primary.node primary.model
    → Goes primary.node primary.model (
        choose cfg p plugin request_type requested target
          (previous_route thread_id family profile w')
          hint)
unfolding choose
post_message_fanout-Goes thread_id turn_id messages primary route env w w' text family profile cfg p
      plugin request_type requested target hint why h n m here quiet mode auto known r =
    let previous =
      post_message_fanout-previous thread_id turn_id messages primary route env w w' text family
        profile n m here h in
    let effective = effective_request_type hint request_type in
    rw (choose, quiet)
      (annotate_choice-Goes primary.node primary.model hint why _ (
        rw previous (
          choose_deterministic-StaysAt cfg p effective requested target primary.node primary.model
            mode auto known r)))
