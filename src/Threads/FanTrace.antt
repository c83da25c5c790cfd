-- ===== src/Threads/FanTrace.antt =====
-- The events of a fan-out: a request and a response for each target, then the aggregation and the answer.
use llama_pack.Prelude.{
  ◌≡◌, refl, sym, ◌∙◌, ap, subst, inl, inr, Option, none, some, List, [], ◌∷◌, ◌++◌,
}
use llama_pack.Prelude.Json.{Value, Fields}
use llama_pack.Prelude.Text.{Text, codes}
use llama_pack.Threads.Routing.Probes.{Target, RouteDecision}
use llama_pack.Threads.Session.{
  World, Env, Exc, M, Outcome, ok, failed, return, throw, try, chat_with,
}
use llama_pack.Threads.Events.{append_and_publish}
use llama_pack.Threads.FanoutRun.{
  choice_content, content_or_throw, Output, target_of, agent_request, agent_response, ask_target,
  output_of, run_target, run_targets, successful, text_or_throw, aggregated, post_message_fanout,
}
use llama_pack.Threads.Results.{returned_with, failed_with, ok_inj, bind-ok}
use llama_pack.Threads.Trace.{
  bind-failed, ok_is_not_failed, append_and_publish-failed, Added, Added-trans, Added-none,
  append_and_publish-Added, Added-from,
}

content_or_throw-same :
    (o : Option Value) (env : Env) (w : World) → (content_or_throw o env w).1.events ≡ w.events
unfolding content_or_throw return throw
content_or_throw-same (some v) env w = refl
content_or_throw-same none env w = refl

-- The events after a part of a run that is known.
after_run :
    {A : Type 0} (m : M A) (env : Env) (w v : World) (r : Outcome A)
    → (m env w).1.events ≡ w.events
    → m env w ≡ (r, v)
    → v.events ≡ w.events
after_run m env w v r same h = ap (λ q. q.1.events) (sym h) ∙ same

abbrev response_trace : Target → List (Text × Option Text)
response_trace t = (codes "agent_response", some t.node) ∷ []

ask_target-Added :
    (thread_id turn_id : Text) (messages : List Value) (t : Target) (env : Env) (w w' : World)
    (output : Output)
    → ask_target thread_id turn_id messages t env w ≡ returned_with output w'
    → Added w w' (response_trace t)
unfolding ask_target chat_with return
ask_target-Added thread_id turn_id messages t env w w' output h =
    let (answer, v, asked, h1) = bind-ok (chat_with t.model _) _ env w w' output h in
    let (content, x, read, h2) =
      bind-ok (content_or_throw (choice_content answer.0)) _ env v w' output h1 in
    let (event, y, noted, h3) =
      bind-ok (append_and_publish (agent_response thread_id turn_id t content)) _ env x w' output
        h2 in
    let same : x.events ≡ w.events =
      after_run (content_or_throw (choice_content answer.0)) env v x (ok content)
        (content_or_throw-same (choice_content answer.0) env v) read
      ∙ after_run (chat_with t.model _) env w v (ok answer) refl asked in
    let added =
      append_and_publish-Added (agent_response thread_id turn_id t content) env x y event noted in
    let r = ok_inj h3 in
    subst (λ z. Added w z (response_trace t)) r.1 (Added-from w x y (response_trace t) same added)

ask_target-failed :
    (thread_id turn_id : Text) (messages : List Value) (t : Target) (env : Env) (w w' : World)
    (e : Exc)
    → ask_target thread_id turn_id messages t env w ≡ failed_with Output e w'
    → w'.events ≡ w.events
unfolding ask_target chat_with return
ask_target-failed thread_id turn_id messages t env w w' e h =
    elim (bind-failed (chat_with t.model _) _ env w w' e h) [
      | inl f ↦ after_run (chat_with t.model _) env w w' (failed e) refl f
      | inr (answer, v, asked, h1) ↦
          let start = after_run (chat_with t.model _) env w v (ok answer) refl asked in
          let reading = content_or_throw (choice_content answer.0) in
          let reads = content_or_throw-same (choice_content answer.0) env v in
          elim (bind-failed reading _ env v w' e h1) [
            | inl f ↦ after_run reading env v w' (failed e) reads f ∙ start
            | inr (content, x, read, h2) ↦
                let here = after_run reading env v x (ok content) reads read ∙ start in
                elim (bind-failed (append_and_publish (agent_response thread_id turn_id t content))
                  _ env x w' e h2) [
                    | inl f ↦ append_and_publish-failed _ env x w' e f ∙ here
                    | inr (event, y, noted, h3) ↦ absurd (ok_is_not_failed h3)
                  ]
          ]
    ]

abbrev target_trace : Target → List (Text × Option Text)
target_trace t = (codes "agent_request", some t.node) ∷ response_trace t

responded :
    (thread_id turn_id : Text) (messages : List Value) (t : Target) (env : Env) (v x w' : World)
    (o : Outcome Output) (output : Output)
    → ask_target thread_id turn_id messages t env v ≡ (o, x)
    → output_of thread_id turn_id t o env x ≡ returned_with output w'
    → Added v w' (response_trace t)
unfolding output_of return
responded thread_id turn_id messages t env v x w' (ok out) output asked h =
    subst (λ z. Added v z (response_trace t)) (ok_inj h).1
      (ask_target-Added thread_id turn_id messages t env v x out asked)
responded thread_id turn_id messages t env v x w' (failed e) output asked h =
    let (event, y, noted, h1) = bind-ok (append_and_publish _) _ env x w' output h in
    let same = ask_target-failed thread_id turn_id messages t env v x e asked in
    subst (λ z. Added v z (response_trace t)) (ok_inj h1).1
      (Added-from v x y (response_trace t) same (append_and_publish-Added _ env x y event noted))

run_target-Added :
    (thread_id turn_id : Text) (messages : List Value) (t : Target) (env : Env) (w w' : World)
    (output : Output)
    → run_target thread_id turn_id messages t env w ≡ returned_with output w'
    → Added w w' (target_trace t)
unfolding run_target try
run_target-Added thread_id turn_id messages t env w w' output h =
    let (event, v, noted, h1) =
      bind-ok (append_and_publish (agent_request thread_id turn_id messages t)) _ env w w' output
        h in
    let asking = ask_target thread_id turn_id messages t in
    let (o, x, tried, h2) = bind-ok (try asking) _ env v w' output h1 in
    let tried' = ok_inj tried in
    let asked : asking env v ≡ (o, x) = (λ i. (tried'.0 i, tried'.1 i)) in
    Added-trans w v w' ((codes "agent_request", some t.node) ∷ []) (response_trace t)
      (append_and_publish-Added (agent_request thread_id turn_id messages t) env w v event noted)
      (responded thread_id turn_id messages t env v x w' o output asked h2)

-- What a fan-out to the targets stores.
unfoldable pub fan_trace : List Target → List (Text × Option Text) → List (Text × Option Text)
fan_trace [] rest = rest
fan_trace (t ∷ ts) rest =
    (codes "agent_request", some t.node) ∷ (codes "agent_response", some t.node) ∷ fan_trace ts rest

fan_trace-append :
    (ts : List Target) (rest : List (Text × Option Text))
    → fan_trace ts [] ++ rest ≡ fan_trace ts rest
unfolding fan_trace
fan_trace-append [] rest = refl
fan_trace-append (t ∷ ts) rest =
    ap (λ l. (codes "agent_request", some t.node) ∷ (codes "agent_response", some t.node) ∷ l)
      (fan_trace-append ts rest)

run_targets-Added :
    (thread_id turn_id : Text) (messages : List Value) (ts : List Target) (env : Env) (w w' : World)
    (outputs : List Output)
    → run_targets thread_id turn_id messages ts env w ≡ returned_with outputs w'
    → Added w w' (fan_trace ts [])
unfolding run_targets return fan_trace
run_targets-Added thread_id turn_id messages [] env w w' outputs h =
    Added-none w w' (ap (λ v. v.events) (sym (ok_inj h).1))
run_targets-Added thread_id turn_id messages (t ∷ ts) env w w' outputs h =
    let (output, v, ran, h1) =
      bind-ok (run_target thread_id turn_id messages t) _ env w w' outputs h in
    let (others, x, rest, h2) =
      bind-ok (run_targets thread_id turn_id messages ts) _ env v w' outputs h1 in
    Added-trans w v w' (target_trace t) (fan_trace ts [])
      (run_target-Added thread_id turn_id messages t env w v output ran)
      (subst (λ z. Added v z (fan_trace ts [])) (ok_inj h2).1
        (run_targets-Added thread_id turn_id messages ts env v x others rest))

text_or_throw-same :
    (o : Option Text) (env : Env) (w : World) → (text_or_throw o env w).1.events ≡ w.events
unfolding text_or_throw return throw
text_or_throw-same (some t) env w = refl
text_or_throw-same none env w = refl

aggregated-same :
    (vs : List Value) (env : Env) (w : World) → (aggregated vs env w).1.events ≡ w.events
unfolding aggregated return
aggregated-same [] env w = refl
aggregated-same (v ∷ vs) env w = text_or_throw-same _ env w

abbrev aggregation_trace : List (Text × Option Text)
aggregation_trace = (codes "aggregation", none) ∷ []

abbrev answer_trace : RouteDecision → List (Text × Option Text)
answer_trace primary = (codes "assistant_message", some primary.node) ∷ []

-- A fan-out that answered stored, in this order, for the primary target and each further one a request
-- and a response of its node, whether the node answered or failed, then the aggregation and one
-- answer of the primary node; and nothing else.
pub post_message_fanout-Added :
    (thread_id turn_id : Text) (messages : List Value) (primary : RouteDecision) (route : Fields)
    (env : Env) (w w' : World) (text : Text)
    → post_message_fanout thread_id turn_id messages primary route env w ≡ returned_with text w'
    → Added w w' (
        fan_trace
          (target_of primary ∷ primary.fanout_targets)
          ((codes "aggregation", none) ∷ (codes "assistant_message", some primary.node) ∷ []))
unfolding post_message_fanout return
post_message_fanout-Added thread_id turn_id messages primary route env w w' text h =
    let targets = target_of primary ∷ primary.fanout_targets in
    let (outputs, u, ran, h1) =
      bind-ok (run_targets thread_id turn_id messages targets) _ env w w' text h in
    let (event, v, noted, h2) = bind-ok (append_and_publish _) _ env u w' text h1 in
    let (answer, x, joined, h3) = bind-ok (aggregated (successful outputs)) _ env v w' text h2 in
    let (last, y, said, h4) = bind-ok (append_and_publish _) _ env x w' text h3 in
    let asked = run_targets-Added thread_id turn_id messages targets env w u outputs ran in
    let aggregation = append_and_publish-Added _ env u v event noted in
    let same =
      after_run (aggregated (successful outputs)) env v x (ok answer)
        (aggregated-same (successful outputs) env v) joined in
    let said' =
      Added-from v x y (answer_trace primary) same (append_and_publish-Added _ env x y last said) in
    let both = Added-trans u v y aggregation_trace (answer_trace primary) aggregation said' in
    let all =
      Added-trans w u y (fan_trace targets []) (aggregation_trace ++ answer_trace primary) asked
        both in
    subst (λ z. Added w z (fan_trace targets (aggregation_trace ++ answer_trace primary)))
      (ok_inj h4).1
      (subst (Added w y) (fan_trace-append targets (aggregation_trace ++ answer_trace primary)) all)
