-- ===== src/Threads/Assigned.antt =====
-- A turn that names a node: only the one that the thread is assigned to.
use mathlib.Core.List.{reverse, reverse-append}
use llama_pack.Prelude.{
  ℕ, Bool, true, false, ◌≡◌, ◌≢◌, refl, sym, ◌∙◌, ap, subst, ◌⊎◌, inl, inr, Option, none, some,
  List, [], ◌∷◌, ◌++◌, filter, text_eq, text_eq_iff, Bool-cases, Option-cases, if◌then◌else◌, ◌&&◌,
  ◌||◌,
}
use llama_pack.Prelude.Json.{Value, Fields}
use llama_pack.Prelude.Text.{Text, codes}
use llama_pack.Threads.Session.{
  Thread, World, Env, Exc, ErrorKind, value_error, key_error, integrity_error, context_error,
  other_error, Outcome, ok, failed, return, throw, rethrow, try, gets, asks, fresh_id,
}
use llama_pack.Threads.Store.{event_record, list_events, find_thread, get_thread}
use llama_pack.Threads.Events.{append_and_publish, append_error_async}
use llama_pack.Threads.Turns.{
  assigned_in, assigned_node, requested_node, check_target, require_thread_node_target,
}
use llama_pack.Threads.Preparing.{
  TurnRequest, PreparedThreadTurn, user_message, require_user, note_routing_error, or_routing_error,
  route_turn, prepare_message_route,
}
use llama_pack.Threads.Results.{
  returned_with, ok_inj, failed_is_not_ok, bind-ok, append_and_publish-ok,
}
use llama_pack.Threads.Following.{of_thread, filter-append}

get_thread-same :
    (id : Text) (env : Env) (w v : World) (t : Thread)
    → get_thread id env w ≡ returned_with t v
    → v.events ≡ w.events
unfolding get_thread throw
get_thread-same id env w v t h = elim (Option-cases (find_thread id w.threads)) [
  | inl n ↦ let h' = rw (get_thread, n) at h in absurd (failed_is_not_ok h')
  | inr (u, e) ↦ let h' = rw (get_thread, e) at h in ap (λ o. o.events) (sym (ok_inj h').1)
]

require_user-same :
    (role : Text) (env : Env) (w v : World) (u : Unit {0})
    → require_user role env w ≡ returned_with u v
    → v.events ≡ w.events
unfolding require_user return throw
require_user-same role env w v u h = elim (Bool-cases (text_eq role (codes "user"))) [
  | inl e ↦ let h' = rw (require_user, e) at h in ap (λ o. o.events) (sym (ok_inj h').1)
  | inr e ↦ let h' = rw (require_user, e) at h in absurd (failed_is_not_ok h')
]

-- A message of a user assigns no node.
assigned-user_message :
    (r : TurnRequest) (turn_id display_text : Text) (metadata : Fields) (before w : World)
    (id : Text) (created_at : ℕ)
    → w.events
      ≡ before.events
        ++ event_record (user_message r turn_id display_text metadata) id created_at ∷ []
    → assigned_node r.thread_id w ≡ assigned_node r.thread_id before
unfolding assigned_node list_events assigned_in llama_pack.Prelude.Equality.text_eq
assigned-user_message r turn_id display_text metadata before w id created_at events =
    let new = user_message r turn_id display_text metadata in
    let e = event_record new id created_at in
    let own : of_thread r.thread_id e ≡ true =
      rw ((text_eq_iff r.thread_id r.thread_id).1 refl) refl in
    ap (λ l. assigned_in (reverse (filter (of_thread r.thread_id) l))) events
    ∙ ap (λ l. assigned_in (reverse l)) (filter-append (of_thread r.thread_id) before.events e own)
    ∙ ap assigned_in (reverse-append (filter (of_thread r.thread_id) before.events) (e ∷ []))

-- What is noted in the thread goes on as the same error.
note-fails :
    {A : Type 0} (thread_id turn_id : Text) (e : Exc) (kind : ErrorKind) (env : Env) (w v : World)
    (a : A)
    → note_routing_error thread_id turn_id e kind env w ≡ returned_with a v
    → ⊥
unfolding note_routing_error rethrow
note-fails thread_id turn_id e value_error env w v a h =
    let (event, x, noted, rest) =
      bind-ok (append_error_async thread_id _ e (some turn_id)) _ env w v a h in
    failed_is_not_ok rest
note-fails thread_id turn_id e key_error env w v a h = failed_is_not_ok h
note-fails thread_id turn_id e integrity_error env w v a h = failed_is_not_ok h
note-fails thread_id turn_id e context_error env w v a h = failed_is_not_ok h
note-fails thread_id turn_id e other_error env w v a h = failed_is_not_ok h

or_routing_error-ok :
    {A : Type 0} (thread_id turn_id : Text) (o : Outcome A) (env : Env) (w v : World) (a : A)
    → or_routing_error thread_id turn_id o env w ≡ returned_with a v
    → o ≡ ok a
unfolding or_routing_error return
or_routing_error-ok thread_id turn_id (ok b) env w v a h = ap (λ o. o.0) h
or_routing_error-ok thread_id turn_id (failed e) env w v a h =
    absurd (note-fails thread_id turn_id e e.error_kind env w v a h)

check_target-same :
    (requested assigned : Text) (env : Env) (w : World)
    → (check_target (some requested) (some assigned) env w).0 ≡ ok tt
    → assigned ≡ requested
unfolding check_target throw
check_target-same requested assigned env w h = elim (Bool-cases (text_eq assigned requested)) [
  | inl e ↦ (text_eq_iff assigned requested).0 e
  | inr e ↦ let h' = rw (check_target, e) at h in cc
]

route_turn-same :
    (r : TurnRequest) (thread : Thread) (previous : Option Fields) (history : List Value)
    (turn_id : Text) (env : Env) (w w' : World) (turn : PreparedThreadTurn)
    (assigned requested : Text)
    → route_turn r thread previous history turn_id env w ≡ returned_with turn w'
    → assigned_node r.thread_id w ≡ some assigned
    → requested_node r.target ≡ some requested
    → assigned ≡ requested
unfolding route_turn require_thread_node_target try
route_turn-same r thread previous history turn_id env w w' turn assigned requested h a q =
    let target_check = require_thread_node_target r.thread_id r.target in
    let (checked, v, tried, h1) = bind-ok (try target_check) _ env w w' turn h in
    let (u, x, passed, h2) =
      bind-ok (or_routing_error r.thread_id turn_id checked) _ env v w' turn h1 in
    let fine = or_routing_error-ok r.thread_id turn_id checked env v x u passed in
    let outcome : (target_check env w).0 ≡ ok u = (ok_inj tried).0 ∙ fine in
    check_target-same requested assigned env w (rw (require_thread_node_target, q, a) at outcome)

assigned_same :
    (thread_id : Text) (v w : World)
    → v.events ≡ w.events
    → assigned_node thread_id v ≡ assigned_node thread_id w
unfolding assigned_node list_events
assigned_same thread_id v w e = ap (λ l. assigned_in (reverse (filter (of_thread thread_id) l))) e

-- Where a turn is prepared for a target that names a node, and the thread is assigned to a node, they
-- are the same.
pub prepare_message_route-same_node :
    (r : TurnRequest) (env : Env) (w w' : World) (turn : PreparedThreadTurn)
    (assigned requested : Text)
    → prepare_message_route r env w ≡ returned_with turn w'
    → assigned_node r.thread_id w ≡ some assigned
    → requested_node r.target ≡ some requested
    → assigned ≡ requested
unfolding prepare_message_route gets asks fresh_id
prepare_message_route-same_node r env w w' turn assigned requested h a q =
    let (u0, w0, s0, h0) = bind-ok (require_user r.role) _ env w w' turn h in
    let (thread, w1, s1, h1) = bind-ok (get_thread r.thread_id) _ env w0 w' turn h0 in
    let (previous, w2, s2, h2) = bind-ok (gets _) _ env w1 w' turn h1 in
    let (display_text, w3, s3, h3) = bind-ok (asks _) _ env w2 w' turn h2 in
    let (history, w4, s4, h4) = bind-ok (gets _) _ env w3 w' turn h3 in
    let (turn_id, w5, s5, h5) = bind-ok fresh_id _ env w4 w' turn h4 in
    let (event, w6, s6, h6) = bind-ok (append_and_publish _) _ env w5 w' turn h5 in
    let (id, created_at, named, events) = append_and_publish-ok _ env w5 w6 event s6 in
    let same : w5.events ≡ w.events =
      ap (λ o. o.events) (sym (ok_inj s5).1)
      ∙ ap (λ o. o.events) (sym (ok_inj s4).1)
      ∙ ap (λ o. o.events) (sym (ok_inj s3).1)
      ∙ ap (λ o. o.events) (sym (ok_inj s2).1)
      ∙ get_thread-same r.thread_id env w0 w1 thread s1
      ∙ require_user-same r.role env w w0 u0 s0 in
    let still = assigned-user_message r turn_id display_text _ w5 w6 id created_at events in
    route_turn-same r thread previous history turn_id env w6 w' turn assigned requested h6
      (still ∙ assigned_same r.thread_id w5 w same ∙ a) q
