-- ===== src/Threads/History.antt =====
-- What holds of the events of all threads after any calls.
use llama_pack.Prelude.{
  All-append, ◌<◌, ◌≡◌, refl, ◌∙◌, ap, ◌⊎◌, inl, inr, Option, some, List, [], ◌∷◌, ◌++◌, All, arith,
  text_eq, Bool-cases, Option-cases,
}
use llama_pack.Prelude.Sorting.{All-map}
use llama_pack.Prelude.Json.{Fields}
use llama_pack.Prelude.Text.{Text}
use llama_pack.Threads.Session.{
  Thread, ThreadEvent, World, Env, continue, ◌>>=◌, throw, utc_now, fresh_id,
}
use llama_pack.Threads.Store.{
  NewEvent, find_thread, touch, append_event, create_thread, insert_thread,
}
use llama_pack.Threads.Timeline.{
  Ordered, UpTo, Timeline, Ordered-append, UpTo-touch, find_thread-touch_same, append_event-Wrote,
}
use llama_pack.Threads.Steps.{Steps, append_and_publish-Steps}
use llama_pack.Threads.Programs.{post_message_fanout-Steps, compact_thread_history-Steps}
use llama_pack.Threads.TurnSteps.{prepare_message_route-Steps}
use llama_pack.Threads.Calls.{
  ThreadCall, create, append, append_published, prepare, fan_out, compact, perform, perform_all,
  no_threads,
}

-- The events that were there are there, unchanged and in their places.
abbrev pub Extends : World → World → Type 0
Extends w w' = (new : List ThreadEvent) × (w'.events ≡ w.events ++ new)

abbrev pub KeepsTimeline : World → World → Type 0
KeepsTimeline w w' = Timeline w → Timeline w'

pub append-nil : (xs : List ThreadEvent) → xs ≡ xs ++ []
append-nil [] = refl
append-nil (x ∷ xs) = ap (λ l. x ∷ l) (append-nil xs)

pub append_assoc : (xs ys zs : List ThreadEvent) → (xs ++ ys) ++ zs ≡ xs ++ (ys ++ zs)
append_assoc [] ys zs = refl
append_assoc (x ∷ xs) ys zs = ap (λ l. x ∷ l) (append_assoc xs ys zs)

idle-Extends : (w w' : World) → w'.threads ≡ w.threads → w'.events ≡ w.events → Extends w w'
idle-Extends w w' t e = ([], e ∙ append-nil w.events)

Extends-trans : (u v w : World) → Extends u v → Extends v w → Extends u w
Extends-trans u v w (a, e) (b, f) = (a ++ b, f ∙ ap (λ l. l ++ b) e ∙ append_assoc u.events a b)

append_event-Extends : (new : NewEvent) → Steps Extends (append_event new)
append_event-Extends new env w = elim (append_event-Wrote new env w) [
  | inl (t, e) ↦ idle-Extends w (append_event new env w).1 t e
  | inr (t, e, h, later, i, k, ts, es) ↦ (e ∷ [], es)
]

idle-KeepsTimeline :
    (w w' : World) → w'.threads ≡ w.threads → w'.events ≡ w.events → KeepsTimeline w w'
idle-KeepsTimeline w w' t e h = rw (t, e) h

KeepsTimeline-trans : (u v w : World) → KeepsTimeline u v → KeepsTimeline v w → KeepsTimeline u w
KeepsTimeline-trans u v w f g h = g (f h)

written-Timeline :
    (w : World) (t : Thread) (e : ThreadEvent)
    → find_thread e.thread_id w.threads ≡ some t
    → t.updated_at < e.created_at
    → Timeline w
    → Ordered (w.events ++ e ∷ [])
      × All (UpTo (touch e.thread_id e.created_at w.threads)) (w.events ++ e ∷ [])
written-Timeline w t e h later (ordered, upto) =
    let each =
      All-map (λ f u. UpTo-touch e.thread_id e.created_at w.threads t f h later u) w.events upto in
    (
      Ordered-append w.events e ordered (All-map (λ f u. u.1) w.events each),
      All-append (UpTo (touch e.thread_id e.created_at w.threads)) w.events e
          (All-map (λ f u. u.0) w.events each)
          (
            record t { updated_at = e.created_at },
            find_thread-touch_same e.thread_id e.created_at w.threads t h,
            omega arith,
          ),
    )

append_event-Timeline : (new : NewEvent) → Steps KeepsTimeline (append_event new)
append_event-Timeline new env w h = elim (append_event-Wrote new env w) [
  | inl (t, e) ↦ idle-KeepsTimeline w (append_event new env w).1 t e h
  | inr (t, e, found_t, later, i, k, ts, es) ↦ rw (ts, es) (written-Timeline w t e found_t later h)
]

find_thread-append :
    (id : Text) (n : Thread) (ts : List Thread) (t : Thread)
    → find_thread id ts ≡ some t
    → find_thread id (ts ++ n ∷ []) ≡ some t
unfolding find_thread
find_thread-append id n [] t h = cc
find_thread-append id n (s ∷ ts) t h = elim (Bool-cases (text_eq s.id id)) [
  | inl e ↦ let h' = rw (find_thread, e) at h in rw e h'
  | inr e ↦ let h' = rw (find_thread, e) at h in rw e (find_thread-append id n ts t h')
]

-- A thread that is created changes no event, and no thread that is there.
create_thread-step :
    (title model : Option Text) (metadata : Fields) (by : Option Text) (env : Env) (w : World)
    → ((create_thread title model metadata by env w).1.events ≡ w.events)
      × (((create_thread title model metadata by env w).1.threads ≡ w.threads)
          ⊎ ((n : Thread) × ((create_thread title model metadata by env w).1.threads
                ≡ w.threads ++ n ∷ [])))
unfolding create_thread utc_now fresh_id insert_thread ◌>>=◌ continue throw
create_thread-step title model metadata by env w =
    elim (Option-cases (find_thread (env.uuid4 w.ids_given) w.threads)) [
      | inl n ↦ rw (create_thread, insert_thread, n) (refl, inr (_, refl))
      | inr (t, e) ↦ rw (create_thread, insert_thread, e) (refl, inl refl)
    ]

create_thread-Timeline :
    (title model : Option Text) (metadata : Fields) (by : Option Text) (env : Env) (w : World)
    → Timeline w
    → Timeline (create_thread title model metadata by env w).1
create_thread-Timeline title model metadata by env w h =
    let (events, threads) = create_thread-step title model metadata by env w in
    elim threads [
      | inl same ↦ rw (events, same) h
      | inr (n, more) ↦
          rw (events, more)
            (
              h.0,
              All-map (λ e u. (u.0, find_thread-append e.thread_id n w.threads u.0 u.1, u.2))
                  w.events h.1,
            )
    ]

perform-Timeline :
    (env : Env) (c : ThreadCall) (w : World) → Timeline w → Timeline (perform env c w)
unfolding perform
perform-Timeline env (create title model metadata by) w h =
    create_thread-Timeline title model metadata by env w h
perform-Timeline env (append new) w h = append_event-Timeline new env w h
perform-Timeline env (append_published new) w h =
    append_and_publish-Steps KeepsTimeline idle-KeepsTimeline KeepsTimeline-trans
      append_event-Timeline new env w h
perform-Timeline env (prepare request) w h =
    prepare_message_route-Steps KeepsTimeline idle-KeepsTimeline KeepsTimeline-trans
      append_event-Timeline request env w h
perform-Timeline env (fan_out thread_id turn_id messages primary route) w h =
    post_message_fanout-Steps KeepsTimeline idle-KeepsTimeline KeepsTimeline-trans
      append_event-Timeline thread_id turn_id messages primary route env w h
perform-Timeline env (compact thread_id turn_id model route recent source) w h =
    compact_thread_history-Steps KeepsTimeline idle-KeepsTimeline KeepsTimeline-trans
      append_event-Timeline thread_id turn_id model route recent source env w h

perform_all-Timeline_from :
    (env : Env) (cs : List ThreadCall) (w : World) → Timeline w → Timeline (perform_all env cs w)
unfolding perform_all
perform_all-Timeline_from env [] w h = h
perform_all-Timeline_from env (c ∷ cs) w h =
    perform_all-Timeline_from env cs (perform env c w) (perform-Timeline env c w h)

-- Whatever the clock says, and whatever calls are made, of which some may fail, the times of each
-- thread's events increase in the order in which they were stored, and none is later than the last
-- update of its thread, which is there.
pub perform_all-Timeline :
    (env : Env) (cs : List ThreadCall) → Timeline (perform_all env cs no_threads)
perform_all-Timeline env cs = perform_all-Timeline_from env cs no_threads (tt, tt)

perform-Extends : (env : Env) (c : ThreadCall) (w : World) → Extends w (perform env c w)
unfolding perform
perform-Extends env (create title model metadata by) w =
    let (events, threads) = create_thread-step title model metadata by env w in
    ([], events ∙ append-nil w.events)
perform-Extends env (append new) w = append_event-Extends new env w
perform-Extends env (append_published new) w =
    append_and_publish-Steps Extends idle-Extends Extends-trans append_event-Extends new env w
perform-Extends env (prepare request) w =
    prepare_message_route-Steps Extends idle-Extends Extends-trans append_event-Extends request env
      w
perform-Extends env (fan_out thread_id turn_id messages primary route) w =
    post_message_fanout-Steps Extends idle-Extends Extends-trans append_event-Extends thread_id
      turn_id messages primary route env w
perform-Extends env (compact thread_id turn_id model route recent source) w =
    compact_thread_history-Steps Extends idle-Extends Extends-trans append_event-Extends thread_id
      turn_id model route recent source env w

-- After any calls, of which some may fail, all events that were stored before are still there,
-- unchanged and in the same order, and the new ones follow them.
pub perform_all-Extends :
    (env : Env) (cs : List ThreadCall) (w : World) → Extends w (perform_all env cs w)
unfolding perform_all
perform_all-Extends env [] w = idle-Extends w w refl refl
perform_all-Extends env (c ∷ cs) w =
    Extends-trans w (perform env c w) (perform_all env cs (perform env c w))
      (perform-Extends env c w) (perform_all-Extends env cs (perform env c w))
