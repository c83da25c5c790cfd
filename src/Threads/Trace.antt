-- ===== src/Threads/Trace.antt =====
-- Which events a fan-out stores.
use llama_pack.Prelude.{
  ◌≡◌, refl, sym, ◌∙◌, ap, ◌⊎◌, inl, inr, Option, List, [], ◌∷◌, ◌++◌, map, Bool-cases,
  Option-cases,
}
use llama_pack.Prelude.Text.{Text}
use llama_pack.Threads.Session.{
  ThreadEvent, World, Env, Exc, M, Outcome, ok, failed, continue, ◌>>=◌, return, throw, utc_now,
  fresh_id,
}
use llama_pack.Threads.Store.{
  NewEvent, event_record, find_thread, get_thread, has_event, store_event, append_event,
}
use llama_pack.Threads.Events.{publish, append_and_publish}
use llama_pack.Threads.Results.{
  returned_with, failed_with, failed_is_not_ok, Appended, append_and_publish-ok,
}
use llama_pack.Threads.History.{append_assoc, append-nil}

-- A run that failed did so in its first part or after it.
pub bind-failed :
    {A B : Type 0} (m : M A) (f : A → M B) (env : Env) (w w' : World) (e : Exc)
    → (m >>= f) env w ≡ failed_with B e w'
    → (m env w ≡ failed_with A e w')
      ⊎ ((a : A) × (v : World) × (m env w ≡ returned_with a v) × (f a env v ≡ failed_with B e w'))
unfolding ◌>>=◌ continue
bind-failed {A} {B} m f env w w' e h = go (m env w) refl h
  where
    go :
        (r : Outcome A × World)
        → m env w ≡ r
        → continue f env r ≡ failed_with B e w'
        → (m env w ≡ failed_with A e w')
          ⊎ ((a : A) × (v : World) × (m env w ≡ returned_with a v)
              × (f a env v ≡ failed_with B e w'))
    go (ok a, v) q c = inr (a, v, q, c)
    go (failed x, v) q c = inl (q ∙ ap (λ r. (failed_to r.0 x, r.1)) c)
      where
        failed_to : Outcome B → Exc → Outcome A
        failed_to (ok b) y = failed y
        failed_to (failed z) y = failed z

pub ok_is_not_failed :
    {A : Type 0} {a : A} {e : Exc} {v w : World} → returned_with a v ≡ failed_with A e w → ⊥
ok_is_not_failed h = failed_is_not_ok (sym h)

append_event-failed :
    (new : NewEvent) (env : Env) (w w' : World) (e : Exc)
    → append_event new env w ≡ failed_with ThreadEvent e w'
    → w'.events ≡ w.events
unfolding append_event get_thread utc_now fresh_id store_event ◌>>=◌ continue throw
append_event-failed new env w w' e h = elim (Option-cases (find_thread new.thread_id w.threads)) [
  | inl n ↦ let h' = rw (append_event, get_thread, n) at h in ap (λ r. r.1.events) (sym h')
  | inr (t, f) ↦ elim (Bool-cases (has_event (env.uuid4 w.ids_given) w.events)) [
    | inl b ↦
        let h' = rw (append_event, get_thread, f, store_event, b) at h in
        ap (λ r. r.1.events) (sym h')
    | inr b ↦
        let h' = rw (append_event, get_thread, f, store_event, b) at h in
        absurd (ok_is_not_failed h')
  ]
]

pub append_and_publish-failed :
    (new : NewEvent) (env : Env) (w w' : World) (e : Exc)
    → append_and_publish new env w ≡ failed_with ThreadEvent e w'
    → w'.events ≡ w.events
unfolding append_and_publish publish return
append_and_publish-failed new env w w' e h = elim (bind-failed (append_event new) _ env w w' e h) [
  | inl f ↦ append_event-failed new env w w' e f
  | inr (event, v, appended, rest) ↦ elim (bind-failed (publish event) _ env v w' e rest) [
    | inl f ↦ absurd (ok_is_not_failed f)
    | inr (u, x, published, returned) ↦ absurd (ok_is_not_failed returned)
  ]
]

-- The types of events, and the nodes that they are about.
abbrev pub trace : List ThreadEvent → List (Text × Option Text)
trace events = map (λ e. (e.event_type, e.agent_node)) events

-- The events that were added have that trace.
abbrev pub Added : World → World → List (Text × Option Text) → Type 0
Added w w' l = (new : List ThreadEvent) × (w'.events ≡ w.events ++ new) × (trace new ≡ l)

trace-append : (xs ys : List ThreadEvent) → trace (xs ++ ys) ≡ trace xs ++ trace ys
trace-append [] ys = refl
trace-append (x ∷ xs) ys = ap (λ l. (x.event_type, x.agent_node) ∷ l) (trace-append xs ys)

pub Added-trans :
    (u v w : World) (l k : List (Text × Option Text))
    → Added u v l
    → Added v w k
    → Added u w (l ++ k)
Added-trans u v w l k (a, e, t) (b, f, s) = (
  a ++ b,
  f ∙ ap (λ x. x ++ b) e ∙ append_assoc u.events a b,
  trace-append a b ∙ ap (λ x. x ++ trace b) t ∙ ap (λ x. l ++ x) s,
)

pub Added-none : (w w' : World) → w'.events ≡ w.events → Added w w' []
Added-none w w' e = ([], e ∙ append-nil w.events, refl)

Appended-Added :
    (new : NewEvent) (w w' : World) (e : ThreadEvent)
    → Appended new w e w'
    → Added w w' ((new.event_type, new.agent_node) ∷ [])
Appended-Added new w w' e (id, created_at, named, events) =
    (event_record new id created_at ∷ [], events, refl)

pub append_and_publish-Added :
    (new : NewEvent) (env : Env) (w w' : World) (e : ThreadEvent)
    → append_and_publish new env w ≡ returned_with e w'
    → Added w w' ((new.event_type, new.agent_node) ∷ [])
append_and_publish-Added new env w w' e h =
    Appended-Added new w w' e (append_and_publish-ok new env w w' e h)

-- Where the events are those of a world before.
pub Added-from :
    (u v w : World) (l : List (Text × Option Text))
    → v.events ≡ u.events
    → Added v w l
    → Added u w l
Added-from u v w l e (a, f, t) = (a, f ∙ ap (λ x. x ++ a) e, t)
