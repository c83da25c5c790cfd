-- ===== src/Threads/Results.antt =====
-- What a run that returned did.
use llama_pack.Prelude.{
  ℕ, ◌≡◌, refl, sym, ◌∙◌, ap, inl, inr, [], ◌∷◌, ◌++◌, Bool-cases, Option-cases,
}
use llama_pack.Prelude.Text.{Text}
use llama_pack.Threads.Session.{
  ThreadEvent, World, Env, Exc, M, Outcome, ok, failed, continue, ◌>>=◌, throw, return, utc_now,
  fresh_id,
}
use llama_pack.Threads.Store.{
  NewEvent, find_thread, get_thread, monotonic_timestamp, event_record, has_event, store_event,
  append_event,
}
use llama_pack.Threads.Events.{publish, append_and_publish}

abbrev pub returned_with : {A : Type 0} → A → World → Outcome A × World
returned_with a w = (ok a, w)

abbrev pub failed_with : (A : Type 0) → Exc → World → Outcome A × World
failed_with A e w = (failed e, w)

ok_value : {A : Type 0} {a b : A} → ok a ≡ ok b → a ≡ b
ok_value e = cc

pub ok_inj :
    {A : Type 0} {a b : A} {v w : World} → returned_with a v ≡ returned_with b w → (a ≡ b) × (v ≡ w)
ok_inj h = (ok_value (ap (λ r. r.0) h), ap (λ r. r.1) h)

pub failed_is_not_ok :
    {A : Type 0} {a : A} {e : Exc} {v w : World} → failed_with A e v ≡ returned_with a w → ⊥
failed_is_not_ok {A} {a} {e} h = no_ok (ap (λ r. r.0) h)
  where
    no_ok : failed e ≡ ok a → ⊥
    no_ok z = cc

-- Each part of a run that returned did.
pub bind-ok :
    {A B : Type 0} (m : M A) (f : A → M B) (env : Env) (w w' : World) (b : B)
    → (m >>= f) env w ≡ (ok b, w')
    → (a : A) × (v : World) × (m env w ≡ (ok a, v)) × (f a env v ≡ (ok b, w'))
unfolding ◌>>=◌ continue
bind-ok {A} {B} m f env w w' b h = go (m env w) refl h
  where
    go :
        (r : Outcome A × World)
        → m env w ≡ r
        → continue f env r ≡ (ok b, w')
        → (a : A) × (v : World) × (m env w ≡ (ok a, v)) × (f a env v ≡ (ok b, w'))
    go (ok a, v) e q = (a, v, e, q)
    go (failed x, v) e q = absurd (failed_is_not_ok q)

-- The event, with its id and its time, and that it was added at the end.
abbrev pub Appended : NewEvent → World → ThreadEvent → World → Type 0
Appended new w e w' =
    (id : Text) × (created_at : ℕ) × (e ≡ event_record new id created_at)
    × (w'.events ≡ w.events ++ event_record new id created_at ∷ [])

pub append_event-ok :
    (new : NewEvent) (env : Env) (w w' : World) (e : ThreadEvent)
    → append_event new env w ≡ (ok e, w')
    → Appended new w e w'
unfolding append_event get_thread utc_now fresh_id store_event ◌>>=◌ continue throw
append_event-ok new env w w' e h = elim (Option-cases (find_thread new.thread_id w.threads)) [
  | inl n ↦ let h' = rw (append_event, get_thread, n) at h in absurd (failed_is_not_ok h')
  | inr (t, f) ↦ elim (Bool-cases (has_event (env.uuid4 w.ids_given) w.events)) [
    | inl b ↦
        let h' = rw (append_event, get_thread, f, store_event, b) at h in
        absurd (failed_is_not_ok h')
    | inr b ↦
        let h' = rw (append_event, get_thread, f, store_event, b) at h in
        let r = ok_inj h' in
        (
          env.uuid4 w.ids_given,
          monotonic_timestamp (env.now w.clock_reads) t.updated_at,
          sym r.0,
          ap (λ v. v.events) (sym r.1),
        )
  ]
]

pub publish-same :
    (event : ThreadEvent) (env : Env) (w : World) → (publish event env w).1.events ≡ w.events
unfolding publish
publish-same event env w = elim (Bool-cases env.has_event_bus) [
  | inl e ↦ rw e refl
  | inr e ↦ rw e refl
]

pub append_and_publish-ok :
    (new : NewEvent) (env : Env) (w w' : World) (e : ThreadEvent)
    → append_and_publish new env w ≡ (ok e, w')
    → Appended new w e w'
unfolding append_and_publish return publish
append_and_publish-ok new env w w' e h =
    let (event, v, appended, rest) = bind-ok (append_event new) _ env w w' e h in
    let (id, created_at, named, events) = append_event-ok new env w v event appended in
    let (u, x, published, returned) = bind-ok (publish event) _ env v w' e rest in
    let r = ok_inj returned in
    let same : x.events ≡ v.events =
      ap (λ o. o.1.events) (sym published) ∙ publish-same event env v in
    (id, created_at, sym r.0 ∙ named, ap (λ o. o.events) (sym r.1) ∙ same ∙ events)
