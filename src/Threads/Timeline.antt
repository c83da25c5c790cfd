-- ===== src/Threads/Timeline.antt =====
-- The order of a thread's events in time, and that none is changed or lost.
use llama_pack.Prelude.{
  some_inj, All-append, ℕ, ◌≤◌, ◌<◌, ◌≡◌, ◌≢◌, refl, sym, ◌∙◌, ap, ◌⊎◌, inl, inr, Option, some,
  List, [], ◌∷◌, ◌++◌, All, arith, text_eq, text_eq_iff, Bool-cases, Option-cases,
}
use llama_pack.Prelude.Text.{Text}
use llama_pack.Threads.Session.{
  Thread, ThreadEvent, World, Env, continue, ◌>>=◌, throw, utc_now, fresh_id,
}
use llama_pack.Threads.Store.{
  NewEvent, find_thread, get_thread, monotonic_timestamp, event_record, has_event, touch,
  store_event, append_event,
}

-- Each event is earlier than those of its thread that were appended after it.
abbrev pub Ordered : List ThreadEvent → Type 0
Ordered [] = Unit
Ordered (e ∷ es) =
    All (λ f. (e.thread_id ≢ f.thread_id) ⊎ (e.created_at < f.created_at)) es × Ordered es

-- The thread of an event is there, and was updated no earlier.
abbrev pub UpTo : List Thread → ThreadEvent → Type 0
UpTo threads e =
    (t : Thread) × (find_thread e.thread_id threads ≡ some t) × (e.created_at ≤ t.updated_at)

abbrev pub Timeline : World → Type 0
Timeline w = Ordered w.events × All (UpTo w.threads) w.events

pub Ordered-append :
    (es : List ThreadEvent) (n : ThreadEvent)
    → Ordered es
    → All (λ e. (e.thread_id ≢ n.thread_id) ⊎ (e.created_at < n.created_at)) es
    → Ordered (es ++ n ∷ [])
Ordered-append [] n o h = (tt, tt)
Ordered-append (e ∷ es) n o h = (
  All-append (λ f. (e.thread_id ≢ f.thread_id) ⊎ (e.created_at < f.created_at)) es n o.0 h.0,
  Ordered-append es n o.1 h.1,
)

find_thread-touch_other :
    (id asked : Text) (timestamp : ℕ) (ts : List Thread)
    → asked ≢ id
    → find_thread asked (touch id timestamp ts) ≡ find_thread asked ts
unfolding find_thread touch
find_thread-touch_other id asked timestamp [] n = refl
find_thread-touch_other id asked timestamp (s ∷ ts) n = elim (Bool-cases (text_eq s.id id)) [
  | inl e ↦ elim (Bool-cases (text_eq s.id asked)) [
    | inl f ↦ absurd (n (sym ((text_eq_iff s.id asked).0 f) ∙ (text_eq_iff s.id id).0 e))
    | inr f ↦ rw (e, f) (find_thread-touch_other id asked timestamp ts n)
  ]
  | inr e ↦ elim (Bool-cases (text_eq s.id asked)) [
    | inl f ↦ rw (e, f) refl
    | inr f ↦ rw (e, f) (find_thread-touch_other id asked timestamp ts n)
  ]
]

abbrev updated : ℕ → Thread → Option Thread
updated timestamp u = some (record u { updated_at = timestamp })

pub find_thread-touch_same :
    (id : Text) (timestamp : ℕ) (ts : List Thread) (t : Thread)
    → find_thread id ts ≡ some t
    → find_thread id (touch id timestamp ts) ≡ some (record t { updated_at = timestamp })
unfolding find_thread touch
find_thread-touch_same id timestamp [] t h = cc
find_thread-touch_same id timestamp (s ∷ ts) t h = elim (Bool-cases (text_eq s.id id)) [
  | inl e ↦
      let same : some s ≡ some t = rw (find_thread, e) at h in
      rw (e, e) (ap (updated timestamp) (some_inj same))
  | inr e ↦
      let h' = rw (find_thread, e) at h in rw (e, e) (find_thread-touch_same id timestamp ts t h')
]

-- What the events of the thread are up to, when it is updated at a later time.
pub UpTo-touch :
    (id : Text) (timestamp : ℕ) (ts : List Thread) (t : Thread) (e : ThreadEvent)
    → find_thread id ts ≡ some t
    → t.updated_at < timestamp
    → UpTo ts e
    → UpTo (touch id timestamp ts) e × ((e.thread_id ≢ id) ⊎ (e.created_at < timestamp))
UpTo-touch id timestamp ts t e h later (u, found_u, upto) =
    elim (Bool-cases (text_eq e.thread_id id)) [
      | inl same ↦
          let here = (text_eq_iff e.thread_id id).0 same in
          let found_t : find_thread id ts ≡ some u = rw here at found_u in
          let same_thread : u ≡ t = some_inj (sym found_t ∙ h) in
          let before : e.created_at < timestamp =
            omega (arith, upto, later, ap (λ o. o.updated_at) same_thread) in
          (
            (
              record t { updated_at = timestamp },
              rw here (find_thread-touch_same id timestamp ts t h),
              omega (arith, before),
            ),
            inr before,
          )
      | inr other ↦
          let n : e.thread_id ≢ id = λ q. (let q' = (text_eq_iff e.thread_id id).1 q in cc) in
          ((u, find_thread-touch_other id e.thread_id timestamp ts n ∙ found_u, upto), inl n)
    ]

-- What appending an event does to the tables: nothing, or the event is there and its thread updated.
abbrev pub Wrote : NewEvent → World → World → Type 0
Wrote new w w' =
    ((w'.threads ≡ w.threads) × (w'.events ≡ w.events))
    ⊎ ((t : Thread) × (e : ThreadEvent) × (find_thread e.thread_id w.threads ≡ some t)
        × (t.updated_at < e.created_at)
        × (e.thread_id ≡ new.thread_id)
        × (e.event_type ≡ new.event_type)
        × (w'.threads ≡ touch e.thread_id e.created_at w.threads)
        × (w'.events ≡ w.events ++ e ∷ []))

pub monotonic-later : (now previous : ℕ) → previous < monotonic_timestamp now previous
unfolding monotonic_timestamp
monotonic-later now previous = ground arith

pub append_event-Wrote :
    (new : NewEvent) (env : Env) (w : World) → Wrote new w (append_event new env w).1
unfolding append_event get_thread utc_now fresh_id store_event ◌>>=◌ continue throw
append_event-Wrote new env w = elim (Option-cases (find_thread new.thread_id w.threads)) [
  | inl n ↦ rw (append_event, get_thread, n) (inl (refl, refl))
  | inr (t, h) ↦ elim (Bool-cases (has_event (env.uuid4 w.ids_given) w.events)) [
    | inl b ↦ rw (append_event, get_thread, h, store_event, b) (inl (refl, refl))
    | inr b ↦
        rw (append_event, get_thread, h, store_event, b)
          (inr (
            t,
            event_record new (env.uuid4 w.ids_given)
                (monotonic_timestamp (env.now w.clock_reads) t.updated_at),
            h,
            monotonic-later (env.now w.clock_reads) t.updated_at,
            refl,
            refl,
            refl,
            refl,
          ))
  ]
]
