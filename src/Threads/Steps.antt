-- ===== src/Threads/Steps.antt =====
-- What each part of a thread's services does to the tables, when it is only told of the two
-- operations that write them.
use llama_pack.Prelude.{◌≡◌, refl, Option, Bool-cases, Option-cases, inl, inr}
use llama_pack.Prelude.Json.{Fields}
use llama_pack.Prelude.Text.{Text}
use llama_pack.Threads.Session.{
  ThreadEvent, World, Env, Exc, ErrorKind, Outcome, ok, failed, M, continue, ◌>>=◌, return, throw,
  rethrow, try, gets, asks, fresh_id, chat_with,
}
use llama_pack.Threads.Store.{NewEvent, append_event, find_thread, get_thread}
use llama_pack.Threads.Events.{publish, append_and_publish, append_error_async, error_event}

-- Each run takes the tables a step that R allows.
abbrev pub Steps : (World → World → Type 0) → {A : Type 0} → M A → Type 0
Steps R m = (env : Env) (w : World) → R w (m env w).1

module _ (R : World → World → Type 0)
    (idle : (w w' : World) → w'.threads ≡ w.threads → w'.events ≡ w.events → R w w')
    (trans : (u v w : World) → R u v → R v w → R u w) where
  continue-Steps :
      {A B : Type 0} (f : A → M B) (env : Env) (u : World) (r : Outcome A × World)
      → ((a : A) → Steps R (f a))
      → R u r.1
      → R u (continue f env r).1
  unfolding continue
  continue-Steps f env u (ok a, w) fs h = trans u w _ h (fs a env w)
  continue-Steps f env u (failed e, w) fs h = h

  pub bind-Steps :
      {A B : Type 0} (m : M A) (f : A → M B)
      → Steps R m
      → ((a : A) → Steps R (f a))
      → Steps R (m >>= f)
  unfolding ◌>>=◌
  bind-Steps m f ms fs env w = continue-Steps f env w (m env w) fs (ms env w)

  pub try-Steps : {A : Type 0} (m : M A) → Steps R m → Steps R (try m)
  unfolding try
  try-Steps m ms env w = ms env w

  pub return-Steps : {A : Type 0} (a : A) → Steps R (return a)
  unfolding return
  return-Steps a env w = idle w w refl refl

  pub throw-Steps :
      (A : Type 0) (kind : ErrorKind) (text : Text) → Steps R (throw {A = A} kind text)
  unfolding throw
  throw-Steps A kind text env w = idle w w refl refl

  pub rethrow-Steps : (A : Type 0) (e : Exc) → Steps R (rethrow {A = A} e)
  unfolding rethrow
  rethrow-Steps A e env w = idle w w refl refl

  pub gets-Steps : {A : Type 0} (f : World → A) → Steps R (gets f)
  unfolding gets
  gets-Steps f env w = idle w w refl refl

  pub asks-Steps : {A : Type 0} (f : Env → A) → Steps R (asks f)
  unfolding asks
  asks-Steps f env w = idle w w refl refl

  pub fresh_id-Steps : Steps R fresh_id
  unfolding fresh_id
  fresh_id-Steps env w = idle w _ refl refl

  pub chat_with-Steps : (model : Text) (payload : Fields) → Steps R (chat_with model payload)
  unfolding chat_with
  chat_with-Steps model payload env w = idle w _ refl refl

  publish-Steps : (event : ThreadEvent) → Steps R (publish event)
  unfolding publish
  publish-Steps event env w = elim (Bool-cases env.has_event_bus) [
    | inl e ↦ rw e (idle w _ refl refl)
    | inr e ↦ rw e (idle w w refl refl)
  ]

  pub get_thread-Steps : (id : Text) → Steps R (get_thread id)
  unfolding get_thread throw
  get_thread-Steps id env w = elim (Option-cases (find_thread id w.threads)) [
    | inl n ↦ rw (get_thread, n) (idle w w refl refl)
    | inr (t, e) ↦ rw (get_thread, e) (idle w w refl refl)
  ]

  module _ (appends : (new : NewEvent) → Steps R (append_event new)) where
    pub append_and_publish-Steps : (new : NewEvent) → Steps R (append_and_publish new)
    unfolding append_and_publish
    append_and_publish-Steps new =
        bind-Steps _ _ (appends new)
          (λ event. bind-Steps _ _ (publish-Steps event) (λ t. return-Steps event))

    pub append_error_async-Steps :
        (thread_id code : Text) (e : Exc) (turn_id : Option Text)
        → Steps R (append_error_async thread_id code e turn_id)
    unfolding append_error_async
    append_error_async-Steps thread_id code e turn_id =
        append_and_publish-Steps (error_event thread_id code e turn_id)
