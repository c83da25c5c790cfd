-- ===== src/Threads/ReadBack.antt =====
-- What a compaction stores is what the next turn reads.
use llama_pack.Prelude.{
  ℕ, Bool, true, false, ◌≡◌, refl, sym, ◌∙◌, ap, subst, Option, none, some, List, [], ◌∷◌, ◌++◌,
  map, leb, length, text_eq,
}
use llama_pack.Prelude.Json.{Value, str, Fields, get}
use llama_pack.Prelude.Text.{Text}
use llama_pack.Threads.Session.{World, Env, return, try, values, items}
use llama_pack.Threads.Store.{event_record}
use llama_pack.Threads.Events.{append_and_publish}
use llama_pack.Threads.Summaries.{str_of}
use llama_pack.Threads.Context.{
  summary_in, latest_in, latest_history_summary, covered_of, previous_of, unsummarized_events,
  current_messages, all_but_last, last_of, Managed, ask_summary, summary_or_error,
}
use llama_pack.Threads.Compaction.{
  event_ids, compacted_messages, Compaction, summary_event, summarize, compact_thread_history,
}
use llama_pack.Threads.Results.{returned_with, ok_inj, bind-ok, append_and_publish-ok}
use llama_pack.Threads.Following.{listed_last}

-- Texts that are stored as JSON are read as the same texts.
read_texts :
    (env : Env) (ids : List Text) → map (str_of env) (values (items (map (λ id. str id) ids))) ≡ ids
unfolding str_of
read_texts env [] = refl
read_texts env (id ∷ ids) = ap (λ l. id ∷ l) (read_texts env ids)

-- What a summary's event says.
abbrev pub Says : Env → Compaction → Text → World → Type 0
Says env c summary w =
    latest_history_summary env c.thread_id w
    ≡ some (record { summary = summary; covered_event_ids = c.covered ++ event_ids c.old_events })

summary_in-event :
    (env : Env) (c : Compaction) (summary : Text) (meta : Value) (id : Text) (created_at : ℕ)
    → summary_in env (event_record (summary_event env c summary meta) id created_at)
      ≡ some (record { summary = summary; covered_event_ids = c.covered ++ event_ids c.old_events })
unfolding summary_in get llama_pack.Prelude.Equality.text_eq
summary_in-event env c summary meta id created_at =
    ap (λ ids. some (record { summary = summary; covered_event_ids = ids }))
      (read_texts env (c.covered ++ event_ids c.old_events))

summarize-Says :
    (env : Env) (c : Compaction) (w w' : World) (managed : Managed)
    → summarize env c env w ≡ returned_with managed w'
    → (summary : Text) × (managed.messages ≡ compacted_messages summary c.recent_events)
      × Says env c summary w'
unfolding summarize return latest_history_summary latest_in
summarize-Says env c w w' managed h =
    let (o, w1, s1, h1) = bind-ok (try (ask_summary c.model _)) _ env w w' managed h in
    let ((summary, meta), w2, s2, h2) =
      bind-ok (summary_or_error c.thread_id c.turn_id c.model o) _ env w1 w' managed h1 in
    let (event, w3, s3, h3) =
      bind-ok (append_and_publish (summary_event env c summary meta)) _ env w2 w' managed h2 in
    let (id, created_at, named, events) =
      append_and_publish-ok (summary_event env c summary meta) env w2 w3 event s3 in
    let r = ok_inj h3 in
    let stored : w'.events ≡ w3.events = ap (λ v. v.events) (sym r.1) in
    let listed =
      listed_last c.thread_id (summary_event env c summary meta) w2 w' id created_at refl
        (stored ∙ events) in
    (
      summary,
      ap (λ m. m.messages) (sym r.0),
      ap (latest_in env) listed
          ∙ rw (latest_in, summary_in-event env c summary meta id created_at) refl,
    )

-- After a compaction of more events than are kept, the latest summary of the thread is the one that
-- the messages start with, and it covers what was covered before and all events but those that the
-- messages still hold.
pub compact_thread_history-read_back :
    (thread_id : Text) (turn_id : Option Text) (model : Text) (route : Fields) (recent : ℕ)
    (source : Text) (env : Env) (w w' : World) (managed : Managed)
    → leb (length (unsummarized_events env thread_id w)) recent ≡ false
    → compact_thread_history thread_id turn_id model route recent source env w
      ≡ returned_with managed w'
    → (summary : Text) × (managed.messages
        ≡ compacted_messages summary (last_of recent (unsummarized_events env thread_id w)))
      × (latest_history_summary env thread_id w'
          ≡ some (record {
            summary = summary;
            covered_event_ids =
                covered_of (latest_history_summary env thread_id w)
                ++ event_ids (all_but_last recent (unsummarized_events env thread_id w));
          }))
unfolding compact_thread_history
compact_thread_history-read_back thread_id turn_id model route recent source env w w' managed more
      h =
    let events = unsummarized_events env thread_id w in
    summarize-Says env
      (record {
        thread_id = thread_id;
        turn_id = turn_id;
        model = model;
        route = route;
        source = source;
        covered = covered_of (latest_history_summary env thread_id w);
        old_events = all_but_last recent events;
        recent_events = last_of recent events;
        previous_summary = previous_of (latest_history_summary env thread_id w);
        current = current_messages env thread_id w;
      })
      w w' managed (rw (compact_thread_history, more) at h)
