-- ===== src/Orchestration/Examples.antt =====
-- The theorems on llama_pack/core/orchestration at small tables.
use llama_pack.Prelude.{
  ℕ, ◌+◌, ◌≤◌, ◌<◌, true, false, ◌≡◌, refl, none, some, List, [], ◌∷◌, filter, take, length, not,
  arith,
}
use llama_pack.Prelude.Dict.{lookup}
use llama_pack.Prelude.Int.{pos}
use llama_pack.Prelude.Json.{end, get}
use llama_pack.Prelude.Text.{Text, codes, strip, strip_left, is_space, strip_prefix}
use llama_pack.Prelude.Equality.{text_eq}
use llama_pack.Orchestration.Rows.{
  Job, JobStatus, queued, cancel_requested, completed, Attempt, AttemptStatus, Db, empty_db,
  find_job, count_attempts,
}
use llama_pack.Orchestration.Tx.{ok, after, and_then, demand, settled}
use llama_pack.Orchestration.Repo.{create_job, insert_event, get_job}
use llama_pack.Orchestration.Lifecycle.{
  Asker, Failure, queued_rows, claim_jobs, sweep_expired_attempts,
}
use llama_pack.Orchestration.Retention.{
  PruneStats, prune_history, old_job_ids, is_old, delete_where,
}
use llama_pack.Orchestration.Leader.{try_acquire_leader_lease, may_lead}
use llama_pack.Orchestration.Bounded.Claims.{Claimed, matches, row_ids}
use llama_pack.Orchestration.Runs.{
  Orchestrator, Call, create, cancel, claim, fail, sweep, call, run, run-attempts_bounded,
  run-queued_has_left, run-claim_takes_first,
}
use llama_pack.Orchestration.PruneOnce.{attempt_in, artifact_in, event_in, prune_history-deletes}
use llama_pack.Orchestration.Sweeping.Whole.{Settled, run-Settled}
use llama_pack.Orchestration.Canceled.Runs.{IsCanceled, run-IsCanceled}
use llama_pack.Orchestration.Pinned.{job_matches_node-pinned}
use llama_pack.Orchestration.Matching.{target_allows, job_matches_node}
use llama_pack.Orchestration.Leadership.{answers, lead-exclusive}

abbrev two_tries : Orchestrator
two_tries = record {
  lease_timeout_seconds = 1;
  max_attempts = 2;
  retention_days = 7;
  controller_instance_id = codes "c1";
  leader_lease_seconds = 30;
}

abbrev lost : Failure
lost = record { error_code = codes "LOST"; error_detail = none; retryable = true }

-- A job that fails once and then outlives its lease twice.
abbrev story : List (ℕ × Call)
story =
    (1, create (codes "echo") end (pos 0) (codes "auto") none)
    ∷ (2, claim (codes "n1") 1 none none)
    ∷ (3, fail (codes "n1") 2 lost)
    ∷ (4, claim (codes "n1") 1 none none)
    ∷ (9_000_000, sweep)
    ∷ (9_000_001, claim (codes "n1") 1 none none)
    ∷ []

abbrev one_job : List (ℕ × Call)
one_job = (1, create (codes "echo") end (pos 0) (codes "auto") none) ∷ []

abbrev echo_job : JobStatus → Job
echo_job s = record {
  id = 0;
  type = codes "echo";
  payload = end;
  requested_by = none;
  priority = pos 0;
  status = s;
  target_selector = codes "auto";
  created_at = 1;
  updated_at = 1;
  completed_at = none;
  result = none;
  error_code = none;
  error_detail = none;
}

run-attempts_bounded_example : count_attempts 0 (run two_tries story empty_db).attempts ≤ 2
run-attempts_bounded_example = run-attempts_bounded two_tries story 0 (omega arith)

created : find_job 0 (run two_tries one_job empty_db).jobs ≡ some (echo_job queued)
unfolding run call create_job insert_event get_job and_then demand settled find_job
created = refl

run-queued_has_left_example : count_attempts 0 (run two_tries one_job empty_db).attempts < 2
run-queued_has_left_example =
    run-queued_has_left two_tries one_job 0 (echo_job queued) (omega arith) created refl

-- The job is claimed and is to be canceled, and its node is not heard of again.
abbrev left_alone : List (ℕ × Call)
left_alone =
    (1, create (codes "echo") end (pos 0) (codes "auto") none)
    ∷ (2, claim (codes "n1") 1 none none)
    ∷ (3, cancel 0)
    ∷ []

run-Settled_example :
    Settled 2 9_000_000
      (run two_tries left_alone empty_db)
      (sweep_expired_attempts 2 9_000_000 (run two_tries left_alone empty_db))
run-Settled_example = run-Settled two_tries left_alone 9_000_000 (omega arith)

abbrev all_kinds : List (ℕ × Call)
all_kinds =
    (3, claim (codes "n1") 1 none none)
    ∷ (4, fail (codes "n1") 0 lost)
    ∷ (9_000_000, sweep)
    ∷ (9_000_001, claim (codes "n1") 1 none none)
    ∷ []

never_tried : count_attempts 0 (run two_tries one_job empty_db).attempts ≡ 0
unfolding run call create_job insert_event get_job and_then demand settled find_job count_attempts
never_tried = refl

abbrev afterwards : Db
afterwards = run two_tries all_kinds (call two_tries 2 (cancel 0) (run two_tries one_job empty_db))

run-IsCanceled_example :
    (count_attempts 0 afterwards.attempts ≡ 0) × IsCanceled (find_job 0 afterwards.jobs)
run-IsCanceled_example =
    run-IsCanceled two_tries one_job all_kinds 0 2 (echo_job queued) (omega arith) created refl
      never_tried

abbrev asker : Asker
asker = record { node_name = codes "n1"; capacity = none; labels = none; now = 5; lease_exp = 9 }

run-claim_takes_first_example :
    Claimed 2
      (row_ids
        (take 3 (filter (matches asker) (queued_rows (run two_tries one_job empty_db).jobs))))
      (claim_jobs asker 3 (run two_tries one_job empty_db))
run-claim_takes_first_example = run-claim_takes_first two_tries one_job asker 3 (omega arith)

abbrev ended_job : Job
ended_job = record (echo_job completed) { id = 4; completed_at = some 6 }

abbrev asked_attempt : Attempt
asked_attempt = record {
  id = 1;
  job_id = 0;
  attempt_number = 1;
  node_name = codes "n1";
  lease_expires_at = 9;
  started_at = 2;
  ended_at = none;
  status = AttemptStatus.running;
  failure_reason = none;
}

-- A job that is asked to stop and that a node works on, and one that has ended.
abbrev asked_db : Db
asked_db = record empty_db {
  jobs = echo_job cancel_requested ∷ ended_job ∷ [];
  attempts = asked_attempt ∷ record asked_attempt { id = 2; job_id = 4 } ∷ [];
  fresh = 7;
}

prune_history-deletes_example :
    (stats : PruneStats) × (prune_history 7 asked_db ≡ ok (stats, after (prune_history 7) asked_db))
    × (stats.pruned_jobs + length (after (prune_history 7) asked_db).jobs ≡ 2)
    × ((after (prune_history 7) asked_db).jobs ≡ filter (λ j. not (is_old 7 j)) asked_db.jobs)
    × ((after (prune_history 7) asked_db).attempts
        ≡ delete_where (attempt_in (old_job_ids 7 asked_db.jobs)) asked_db.attempts)
    × ((after (prune_history 7) asked_db).artifacts
        ≡ delete_where (artifact_in (old_job_ids 7 asked_db.jobs)) asked_db.artifacts)
    × ((after (prune_history 7) asked_db).events
        ≡ delete_where (event_in (old_job_ids 7 asked_db.jobs) asked_db.attempts) asked_db.events)
unfolding find_job
prune_history-deletes_example = prune_history-deletes 7 asked_db (refl, (refl, tt))

-- Two instances that try while the first one's lease lasts.
abbrev tries : List (Text × ℕ)
tries = (codes "c1b", 20) ∷ (codes "c1bb", 40) ∷ []

lead-exclusive_example :
    answers 30
      (codes "sweep")
      tries
      (after (try_acquire_leader_lease (codes "c1") 30 (codes "sweep") 10) empty_db)
    ≡ false ∷ false ∷ []
unfolding try_acquire_leader_lease may_lead lookup settled answers
lead-exclusive_example =
    lead-exclusive (codes "c1") 30 (codes "sweep") 10 empty_db
      (after (try_acquire_leader_lease (codes "c1") 30 (codes "sweep") 10) empty_db) refl tries
      ((cc, omega arith), ((cc, omega arith), tt))

abbrev pinned_job : Job
pinned_job = record (echo_job queued) { target_selector = codes "node: n1" }

job_matches_node-pinned_example : codes "n1" ≡ codes "n1"
unfolding job_matches_node target_allows strip strip_prefix strip_left is_space text_eq get
job_matches_node-pinned_example =
    job_matches_node-pinned pinned_job (codes "n1") (codes " n1") (codes "n1") none none refl refl
      (omega arith) refl
