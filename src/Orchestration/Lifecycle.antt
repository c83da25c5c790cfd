-- ===== src/Orchestration/Lifecycle.antt =====
-- llama_pack/core/orchestration/lifecycle.py: nodes claim jobs and report on their attempts, and
-- the controller sweeps up attempts whose lease ran out.
use llama_pack.Prelude.{
  ℕ, suc, ◌+◌, Bool, true, false, ◌&&◌, Option, none, some, List, [], ◌∷◌, ◌++◌, length, filter,
  ltb, leb, text_has_eq,
}
use llama_pack.Prelude.Dict.{insert}
use llama_pack.Prelude.Int.{pos}
use llama_pack.Prelude.Json.{Value, num, obj, str, Fields, end, field}
use llama_pack.Prelude.Text.{Text, codes}
use llama_pack.Orchestration.Rows.{
  Job, queued, assigned, running, cancel_requested, completed, failed, canceled, timed_out, Attempt,
  AttemptStatus, Db, find_job, count_attempts, job_status_eq, sort_by_claim,
}
use llama_pack.Orchestration.Tx.{
  Tx, ok, and_then, when◌then◌else◌, cancellation_requested, ◌>>=◌, ◌>>◌, pure, raise, gets, modify,
  uuid4,
}
use llama_pack.Orchestration.Matching.{or_empty, job_matches_node}
use llama_pack.Orchestration.Repo.{
  JobView, dumps, JobChange, no_change, with_status, insert_event, insert_artifact, add_attempt,
  set_attempt_status, set_job_status, get_owned_attempt, get_job, job_row_to_dict,
}

-- An entry of the list that `claim_jobs` returns.
pub record Claim : Type 0 where
  pub job : JobView
  pub attempt_id : ℕ
  pub lease_expires_at : ℕ

-- What a node says of itself when it asks for work, and the times of the call.
pub record Asker : Type 0 where
  pub node_name : Text
  pub capacity : Option Fields
  pub labels : Option Fields
  pub now : ℕ
  pub lease_exp : ℕ

-- Both branches on `lease is None` write the same columns.
unfoldable pub renew_node_lease : Asker → Tx (Unit {0})
renew_node_lease q = modify λ db. record db {
  node_leases =
      insert q.node_name
        (record {
          last_heartbeat_at = q.now;
          capacity = dumps q.capacity;
          labels = dumps q.labels;
          status = codes "online";
          updated_at = q.now;
        })
        db.node_leases;
}

-- The payload of the event that records an assignment.
abbrev pub assigned_json : Asker → Value
assigned_json q = obj (
    field (codes "node") (str q.node_name) (
      field (codes "labels") (obj (or_empty q.labels))
        (field (codes "capacity") (obj (or_empty q.capacity)) end)))

-- The body of the loop for a row that matches.
unfoldable pub claim_row : Asker → Job → Tx Claim
claim_row q row = do
  attempt_id ← uuid4
  n ← gets (λ db. count_attempts row.id db.attempts)
  add_attempt (record {
    id = attempt_id;
    job_id = row.id;
    attempt_number = n + 1;
    node_name = q.node_name;
    lease_expires_at = q.lease_exp;
    started_at = q.now;
    ended_at = none;
    status = AttemptStatus.assigned;
    failure_reason = none;
  })
  set_job_status row.id assigned q.now no_change
  insert_event row.id (some attempt_id) (codes "job_assigned") (assigned_json q) q.now
  pure (record {
    job = job_row_to_dict (with_status assigned q.now no_change row) [];
    attempt_id = attempt_id;
    lease_expires_at = q.lease_exp;
  })

-- The loop over the queued rows. `claimed` grows at its end.
unfoldable pub claim_rows : Asker → ℕ → List Claim → List Job → Tx (List Claim)
claim_rows q max_jobs claimed [] db = ok (claimed, db)
claim_rows q max_jobs claimed (row ∷ rows) db = elim (leb max_jobs (length claimed)) [
  | true ↦ ok (claimed, db)
  | false ↦ elim (job_matches_node row q.node_name q.capacity q.labels) [
    | false ↦ claim_rows q max_jobs claimed rows db
    | true ↦
        and_then (claim_row q row db) (λ c db'. claim_rows q max_jobs (claimed ++ c ∷ []) rows db')
  ]
]

-- select ... where status == "queued" order by priority desc, created_at asc
unfoldable pub queued_rows : List Job → List Job
queued_rows jobs = sort_by_claim (filter (λ j. job_status_eq j.status queued) jobs)

unfoldable pub claim_jobs : Asker → ℕ → Tx (List Claim)
claim_jobs q max_jobs = do
  renew_node_lease q
  rows ← gets (λ db. queued_rows db.jobs)
  claim_rows q max_jobs [] rows

-- current is not None and current.status == "cancel_requested"
unfoldable pub cancel_pending : ℕ → Db → Bool
cancel_pending job_id db = elim (find_job job_id db.jobs) [
  | none ↦ false
  | some job ↦ job_status_eq job.status cancel_requested
]

unfoldable pub attempt_progress : Text → ℕ → Value → ℕ → ℕ → Tx (Unit {0})
attempt_progress node_name attempt_id progress lease_seconds now = do
  row ← get_owned_attempt attempt_id node_name
  stop ← gets (cancel_pending row.job_id)
  when stop then raise cancellation_requested else do
    set_attempt_status attempt_id AttemptStatus.running (some (now + lease_seconds)) none none
    set_job_status row.job_id running now no_change
    insert_event row.job_id (some attempt_id) (codes "progress") progress now

-- An artifact of a report, as far as its entries have the expected types.
pub record ArtifactReport : Type 0 where
  pub kind : Option Text
  pub uri : Option Text
  pub meta : Option Fields

abbrev pub text_or : Option Text → Text → Text
text_or none t = t
text_or (some s) t = s

unfoldable pub insert_artifacts : ℕ → ℕ → List ArtifactReport → ℕ → Tx (Unit {0})
insert_artifacts job_id attempt_id [] now db = ok (tt, db)
insert_artifacts job_id attempt_id (a ∷ rest) now db =
    and_then
      (insert_artifact job_id (some attempt_id) (text_or a.kind (codes "unknown"))
        (text_or a.uri []) a.meta now db)
      (λ _ db'. insert_artifacts job_id attempt_id rest now db')

-- The columns of a job that ends because it was to be canceled.
abbrev pub canceled_at : ℕ → JobChange
canceled_at now = record {
  completed_at = some now;
  result = none;
  error_code = some (codes "CANCELED");
  error_detail = some (codes "Job canceled");
}

unfoldable pub complete_attempt : Text → ℕ → Value → List ArtifactReport → ℕ → Tx JobView
complete_attempt node_name attempt_id result artifacts now = do
  row ← get_owned_attempt attempt_id node_name
  stop ← gets (cancel_pending row.job_id)
  (when stop
      then (do
        set_attempt_status attempt_id AttemptStatus.failed none (some now) (some (codes "CANCELED"))
        set_job_status row.job_id canceled now (canceled_at now)
        insert_event row.job_id (some attempt_id) (codes "job_canceled")
            (obj (field (codes "node") (str node_name) end)) now)
      else do
        set_attempt_status attempt_id AttemptStatus.completed none (some now) none
        set_job_status row.job_id completed now
            (record no_change { completed_at = some now; result = some result })
        insert_artifacts row.job_id attempt_id artifacts now
        insert_event row.job_id (some attempt_id) (codes "attempt_completed") result now
        insert_event row.job_id (some attempt_id) (codes "job_completed") (obj end) now)
  get_job row.job_id

-- What a node says of a failed attempt.
pub record Failure : Type 0 where
  pub error_code : Text
  pub error_detail : Option Text
  pub retryable : Bool

-- `error_detail or error_code`
abbrev pub reason_of : Failure → Text
reason_of f = elim f.error_detail [
  | none ↦ f.error_code
  | some [] ↦ f.error_code
  | some (c ∷ s) ↦ c ∷ s
]

abbrev pub int_value : ℕ → Value
int_value n = num (pos n) 0

-- The job's end with the failure's error columns.
abbrev pub ended_by : Failure → ℕ → JobChange
ended_by f now = record {
  completed_at = some now;
  result = none;
  error_code = some f.error_code;
  error_detail = f.error_detail;
}

abbrev pub opt_str : Option Text → Value
opt_str none = Value.null
opt_str (some s) = str s

-- The three ways in which a failed attempt leaves its job.
unfoldable pub settle_failure : ℕ → ℕ → Failure → ℕ → ℕ → ℕ → Tx (Unit {0})
settle_failure job_id attempt_id f attempts max_attempts now = do
  stop ← gets (cancel_pending job_id)
  when stop
      then (do
        set_job_status job_id canceled now (ended_by f now)
        insert_event job_id (some attempt_id) (codes "job_canceled")
            (obj (field (codes "error_code") (str f.error_code) end)) now)
      else when f.retryable && ltb attempts max_attempts
      then (do
        set_job_status job_id queued now no_change
        insert_event job_id (some attempt_id) (codes "retry_scheduled")
            (obj (field (codes "next_attempt") (int_value (attempts + 1)) end)) now)
      else do
        set_job_status job_id failed now (ended_by f now)
        insert_event job_id (some attempt_id) (codes "job_failed")
            (obj (field (codes "error_code") (str f.error_code) end)) now

unfoldable pub fail_attempt : Text → ℕ → Failure → ℕ → ℕ → Tx JobView
fail_attempt node_name attempt_id f max_attempts now = do
  row ← get_owned_attempt attempt_id node_name
  set_attempt_status attempt_id AttemptStatus.failed none (some now) (some (reason_of f))
  attempts ← gets (λ db. count_attempts row.job_id db.attempts)
  insert_event row.job_id (some attempt_id) (codes "attempt_failed")
      (obj (
        field (codes "error_code") (str f.error_code)
          (field (codes "error_detail") (opt_str f.error_detail) end)))
      now
  settle_failure row.job_id attempt_id f attempts max_attempts now
  get_job row.job_id

pub record SweepStats : Type 0 where
  pub expired : ℕ
  pub requeued : ℕ
  pub timed_out : ℕ

-- status in ("assigned", "running") and lease_expires_at < now
abbrev pub is_live : AttemptStatus → Bool
is_live AttemptStatus.assigned = true
is_live AttemptStatus.running = true
is_live _ = false

unfoldable pub expired_rows : ℕ → List Attempt → List Attempt
expired_rows now = filter (λ a. is_live a.status && ltb a.lease_expires_at now)

-- The body of the loop: whether the job was queued again.
unfoldable pub sweep_attempt : ℕ → ℕ → Attempt → Tx Bool
sweep_attempt max_attempts now attempt = do
  set_attempt_status attempt.id AttemptStatus.expired none (some now) none
  insert_event attempt.job_id (some attempt.id) (codes "lease_expired")
      (obj (field (codes "node") (str attempt.node_name) end)) now
  attempts ← gets (λ db. count_attempts attempt.job_id db.attempts)
  when ltb attempts max_attempts
      then (do
        set_job_status attempt.job_id queued now no_change
        insert_event attempt.job_id (some attempt.id) (codes "retry_scheduled")
            (obj (
              field (codes "reason") (str (codes "lease_expired"))
                (field (codes "next_attempt") (int_value (attempts + 1)) end)))
            now
        pure true)
      else do
        set_job_status attempt.job_id timed_out now (record {
          completed_at = some now;
          result = none;
          error_code = some (codes "LEASE_EXPIRED");
          error_detail = some (codes "Lease expired and max attempts reached");
        })
        insert_event attempt.job_id (some attempt.id) (codes "job_failed")
            (obj (field (codes "error_code") (str (codes "LEASE_EXPIRED")) end)) now
        pure false

abbrev pub count_swept : Bool → SweepStats → SweepStats
count_swept true s = record s { expired = suc s.expired; requeued = suc s.requeued }
count_swept false s = record s { expired = suc s.expired; timed_out = suc s.timed_out }

unfoldable pub sweep_rows : ℕ → ℕ → SweepStats → List Attempt → Tx SweepStats
sweep_rows max_attempts now stats [] db = ok (stats, db)
sweep_rows max_attempts now stats (a ∷ rest) db =
    and_then (sweep_attempt max_attempts now a db)
      (λ again db'. sweep_rows max_attempts now (count_swept again stats) rest db')

unfoldable pub sweep_expired_attempts : ℕ → ℕ → Tx SweepStats
sweep_expired_attempts max_attempts now db =
    sweep_rows max_attempts now (record { expired = 0; requeued = 0; timed_out = 0 })
      (expired_rows now db.attempts) db
