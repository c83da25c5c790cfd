-- ===== src/Orchestration/Repo.antt =====
-- llama_pack/core/orchestration/repo.py. Each operation takes the time that it reads from the
-- clock: one reading stands for the readings that it makes.
use llama_pack.Prelude.{
  ℕ, Bool, true, false, Option, none, some, List, [], ◌∷◌, ◌++◌, filter, nat_eq, text_eq,
  if◌then◌else◌,
}
use llama_pack.Prelude.Int.{ℤ}
use llama_pack.Prelude.Json.{Value, obj, str, Fields, end, field}
use llama_pack.Prelude.Text.{Text, codes}
use llama_pack.Orchestration.Rows.{
  Job, JobStatus, queued, assigned, running, cancel_requested, canceled, Attempt, AttemptStatus,
  Artifact, find_job, find_attempt, update_job, update_attempt, has_attempt_number, job_status_eq,
}
use llama_pack.Orchestration.Tx.{
  Tx, ok, demand, when◌then◌else◌, unknown_job, unknown_attempt, owner_mismatch, integrity, ◌>>=◌,
  ◌>>◌, raise, modify, uuid4,
}

-- What `_job_row_to_dict` adds to the row, and the artifacts that `get_job` adds.
pub record JobView : Type 0 where
  pub row : Job
  pub cancellation_requested : Bool
  pub artifacts : List Artifact

-- `a is not None` keeps the new value, else the old one.
abbrev pub keep {ℓ} : {A : Type ℓ} → Option A → Option A → Option A
keep none old = old
keep (some a) old = some a

abbrev pub or_old {ℓ} : {A : Type ℓ} → Option A → A → A
or_old none old = old
or_old (some a) old = a

-- `json.dumps(d) if d else None`
abbrev pub dumps : Option Fields → Option Fields
dumps none = none
dumps (some end) = none
dumps (some (field k v fs)) = some (field k v fs)

unfoldable pub insert_event : ℕ → Option ℕ → Text → Value → ℕ → Tx (Unit {0})
insert_event job_id attempt_id event_type payload now = do
  i ← uuid4
  modify λ db. record db {
    events =
        db.events
        ++ record {
          id = i;
          job_id = job_id;
          attempt_id = attempt_id;
          event_type = event_type;
          event_json = payload;
          created_at = now;
        }
          ∷ [];
  }

unfoldable pub insert_artifact : ℕ → Option ℕ → Text → Text → Option Fields → ℕ → Tx (Unit {0})
insert_artifact job_id attempt_id kind uri meta now = do
  i ← uuid4
  modify λ db. record db {
    artifacts =
        db.artifacts
        ++ record {
          id = i;
          job_id = job_id;
          attempt_id = attempt_id;
          kind = kind;
          uri = uri;
          meta = dumps meta;
          created_at = now;
        }
          ∷ [];
  }

-- `session.add` of an attempt and the flush, which raises IntegrityError on a taken number.
unfoldable pub add_attempt : Attempt → Tx (Unit {0})
add_attempt a db =
    if has_attempt_number a.job_id a.attempt_number db.attempts
    then raise integrity db
    else ok (tt, record db { attempts = db.attempts ++ a ∷ [] })

-- The row that `_set_attempt_status` leaves.
abbrev pub with_attempt_status :
    AttemptStatus → Option ℕ → Option ℕ → Option Text → Attempt → Attempt
with_attempt_status status lease_expires_at ended_at failure_reason row = record row {
  status = status;
  lease_expires_at = or_old lease_expires_at row.lease_expires_at;
  ended_at = keep ended_at row.ended_at;
  failure_reason = keep failure_reason row.failure_reason;
}

unfoldable pub set_attempt_status :
    ℕ → AttemptStatus → Option ℕ → Option ℕ → Option Text → Tx (Unit {0})
set_attempt_status attempt_id status lease_expires_at ended_at failure_reason db =
    demand unknown_attempt (find_attempt attempt_id db.attempts) λ _. ok (
      tt,
      record db {
        attempts =
            update_attempt attempt_id
              (with_attempt_status status lease_expires_at ended_at failure_reason) db.attempts;
      },
    )

-- The optional columns that a call of `_set_job_status` names.
pub record JobChange : Type 0 where
  pub completed_at : Option ℕ
  pub result : Option Value
  pub error_code : Option Text
  pub error_detail : Option Text

abbrev pub no_change : JobChange
no_change = record { completed_at = none; result = none; error_code = none; error_detail = none }

-- The row that `_set_job_status` leaves: the error columns are always written.
abbrev pub with_status : JobStatus → ℕ → JobChange → Job → Job
with_status status updated_at change row = record row {
  status = status;
  updated_at = updated_at;
  completed_at = keep change.completed_at row.completed_at;
  result = keep change.result row.result;
  error_code = change.error_code;
  error_detail = change.error_detail;
}

unfoldable pub set_job_status : ℕ → JobStatus → ℕ → JobChange → Tx (Unit {0})
set_job_status job_id status updated_at change db =
    demand unknown_job (find_job job_id db.jobs) λ _.
      ok (tt, record db { jobs = update_job job_id (with_status status updated_at change) db.jobs })

unfoldable pub get_owned_attempt : ℕ → Text → Tx Attempt
get_owned_attempt attempt_id node_name db =
    demand unknown_attempt (find_attempt attempt_id db.attempts)
      λ row. if text_eq row.node_name node_name then ok (row, db) else raise owner_mismatch db

abbrev pub job_row_to_dict : Job → List Artifact → JobView
job_row_to_dict row artifacts = record {
  row = row;
  cancellation_requested = job_status_eq row.status cancel_requested;
  artifacts = artifacts;
}

-- `list_artifacts` of retention.py; artifacts are stored in the order of their creation.
abbrev pub list_artifacts : ℕ → List Artifact → List Artifact
list_artifacts job_id = filter (λ a. nat_eq a.job_id job_id)

unfoldable pub get_job : ℕ → Tx JobView
get_job job_id db =
    demand unknown_job (find_job job_id db.jobs)
      λ row. ok (job_row_to_dict row (list_artifacts job_id db.artifacts), db)

unfoldable pub create_job : Text → Fields → ℤ → Text → Option Text → ℕ → Tx JobView
create_job job_type payload priority target requested_by now = do
  job_id ← uuid4
  modify λ db. record db {
    jobs =
        db.jobs
        ++ record {
          id = job_id;
          type = job_type;
          payload = payload;
          requested_by = requested_by;
          priority = priority;
          status = queued;
          target_selector = target;
          created_at = now;
          updated_at = now;
          completed_at = none;
          result = none;
          error_code = none;
          error_detail = none;
        }
          ∷ [];
  }
  insert_event job_id none (codes "job_created") (obj (field (codes "type") (str job_type) end)) now
  get_job job_id

-- The row after a request to cancel: a queued job ends at once, an attempted one is asked to stop.
unfoldable pub cancel_row : JobStatus → ℕ → Job → Job
cancel_row queued now row = record row {
  status = canceled;
  updated_at = now;
  completed_at = some now;
}
cancel_row _ now row = record row { status = cancel_requested; updated_at = now }

abbrev pub cancel_event : JobStatus → Text
cancel_event queued = codes "job_canceled"
cancel_event _ = codes "cancel_requested"

-- row.status in {"queued", "assigned", "running", "cancel_requested"}
abbrev pub is_open : JobStatus → Bool
is_open queued = true
is_open assigned = true
is_open running = true
is_open cancel_requested = true
is_open _ = false

-- session.get(JobOrm, job_id), which raises on None.
unfoldable pub get_job_row : ℕ → Tx Job
get_job_row job_id db = demand unknown_job (find_job job_id db.jobs) λ row. ok (row, db)

unfoldable pub cancel_job : ℕ → ℕ → Tx JobView
cancel_job job_id now = do
  row ← get_job_row job_id
  when is_open row.status
      then (do
        modify λ db. record db { jobs = update_job job_id (cancel_row row.status now) db.jobs }
        insert_event job_id none (cancel_event row.status) (obj end) now
        get_job job_id)
      else get_job job_id
