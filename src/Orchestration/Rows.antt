-- ===== src/Orchestration/Rows.antt =====
-- The tables of llama_pack/core/persistence/models/orchestration.py as records, and the queries
-- on them. A time is a number: the source compares UTC ISO texts of one format, whose order is
-- that of time. A uuid4 is the next number of a supply, of which only freshness is used.
use llama_pack.Prelude.{
  ℕ, suc, Bool, ◌&&◌, ◌||◌, Option, none, some, List, [], ◌∷◌, nat_eq, leb, if◌then◌else◌,
}
use llama_pack.Prelude.Dict.{Dict}
use llama_pack.Prelude.Int.{ℤ, ltb_ℤ, eqb_ℤ}
use llama_pack.Prelude.Json.{Value, Fields}
use llama_pack.Prelude.Text.{Text}

pub data JobStatus : Type 0 where
  queued assigned running cancel_requested completed failed canceled timed_out : JobStatus

pub record Job : Type 0 where
  pub id : ℕ
  pub type : Text
  pub payload : Fields
  pub requested_by : Option Text
  pub priority : ℤ
  pub status : JobStatus
  pub target_selector : Text
  pub created_at : ℕ
  pub updated_at : ℕ
  pub completed_at : Option ℕ
  pub result : Option Value
  pub error_code : Option Text
  pub error_detail : Option Text

pub data AttemptStatus : Type 0 where
  assigned running completed failed expired : AttemptStatus

pub record Attempt : Type 0 where
  pub id : ℕ
  pub job_id : ℕ
  pub attempt_number : ℕ
  pub node_name : Text
  pub lease_expires_at : ℕ
  pub started_at : ℕ
  pub ended_at : Option ℕ
  pub status : AttemptStatus
  pub failure_reason : Option Text

pub record NodeLease : Type 0 where
  pub last_heartbeat_at : ℕ
  pub capacity : Option Fields
  pub labels : Option Fields
  pub status : Text
  pub updated_at : ℕ

pub record Event : Type 0 where
  pub id : ℕ
  pub job_id : ℕ
  pub attempt_id : Option ℕ
  pub event_type : Text
  pub event_json : Value
  pub created_at : ℕ

pub record Artifact : Type 0 where
  pub id : ℕ
  pub job_id : ℕ
  pub attempt_id : Option ℕ
  pub kind : Text
  pub uri : Text
  pub meta : Option Fields
  pub created_at : ℕ

pub record ControllerLease : Type 0 where
  pub holder_id : Text
  pub expires_at : ℕ
  pub updated_at : ℕ

pub record Db : Type 0 where
  pub jobs : List Job
  pub attempts : List Attempt
  pub node_leases : Dict Text NodeLease
  pub events : List Event
  pub artifacts : List Artifact
  pub controller_leases : Dict Text ControllerLease
  pub fresh : ℕ

abbrev pub empty_db : Db
empty_db = record {
  jobs = [];
  attempts = [];
  node_leases = [];
  events = [];
  artifacts = [];
  controller_leases = [];
  fresh = 0;
}

-- session.get(JobOrm, id)
unfoldable pub find_job : ℕ → List Job → Option Job
find_job i [] = none
find_job i (j ∷ js) = if nat_eq j.id i then some j else find_job i js

-- session.get(JobAttemptOrm, id)
unfoldable pub find_attempt : ℕ → List Attempt → Option Attempt
find_attempt i [] = none
find_attempt i (a ∷ as') = if nat_eq a.id i then some a else find_attempt i as'

-- An assignment to columns of the row with that key.
unfoldable pub update_job : ℕ → (Job → Job) → List Job → List Job
update_job i f [] = []
update_job i f (j ∷ js) = if nat_eq j.id i then f j ∷ js else j ∷ update_job i f js

unfoldable pub update_attempt : ℕ → (Attempt → Attempt) → List Attempt → List Attempt
update_attempt i f [] = []
update_attempt i f (a ∷ as') = if nat_eq a.id i then f a ∷ as' else a ∷ update_attempt i f as'

-- select count(*) from job_attempts where job_id = i
unfoldable pub count_attempts : ℕ → List Attempt → ℕ
count_attempts i [] = 0
count_attempts i (a ∷ as') =
    let rest = count_attempts i as' in if nat_eq a.job_id i then suc rest else rest

-- uq_job_attempts_job_id: is the pair of job and attempt number taken?
unfoldable pub has_attempt_number : ℕ → ℕ → List Attempt → Bool
has_attempt_number i n [] = Bool.false
has_attempt_number i n (a ∷ as') =
    (nat_eq a.job_id i && nat_eq a.attempt_number n) || has_attempt_number i n as'

abbrev pub job_status_eq : JobStatus → JobStatus → Bool
job_status_eq queued queued = Bool.true
job_status_eq assigned assigned = Bool.true
job_status_eq running running = Bool.true
job_status_eq cancel_requested cancel_requested = Bool.true
job_status_eq completed completed = Bool.true
job_status_eq failed failed = Bool.true
job_status_eq canceled canceled = Bool.true
job_status_eq timed_out timed_out = Bool.true
job_status_eq _ _ = Bool.false

-- order_by(priority.desc(), created_at.asc()), ties in table order.
abbrev pub claims_before : Job → Job → Bool
claims_before a b =
    ltb_ℤ b.priority a.priority || (eqb_ℤ a.priority b.priority && leb a.created_at b.created_at)

unfoldable pub insert_by_claim : Job → List Job → List Job
insert_by_claim j [] = j ∷ []
insert_by_claim j (k ∷ ks) = if claims_before j k then j ∷ k ∷ ks else k ∷ insert_by_claim j ks

unfoldable pub sort_by_claim : List Job → List Job
unfolding insert_by_claim
sort_by_claim [] = []
sort_by_claim (j ∷ js) = insert_by_claim j (sort_by_claim js)
