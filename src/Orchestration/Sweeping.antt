-- ===== src/Orchestration/Sweeping.antt =====
-- What the sweep of one expired attempt, the loop body of sweep_expired_attempts in
-- llama_pack/core/orchestration/lifecycle.py, leaves of the tables.
pub mod Whole
use mathlib.Core.List.{Mem, mem-cons}
use llama_pack.Prelude.{
  ℕ, zero, suc, ◌+◌, ◌<◌, Bool, true, false, ◌≡◌, ◌≢◌, refl, sym, ◌∙◌, ap, subst, Option, none,
  some, List, [], ◌∷◌, arith, All, nat_eq, nat_eq_iff, ltb, length, Bool-cases, Option-cases, inl,
  inr, filter, if◌then◌else◌, ◌&&◌,
}
use llama_pack.Prelude.Text.{codes}
use llama_pack.Orchestration.Rows.{
  Job, JobStatus, queued, timed_out, Attempt, AttemptStatus, Db, empty_db, find_job, find_attempt,
  update_job, update_attempt, count_attempts,
}
use llama_pack.Orchestration.Tx.{Result, ok, err, settled, after, and_then, demand, when◌then◌else◌}
use llama_pack.Orchestration.Laws.{map_option, Eq-cases, find_job-update, count_attempts-update}
use llama_pack.Orchestration.Repo.{
  JobChange, no_change, with_attempt_status, with_status, insert_event, set_attempt_status,
  set_job_status,
}
use llama_pack.Orchestration.Lifecycle.{
  is_live, expired_rows, SweepStats, count_swept, sweep_attempt, sweep_rows, sweep_expired_attempts,
}
use llama_pack.Orchestration.Bounded.{Inv, Within}
use llama_pack.Orchestration.Runs.{Orchestrator, Call, run, run-Inv, empty-Inv}

-- A job of the tables has this status.
abbrev pub HasStatus : JobStatus → ℕ → Db → Type 0
HasStatus s i db = (j : Job) × (find_job i db.jobs ≡ some j) × (j.status ≡ s)

-- Where a job goes after as many attempts.
abbrev pub verdict : ℕ → ℕ → JobStatus
verdict m c = if ltb c m then queued else timed_out

-- An attempt and its job are in the tables.
abbrev pub Present : Db → Attempt → Type 0
Present db a =
    ((row : Attempt) × (find_attempt a.id db.attempts ≡ some row))
    × ((job : Job) × (find_job a.job_id db.jobs ≡ some job))

abbrev timed_out_at : ℕ → JobChange
timed_out_at now = record {
  completed_at = some now;
  result = none;
  error_code = some (codes "LEASE_EXPIRED");
  error_detail = some (codes "Lease expired and max attempts reached");
}

pub self_eq : (a : ℕ) → nat_eq a a ≡ true
self_eq a = ground arith

differs : (a b : ℕ) → a ≢ b → nat_eq a b ≡ false
differs a b other = ground (arith, other)

find_attempt-update :
    (i : ℕ) (f : Attempt → Attempt) (as' : List Attempt) (k : ℕ) (row : Attempt)
    → ((a : Attempt) → (f a).id ≡ a.id)
    → find_attempt k as' ≡ some row
    → (row' : Attempt) × (find_attempt k (update_attempt i f as') ≡ some row')
unfolding find_attempt update_attempt
find_attempt-update i f [] k row keep h = (row, h)
find_attempt-update i f (a ∷ as') k row keep h = elim (Bool-cases (nat_eq a.id i)) [
  | inl e ↦ elim (Bool-cases (nat_eq a.id k)) [
    | inl t ↦ rw (e, update_attempt, find_attempt, keep a, t) (record (f a) { id = a.id }, refl)
    | inr t ↦ rw (e, update_attempt, find_attempt, keep a, t) (row, (rw t at h))
  ]
  | inr e ↦ elim (Bool-cases (nat_eq a.id k)) [
    | inl t ↦ rw (e, update_attempt, find_attempt, t) (a, refl)
    | inr t ↦
        rw (e, update_attempt, find_attempt, t) (find_attempt-update i f as' k row keep (rw t at h))
  ]
]

abbrev pub expire : ℕ → Attempt → Attempt
expire now = with_attempt_status AttemptStatus.expired none (some now) none

-- What the sweep of one attempt writes: it returns, and changes one job and one attempt.
abbrev pub Swept : ℕ → ℕ → Attempt → Db → Result (Bool × Db) → Type 0
Swept m now a db (ok (again, db')) =
    (change : JobChange) × (db'.attempts ≡ update_attempt a.id (expire now) db.attempts)
    × (db'.jobs
        ≡ update_job a.job_id
            (with_status (verdict m (count_attempts a.job_id db.attempts)) now change) db.jobs)
Swept m now a db (err e) = ⊥

pub sweep_attempt-Swept :
    (m now : ℕ) (a : Attempt) (db : Db) → Present db a → Swept m now a db (sweep_attempt m now a db)
unfolding sweep_attempt set_attempt_status set_job_status insert_event and_then demand
    when◌then◌else◌
sweep_attempt-Swept m now a db ((row, mine), (job, known)) =
    let same = count_attempts-update a.id (expire now) db.attempts a.job_id (λ x. refl) in
    elim (Bool-cases (ltb (count_attempts a.job_id db.attempts) m)) [
      | inl left ↦
          rw (mine, and_then, demand)
            (rw (same, left) (rw (known, and_then, demand) (no_change, refl, rw left refl)))
      | inr left ↦
          rw (mine, and_then, demand)
            (rw (same, left) (rw (known, and_then, demand) (timed_out_at now, refl, rw left refl)))
    ]

-- How the tables read after the sweep of one attempt.
module _ (m now : ℕ) (a : Attempt) (change : JobChange) (db db' : Db)
    (attempts' : db'.attempts ≡ update_attempt a.id (expire now) db.attempts)
    (jobs' : db'.jobs
      ≡ update_job a.job_id
          (with_status (verdict m (count_attempts a.job_id db.attempts)) now change)
          db.jobs) where
  pub same_counts : (k : ℕ) → count_attempts k db'.attempts ≡ count_attempts k db.attempts
  same_counts k = rw attempts' (count_attempts-update a.id (expire now) db.attempts k (λ x. refl))

  new_status : ℕ → JobStatus
  new_status k = verdict m (count_attempts k db.attempts)

  find_after :
      (k : ℕ)
      → find_job k db'.jobs ≡ (
          if nat_eq a.job_id k
          then map_option
              (with_status (verdict m (count_attempts a.job_id db.attempts)) now change)
              (find_job k db.jobs)
          else find_job k db.jobs)
  find_after k = rw jobs' (find_job-update a.job_id _ db.jobs k (λ x. refl))

  pub untouched : (k : ℕ) → a.job_id ≢ k → find_job k db'.jobs ≡ find_job k db.jobs
  untouched k other = find_after k ∙ rw (differs a.job_id k other) refl

  pub touched :
      (job : Job)
      → find_job a.job_id db.jobs ≡ some job
      → HasStatus (verdict m (count_attempts a.job_id db.attempts)) a.job_id db'
  touched job known = (
    with_status (verdict m (count_attempts a.job_id db.attempts)) now change job,
    find_after a.job_id ∙ rw (self_eq a.job_id, known) refl,
    refl,
  )

  pub lasting :
      (k : ℕ)
      → HasStatus (verdict m (count_attempts k db.attempts)) k db
      → HasStatus (verdict m (count_attempts k db.attempts)) k db'
  lasting k (job, known, is) = elim (Eq-cases a.job_id k) [
    | inl e ↦
        subst (λ t. HasStatus (verdict m (count_attempts t db.attempts)) t db') e
          (touched job (subst (λ t. find_job t db.jobs ≡ some job) (sym e) known))
    | inr e ↦ (job, find_after k ∙ rw e known, is)
  ]

  pub Present-after : (b : Attempt) → Present db b → Present db' b
  Present-after b ((row, mine), (job, known)) = (
    rw attempts' (find_attempt-update a.id (expire now) db.attempts b.id row (λ x. refl) mine),
    rw (find_after b.job_id, known)
        (elim (Bool-cases (nat_eq a.job_id b.job_id)) [
          | inl e ↦
              rw e
                (with_status (verdict m (count_attempts a.job_id db.attempts)) now change job, refl)
          | inr e ↦ rw e (job, refl)
        ]),
  )
