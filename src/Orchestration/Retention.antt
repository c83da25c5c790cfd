-- ===== src/Orchestration/Retention.antt =====
-- llama_pack/core/orchestration/retention.py: what is kept of jobs that have ended.
use llama_pack.Prelude.{
  ℕ, zero, suc, ◌+◌, Bool, true, false, not, ◌&&◌, ◌||◌, Option, none, some, List, [], ◌∷◌, map,
  length, filter, take, drop, nat_eq, ltb,
}
use llama_pack.Orchestration.Rows.{
  Job, JobStatus, completed, failed, canceled, timed_out, Attempt, Event, Artifact, Db,
}
use llama_pack.Orchestration.Tx.{Tx, ok}

pub record PruneStats : Type 0 where
  pub pruned_jobs : ℕ
  pub pruned_attempts : ℕ
  pub pruned_events : ℕ

-- terminal = ("completed", "failed", "canceled", "timed_out")
abbrev pub is_terminal : JobStatus → Bool
is_terminal completed = true
is_terminal failed = true
is_terminal canceled = true
is_terminal timed_out = true
is_terminal _ = false

-- completed_at is not None and completed_at < cutoff
abbrev pub ended_before : ℕ → Option ℕ → Bool
ended_before cutoff none = false
ended_before cutoff (some t) = ltb t cutoff

unfoldable pub is_old : ℕ → Job → Bool
is_old cutoff j = is_terminal j.status && ended_before cutoff j.completed_at

unfoldable pub old_job_ids : ℕ → List Job → List ℕ
unfolding is_old
old_job_ids cutoff jobs = map (λ j. j.id) (filter (is_old cutoff) jobs)

-- i in ids
unfoldable pub member : ℕ → List ℕ → Bool
member i [] = false
member i (k ∷ ks) = nat_eq k i || member i ks

-- JobEventOrm.attempt_id.in_(attempt_ids): a null is in no list.
unfoldable pub opt_member : Option ℕ → List ℕ → Bool
unfolding member
opt_member none ids = false
opt_member (some i) ids = member i ids

-- delete(...).where(p): the rows left, and the row count.
unfoldable pub delete_where {ℓ} : {A : Type ℓ} → (A → Bool) → List A → List A
delete_where p = filter (λ a. not (p a))

unfoldable pub count_where {ℓ} : {A : Type ℓ} → (A → Bool) → List A → ℕ
count_where p xs = length (filter p xs)

-- The ids of the attempts of those jobs.
unfoldable pub attempt_ids_of : List ℕ → List Attempt → List ℕ
unfolding member
attempt_ids_of chunk attempts = map (λ a. a.id) (filter (λ a. member a.job_id chunk) attempts)

-- The body of the loop: the deletes of one chunk, in their order.
unfoldable pub prune_chunk : List ℕ → PruneStats → Db → PruneStats × Db
unfolding attempt_ids_of delete_where count_where member opt_member
prune_chunk chunk stats db =
    let attempt_ids = attempt_ids_of chunk db.attempts in
    let events' = delete_where (λ (e : Event). opt_member e.attempt_id attempt_ids) db.events in
    let by_job : Event → Bool = λ e. member e.job_id chunk in
    let of_job : Attempt → Bool = λ a. member a.job_id chunk in
    let in_chunk : Job → Bool = λ j. member j.id chunk in
    (
      record {
        pruned_jobs = stats.pruned_jobs + count_where in_chunk db.jobs;
        pruned_attempts = stats.pruned_attempts + count_where of_job db.attempts;
        pruned_events =
            stats.pruned_events
            + count_where (λ (e : Event). opt_member e.attempt_id attempt_ids) db.events
            + count_where by_job events';
      },
      record db {
        events = delete_where by_job events';
        artifacts = delete_where (λ (a : Artifact). member a.job_id chunk) db.artifacts;
        attempts = delete_where of_job db.attempts;
        jobs = delete_where in_chunk db.jobs;
      },
    )

unfoldable pub prune_chunks : List (List ℕ) → PruneStats → Db → PruneStats × Db
prune_chunks [] stats db = (stats, db)
prune_chunks (c ∷ cs) stats db =
    let (stats', db') = prune_chunk c stats db in prune_chunks cs stats' db'

-- `values[i : i + size] for i in range(0, len(values), size)`, on as many rounds as values.
unfoldable pub chunks_fuel : ℕ → ℕ → List ℕ → List (List ℕ)
chunks_fuel fuel size [] = []
chunks_fuel zero size (v ∷ vs) = []
chunks_fuel (suc fuel) size (v ∷ vs) =
    take size (v ∷ vs) ∷ chunks_fuel fuel size (drop size (v ∷ vs))

unfoldable pub chunks : ℕ → List ℕ → List (List ℕ)
unfolding chunks_fuel
chunks size values = chunks_fuel (length values) size values

-- The cutoff is the time of the call less the retention period.
unfoldable pub prune_history : ℕ → Tx PruneStats
unfolding old_job_ids chunks prune_chunks
prune_history cutoff db = ok (
    prune_chunks (chunks 500 (old_job_ids cutoff db.jobs))
      (record { pruned_jobs = 0; pruned_attempts = 0; pruned_events = 0 }) db)
