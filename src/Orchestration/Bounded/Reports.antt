-- ===== src/Orchestration/Bounded/Reports.antt =====
-- Every report of a node, whichever attempt it names, and every request to cancel keep the
-- invariant.
use llama_pack.Prelude.{ℕ, ◌<◌, ◌≡◌, refl, Option, List, [], ◌∷◌, arith}
use llama_pack.Prelude.Json.{Value}
use llama_pack.Prelude.Text.{Text}
use llama_pack.Orchestration.Rows.{
  Job, JobStatus, queued, running, completed, failed, canceled, timed_out, Attempt, Db,
  count_attempts,
}
use llama_pack.Orchestration.Tx.{and_then}
use llama_pack.Orchestration.Repo.{JobChange, cancel_job, cancel_row, insert_event, set_job_status}
use llama_pack.Orchestration.Lifecycle.{
  ArtifactReport, Failure, attempt_progress, insert_artifacts, complete_attempt, settle_failure,
  fail_attempt, sweep_attempt, sweep_rows, sweep_expired_attempts, SweepStats, count_swept,
  expired_rows,
}
use llama_pack.Orchestration.Bounded.{
  Inv, Inv-update_job, Kept, Kept-ok, Kept-err, Kept-then, Kept-if, Kept-gets, Kept-owned,
  Kept-event, Kept-insert_event, Kept-insert_artifact, Kept-set_attempt_status, Kept-set_job_status,
  Kept-get_job, Kept-job_row,
}

module _ (m : ℕ) where
  pub Kept-attempt_progress :
      (node : Text) (i : ℕ) (progress : Value) (lease now : ℕ) (db : Db)
      → Inv m db
      → Kept m (attempt_progress node i progress lease now db)
  unfolding attempt_progress
  Kept-attempt_progress node i progress lease now db h = Kept-owned m i node _ db λ row e.
      Kept-gets m _ _ db (
        Kept-if m _ _ _ db (λ _. Kept-err m _)
          (λ _. Kept-then m _ _ (Kept-set_attempt_status m i _ _ _ _ db h) λ _ db1 _ h1.
            Kept-then m _ _ (Kept-set_job_status m row.job_id running now _ db1 (λ q. cc) h1)
              λ _ db2 _ h2. Kept-insert_event m _ _ _ _ _ db2 h2))

  -- A status other than queued, an event, and what follows them.
  Kept-settle :
      (j : ℕ) (s : JobStatus) (now : ℕ) (change : JobChange) (db : Db) (a : Option ℕ) (t : Text)
      (v : Value)
      → (s ≡ queued → count_attempts j db.attempts < m)
      → Inv m db
      → Kept m (and_then (set_job_status j s now change db) (λ _. insert_event j a t v now))
  Kept-settle j s now change db a t v room h =
      Kept-then m _ _ (Kept-set_job_status m j s now _ db room h)
        λ _ db2 _ h2. Kept-insert_event m _ _ _ _ _ db2 h2

  Kept-insert_artifacts :
      (j i : ℕ) (reports : List ArtifactReport) (now : ℕ) (db : Db)
      → Inv m db
      → Kept m (insert_artifacts j i reports now db)
  unfolding insert_artifacts
  Kept-insert_artifacts j i [] now db h = Kept-ok h
  Kept-insert_artifacts j i (a ∷ rest) now db h =
      Kept-then m _ _ (Kept-insert_artifact m _ _ _ _ _ _ db h)
        λ _ db' _ h'. Kept-insert_artifacts j i rest now db' h'

  pub Kept-complete_attempt :
      (node : Text) (i : ℕ) (result : Value) (reports : List ArtifactReport) (now : ℕ) (db : Db)
      → Inv m db
      → Kept m (complete_attempt node i result reports now db)
  unfolding complete_attempt
  Kept-complete_attempt node i result reports now db h = Kept-owned m i node _ db λ row e.
      Kept-gets m _ _ db (
        Kept-then m _ _
          (Kept-if m _ _ _ db
            (λ _.
              Kept-then m _ _ (Kept-set_attempt_status m i _ _ _ _ db h)
                λ _ db1 _ h1. Kept-settle row.job_id canceled now _ db1 _ _ _ (λ q. cc) h1)
            (λ _. Kept-then m _ _ (Kept-set_attempt_status m i _ _ _ _ db h) λ _ db1 _ h1.
              Kept-then m _ _ (Kept-set_job_status m row.job_id completed now _ db1 (λ q. cc) h1)
                λ _ db2 _ h2.
                  Kept-then m _ _ (Kept-insert_artifacts row.job_id i reports now db2 h2)
                    λ _ db3 _ h3.
                      Kept-event m _ _ _ _ _ _ db3 h3
                        λ db4 _ h4. Kept-insert_event m _ _ _ _ _ db4 h4))
          λ _ db5 _ h5. Kept-get_job m row.job_id db5 h5)

  Kept-settle_failure :
      (j i : ℕ) (f : Failure) (n now : ℕ) (db : Db)
      → n ≡ count_attempts j db.attempts
      → Inv m db
      → Kept m (settle_failure j i f n m now db)
  unfolding settle_failure
  Kept-settle_failure j i f n now db e h = Kept-gets m _ _ db (
      Kept-if m _ _ _ db (λ _. Kept-settle j canceled now _ db _ _ _ (λ q. cc) h)
        (λ _.
          Kept-if m _ _ _ db
            (λ t. Kept-settle j queued now _ db _ _ _ (λ _. ground (arith, e, t)) h)
            (λ _. Kept-settle j failed now _ db _ _ _ (λ q. cc) h)))

  pub Kept-fail_attempt :
      (node : Text) (i : ℕ) (f : Failure) (now : ℕ) (db : Db)
      → Inv m db
      → Kept m (fail_attempt node i f m now db)
  unfolding fail_attempt
  Kept-fail_attempt node i f now db h = Kept-owned m i node _ db λ row e.
      Kept-then m _ _ (Kept-set_attempt_status m i _ _ _ _ db h) λ _ db1 _ h1. Kept-gets m _ _ db1 (
        Kept-event m _ _ _ _ _ _ db1 h1 λ db2 same h2.
          Kept-then m _ _ (Kept-settle_failure row.job_id i f _ now db2 (rw same) h2)
            λ _ db3 _ h3. Kept-get_job m row.job_id db3 h3)

  Kept-sweep_attempt :
      (now : ℕ) (a : Attempt) (db : Db) → Inv m db → Kept m (sweep_attempt m now a db)
  unfolding sweep_attempt
  Kept-sweep_attempt now a db h =
      Kept-then m _ _ (Kept-set_attempt_status m a.id _ _ _ _ db h) λ _ db1 _ h1.
        Kept-event m _ _ _ _ _ _ db1 h1 λ db2 same h2. Kept-gets m _ _ db2 (
          Kept-if m _ _ _ db2
            (λ t.
              Kept-then m _ _
                (Kept-set_job_status m a.job_id queued now _ db2 (λ _. ground (arith, t)) h2)
                λ _ db3 _ h3. Kept-event m _ _ _ _ _ _ db3 h3 λ db4 _ h4. Kept-ok h4)
            (λ _.
              Kept-then m _ _ (Kept-set_job_status m a.job_id timed_out now _ db2 (λ q. cc) h2)
                λ _ db3 _ h3. Kept-event m _ _ _ _ _ _ db3 h3 λ db4 _ h4. Kept-ok h4))

  Kept-sweep_rows :
      (now : ℕ) (stats : SweepStats) (rows : List Attempt) (db : Db)
      → Inv m db
      → Kept m (sweep_rows m now stats rows db)
  unfolding sweep_rows
  Kept-sweep_rows now stats [] db h = Kept-ok h
  Kept-sweep_rows now stats (a ∷ rest) db h =
      Kept-then m _ _ (Kept-sweep_attempt now a db h)
        λ again db' _ h'. Kept-sweep_rows now (count_swept again stats) rest db' h'

  pub Kept-sweep_expired_attempts :
      (now : ℕ) (db : Db) → Inv m db → Kept m (sweep_expired_attempts m now db)
  unfolding sweep_expired_attempts
  Kept-sweep_expired_attempts now db h = Kept-sweep_rows now _ (expired_rows now db.attempts) db h

  -- No request to cancel puts a job in the queue.
  cancel_row-id : (s : JobStatus) (now : ℕ) (j : Job) → (cancel_row s now j).id ≡ j.id
  unfolding cancel_row
  cancel_row-id queued now j = refl
  cancel_row-id _ now j = refl

  cancel_row-ne-queued :
      (s : JobStatus) (now : ℕ) (j : Job) → (cancel_row s now j).status ≡ queued → ⊥
  unfolding cancel_row
  cancel_row-ne-queued queued now j e = cc
  cancel_row-ne-queued _ now j e = cc

  pub Kept-cancel_job : (j now : ℕ) (db : Db) → Inv m db → Kept m (cancel_job j now db)
  unfolding cancel_job
  Kept-cancel_job j now db h = Kept-job_row m j _ db λ row e.
      Kept-if m _ _ _ db
        (λ _.
          Kept-then m _ _
            (Kept-ok (
              Inv-update_job m db j (cancel_row row.status now) (cancel_row-id row.status now)
                (λ x _ q. absurd (cancel_row-ne-queued row.status now x q)) h))
            λ _ db1 _ h1. Kept-event m _ _ _ _ _ _ db1 h1 λ db2 _ h2. Kept-get_job m j db2 h2)
        (λ _. Kept-get_job m j db h)
