-- ===== src/Orchestration/Canceled/Reports.antt =====
-- Reports of nodes and sweeps, after a job was canceled untried.
use llama_pack.Prelude.{
  ℕ, ◌≡◌, ◌≢◌, Option, List, [], ◌∷◌, All, Bool-cases, inl, inr, ◌&&◌, ltb, arith,
}
use llama_pack.Prelude.Json.{Value}
use llama_pack.Prelude.Text.{Text}
use llama_pack.Orchestration.Rows.{
  JobStatus, queued, running, completed, failed, canceled, timed_out, Attempt, Db, count_attempts,
}
use llama_pack.Orchestration.Tx.{and_then}
use llama_pack.Orchestration.Repo.{JobChange, insert_event, set_job_status}
use llama_pack.Orchestration.Lifecycle.{
  ArtifactReport, Failure, attempt_progress, insert_artifacts, complete_attempt, settle_failure,
  fail_attempt, sweep_attempt, sweep_rows, sweep_expired_attempts, SweepStats, count_swept,
  expired_rows, is_live,
}
use llama_pack.Orchestration.Canceled.{
  Idle, Idles, Idles-ok, Idles-err, Idles-then, Idles-gets, Idles-if, Idles-insert_event,
  Idles-insert_artifact, Idles-set_attempt_status, Idles-set_job_status, Idles-get_job, Idles-owned,
}

module _ (i : ℕ) where
  pub Idles-attempt_progress :
      (node : Text) (k : ℕ) (progress : Value) (lease now : ℕ) (db : Db)
      → Idle i db
      → Idles i (attempt_progress node k progress lease now db)
  unfolding attempt_progress
  Idles-attempt_progress node k progress lease now db h = Idles-owned i k node _ db h λ row other.
      Idles-gets i _ _ db (
        Idles-if i _ _ _ db (Idles-err i _) (
          Idles-then i _ _ (Idles-set_attempt_status i k _ _ _ _ db h) λ _ db1 h1.
            Idles-then i _ _ (Idles-set_job_status i row.job_id running now _ db1 other h1)
              λ _ db2 h2. Idles-insert_event i _ _ _ _ _ db2 h2))

  -- A status of another job, and an event.
  Idles-settle :
      (j : ℕ) (s : JobStatus) (now : ℕ) (change : JobChange) (db : Db) (a : Option ℕ) (t : Text)
      (v : Value)
      → j ≢ i
      → Idle i db
      → Idles i (and_then (set_job_status j s now change db) (λ _. insert_event j a t v now))
  Idles-settle j s now change db a t v other h =
      Idles-then i _ _ (Idles-set_job_status i j s now _ db other h)
        λ _ db2 h2. Idles-insert_event i _ _ _ _ _ db2 h2

  Idles-insert_artifacts :
      (j k : ℕ) (reports : List ArtifactReport) (now : ℕ) (db : Db)
      → Idle i db
      → Idles i (insert_artifacts j k reports now db)
  unfolding insert_artifacts
  Idles-insert_artifacts j k [] now db h = Idles-ok h
  Idles-insert_artifacts j k (a ∷ rest) now db h =
      Idles-then i _ _ (Idles-insert_artifact i _ _ _ _ _ _ db h)
        λ _ db' h'. Idles-insert_artifacts j k rest now db' h'

  pub Idles-complete_attempt :
      (node : Text) (k : ℕ) (result : Value) (reports : List ArtifactReport) (now : ℕ) (db : Db)
      → Idle i db
      → Idles i (complete_attempt node k result reports now db)
  unfolding complete_attempt
  Idles-complete_attempt node k result reports now db h = Idles-owned i k node _ db h λ row other.
      Idles-gets i _ _ db (
        Idles-then i _ _
          (Idles-if i _ _ _ db
            (Idles-then i _ _ (Idles-set_attempt_status i k _ _ _ _ db h)
              λ _ db1 h1. Idles-settle row.job_id canceled now _ db1 _ _ _ other h1)
            (Idles-then i _ _ (Idles-set_attempt_status i k _ _ _ _ db h) λ _ db1 h1.
              Idles-then i _ _ (Idles-set_job_status i row.job_id completed now _ db1 other h1)
                λ _ db2 h2.
                  Idles-then i _ _ (Idles-insert_artifacts row.job_id k reports now db2 h2)
                    λ _ db3 h3.
                      Idles-then i _ _ (Idles-insert_event i _ _ _ _ _ db3 h3)
                        λ _ db4 h4. Idles-insert_event i _ _ _ _ _ db4 h4))
          λ _ db5 h5. Idles-get_job i row.job_id db5 h5)

  Idles-settle_failure :
      (j k : ℕ) (f : Failure) (n m now : ℕ) (db : Db)
      → j ≢ i
      → Idle i db
      → Idles i (settle_failure j k f n m now db)
  unfolding settle_failure
  Idles-settle_failure j k f n m now db other h = Idles-gets i _ _ db (
      Idles-if i _ _ _ db (Idles-settle j canceled now _ db _ _ _ other h) (
        Idles-if i _ _ _ db (Idles-settle j queued now _ db _ _ _ other h)
          (Idles-settle j failed now _ db _ _ _ other h)))

  pub Idles-fail_attempt :
      (node : Text) (k : ℕ) (f : Failure) (m now : ℕ) (db : Db)
      → Idle i db
      → Idles i (fail_attempt node k f m now db)
  unfolding fail_attempt
  Idles-fail_attempt node k f m now db h = Idles-owned i k node _ db h λ row other.
      Idles-then i _ _ (Idles-set_attempt_status i k _ _ _ _ db h) λ _ db1 h1.
        Idles-gets i _ _ db1 (
          Idles-then i _ _ (Idles-insert_event i _ _ _ _ _ db1 h1) λ _ db2 h2.
            Idles-then i _ _ (Idles-settle_failure row.job_id k f _ m now db2 other h2)
              λ _ db3 h3. Idles-get_job i row.job_id db3 h3)

  Idles-sweep_attempt :
      (m now : ℕ) (a : Attempt) (db : Db)
      → a.job_id ≢ i
      → Idle i db
      → Idles i (sweep_attempt m now a db)
  unfolding sweep_attempt
  Idles-sweep_attempt m now a db other h =
      Idles-then i _ _ (Idles-set_attempt_status i a.id _ _ _ _ db h) λ _ db1 h1.
        Idles-then i _ _ (Idles-insert_event i _ _ _ _ _ db1 h1) λ _ db2 h2. Idles-gets i _ _ db2 (
          Idles-if i _ _ _ db2
            (Idles-then i _ _ (Idles-set_job_status i a.job_id queued now _ db2 other h2)
              λ _ db3 h3.
                Idles-then i _ _ (Idles-insert_event i _ _ _ _ _ db3 h3) λ _ db4 h4. Idles-ok h4)
            (Idles-then i _ _ (Idles-set_job_status i a.job_id timed_out now _ db2 other h2)
              λ _ db3 h3.
                Idles-then i _ _ (Idles-insert_event i _ _ _ _ _ db3 h3) λ _ db4 h4. Idles-ok h4))

  Idles-sweep_rows :
      (m now : ℕ) (stats : SweepStats) (rows : List Attempt) (db : Db)
      → All (λ a. a.job_id ≢ i) rows
      → Idle i db
      → Idles i (sweep_rows m now stats rows db)
  unfolding sweep_rows
  Idles-sweep_rows m now stats [] db others h = Idles-ok h
  Idles-sweep_rows m now stats (a ∷ rest) db others h =
      Idles-then i _ _ (Idles-sweep_attempt m now a db others.0 h)
        λ again db' h'. Idles-sweep_rows m now (count_swept again stats) rest db' others.1 h'

  untried-others :
      (now : ℕ) (as' : List Attempt)
      → count_attempts i as' ≡ 0
      → All (λ a. a.job_id ≢ i) (expired_rows now as')
  unfolding expired_rows count_attempts
  untried-others now [] h = tt
  untried-others now (a ∷ as') h =
      let rest : count_attempts i as' ≡ 0 = ground (arith, h) in
      elim (Bool-cases (is_live a.status && ltb a.lease_expires_at now)) [
        | inl e ↦ rw e ((λ same. ground (arith, h, same)), untried-others now as' rest)
        | inr e ↦ rw e (untried-others now as' rest)
      ]

  pub Idles-sweep_expired_attempts :
      (m now : ℕ) (db : Db) → Idle i db → Idles i (sweep_expired_attempts m now db)
  unfolding sweep_expired_attempts
  Idles-sweep_expired_attempts m now db h =
      Idles-sweep_rows m now _ (expired_rows now db.attempts) db
        (untried-others now db.attempts h.untried) h
