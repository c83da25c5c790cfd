-- ===== src/Orchestration/Canceled/Calls.antt =====
-- Claims and the other calls that are not reports, after a job was canceled untried.
use llama_pack.Prelude.{
  ℕ, suc, true, ◌≡◌, ◌≢◌, refl, subst, text_has_eq, Option, some, List, [], ◌∷◌, ◌++◌, arith, All,
  length, leb, Bool-cases, Option-cases, inl, inr,
}
use llama_pack.Prelude.Dict.{lookup}
use llama_pack.Prelude.Int.{ℤ}
use llama_pack.Prelude.Json.{Fields}
use llama_pack.Prelude.Text.{Text}
use llama_pack.Orchestration.Rows.{
  Job, JobStatus, queued, assigned, Attempt, Db, find_job, has_attempt_number,
}
use llama_pack.Orchestration.Tx.{and_then, demand}
use llama_pack.Orchestration.Laws.{
  find_job-append, find_job-delete, count_attempts-append, count_attempts-delete,
}
use llama_pack.Orchestration.Repo.{
  create_job, cancel_job, cancel_row, get_job_row, is_open, add_attempt, no_change,
}
use llama_pack.Orchestration.Matching.{job_matches_node}
use llama_pack.Orchestration.Lifecycle.{
  Asker, Claim, claim_row, claim_rows, claim_jobs, queued_rows, renew_node_lease,
}
use llama_pack.Orchestration.Retention.{
  PruneStats, member, prune_chunk, prune_chunks, chunks, prune_history, old_job_ids,
}
use llama_pack.Orchestration.Leader.{may_lead, try_acquire_leader_lease}
use llama_pack.Orchestration.Bounded.{Inv}
use llama_pack.Orchestration.Bounded.Queue.{IsQueued, queued_rows-IsQueued}
use llama_pack.Orchestration.Canceled.{
  Idle, Idles, Idle-frame, Idle-update_job, ne→false, Idles-ok, Idles-err, Idles-then, Idles-gets,
  Idles-when, Idles-insert_event, Idles-set_job_status, Idles-get_job,
}

module _ (i : ℕ) where
  Idles-add_attempt :
      (a : Attempt) (db : Db) → a.job_id ≢ i → Idle i db → Idles i (add_attempt a db)
  unfolding add_attempt
  Idles-add_attempt a db other h =
      elim (Bool-cases (has_attempt_number a.job_id a.attempt_number db.attempts)) [
        | inl t ↦ rw t (Idles-err i _)
        | inr t ↦ rw t (
            Idles-ok (record {
              untried =
                  rw (count_attempts-append i db.attempts a, ne→false a.job_id i other) h.untried;
              stays = h.stays;
              used = h.used;
            }))
      ]

  Idles-claim_row :
      (q : Asker) (row : Job) (db : Db) → row.id ≢ i → Idle i db → Idles i (claim_row q row db)
  unfolding claim_row
  Idles-claim_row q row db other h =
      Idles-then i _ _
        (Idles-ok (Idle-frame i db (record db { fresh = suc db.fresh }) refl refl (omega arith) h))
        λ k db1 h1. Idles-gets i _ _ db1 (
          Idles-then i _ _ (Idles-add_attempt _ db1 other h1) λ _ db2 h2.
            Idles-then i _ _ (Idles-set_job_status i row.id assigned q.now no_change db2 other h2)
              λ _ db3 h3.
                Idles-then i _ _ (Idles-insert_event i _ _ _ _ _ db3 h3) λ _ db4 h4. Idles-ok h4)

  Idles-claim_rows :
      (q : Asker) (n : ℕ) (claimed : List Claim) (rows : List Job) (db : Db)
      → All (λ r. r.id ≢ i) rows
      → Idle i db
      → Idles i (claim_rows q n claimed rows db)
  unfolding claim_rows
  Idles-claim_rows q n claimed [] db others h = Idles-ok h
  Idles-claim_rows q n claimed (row ∷ rows) db others h =
      elim (Bool-cases (leb n (length claimed))) [
        | inl full ↦ rw (claim_rows, full) (Idles-ok h)
        | inr open' ↦ elim (Bool-cases (job_matches_node row q.node_name q.capacity q.labels)) [
          | inr skip ↦
              rw (claim_rows, open', skip) (Idles-claim_rows q n claimed rows db others.1 h)
          | inl fits ↦
              rw (claim_rows, open', fits)
                (Idles-then i _ _ (Idles-claim_row q row db others.0 h)
                  λ c db' h'. Idles-claim_rows q n (claimed ++ c ∷ []) rows db' others.1 h')
        ]
      ]

  -- A row that waits is not one that is canceled.
  queued-others :
      (rows : List Job) (db : Db)
      → Idle i db
      → All (IsQueued db.jobs) rows
      → All (λ r. r.id ≢ i) rows
  queued-others [] db h ps = tt
  queued-others (r ∷ rows) db h ps = (
    λ same.
        let is_canceled = h.stays r (subst (λ t. find_job t db.jobs ≡ some r) same ps.0.0) in
        let is_queued = ps.0.1 in cc,
    queued-others rows db h ps.1,
  )

  pub Idles-claim_jobs :
      (m : ℕ) (q : Asker) (n : ℕ) (db : Db) → Inv m db → Idle i db → Idles i (claim_jobs q n db)
  unfolding claim_jobs renew_node_lease and_then
  Idles-claim_jobs m q n db v h =
      Idles-claim_rows q n [] (queued_rows db.jobs) _
        (queued-others (queued_rows db.jobs) db h (queued_rows-IsQueued db.jobs v.distinct))
        (Idle-frame i db _ refl refl (omega arith) h)

  Idle-new_job :
      (j : Job) (db : Db)
      → j.id ≡ db.fresh
      → Idle i db
      → Idle i (record db { jobs = db.jobs ++ j ∷ []; fresh = suc db.fresh })
  Idle-new_job j db e h = record {
    untried = h.untried;
    stays = λ k. rw (find_job-append i db.jobs j) (elim (Option-cases (find_job i db.jobs)) [
      | inl gone ↦ rw (gone, ne→false j.id i (λ same. omega (arith, same, e, h.used))) (λ t. cc)
      | inr (r, there) ↦ rw there (rw there at (h.stays k))
    ]);
    used = omega (arith, h.used);
  }

  pub Idles-create_job :
      (t : Text) (payload : Fields) (p : ℤ) (target : Text) (by : Option Text) (now : ℕ) (db : Db)
      → Idle i db
      → Idles i (create_job t payload p target by now db)
  unfolding create_job
  Idles-create_job t payload p target by now db h = Idles-gets i _ _ _ (
      Idles-gets i _ _ _ (
        Idles-then i _ _ (Idles-insert_event i _ _ _ _ _ _ (Idle-new_job _ db refl h))
          λ _ db' h'. Idles-get_job i db.fresh db' h'))

  pub cancel_row-id : (s : JobStatus) (now : ℕ) (j : Job) → (cancel_row s now j).id ≡ j.id
  unfolding cancel_row
  cancel_row-id queued now j = refl
  cancel_row-id _ now j = refl

  -- What a cancel writes: nothing to a job that is canceled.
  Idles-cancel_other :
      (k now : ℕ) (db : Db) (row : Job)
      → find_job k db.jobs ≡ some row
      → is_open row.status ≡ true
      → Idle i db
      → k ≢ i
  Idles-cancel_other k now db row found opened h same =
      let is_canceled = h.stays row (rw same at found) in
      let closed = rw is_canceled at opened in cc

  pub Idles-cancel_job : (k now : ℕ) (db : Db) → Idle i db → Idles i (cancel_job k now db)
  unfolding cancel_job get_job_row and_then demand
  Idles-cancel_job k now db h = elim (Option-cases (find_job k db.jobs)) [
    | inl gone ↦ rw gone (Idles-err i _)
    | inr (row, found) ↦ rw found (
        Idles-when i _ _ _ db
          (λ opened.
            let other = Idles-cancel_other k now db row found opened h in
            let changed =
              Idle-update_job i db k (cancel_row row.status now) (cancel_row-id row.status now)
                other h in
            Idles-then i _ _ (Idles-insert_event i _ _ _ _ _ _ changed)
              λ _ db2 h2. Idles-get_job i k db2 h2)
          (Idles-get_job i k db h))
  ]

  prune_chunk-Idle :
      (c : List ℕ) (stats : PruneStats) (db : Db) → Idle i db → Idle i (prune_chunk c stats db).1
  unfolding prune_chunk
  prune_chunk-Idle c stats db h = record {
    untried = rw (count_attempts-delete i c db.attempts, h.untried) (ground arith);
    stays = λ j.
        rw (find_job-delete i c db.jobs)
          (elim (Bool-cases (member i c)) [ inl e ↦ rw e (λ t. cc) | inr e ↦ rw e (h.stays j) ]);
    used = h.used;
  }

  prune_chunks-Idle :
      (cs : List (List ℕ)) (stats : PruneStats) (db : Db)
      → Idle i db
      → Idle i (prune_chunks cs stats db).1
  unfolding prune_chunks
  prune_chunks-Idle [] stats db h = h
  prune_chunks-Idle (c ∷ cs) stats db h =
      prune_chunks-Idle cs (prune_chunk c stats db).0 (prune_chunk c stats db).1
        (prune_chunk-Idle c stats db h)

  pub Idles-prune_history : (cutoff : ℕ) (db : Db) → Idle i db → Idles i (prune_history cutoff db)
  unfolding prune_history
  Idles-prune_history cutoff db h =
      Idles-ok (prune_chunks-Idle (chunks 500 (old_job_ids cutoff db.jobs)) _ db h)

  pub Idles-lead :
      (holder : Text) (seconds : ℕ) (name : Text) (now : ℕ) (db : Db)
      → Idle i db
      → Idles i (try_acquire_leader_lease holder seconds name now db)
  unfolding try_acquire_leader_lease
  Idles-lead holder seconds name now db h =
      elim (Bool-cases (may_lead (lookup name db.controller_leases) holder now)) [
        | inl t ↦ rw t (Idles-ok (Idle-frame i db _ refl refl (omega arith) h))
        | inr f ↦ rw f (Idles-ok h)
      ]
