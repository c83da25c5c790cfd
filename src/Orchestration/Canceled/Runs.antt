-- ===== src/Orchestration/Canceled/Runs.antt =====
-- Calls of llama_pack/core/orchestration/orchestrator.py after a job was canceled untried.
use llama_pack.Prelude.{
  none, Option, ℕ, ◌<◌, true, ◌≡◌, refl, ◌∙◌, text_has_eq, some, List, [], ◌∷◌, arith, leb, nat_eq,
  Bool-cases, inl, inr,
}
use llama_pack.Orchestration.Rows.{
  canceled, Job, queued, Db, empty_db, find_job, update_job, count_attempts,
}
use llama_pack.Orchestration.Tx.{Result, ok, err, and_then, demand, settled, after, when◌then◌else◌}
use llama_pack.Orchestration.Laws.{find_job-update}
use llama_pack.Orchestration.Repo.{cancel_job, cancel_row, get_job_row, insert_event, get_job}
use llama_pack.Orchestration.Lifecycle.{sweep_expired_attempts}
use llama_pack.Orchestration.Bounded.{Inv}
use llama_pack.Orchestration.Runs.{
  Orchestrator, Call, create, cancel, claim, progress, complete, fail, sweep, lead, call, run,
  sweep_expired_leases, call-Inv, run-Inv, empty-Inv,
}
use llama_pack.Orchestration.Canceled.{Idle, Idles}
use llama_pack.Orchestration.Canceled.Reports.{
  Idles-attempt_progress, Idles-complete_attempt, Idles-fail_attempt, Idles-sweep_expired_attempts,
}
use llama_pack.Orchestration.Canceled.Calls.{
  Idles-claim_jobs, Idles-create_job, Idles-cancel_job, Idles-prune_history, Idles-lead,
  cancel_row-id,
}

Idle-settled {ℓ} :
    {A : Type ℓ} (i : ℕ) (r : Result (A × Db)) (db : Db)
    → Idle i db
    → Idles i r
    → Idle i (settled r db)
unfolding settled
Idle-settled i (ok (a, db')) db h k = k.at
Idle-settled i (err e) db h k = h

call-Idle :
    (i : ℕ) (o : Orchestrator) (now : ℕ) (c : Call) (db : Db)
    → Inv o.max_attempts db
    → Idle i db
    → Idle i (call o now c db)
unfolding call sweep_expired_leases
call-Idle i o now (create t payload p target by) db v h =
    Idle-settled i _ db h (Idles-create_job i t payload p target by now db h)
call-Idle i o now (cancel j) db v h = Idle-settled i _ db h (Idles-cancel_job i j now db h)
call-Idle i o now (claim node n capacity labels) db v h =
    Idle-settled i _ db h (Idles-claim_jobs i _ _ n db v h)
call-Idle i o now (progress node k x) db v h =
    Idle-settled i _ db h (Idles-attempt_progress i node k x _ now db h)
call-Idle i o now (complete node k x reports) db v h =
    Idle-settled i _ db h (Idles-complete_attempt i node k x reports now db h)
call-Idle i o now (fail node k f) db v h =
    Idle-settled i _ db h (Idles-fail_attempt i node k f _ now db h)
call-Idle i o now sweep db v h =
    let swept =
      Idle-settled i (sweep_expired_attempts o.max_attempts now db) db h
        (Idles-sweep_expired_attempts i _ now db h) in
    Idle-settled i _ _ swept (Idles-prune_history i _ _ swept)
call-Idle i o now (lead name) db v h = Idle-settled i _ db h (Idles-lead i _ _ name now db h)

run-Idle :
    (i : ℕ) (o : Orchestrator) (calls : List (ℕ × Call)) (db : Db)
    → 0 < o.max_attempts
    → Inv o.max_attempts db
    → Idle i db
    → Idle i (run o calls db)
unfolding run
run-Idle i o [] db pos v h = h
run-Idle i o ((now, c) ∷ rest) db pos v h =
    run-Idle i o rest (call o now c db) pos (call-Inv o now c db pos v) (call-Idle i o now c db v h)

-- The request to cancel a job that waits and was never tried.
canceled-Idle :
    (i now : ℕ) (db : Db) (j : Job)
    → find_job i db.jobs ≡ some j
    → j.status ≡ queued
    → count_attempts i db.attempts ≡ 0
    → i < db.fresh
    → Idle i (after (cancel_job i now) db)
unfolding cancel_job get_job_row insert_event get_job cancel_row and_then demand when◌then◌else◌
    settled
canceled-Idle i now db j found waiting untried used =
    let self : nat_eq i i ≡ true = ground arith in
    let there : find_job i (update_job i (cancel_row queued now) db.jobs)
        ≡ some (cancel_row queued now j) =
      find_job-update i (cancel_row queued now) db.jobs i (cancel_row-id i queued now)
      ∙ rw (self, found) refl in
    rw (found, waiting, and_then, demand)
      (rw (there, settled)
        (record {
          untried = untried;
          stays = λ k e. ground (arith, there, e);
          used = omega (arith, used);
        }))

-- The row of a job, if it is still in the table, is canceled.
abbrev pub IsCanceled : Option Job → Type 0
IsCanceled none = Unit
IsCanceled (some j) = j.status ≡ canceled

Idle-IsCanceled :
    (i : ℕ) (db : Db) (o : Option Job) → find_job i db.jobs ≡ o → Idle i db → IsCanceled o
Idle-IsCanceled i db none e h = tt
Idle-IsCanceled i db (some j) e h = h.stays j e

-- If at least one attempt is allowed, and after any calls from the empty tables on a job waits that no
-- node was given yet, and it is canceled then, no later calls, whatever nodes ask for or report, give
-- it to a node: it has no attempts, and while it is in the table it is canceled.
pub run-IsCanceled :
    (o : Orchestrator) (before later : List (ℕ × Call)) (i now : ℕ) (j : Job)
    → 0 < o.max_attempts
    → find_job i (run o before empty_db).jobs ≡ some j
    → j.status ≡ queued
    → count_attempts i (run o before empty_db).attempts ≡ 0
    → (count_attempts i (run o later (call o now (cancel i) (run o before empty_db))).attempts ≡ 0)
      × IsCanceled (find_job i (run o later (call o now (cancel i) (run o before empty_db))).jobs)
unfolding call
run-IsCanceled o before later i now j pos found waiting untried =
    let db = run o before empty_db in
    let v = run-Inv o before empty_db pos (empty-Inv o.max_attempts) in
    let used : i < db.fresh = used_id db v found in
    let idle =
      run-Idle i o later (call o now (cancel i) db) pos (call-Inv o now (cancel i) db pos v)
        (canceled-Idle i now db j found waiting untried used) in
    (idle.untried, Idle-IsCanceled i (run o later (call o now (cancel i) db)) _ refl idle)
  where
    used_id : (db : Db) → Inv o.max_attempts db → find_job i db.jobs ≡ some j → i < db.fresh
    used_id db v h = elim (Bool-cases (leb db.fresh i)) [
      | inl le ↦ let gone = v.unused i (ground (arith, le)) in cc
      | inr le ↦ ground (arith, le)
    ]
