-- ===== src/Orchestration/Runs.antt =====
-- Any sequence of calls of llama_pack/core/orchestration/orchestrator.py, in any order and with any
-- arguments: nodes may report on attempts that are long over.
use llama_pack.Prelude.{
  ℕ, suc, ◌++◌, ◌+◌, ◌*◌, ◌-◌, ◌≤◌, ◌<◌, ◌≡◌, none, some, Option, List, [], ◌∷◌, arith, Bool-cases,
  take, filter, inl, inr, refl, text_has_eq, if◌then◌else◌, nat_eq,
}
use llama_pack.Prelude.Dict.{lookup}
use llama_pack.Prelude.Int.{ℤ}
use llama_pack.Prelude.Json.{Value, Fields}
use llama_pack.Prelude.Text.{Text}
use llama_pack.Orchestration.Rows.{
  Job, queued, Db, empty_db, find_job, count_attempts, has_attempt_number,
}
use llama_pack.Orchestration.Tx.{Result, ok, err, settled, after}
use llama_pack.Orchestration.Repo.{create_job, cancel_job}
use llama_pack.Orchestration.Lifecycle.{
  Asker, queued_rows, ArtifactReport, Failure, claim_jobs, attempt_progress, complete_attempt,
  fail_attempt, sweep_expired_attempts,
}
use llama_pack.Orchestration.Retention.{prune_history}
use llama_pack.Orchestration.Leader.{may_lead, try_acquire_leader_lease}
use llama_pack.Orchestration.Laws.{find_job-append}
use llama_pack.Orchestration.Bounded.{
  Inv, Inv-frame, Distinct, Within, Kept, Kept-ok, Kept-event, Kept-gets, Kept-get_job,
}
use llama_pack.Orchestration.Bounded.Reports.{
  Kept-attempt_progress, Kept-complete_attempt, Kept-fail_attempt, Kept-sweep_expired_attempts,
  Kept-cancel_job,
}
use llama_pack.Orchestration.Bounded.Claims.{Claimed, claim_jobs-takes_first, matches, row_ids}
use llama_pack.Orchestration.Bounded.Pruning.{Kept-prune_history}

-- Orchestrator.__init__: the settings that its methods pass on.
pub record Orchestrator : Type 0 where
  pub lease_timeout_seconds : ℕ
  pub max_attempts : ℕ
  pub retention_days : ℕ
  pub controller_instance_id : Text
  pub leader_lease_seconds : ℕ

-- Microseconds.
abbrev pub day : ℕ
day = 86_400_000_000

abbrev pub second : ℕ
second = 1_000_000

-- A call of a method at a time; `sweep` is the second half of `sweep_expired_leases` too.
pub data Call : Type 0 where
  create : Text → Fields → ℤ → Text → Option Text → Call
  cancel : ℕ → Call
  claim : Text → ℕ → Option Fields → Option Fields → Call
  progress : Text → ℕ → Value → Call
  complete : Text → ℕ → Value → List ArtifactReport → Call
  fail : Text → ℕ → Failure → Call
  sweep : Call
  lead : Text → Call

-- `sweep_expired_leases`: two transactions, the second made whatever the first found.
unfoldable pub sweep_expired_leases : Orchestrator → ℕ → Db → Db
sweep_expired_leases o now db =
    after (prune_history (now - o.retention_days * day))
      (after (sweep_expired_attempts o.max_attempts now) db)

-- The tables after a call.
unfoldable pub call : Orchestrator → ℕ → Call → Db → Db
call o now (create t payload priority target by) =
    after (create_job t payload priority target by now)
call o now (cancel j) = after (cancel_job j now)
call o now (claim node n capacity labels) = after (
    claim_jobs
      (record {
        node_name = node;
        capacity = capacity;
        labels = labels;
        now = now;
        lease_exp = now + o.lease_timeout_seconds * second;
      })
      n)
call o now (progress node i v) =
    after (attempt_progress node i v (o.lease_timeout_seconds * second) now)
call o now (complete node i v reports) = after (complete_attempt node i v reports now)
call o now (fail node i f) = after (fail_attempt node i f o.max_attempts now)
call o now sweep = sweep_expired_leases o now
call o now (lead name) =
    after
      (try_acquire_leader_lease o.controller_instance_id (o.leader_lease_seconds * second) name now)

-- Calls at the times given.
unfoldable pub run : Orchestrator → List (ℕ × Call) → Db → Db
run o [] db = db
run o ((now, c) ∷ rest) db = run o rest (call o now c db)

Inv-settled {ℓ} :
    {A : Type ℓ} (m : ℕ) (r : Result (A × Db)) (db : Db)
    → Inv m db
    → Kept m r
    → Inv m (settled r db)
unfolding settled
Inv-settled m (ok (a, db')) db h k = k.at
Inv-settled m (err e) db h k = h

Kept-claim_jobs : (m : ℕ) (q : Asker) (n : ℕ) (db : Db) → Inv m db → Kept m (claim_jobs q n db)
Kept-claim_jobs m q n db h =
    let c = claim_jobs-takes_first m q n db h in rw c.returned (Kept-ok c.inv)

Distinct-append :
    (js : List Job) (j : Job) → find_job j.id js ≡ none → Distinct js → Distinct (js ++ j ∷ [])
unfolding find_job
Distinct-append [] j h d = (refl, tt)
Distinct-append (k ∷ ks) j h d = (
  ground (arith, h, d.0, find_job-append k.id ks j),
  Distinct-append ks j (ground (arith, h)) d.1,
)

-- A new row under the next id, in the queue and with no attempt.
Inv-new_job :
    (m : ℕ) (j : Job) (db : Db)
    → j.id ≡ db.fresh
    → 0 < m
    → Inv m db
    → Inv m (record db { jobs = db.jobs ++ j ∷ []; fresh = suc db.fresh })
Inv-new_job m j db e pos h = record {
  within = λ i. rw (find_job-append i db.jobs j) (within_at i (find_job i db.jobs) refl);
  distinct = Distinct-append db.jobs j (h.unused j.id (omega (arith, e))) h.distinct;
  unused = λ i le. ground (arith, e, le, find_job-append i db.jobs j, h.unused i (omega arith));
  numbered = h.numbered;
}
  where
    none_there : (i : ℕ) → find_job i db.jobs ≡ none → count_attempts i db.attempts ≡ 0
    none_there i q = rw q at (h.within i)

    within_at :
        (i : ℕ) (o : Option Job)
        → find_job i db.jobs ≡ o
        → Within m
            (elim o [ some r ↦ some r | none ↦ if nat_eq j.id i then some j else none ])
            (count_attempts i db.attempts)
    within_at i none q = elim (Bool-cases (nat_eq j.id i)) [
      | inl t ↦ rw (t, none_there i q) (omega arith, λ _. pos)
      | inr f ↦ rw f (none_there i q)
    ]
    within_at i (some r) q = rw q at (h.within i)

Kept-create_job :
    (m : ℕ) (t : Text) (payload : Fields) (p : ℤ) (target : Text) (by : Option Text) (now : ℕ)
    (db : Db)
    → 0 < m
    → Inv m db
    → Kept m (create_job t payload p target by now db)
unfolding create_job
Kept-create_job m t payload p target by now db pos h = Kept-gets m _ _ _ (
    Kept-gets m _ _ _ (
      Kept-event m _ _ _ _ _ _ _ (Inv-new_job m _ db refl pos h)
        λ db' _ h'. Kept-get_job m db.fresh db' h'))

Kept-lead :
    (m : ℕ) (holder : Text) (seconds : ℕ) (name : Text) (now : ℕ) (db : Db)
    → Inv m db
    → Kept m (try_acquire_leader_lease holder seconds name now db)
unfolding try_acquire_leader_lease
Kept-lead m holder seconds name now db h =
    elim (Bool-cases (may_lead (lookup name db.controller_leases) holder now)) [
      | inl t ↦ rw t (Kept-ok (Inv-frame m db _ refl refl (omega arith) h))
      | inr f ↦ rw f (Kept-ok h)
    ]

pub call-Inv :
    (o : Orchestrator) (now : ℕ) (c : Call) (db : Db)
    → 0 < o.max_attempts
    → Inv o.max_attempts db
    → Inv o.max_attempts (call o now c db)
unfolding call sweep_expired_leases
call-Inv o now (create t payload p target by) db pos h =
    Inv-settled _ _ db h (Kept-create_job _ t payload p target by now db pos h)
call-Inv o now (cancel j) db pos h = Inv-settled _ _ db h (Kept-cancel_job _ j now db h)
call-Inv o now (claim node n capacity labels) db pos h =
    Inv-settled _ _ db h (Kept-claim_jobs _ _ n db h)
call-Inv o now (progress node i v) db pos h =
    Inv-settled _ _ db h (Kept-attempt_progress _ node i v _ now db h)
call-Inv o now (complete node i v reports) db pos h =
    Inv-settled _ _ db h (Kept-complete_attempt _ node i v reports now db h)
call-Inv o now (fail node i f) db pos h =
    Inv-settled _ _ db h (Kept-fail_attempt _ node i f now db h)
call-Inv o now sweep db pos h =
    let swept =
      Inv-settled o.max_attempts (sweep_expired_attempts o.max_attempts now db) db h
        (Kept-sweep_expired_attempts _ now db h) in
    Inv-settled _ _ _ swept (Kept-prune_history _ _ _ swept)
call-Inv o now (lead name) db pos h = Inv-settled _ _ db h (Kept-lead _ _ _ name now db h)

pub run-Inv :
    (o : Orchestrator) (calls : List (ℕ × Call)) (db : Db)
    → 0 < o.max_attempts
    → Inv o.max_attempts db
    → Inv o.max_attempts (run o calls db)
unfolding run
run-Inv o [] db pos h = h
run-Inv o ((now, c) ∷ rest) db pos h =
    run-Inv o rest (call o now c db) pos (call-Inv o now c db pos h)

pub empty-Inv : (m : ℕ) → Inv m empty_db
unfolding find_job count_attempts has_attempt_number
empty-Inv m = record {
  within = λ i. refl;
  distinct = tt;
  unused = λ i _. refl;
  numbered = λ i n t. cc;
}

at_most : (m : ℕ) (r : Option Job) (c : ℕ) → Within m r c → c ≤ m
at_most m none c w = omega arith
at_most m (some j) c w = w.0

-- If at least one attempt is allowed, then whatever calls are made from the empty tables on, at
-- whatever times and in whatever order, no job has more attempts than the orchestrator allows.
pub run-attempts_bounded :
    (o : Orchestrator) (calls : List (ℕ × Call)) (i : ℕ)
    → 0 < o.max_attempts
    → count_attempts i (run o calls empty_db).attempts ≤ o.max_attempts
run-attempts_bounded o calls i pos =
    let h = run-Inv o calls empty_db pos (empty-Inv o.max_attempts) in at_most _ _ _ (h.within i)

-- If at least one attempt is allowed, a job that is queued after any calls from the empty tables on
-- has fewer attempts than the orchestrator allows: one is left for the node that claims it.
pub run-queued_has_left :
    (o : Orchestrator) (calls : List (ℕ × Call)) (i : ℕ) (j : Job)
    → 0 < o.max_attempts
    → find_job i (run o calls empty_db).jobs ≡ some j
    → j.status ≡ queued
    → count_attempts i (run o calls empty_db).attempts < o.max_attempts
run-queued_has_left o calls i j pos e q =
    let h = run-Inv o calls empty_db pos (empty-Inv o.max_attempts) in (rw e at (h.within i)).1 q

-- If at least one attempt is allowed, a claim after any calls from the empty tables on returns: the
-- numbers of its attempts are never taken. It returns the first `n` of the queued jobs that match
-- the node, by descending priority and then by age, and no others.
pub run-claim_takes_first :
    (o : Orchestrator) (calls : List (ℕ × Call)) (q : Asker) (n : ℕ)
    → 0 < o.max_attempts
    → Claimed o.max_attempts
        (row_ids (take n (filter (matches q) (queued_rows (run o calls empty_db).jobs))))
        (claim_jobs q n (run o calls empty_db))
run-claim_takes_first o calls q n pos =
    claim_jobs-takes_first o.max_attempts q n (run o calls empty_db)
      (run-Inv o calls empty_db pos (empty-Inv o.max_attempts))
