-- ===== src/Orchestration/Bounded/Claims.antt =====
-- A claim keeps the invariant, never meets the constraint on attempt numbers, and takes exactly the
-- first matching rows of the queue.
use llama_pack.Prelude.{
  ℕ, zero, suc, ◌+◌, ◌-◌, ◌<◌, Bool, false, ◌≡◌, refl, ◌∙◌, ap, subst, none, some, List, [], ◌∷◌,
  ◌++◌, arith, All, filter, length, take, nat_eq, nat_eq_iff, Bool-cases, inl, inr, leb,
  length-append,
}
use mathlib.Core.List.{append-nil, append_assoc}
use llama_pack.Prelude.Text.{codes}
use llama_pack.Orchestration.Rows.{
  Job, assigned, Attempt, AttemptStatus, Event, Db, find_job, update_job, count_attempts,
  has_attempt_number,
}
use llama_pack.Orchestration.Tx.{Result, ok, and_then, demand}
use llama_pack.Orchestration.Laws.{
  find_job-update, count_attempts-append, has_attempt_number-append,
}
use llama_pack.Orchestration.Matching.{job_matches_node}
use llama_pack.Orchestration.Repo.{
  with_status, no_change, add_attempt, set_job_status, insert_event, job_row_to_dict,
}
use llama_pack.Orchestration.Lifecycle.{
  Asker, Claim, assigned_json, claim_row, claim_rows, claim_jobs, queued_rows, renew_node_lease,
}
use llama_pack.Orchestration.Bounded.{Inv, Inv-frame, Inv-update_job, Distinct}
use llama_pack.Orchestration.Bounded.Queue.{
  IsQueued, head_differs, tail_none, queued_rows-IsQueued, Distinct-queued_rows,
}

-- What a claim of one row writes: the attempt, then the status of the job, and the event.
abbrev taken : Asker → Job → Db → List Job
taken q row db = update_job row.id (with_status assigned q.now no_change) db.jobs

-- What is known of the claim of a row.
pub record Took (m : ℕ) (q : Asker) (row : Job) (db : Db) (r : Result (Claim × Db)) : Type 0 where
  claim : Claim
  db' : Db
  returned : r ≡ ok (claim, db')
  same_job : claim.job.row.id ≡ row.id
  jobs' : db'.jobs ≡ taken q row db
  inv : Inv m db'

add_attempt-within :
    (m : ℕ) (a : Attempt) (db : Db) {j : Job}
    → find_job a.job_id db.jobs ≡ some j
    → j.status ≡ assigned
    → count_attempts a.job_id db.attempts < m
    → a.attempt_number ≡ count_attempts a.job_id db.attempts + 1
    → Inv m db
    → Inv m (record db { attempts = db.attempts ++ a ∷ [] })
add_attempt-within m a db {j} found is room number h = record {
  within = λ k. rw count_attempts-append (elim (Bool-cases (nat_eq a.job_id k)) [
    | inl e ↦ rw (e, ← ((nat_eq_iff a.job_id k).0 e), found) (room, λ q. cc)
    | inr e ↦ rw e (h.within k)
  ]);
  distinct = h.distinct;
  unused = h.unused;
  numbered = λ k n t. ground (
    arith,
    t,
    number,
    count_attempts-append k db.attempts a,
    has_attempt_number-append k n db.attempts a,
    h.numbered k n,
  );
}

-- The number after the last is free.
number_free :
    (m : ℕ) (i : ℕ) (db : Db)
    → Inv m db
    → has_attempt_number i (count_attempts i db.attempts + 1) db.attempts ≡ false
number_free m i db h =
    elim (Bool-cases (has_attempt_number i (count_attempts i db.attempts + 1) db.attempts)) [
      | inl t ↦ absurd (omega (arith, h.numbered i (count_attempts i db.attempts + 1) t))
      | inr f ↦ f
    ]

-- What the claim of a row leaves.
abbrev attempt_of : Asker → Job → Db → Attempt
attempt_of q row db = record {
  id = db.fresh;
  job_id = row.id;
  attempt_number = count_attempts row.id db.attempts + 1;
  node_name = q.node_name;
  lease_expires_at = q.lease_exp;
  started_at = q.now;
  ended_at = none;
  status = AttemptStatus.assigned;
  failure_reason = none;
}

abbrev event_of : Asker → Job → Db → Event
event_of q row db = record {
  id = suc db.fresh;
  job_id = row.id;
  attempt_id = some db.fresh;
  event_type = codes "job_assigned";
  event_json = assigned_json q;
  created_at = q.now;
}

claimed-Inv :
    (m : ℕ) (q : Asker) (row : Job) (db : Db)
    → IsQueued db.jobs row
    → Inv m db
    → Inv m
        (record db { jobs = taken q row db; attempts = db.attempts ++ attempt_of q row db ∷ [] })
claimed-Inv m q row db (found, waiting) h =
    let room : count_attempts row.id db.attempts < m = (rw found at (h.within row.id)).1 waiting in
    let there : find_job row.id (taken q row db) ≡ some (with_status assigned q.now no_change row) =
      ground (
        arith,
        found,
        find_job-update row.id (with_status assigned q.now no_change) db.jobs row.id (λ j. refl),
      ) in
    add_attempt-within m (attempt_of q row db) (record db { jobs = taken q row db }) there refl room
      refl
      (Inv-update_job m db row.id (with_status assigned q.now no_change) (λ j. refl) (λ x _ t. cc)
        h)

-- From a table where the row waits, the claim of it returns.
claim_row-Took :
    (m : ℕ) (q : Asker) (row : Job) (db : Db)
    → IsQueued db.jobs row
    → Inv m db
    → Took m q row db (claim_row q row db)
unfolding claim_row add_attempt set_job_status insert_event and_then demand
claim_row-Took m q row db w h = record {
  claim = record {
    job = job_row_to_dict (with_status assigned q.now no_change row) [];
    attempt_id = db.fresh;
    lease_expires_at = q.lease_exp;
  };
  db' = record db {
    jobs = taken q row db;
    attempts = db.attempts ++ attempt_of q row db ∷ [];
    fresh = suc (suc db.fresh);
    events = db.events ++ event_of q row db ∷ [];
  };
  returned = rw (number_free m row.id db h, w.0);
  same_job = refl;
  jobs' = refl;
  inv = Inv-frame m _ _ refl refl (omega arith) (claimed-Inv m q row db w h);
}

IsQueued-taken :
    (q : Asker) (row r : Job) (db : Db)
    → nat_eq r.id row.id ≡ false
    → IsQueued db.jobs r
    → IsQueued (taken q row db) r
IsQueued-taken q row r db e (found, waiting) = (
  ground (
    arith,
    found,
    e,
    find_job-update row.id (with_status assigned q.now no_change) db.jobs r.id (λ j. refl),
  ),
  waiting,
)

All-taken :
    (q : Asker) (row : Job) (rows : List Job) (db : Db)
    → find_job row.id rows ≡ none
    → All (IsQueued db.jobs) rows
    → All (IsQueued (taken q row db)) rows
All-taken q row [] db h ps = tt
All-taken q row (r ∷ rows) db h ps = (
  IsQueued-taken q row r db (head_differs r row.id rows h) ps.0,
  All-taken q row rows db (tail_none r row.id rows h) ps.1,
)

abbrev pub matches : Asker → Job → Bool
matches q row = job_matches_node row q.node_name q.capacity q.labels

abbrev pub claimed_ids : List Claim → List ℕ
claimed_ids [] = []
claimed_ids (c ∷ cs) = c.job.row.id ∷ claimed_ids cs

abbrev pub row_ids : List Job → List ℕ
row_ids [] = []
row_ids (j ∷ js) = j.id ∷ row_ids js

claimed_ids-append :
    (cs : List Claim) (c : Claim) → claimed_ids (cs ++ c ∷ []) ≡ claimed_ids cs ++ c.job.row.id ∷ []
claimed_ids-append [] c = refl
claimed_ids-append (x ∷ cs) c = ap (λ t. x.job.row.id ∷ t) (claimed_ids-append cs c)

-- A claim that returned: what it took, and the invariant of what it wrote.
pub record Claimed (m : ℕ) (ids : List ℕ) (r : Result (List Claim × Db)) : Type 0 where
  pub claims : List Claim
  pub db' : Db
  pub returned : r ≡ ok (claims, db')
  pub taken_ids : claimed_ids claims ≡ ids
  pub inv : Inv m db'

take_nil : (k : ℕ) → take {A = Job} k [] ≡ []
take_nil zero = refl
take_nil (suc k) = refl

no_more : (k : ℕ) (js : List Job) → k ≡ 0 → row_ids (take k js) ≡ []
no_more k js e = rw e

one_more :
    (k l : ℕ) (j : Job) (js : List Job)
    → k ≡ suc l
    → row_ids (take k (j ∷ js)) ≡ j.id ∷ row_ids (take l js)
one_more k l j js e = rw e

room_for :
    (n : ℕ) (claimed : List Claim) (c : Claim)
    → leb n (length claimed) ≡ false
    → n - length claimed ≡ suc (n - length (claimed ++ c ∷ []))
room_for n claimed c h = ground (arith, h, length-append claimed (c ∷ []))

claim_rows-Claimed :
    (m : ℕ) (q : Asker) (n : ℕ) (claimed : List Claim) (rows : List Job) (db : Db)
    → Distinct rows
    → All (IsQueued db.jobs) rows
    → Inv m db
    → Claimed m
        (claimed_ids claimed ++ row_ids (take (n - length claimed) (filter (matches q) rows)))
        (claim_rows q n claimed rows db)
unfolding claim_rows and_then
claim_rows-Claimed m q n claimed [] db d ps h = record {
  claims = claimed;
  db' = db;
  returned = refl;
  taken_ids = rw (take_nil, append-nil);
  inv = h;
}
claim_rows-Claimed m q n claimed (row ∷ rows) db d ps h =
    elim (Bool-cases (leb n (length claimed))) [
      | inl full ↦ record {
        claims = claimed;
        db' = db;
        returned = rw (full, claim_rows);
        taken_ids = rw (no_more (n - length claimed) _ (ground (arith, full)), append-nil);
        inv = h;
      }
      | inr open' ↦ elim (Bool-cases (matches q row)) [
        | inr skip ↦
            let rest = claim_rows-Claimed m q n claimed rows db d.1 ps.1 h in
            record {
              claims = rest.claims;
              db' = rest.db';
              returned = rw (open', skip, claim_rows) rest.returned;
              taken_ids = rw skip rest.taken_ids;
              inv = rest.inv;
            }
        | inl fits ↦
            let took = claim_row-Took m q row db ps.0 h in
            let rest =
              claim_rows-Claimed m q n (claimed ++ took.claim ∷ []) rows took.db' d.1
                (rw took.jobs' (All-taken q row rows db d.0 ps.1)) took.inv in
            record {
              claims = rest.claims;
              db' = rest.db';
              returned = rw (open', fits, took.returned, claim_rows, and_then) rest.returned;
              taken_ids =
                  rest.taken_ids
                  ∙ rw (claimed_ids-append, took.same_job, append_assoc, fits)
                      (rw (
                        one_more (n - length claimed) _ row _
                          (room_for n claimed took.claim open')));
              inv = rest.inv;
            }
      ]
    ]

claim_rows-from_none :
    (m : ℕ) (q : Asker) (n : ℕ) (rows : List Job) (db : Db)
    → Distinct rows
    → All (IsQueued db.jobs) rows
    → Inv m db
    → Claimed m (row_ids (take n (filter (matches q) rows))) (claim_rows q n [] rows db)
claim_rows-from_none m q n rows db d ps h =
    let all : n - 0 ≡ n = omega arith in
    subst (λ k. Claimed m (row_ids (take k (filter (matches q) rows))) (claim_rows q n [] rows db))
      all (claim_rows-Claimed m q n [] rows db d ps h)

-- From tables that satisfy the invariant a claim always returns, keeps the invariant, and takes
-- exactly the first `n` matching rows of the queue, in claim order.
pub claim_jobs-takes_first :
    (m : ℕ) (q : Asker) (n : ℕ) (db : Db)
    → Inv m db
    → Claimed m (row_ids (take n (filter (matches q) (queued_rows db.jobs)))) (claim_jobs q n db)
unfolding claim_jobs renew_node_lease and_then
claim_jobs-takes_first m q n db h =
    claim_rows-from_none m q n (queued_rows db.jobs) _ (Distinct-queued_rows db.jobs h.distinct)
      (queued_rows-IsQueued db.jobs h.distinct) (Inv-frame m db _ refl refl (omega arith) h)
