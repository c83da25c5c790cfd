-- ===== src/Orchestration/Sweeping/Whole.antt =====
-- What the sweep of expired leases, sweep_expired_attempts of
-- llama_pack/core/orchestration/lifecycle.py, leaves of the jobs.
use llama_pack.Prelude.{
  ℕ, suc, ◌+◌, ◌<◌, Bool, true, false, ◌≡◌, ◌≢◌, refl, sym, ◌∙◌, subst, some, List, [], ◌∷◌, arith,
  All, nat_eq, nat_eq_iff, ◌⊎◌, ltb, length, Bool-cases, Option-cases, inl, inr, filter, ◌&&◌,
}
use llama_pack.Orchestration.Rows.{Attempt, Db, empty_db, find_job, find_attempt, count_attempts}
use llama_pack.Orchestration.Tx.{Result, ok, err, and_then}
use llama_pack.Orchestration.Lifecycle.{
  is_live, expired_rows, SweepStats, count_swept, sweep_attempt, sweep_rows, sweep_expired_attempts,
}
use llama_pack.Orchestration.Bounded.{Inv}
use llama_pack.Orchestration.Runs.{Orchestrator, Call, run, run-Inv, empty-Inv}
use llama_pack.Orchestration.Sweeping.{
  HasStatus, verdict, Present, self_eq, Swept, sweep_attempt-Swept, same_counts, untouched, touched,
  lasting, Present-after,
}

-- What a sweep of some attempts leaves: it returns and counts them all, each has settled its job by
-- the number of its attempts, and other jobs are as they were.
record Settles (m : ℕ) (stats : SweepStats) (rows : List Attempt) (db : Db)
    (r : Result (SweepStats × Db)) : Type 0 where
  stats' : SweepStats
  db' : Db
  returned : r ≡ ok (stats', db')
  counted : stats'.expired ≡ stats.expired + length rows
  counts : (k : ℕ) → count_attempts k db'.attempts ≡ count_attempts k db.attempts
  settles : All (λ a. HasStatus (verdict m (count_attempts a.job_id db.attempts)) a.job_id db') rows
  lasts :
      (k : ℕ)
      → HasStatus (verdict m (count_attempts k db.attempts)) k db
      → HasStatus (verdict m (count_attempts k db.attempts)) k db'
  spares : (k : ℕ) → All (λ a. a.job_id ≢ k) rows → find_job k db'.jobs ≡ find_job k db.jobs

count_swept-expired :
    (again : Bool) (stats : SweepStats) → (count_swept again stats).expired ≡ suc stats.expired
count_swept-expired true stats = refl
count_swept-expired false stats = refl

All-Present :
    (db db' : Db) (rows : List Attempt)
    → ((b : Attempt) → Present db b → Present db' b)
    → All (Present db) rows
    → All (Present db') rows
All-Present db db' [] f ps = tt
All-Present db db' (a ∷ rows) f ps = (f a ps.0, All-Present db db' rows f ps.1)

All-recounted :
    (m : ℕ) (db db' out : Db) (rows : List Attempt)
    → ((k : ℕ) → count_attempts k db'.attempts ≡ count_attempts k db.attempts)
    → All (λ a. HasStatus (verdict m (count_attempts a.job_id db'.attempts)) a.job_id out) rows
    → All (λ a. HasStatus (verdict m (count_attempts a.job_id db.attempts)) a.job_id out) rows
All-recounted m db db' out [] same ps = tt
All-recounted m db db' out (a ∷ rows) same ps = (
  subst (λ n. HasStatus (verdict m n) a.job_id out) (same a.job_id) ps.0,
  All-recounted m db db' out rows same ps.1,
)

-- The sweep of one attempt, and then of the others.
Settles-cons :
    (m now : ℕ) (stats : SweepStats) (a : Attempt) (rows : List Attempt) (db : Db)
    (r : Result (Bool × Db))
    → Swept m now a db r
    → Present db a
    → All (Present db) rows
    → ((again : Bool) (db' : Db)
        → All (Present db') rows
        → Settles m
            (count_swept again stats)
            rows
            db'
            (sweep_rows m now (count_swept again stats) rows db'))
    → Settles m stats
        (a ∷ rows)
        db
        (and_then r (λ again db'. sweep_rows m now (count_swept again stats) rows db'))
unfolding and_then
Settles-cons m now stats a rows db (err e) s p ps k = absurd s
Settles-cons m now stats a rows db (ok (again, db')) (change, attempts', jobs') (mine, (job, known))
      ps k =
    let same = same_counts m now a change db db' attempts' jobs' in
    let rest =
      k again db'
        (All-Present db db' rows (Present-after m now a change db db' attempts' jobs') ps) in
    let there = touched m now a change db db' attempts' jobs' job known in
    record {
      stats' = rest.stats';
      db' = rest.db';
      returned = rest.returned;
      counted = omega (arith, rest.counted, count_swept-expired again stats);
      counts = λ k. rest.counts k ∙ same k;
      settles = (
        subst (λ n. HasStatus (verdict m n) a.job_id rest.db') (same a.job_id)
            (rest.lasts a.job_id
              (subst (λ n. HasStatus (verdict m n) a.job_id db') (sym (same a.job_id)) there)),
        All-recounted m db db' rest.db' rows same rest.settles,
      );
      lasts = λ k h.
          subst (λ n. HasStatus (verdict m n) k rest.db') (same k)
            (rest.lasts k (
              subst (λ n. HasStatus (verdict m n) k db') (sym (same k))
                (lasting m now a change db db' attempts' jobs' k h)));
      spares = λ k h. rest.spares k h.1 ∙ untouched m now a change db db' attempts' jobs' k h.0;
    }

sweep_rows-Settles :
    (m now : ℕ) (stats : SweepStats) (rows : List Attempt) (db : Db)
    → All (Present db) rows
    → Settles m stats rows db (sweep_rows m now stats rows db)
unfolding sweep_rows
sweep_rows-Settles m now stats [] db ps = record {
  stats' = stats;
  db' = db;
  returned = refl;
  counted = omega arith;
  counts = λ k. refl;
  settles = tt;
  lasts = λ k h. h;
  spares = λ k h. refl;
}
sweep_rows-Settles m now stats (a ∷ rows) db ps =
    Settles-cons m now stats a rows db (sweep_attempt m now a db)
      (sweep_attempt-Swept m now a db ps.0) ps.0 ps.1
      λ again db' ps'. sweep_rows-Settles m now (count_swept again stats) rows db' ps'

-- An attempt of a list is found in it, and counted for its job.
abbrev Listed : List Attempt → Attempt → Type 0
Listed as' a =
    ((row : Attempt) × (find_attempt a.id as' ≡ some row)) × (0 < count_attempts a.job_id as')

Listed-head : (a : Attempt) (as' : List Attempt) → Listed (a ∷ as') a
unfolding find_attempt count_attempts
Listed-head a as' =
    ((a, rw (find_attempt, self_eq a.id) refl), rw (count_attempts, self_eq a.job_id) (omega arith))

Listed-tail : (x : Attempt) (as' : List Attempt) (a : Attempt) → Listed as' a → Listed (x ∷ as') a
unfolding find_attempt count_attempts
Listed-tail x as' a ((row, h), n) = (
  elim (Bool-cases (nat_eq x.id a.id)) [
    | inl e ↦ rw (find_attempt, e) (x, refl)
    | inr e ↦ rw (find_attempt, e) (row, h)
  ],
  ground (arith, n),
)

All-weaken :
    {P Q : Attempt → Type 0} (f : (a : Attempt) → P a → Q a) (as' : List Attempt)
    → All P as'
    → All Q as'
All-weaken f [] ps = tt
All-weaken f (a ∷ as') ps = (f a ps.0, All-weaken f as' ps.1)

All-Listed : (as' : List Attempt) → All (Listed as') as'
All-Listed [] = tt
All-Listed (a ∷ as') = (Listed-head a as', All-weaken (Listed-tail a as') as' (All-Listed as'))

All-kept :
    (P : Attempt → Type 0) (p : Attempt → Bool) (as' : List Attempt)
    → All P as'
    → All P (filter p as')
All-kept P p [] ps = tt
All-kept P p (a ∷ as') ps = elim (Bool-cases (p a)) [
  | inl e ↦ rw e (ps.0, All-kept P p as' ps.1)
  | inr e ↦ rw e (All-kept P p as' ps.1)
]

Listed-Present : (m : ℕ) (db : Db) (a : Attempt) → Inv m db → Listed db.attempts a → Present db a
Listed-Present m db a h (row, n) = (
  row,
  elim (Option-cases (find_job a.job_id db.jobs)) [
    | inl gone ↦ absurd (omega (arith, n, rw gone at (h.within a.job_id)))
    | inr there ↦ there
  ],
)

-- An attempt of the list is one of that job.
abbrev pub Touches : ℕ → List Attempt → Type 0
Touches i [] = ⊥
Touches i (a ∷ rows) = (a.job_id ≡ i) ⊎ Touches i rows

Touches-cases : (i : ℕ) (rows : List Attempt) → Touches i rows ⊎ All (λ a. a.job_id ≢ i) rows
Touches-cases i [] = inr tt
Touches-cases i (a ∷ rows) = elim (Bool-cases (nat_eq a.job_id i)) [
  | inl e ↦ inl (inl ((nat_eq_iff a.job_id i).0 e))
  | inr e ↦ elim (Touches-cases i rows) [
    | inl t ↦ inl (inr t)
    | inr others ↦ inr ((λ same. ground (arith, e, same)), others)
  ]
]

-- What a sweep of the expired attempts leaves of the tables: it returns, with as many attempts expired
-- as had run out, and no attempt is added or dropped; the job of each of them is queued if it has had
-- fewer than m attempts, else timed out; and a job without such an attempt is as it was.
pub record Settled (m now : ℕ) (db : Db) (r : Result (SweepStats × Db)) : Type 0 where
  stats : SweepStats
  db' : Db
  returned : r ≡ ok (stats, db')
  counted : stats.expired ≡ length (expired_rows now db.attempts)
  counts : (i : ℕ) → count_attempts i db'.attempts ≡ count_attempts i db.attempts
  settles :
      All
        (λ a. HasStatus (verdict m (count_attempts a.job_id db.attempts)) a.job_id db')
        (expired_rows now db.attempts)
  spares :
      (i : ℕ)
      → Touches i (expired_rows now db.attempts) ⊎ (find_job i db'.jobs ≡ find_job i db.jobs)

sweep_expired_attempts-Settled :
    (m now : ℕ) (db : Db) → Inv m db → Settled m now db (sweep_expired_attempts m now db)
unfolding sweep_expired_attempts expired_rows
sweep_expired_attempts-Settled m now db h =
    let rows = expired_rows now db.attempts in
    let present = All-weaken (λ a. Listed-Present m db a h) db.attempts (All-Listed db.attempts) in
    let s =
      sweep_rows-Settles m now (record { expired = 0; requeued = 0; timed_out = 0 }) rows db
        (All-kept _ (λ a. is_live a.status && ltb a.lease_expires_at now) db.attempts present) in
    record {
      stats = s.stats';
      db' = s.db';
      returned = s.returned;
      counted = omega (arith, s.counted);
      counts = s.counts;
      settles = s.settles;
      spares =
          λ i. elim (Touches-cases i rows) [ inl t ↦ inl t | inr others ↦ inr (s.spares i others) ];
    }

-- If at least one attempt is allowed, a sweep after any calls from the empty tables on returns: it has
-- counted the live attempts whose lease ran out, and no job has more or fewer attempts than before;
-- the job of each of these attempts is queued again if it has had fewer attempts than are allowed,
-- else timed out, whatever its status was, also where it was to be canceled; and a job that none of
-- them belongs to is as it was.
pub run-Settled :
    (o : Orchestrator) (calls : List (ℕ × Call)) (now : ℕ)
    → 0 < o.max_attempts
    → Settled o.max_attempts now
        (run o calls empty_db)
        (sweep_expired_attempts o.max_attempts now (run o calls empty_db))
run-Settled o calls now pos =
    sweep_expired_attempts-Settled o.max_attempts now (run o calls empty_db)
      (run-Inv o calls empty_db pos (empty-Inv o.max_attempts))
