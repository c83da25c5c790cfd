-- ===== src/Orchestration/Bounded.antt =====
-- The invariant behind the retry limit of llama_pack/core/orchestration, and the small changes
-- that keep it.
pub mod Reports
pub mod Queue
pub mod Claims
pub mod Pruning
use llama_pack.Prelude.{
  ℕ, suc, ◌+◌, ◌≤◌, ◌<◌, Bool, true, false, ◌≡◌, refl, Option, none, some, List, [], ◌∷◌, ◌++◌,
  arith, nat_eq, if◌then◌else◌, Bool-cases, inl, inr, nat_eq_iff, subst, text_eq, Option-cases,
}
use llama_pack.Orchestration.Rows.{
  Job, JobStatus, queued, Attempt, AttemptStatus, Db, find_job, find_attempt, update_job,
  update_attempt, count_attempts, has_attempt_number,
}
use llama_pack.Orchestration.Tx.{Error, Result, ok, err, demand, when◌then◌else◌, Tx, and_then}
use llama_pack.Prelude.Text.{Text}
use llama_pack.Prelude.Json.{Value, Fields}
use llama_pack.Orchestration.Repo.{
  JobChange, get_owned_attempt, get_job_row, insert_event, insert_artifact, set_attempt_status,
  set_job_status, get_job,
}
use llama_pack.Orchestration.Laws.{
  Eq-cases, find_job-update, count_attempts-update, has_attempt_number-update,
}

-- A job has at most m attempts, and one that waits in the queue has fewer. What is not in the
-- table has none.
abbrev pub Within : ℕ → Option Job → ℕ → Type 0
Within m none c = c ≡ 0
Within m (some j) c = (c ≤ m) × (j.status ≡ queued → c < m)

-- Primary keys: no id stands twice.
abbrev pub Distinct : List Job → Type 0
Distinct [] = Unit
Distinct (j ∷ js) = (find_job j.id js ≡ none) × Distinct js

pub record Inv (m : ℕ) (db : Db) : Type 0 where
  pub within : (i : ℕ) → Within m (find_job i db.jobs) (count_attempts i db.attempts)
  pub distinct : Distinct db.jobs
  pub unused : (i : ℕ) → db.fresh ≤ i → find_job i db.jobs ≡ none
  pub numbered :
      (i n : ℕ) → has_attempt_number i n db.attempts ≡ true → n ≤ count_attempts i db.attempts

abbrev KeptAt {ℓ} : {A : Type ℓ} → ℕ → Result (A × Db) → Type 0
KeptAt m (ok (a, db)) = Inv m db
KeptAt m (err e) = Unit

-- What holds of a call: nothing where it raised, and the invariant of what it wrote.
pub record Kept {ℓ} {A : Type ℓ} (m : ℕ) (r : Result (A × Db)) : Type 0 where
  pub at : KeptAt m r

find_job-update_none :
    (i : ℕ) (f : Job → Job) (js : List Job) (k : ℕ)
    → ((j : Job) → (f j).id ≡ j.id)
    → find_job k js ≡ none
    → find_job k (update_job i f js) ≡ none
find_job-update_none i f js k keep h = ground (arith, find_job-update i f js k keep)

pub Distinct-update :
    (i : ℕ) (f : Job → Job) (js : List Job)
    → ((j : Job) → (f j).id ≡ j.id)
    → Distinct js
    → Distinct (update_job i f js)
unfolding update_job
Distinct-update i f [] keep d = d
Distinct-update i f (j ∷ js) keep d = elim (Bool-cases (nat_eq j.id i)) [
  | inl e ↦ rw (e, keep j) d
  | inr e ↦ rw e (find_job-update_none i f js j.id keep d.0, Distinct-update i f js keep d.1)
]

module _ (m : ℕ) where
  -- The other tables are free.
  pub Inv-frame :
      (db db' : Db)
      → db'.jobs ≡ db.jobs
      → db'.attempts ≡ db.attempts
      → db.fresh ≤ db'.fresh
      → Inv m db
      → Inv m db'
  Inv-frame db db' ej ea ef h = record {
    within = λ i. rw (ej, ea) (h.within i);
    distinct = rw ej h.distinct;
    unused = λ i le. rw ej (h.unused i (omega arith));
    numbered = λ i n. rw ea (h.numbered i n);
  }

  -- A change of a job that keeps its id, where a job that is put in the queue has attempts left.
  pub Inv-update_job :
      (db : Db) (i : ℕ) (f : Job → Job)
      → ((j : Job) → (f j).id ≡ j.id)
      → ((j : Job)
          → find_job i db.jobs ≡ some j
          → (f j).status ≡ queued
          → count_attempts i db.attempts < m)
      → Inv m db
      → Inv m (record db { jobs = update_job i f db.jobs })
  Inv-update_job db i f keep room h = record {
    within = λ k. within_at k (find_job k db.jobs) refl;
    distinct = Distinct-update i f db.jobs keep h.distinct;
    unused = λ k le. find_job-update_none i f db.jobs k keep (h.unused k le);
    numbered = h.numbered;
  }
    where
      within_at :
          (k : ℕ) (o : Option Job)
          → find_job k db.jobs ≡ o
          → Within m (find_job k (update_job i f db.jobs)) (count_attempts k db.attempts)
      within_at k none e = rw (find_job-update i f db.jobs k keep) (ground (arith, e, h.within k))
      within_at k (some j) e = rw (find_job-update i f db.jobs k keep) (elim (Eq-cases i k) [
        | inl p ↦
            rw ((nat_eq_iff i k).1 p, e)
              (
                (rw e at (h.within k)).0,
                λ q. subst (λ t. count_attempts t db.attempts < m) p (room j (rw p e) q),
              )
        | inr p ↦ rw (p, e) (rw e at (h.within k))
      ])

  pub Inv-update_attempt :
      (db : Db) (i : ℕ) (f : Attempt → Attempt)
      → ((a : Attempt) → (f a).job_id ≡ a.job_id)
      → ((a : Attempt) → (f a).attempt_number ≡ a.attempt_number)
      → Inv m db
      → Inv m (record db { attempts = update_attempt i f db.attempts })
  Inv-update_attempt db i f keep same h = record {
    within = λ k. rw (count_attempts-update i f db.attempts k keep) (h.within k);
    distinct = h.distinct;
    unused = h.unused;
    numbered = λ k n.
        rw
          (
            has_attempt_number-update i f db.attempts k n keep same,
            count_attempts-update i f db.attempts k keep,
          )
          (h.numbered k n);
  }

pub Kept-ok {ℓ} : {A : Type ℓ} {m : ℕ} {a : A} {db : Db} → Inv m db → Kept m (ok (a, db))
Kept-ok h = record { at = h }

pub Kept-err {ℓ} : {A : Type ℓ} (m : ℕ) (e : Error) → Kept {A = A} m (err e)
Kept-err m e = record { at = tt }

-- A step of a transaction, and what follows it.
pub Kept-then {ℓ κ} :
    {A : Type ℓ} {B : Type κ} (m : ℕ) (r : Result (A × Db)) (f : A → Tx B)
    → Kept m r
    → ((a : A) (db : Db) → r ≡ ok (a, db) → Inv m db → Kept m (f a db))
    → Kept m (and_then r f)
unfolding and_then
Kept-then m (ok (a, db)) f h k = k a db refl h.at
Kept-then m (err x) f h k = Kept-err m x

pub Kept-demand {ℓ κ} :
    {A : Type ℓ} {B : Type κ} (m : ℕ) (e : Error) (o : Option A) (f : A → Result (B × Db))
    → ((a : A) → o ≡ some a → Kept m (f a))
    → Kept m (demand e o f)
unfolding demand
Kept-demand m e none f k = Kept-err m e
Kept-demand m e (some a) f k = k a refl

pub Kept-if {ℓ} :
    {A : Type ℓ} (m : ℕ) (b : Bool) (s t : Tx A) (db : Db)
    → (b ≡ true → Kept m (s db))
    → (b ≡ false → Kept m (t db))
    → Kept m ((when b then s else t) db)
unfolding when◌then◌else◌
Kept-if m true s t db hs ht = hs refl
Kept-if m false s t db hs ht = ht refl

module _ (m : ℕ) where
  pub Kept-insert_event :
      (j : ℕ) (a : Option ℕ) (t : Text) (v : Value) (now : ℕ) (db : Db)
      → Inv m db
      → Kept m (insert_event j a t v now db)
  unfolding insert_event and_then
  Kept-insert_event j a t v now db h = Kept-ok (Inv-frame m db _ refl refl (omega arith) h)

  pub Kept-insert_artifact :
      (j : ℕ) (a : Option ℕ) (k u : Text) (t : Option Fields) (now : ℕ) (db : Db)
      → Inv m db
      → Kept m (insert_artifact j a k u t now db)
  unfolding insert_artifact and_then
  Kept-insert_artifact j a k u t now db h = Kept-ok (Inv-frame m db _ refl refl (omega arith) h)

  pub Kept-set_attempt_status :
      (i : ℕ) (s : AttemptStatus) (lease ended : Option ℕ) (why : Option Text) (db : Db)
      → Inv m db
      → Kept m (set_attempt_status i s lease ended why db)
  unfolding set_attempt_status
  Kept-set_attempt_status i s lease ended why db h =
      Kept-demand m _ _ _ λ _ _. Kept-ok (Inv-update_attempt m db i _ (λ a. refl) (λ a. refl) h)

  pub Kept-set_job_status :
      (i : ℕ) (s : JobStatus) (now : ℕ) (change : JobChange) (db : Db)
      → (s ≡ queued → count_attempts i db.attempts < m)
      → Inv m db
      → Kept m (set_job_status i s now change db)
  unfolding set_job_status
  Kept-set_job_status i s now change db room h =
      Kept-demand m _ _ _ λ _ _. Kept-ok (Inv-update_job m db i _ (λ x. refl) (λ x _. room) h)

  pub Kept-get_job : (i : ℕ) (db : Db) → Inv m db → Kept m (get_job i db)
  unfolding get_job
  Kept-get_job i db h = Kept-demand m _ _ _ λ _ _. Kept-ok h

-- A query, the check of an attempt's owner and an event, and what follows them.
module _ {ℓ κ} {A : Type ℓ} {B : Type κ} (m : ℕ) where
  pub Kept-gets :
      (a : A) (f : A → Tx B) (db : Db) → Kept m (f a db) → Kept m (and_then (ok (a, db)) f)
  unfolding and_then
  Kept-gets a f db k = k

module _ {κ} {B : Type κ} (m : ℕ) where
  pub Kept-owned :
      (i : ℕ) (node : Text) (f : Attempt → Tx B) (db : Db)
      → ((row : Attempt) → find_attempt i db.attempts ≡ some row → Kept m (f row db))
      → Kept m (and_then (get_owned_attempt i node db) f)
  unfolding and_then get_owned_attempt demand
  Kept-owned i node f db k = elim (Option-cases (find_attempt i db.attempts)) [
    | inl e ↦ rw e (Kept-err m _)
    | inr (row, e) ↦ rw e (elim (Bool-cases (text_eq row.node_name node)) [
      | inl t ↦ rw t (k row e)
      | inr t ↦ rw t (Kept-err m _)
    ])
  ]

  pub Kept-event :
      (j : ℕ) (a : Option ℕ) (t : Text) (v : Value) (now : ℕ) (f : Unit {0} → Tx B) (db : Db)
      → Inv m db
      → ((db' : Db) → db'.attempts ≡ db.attempts → Inv m db' → Kept m (f tt db'))
      → Kept m (and_then (insert_event j a t v now db) f)
  unfolding and_then insert_event
  Kept-event j a t v now f db h k = k _ refl (Inv-frame m db _ refl refl (omega arith) h)

  pub Kept-job_row :
      (i : ℕ) (f : Job → Tx B) (db : Db)
      → ((row : Job) → find_job i db.jobs ≡ some row → Kept m (f row db))
      → Kept m (and_then (get_job_row i db) f)
  unfolding and_then get_job_row demand
  Kept-job_row i f db k = elim (Option-cases (find_job i db.jobs)) [
    | inl e ↦ rw e (Kept-err m _)
    | inr (row, e) ↦ rw e (k row e)
  ]
