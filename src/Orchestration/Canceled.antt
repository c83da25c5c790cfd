-- ===== src/Orchestration/Canceled.antt =====
-- A job of llama_pack/core/orchestration that is canceled before it was ever tried, and the small
-- changes that leave it so.
pub mod Reports
pub mod Calls
pub mod Runs
use llama_pack.Prelude.{
  ℕ, ◌≤◌, ◌<◌, Bool, true, false, ◌≡◌, ◌≢◌, refl, Option, none, some, List, [], ◌∷◌, ◌++◌, arith,
  nat_eq, text_eq, Bool-cases, Option-cases, inl, inr, if◌then◌else◌,
}
use llama_pack.Prelude.Json.{Value, Fields}
use llama_pack.Prelude.Text.{Text}
use llama_pack.Orchestration.Rows.{
  Job, JobStatus, canceled, Attempt, AttemptStatus, Db, find_job, find_attempt, update_job,
  update_attempt, count_attempts,
}
use llama_pack.Orchestration.Tx.{Error, Result, ok, err, Tx, and_then, demand, when◌then◌else◌}
use llama_pack.Orchestration.Laws.{find_job-update, count_attempts-update}
use llama_pack.Orchestration.Repo.{
  JobChange, insert_event, insert_artifact, set_attempt_status, set_job_status, get_owned_attempt,
  get_job,
}

-- No node was ever given the job, and if it is still in the table, it is canceled. Its id is used up.
pub record Idle (i : ℕ) (db : Db) : Type 0 where
  pub untried : count_attempts i db.attempts ≡ 0
  pub stays : (j : Job) → find_job i db.jobs ≡ some j → j.status ≡ canceled
  pub used : i < db.fresh

abbrev IdlesAt {ℓ} : {A : Type ℓ} → ℕ → Result (A × Db) → Type 0
IdlesAt i (ok (a, db)) = Idle i db
IdlesAt i (err e) = Unit

-- Nothing where a call raised, and that of what it wrote.
pub record Idles {ℓ} {A : Type ℓ} (i : ℕ) (r : Result (A × Db)) : Type 0 where
  pub at : IdlesAt i r

pub ne→false : (a b : ℕ) → a ≢ b → nat_eq a b ≡ false
ne→false a b other = ground (arith, other)

module _ (i : ℕ) where
  pub Idle-frame :
      (db db' : Db)
      → db'.jobs ≡ db.jobs
      → db'.attempts ≡ db.attempts
      → db.fresh ≤ db'.fresh
      → Idle i db
      → Idle i db'
  Idle-frame db db' ej ea ef h = record {
    untried = rw ea h.untried;
    stays = λ j. rw ej (h.stays j);
    used = omega (arith, h.used, ef);
  }

  pub Idle-update_job :
      (db : Db) (k : ℕ) (f : Job → Job)
      → ((j : Job) → (f j).id ≡ j.id)
      → k ≢ i
      → Idle i db
      → Idle i (record db { jobs = update_job k f db.jobs })
  Idle-update_job db k f keep other h = record {
    untried = h.untried;
    stays = λ j. rw (find_job-update k f db.jobs i keep, ne→false k i other) (h.stays j);
    used = h.used;
  }

  pub Idle-update_attempt :
      (db : Db) (k : ℕ) (f : Attempt → Attempt)
      → ((a : Attempt) → (f a).job_id ≡ a.job_id)
      → Idle i db
      → Idle i (record db { attempts = update_attempt k f db.attempts })
  Idle-update_attempt db k f keep h = record {
    untried = rw (count_attempts-update k f db.attempts i keep) h.untried;
    stays = h.stays;
    used = h.used;
  }

find_attempt-counts :
    (k : ℕ) (as' : List Attempt) (row : Attempt)
    → find_attempt k as' ≡ some row
    → 0 < count_attempts row.job_id as'
unfolding find_attempt count_attempts
find_attempt-counts k [] row h = cc
find_attempt-counts k (a ∷ as') row h = elim (Bool-cases (nat_eq a.id k)) [
  | inl e ↦ ground (arith, h, e)
  | inr e ↦ ground (arith, h, e, find_attempt-counts k as' row)
]

-- The attempts that are there are of other jobs.
pub Idle-other :
    (i k : ℕ) (db : Db) (row : Attempt)
    → find_attempt k db.attempts ≡ some row
    → Idle i db
    → row.job_id ≢ i
Idle-other i k db row h idle e =
    let n = rw e at (find_attempt-counts k db.attempts row h) in omega (arith, n, idle.untried)

pub Idles-ok {ℓ} : {A : Type ℓ} {i : ℕ} {a : A} {db : Db} → Idle i db → Idles i (ok (a, db))
Idles-ok h = record { at = h }

pub Idles-err {ℓ} : {A : Type ℓ} (i : ℕ) (e : Error) → Idles {A = A} i (err e)
Idles-err i e = record { at = tt }

pub Idles-then {ℓ κ} :
    {A : Type ℓ} {B : Type κ} (i : ℕ) (r : Result (A × Db)) (f : A → Tx B)
    → Idles i r
    → ((a : A) (db : Db) → Idle i db → Idles i (f a db))
    → Idles i (and_then r f)
unfolding and_then
Idles-then i (ok (a, db)) f h k = k a db h.at
Idles-then i (err x) f h k = Idles-err i x

pub Idles-gets {ℓ κ} :
    {A : Type ℓ} {B : Type κ} (i : ℕ) (a : A) (f : A → Tx B) (db : Db)
    → Idles i (f a db)
    → Idles i (and_then (ok (a, db)) f)
unfolding and_then
Idles-gets i a f db k = k

Idles-demand {ℓ κ} :
    {A : Type ℓ} {B : Type κ} (i : ℕ) (e : Error) (o : Option A) (f : A → Result (B × Db))
    → ((a : A) → Idles i (f a))
    → Idles i (demand e o f)
unfolding demand
Idles-demand i e none f k = Idles-err i e
Idles-demand i e (some a) f k = k a

pub Idles-if {ℓ} :
    {A : Type ℓ} (i : ℕ) (b : Bool) (s t : Tx A) (db : Db)
    → Idles i (s db)
    → Idles i (t db)
    → Idles i ((when b then s else t) db)
unfolding when◌then◌else◌
Idles-if i true s t db hs ht = hs
Idles-if i false s t db hs ht = ht

-- The same, where the condition matters to the first branch.
pub Idles-when {ℓ} :
    {A : Type ℓ} (i : ℕ) (b : Bool) (s t : Tx A) (db : Db)
    → (b ≡ true → Idles i (s db))
    → Idles i (t db)
    → Idles i ((when b then s else t) db)
unfolding when◌then◌else◌
Idles-when i true s t db hs ht = hs refl
Idles-when i false s t db hs ht = ht

module _ (i : ℕ) where
  pub Idles-insert_event :
      (j : ℕ) (a : Option ℕ) (t : Text) (v : Value) (now : ℕ) (db : Db)
      → Idle i db
      → Idles i (insert_event j a t v now db)
  unfolding insert_event and_then
  Idles-insert_event j a t v now db h = Idles-ok (Idle-frame i db _ refl refl (omega arith) h)

  pub Idles-insert_artifact :
      (j : ℕ) (a : Option ℕ) (k u : Text) (t : Option Fields) (now : ℕ) (db : Db)
      → Idle i db
      → Idles i (insert_artifact j a k u t now db)
  unfolding insert_artifact and_then
  Idles-insert_artifact j a k u t now db h = Idles-ok (Idle-frame i db _ refl refl (omega arith) h)

  pub Idles-set_attempt_status :
      (k : ℕ) (s : AttemptStatus) (lease ended : Option ℕ) (why : Option Text) (db : Db)
      → Idle i db
      → Idles i (set_attempt_status k s lease ended why db)
  unfolding set_attempt_status
  Idles-set_attempt_status k s lease ended why db h =
      Idles-demand i _ _ _ λ _. Idles-ok (Idle-update_attempt i db k _ (λ a. refl) h)

  pub Idles-set_job_status :
      (k : ℕ) (s : JobStatus) (now : ℕ) (change : JobChange) (db : Db)
      → k ≢ i
      → Idle i db
      → Idles i (set_job_status k s now change db)
  unfolding set_job_status
  Idles-set_job_status k s now change db other h =
      Idles-demand i _ _ _ λ _. Idles-ok (Idle-update_job i db k _ (λ x. refl) other h)

  pub Idles-get_job : (k : ℕ) (db : Db) → Idle i db → Idles i (get_job k db)
  unfolding get_job
  Idles-get_job k db h = Idles-demand i _ _ _ λ _. Idles-ok h

  pub Idles-owned {κ} :
      {B : Type κ} (k : ℕ) (node : Text) (f : Attempt → Tx B) (db : Db)
      → Idle i db
      → ((row : Attempt) → row.job_id ≢ i → Idles i (f row db))
      → Idles i (and_then (get_owned_attempt k node db) f)
  unfolding and_then get_owned_attempt demand
  Idles-owned k node f db h go = elim (Option-cases (find_attempt k db.attempts)) [
    | inl e ↦ rw e (Idles-err i _)
    | inr (row, e) ↦ rw e (elim (Bool-cases (text_eq row.node_name node)) [
      | inl t ↦ rw t (go row (Idle-other i k db row e h))
      | inr t ↦ rw t (Idles-err i _)
    ])
  ]
