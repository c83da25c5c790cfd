-- ===== src/Orchestration/Laws.antt =====
-- How the queries on the tables read after the changes that the operations make.
use llama_pack.Prelude.{
  ℕ, suc, false, ◌≡◌, refl, not, ◌&&◌, ◌||◌, Option, none, some, List, [], ◌∷◌, ◌++◌, arith, nat_eq,
  if◌then◌else◌, ◌⊎◌, inl, inr,
}
use llama_pack.Orchestration.Rows.{
  Job, Attempt, find_job, update_job, update_attempt, count_attempts, has_attempt_number,
}
use llama_pack.Orchestration.Retention.{member, delete_where}

abbrev pub map_option : (Job → Job) → Option Job → Option Job
map_option f none = none
map_option f (some j) = some (f j)

-- Two numbers are tested equal and are, or are tested different.
pub Eq-cases : (a b : ℕ) → (a ≡ b) ⊎ (nat_eq a b ≡ false)
Eq-cases a b = ground arith

pub find_job-update :
    (i : ℕ) (f : Job → Job) (js : List Job) (k : ℕ)
    → ((j : Job) → (f j).id ≡ j.id)
    → find_job k (update_job i f js)
      ≡ (if nat_eq i k then map_option f (find_job k js) else find_job k js)
unfolding find_job update_job
find_job-update i f [] k keep = ground arith
find_job-update i f (j ∷ js) k keep = ground (arith, keep j, find_job-update i f js k keep)

pub find_job-append :
    (k : ℕ) (js : List Job) (j : Job)
    → find_job k (js ++ j ∷ [])
      ≡ elim (find_job k js) [ some r ↦ some r | none ↦ if nat_eq j.id k then some j else none ]
unfolding find_job
find_job-append k [] j = ground arith
find_job-append k (x ∷ js) j = ground (arith, find_job-append k js j)

pub find_job-id : (k : ℕ) (js : List Job) {j : Job} → find_job k js ≡ some j → j.id ≡ k
unfolding find_job
find_job-id k [] h = ground arith
find_job-id k (x ∷ js) {j} h = ground (arith, find_job-id k js {j = j})

pub find_job-delete :
    (k : ℕ) (c : List ℕ) (js : List Job)
    → find_job k (delete_where (λ j. member j.id c) js)
      ≡ (if member k c then none else find_job k js)
unfolding find_job delete_where
find_job-delete k c [] = ground arith
find_job-delete k c (x ∷ js) = elim (Eq-cases x.id k) [
  | inl e ↦ rw e (ground (arith, e, find_job-delete k c js))
  | inr e ↦ ground (arith, e, find_job-delete k c js)
]

pub count_attempts-update :
    (i : ℕ) (f : Attempt → Attempt) (as' : List Attempt) (k : ℕ)
    → ((a : Attempt) → (f a).job_id ≡ a.job_id)
    → count_attempts k (update_attempt i f as') ≡ count_attempts k as'
unfolding count_attempts update_attempt
count_attempts-update i f [] k keep = refl
count_attempts-update i f (a ∷ as') k keep =
    ground (arith, keep a, count_attempts-update i f as' k keep)

pub count_attempts-append :
    (k : ℕ) (as' : List Attempt) (a : Attempt)
    → count_attempts k (as' ++ a ∷ [])
      ≡ (if nat_eq a.job_id k then suc (count_attempts k as') else count_attempts k as')
unfolding count_attempts
count_attempts-append k [] a = ground arith
count_attempts-append k (x ∷ as') a = ground (arith, count_attempts-append k as' a)

pub count_attempts-delete :
    (k : ℕ) (c : List ℕ) (as' : List Attempt)
    → count_attempts k (delete_where (λ a. member a.job_id c) as')
      ≡ (if member k c then 0 else count_attempts k as')
unfolding count_attempts delete_where
count_attempts-delete k c [] = ground arith
count_attempts-delete k c (x ∷ as') = elim (Eq-cases x.job_id k) [
  | inl e ↦ rw e (ground (arith, e, count_attempts-delete k c as'))
  | inr e ↦ ground (arith, e, count_attempts-delete k c as')
]

pub has_attempt_number-update :
    (i : ℕ) (f : Attempt → Attempt) (as' : List Attempt) (k n : ℕ)
    → ((a : Attempt) → (f a).job_id ≡ a.job_id)
    → ((a : Attempt) → (f a).attempt_number ≡ a.attempt_number)
    → has_attempt_number k n (update_attempt i f as') ≡ has_attempt_number k n as'
unfolding has_attempt_number update_attempt
has_attempt_number-update i f [] k n keep same = refl
has_attempt_number-update i f (a ∷ as') k n keep same =
    ground (arith, keep a, same a, has_attempt_number-update i f as' k n keep same)

pub has_attempt_number-append :
    (k n : ℕ) (as' : List Attempt) (a : Attempt)
    → has_attempt_number k n (as' ++ a ∷ [])
      ≡ (has_attempt_number k n as' || (nat_eq a.job_id k && nat_eq a.attempt_number n))
unfolding has_attempt_number
has_attempt_number-append k n [] a = ground arith
has_attempt_number-append k n (x ∷ as') a = ground (arith, has_attempt_number-append k n as' a)

pub has_attempt_number-delete :
    (k n : ℕ) (c : List ℕ) (as' : List Attempt)
    → has_attempt_number k n (delete_where (λ a. member a.job_id c) as')
      ≡ (not (member k c) && has_attempt_number k n as')
unfolding has_attempt_number delete_where
has_attempt_number-delete k n c [] = ground arith
has_attempt_number-delete k n c (x ∷ as') = elim (Eq-cases x.job_id k) [
  | inl e ↦ rw e (ground (arith, e, has_attempt_number-delete k n c as'))
  | inr e ↦ ground (arith, e, has_attempt_number-delete k n c as')
]
