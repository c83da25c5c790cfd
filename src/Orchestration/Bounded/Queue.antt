-- ===== src/Orchestration/Bounded/Queue.antt =====
-- The rows that a claim looks at: the queued rows of the table, each once, in claim order.
use llama_pack.Prelude.{
  ℕ, Bool, true, false, ◌≡◌, refl, none, some, List, [], ◌∷◌, arith, All, filter, nat_eq,
  Bool-cases, inl, inr,
}
use llama_pack.Orchestration.Rows.{
  Job, queued, find_job, job_status_eq, claims_before, insert_by_claim, sort_by_claim,
}
use llama_pack.Orchestration.Lifecycle.{queued_rows}
use llama_pack.Orchestration.Bounded.{Distinct}

-- A row as the table has it, and waiting.
abbrev pub IsQueued : List Job → Job → Type 0
IsQueued jobs r = (find_job r.id jobs ≡ some r) × (r.status ≡ queued)

find_job-filter :
    (i : ℕ) (p : Job → Bool) (js : List Job)
    → find_job i js ≡ none
    → find_job i (filter p js) ≡ none
unfolding find_job
find_job-filter i p [] h = refl
find_job-filter i p (j ∷ js) h = ground (arith, find_job-filter i p js)

Distinct-filter : (p : Job → Bool) (js : List Job) → Distinct js → Distinct (filter p js)
Distinct-filter p [] d = tt
Distinct-filter p (j ∷ js) d = elim (Bool-cases (p j)) [
  | inl e ↦ rw e (find_job-filter j.id p js d.0, Distinct-filter p js d.1)
  | inr e ↦ rw e (Distinct-filter p js d.1)
]

find_job-insert :
    (i : ℕ) (j : Job) (js : List Job)
    → nat_eq j.id i ≡ false
    → find_job i js ≡ none
    → find_job i (insert_by_claim j js) ≡ none
unfolding find_job insert_by_claim
find_job-insert i j [] e h = ground arith
find_job-insert i j (k ∷ ks) e h = elim (Bool-cases (claims_before j k)) [
  | inl b ↦ rw (b, e) h
  | inr b ↦ rw b (ground (arith, find_job-insert i j ks e))
]

find_job-sort :
    (i : ℕ) (js : List Job) → find_job i js ≡ none → find_job i (sort_by_claim js) ≡ none
unfolding find_job sort_by_claim
find_job-sort i [] h = refl
find_job-sort i (j ∷ js) h =
    find_job-insert i j (sort_by_claim js) (ground arith) (find_job-sort i js (ground arith))

-- If the head is not at i, the rest has none there.
pub head_differs :
    (k : Job) (i : ℕ) (ks : List Job) → find_job i (k ∷ ks) ≡ none → nat_eq k.id i ≡ false
unfolding find_job
head_differs k i ks h = ground arith

pub tail_none :
    (k : Job) (i : ℕ) (ks : List Job) → find_job i (k ∷ ks) ≡ none → find_job i ks ≡ none
unfolding find_job
tail_none k i ks h = ground arith

flip_eq : (a b : ℕ) → nat_eq a b ≡ false → nat_eq b a ≡ false
flip_eq a b h = ground arith

Distinct-insert :
    (j : Job) (js : List Job)
    → find_job j.id js ≡ none
    → Distinct js
    → Distinct (insert_by_claim j js)
unfolding insert_by_claim find_job
Distinct-insert j [] h d = (refl, tt)
Distinct-insert j (k ∷ ks) h d = elim (Bool-cases (claims_before j k)) [
  | inl b ↦ rw b (h, d)
  | inr b ↦ rw b (
    find_job-insert k.id j ks (flip_eq _ _ (head_differs k j.id ks h)) d.0,
    Distinct-insert j ks (tail_none k j.id ks h) d.1,
  )
]

Distinct-sort : (js : List Job) → Distinct js → Distinct (sort_by_claim js)
unfolding sort_by_claim
Distinct-sort [] d = tt
Distinct-sort (j ∷ js) d =
    Distinct-insert j (sort_by_claim js) (find_job-sort j.id js d.0) (Distinct-sort js d.1)

module _ {ℓ} (P : Job → Type ℓ) where
  All-insert : (j : Job) (js : List Job) → P j → All P js → All P (insert_by_claim j js)
  unfolding insert_by_claim
  All-insert j [] p ps = (p, tt)
  All-insert j (k ∷ ks) p ps = elim (Bool-cases (claims_before j k)) [
    | inl b ↦ rw b (p, ps)
    | inr b ↦ rw b (ps.0, All-insert j ks p ps.1)
  ]

  All-sort : (js : List Job) → All P js → All P (sort_by_claim js)
  unfolding sort_by_claim
  All-sort [] ps = tt
  All-sort (j ∷ js) ps = All-insert j (sort_by_claim js) ps.0 (All-sort js ps.1)

found_behind :
    (x : Job) (js ys : List Job)
    → find_job x.id ys ≡ none
    → All (λ j. find_job j.id js ≡ some j) ys
    → All (λ j. find_job j.id (x ∷ js) ≡ some j) ys
unfolding find_job
found_behind x js [] h ps = tt
found_behind x js (y ∷ ys) h ps = (
  rw (flip_eq _ _ (head_differs y x.id ys h)) ps.0,
  found_behind x js ys (tail_none y x.id ys h) ps.1,
)

nat_eq_self : (a : ℕ) → nat_eq a a ≡ true
nat_eq_self a = ground arith

-- In a table with distinct keys each row is found under its key.
All-found : (js : List Job) → Distinct js → All (λ j. find_job j.id js ≡ some j) js
unfolding find_job
All-found [] d = tt
All-found (x ∷ js) d = (rw (nat_eq_self x.id), found_behind x js js d.0 (All-found js d.1))

keep_queued :
    (jobs ys : List Job)
    → All (λ j. find_job j.id jobs ≡ some j) ys
    → All (IsQueued jobs) (filter (λ j. job_status_eq j.status queued) ys)
keep_queued jobs [] ps = tt
keep_queued jobs (y ∷ ys) ps = elim (Bool-cases (job_status_eq y.status queued)) [
  | inl e ↦ rw e ((ps.0, ground (arith, e)), keep_queued jobs ys ps.1)
  | inr e ↦ rw e (keep_queued jobs ys ps.1)
]

pub queued_rows-IsQueued :
    (jobs : List Job) → Distinct jobs → All (IsQueued jobs) (queued_rows jobs)
unfolding queued_rows
queued_rows-IsQueued jobs d = All-sort (IsQueued jobs) _ (keep_queued jobs jobs (All-found jobs d))

pub Distinct-queued_rows : (jobs : List Job) → Distinct jobs → Distinct (queued_rows jobs)
unfolding queued_rows
Distinct-queued_rows jobs d = Distinct-sort _ (Distinct-filter _ jobs d)
