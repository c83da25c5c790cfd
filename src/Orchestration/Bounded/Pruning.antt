-- ===== src/Orchestration/Bounded/Pruning.antt =====
-- Pruning in chunks is one deletion of all old jobs and of what hangs on them.
use llama_pack.Prelude.{
  ℕ, zero, suc, ◌≤◌, ◌<◌, Bool, ◌≡◌, refl, ◌||◌, none, List, [], ◌∷◌, ◌++◌, arith, length, drop,
  Bool-cases, inl, inr, if◌then◌else◌, length-drop, take-append-drop,
}
use llama_pack.Orchestration.Rows.{Job, Db, find_job, count_attempts}
use llama_pack.Orchestration.Laws.{
  find_job-delete, count_attempts-delete, has_attempt_number-delete,
}
use llama_pack.Orchestration.Retention.{
  PruneStats, member, delete_where, prune_chunk, prune_chunks, chunks, chunks_fuel, prune_history,
  old_job_ids,
}
use llama_pack.Orchestration.Bounded.{Inv, Within, Distinct, Kept, Kept-ok}

abbrev pub flatten : List (List ℕ) → List ℕ
flatten [] = []
flatten (c ∷ cs) = c ++ flatten cs

chunks_fuel-flatten :
    (fuel size : ℕ) (vs : List ℕ)
    → 0 < size
    → length vs ≤ fuel
    → flatten (chunks_fuel fuel size vs) ≡ vs
unfolding chunks_fuel
chunks_fuel-flatten fuel size [] p h = ground arith
chunks_fuel-flatten zero size (v ∷ vs) p h = absurd (omega arith)
chunks_fuel-flatten (suc fuel) size (v ∷ vs) p h =
    rw
      (chunks_fuel-flatten fuel size (drop size (v ∷ vs)) p
        (omega (arith, length-drop size (v ∷ vs))))
      (take-append-drop size (v ∷ vs))

-- The chunks of a list, put together, are the list; the rounds suffice.
pub chunks-flatten : (size : ℕ) (vs : List ℕ) → 0 < size → flatten (chunks size vs) ≡ vs
unfolding chunks
chunks-flatten size vs p = chunks_fuel-flatten (length vs) size vs p (omega arith)

pub member-append : (i : ℕ) (xs ys : List ℕ) → member i (xs ++ ys) ≡ (member i xs || member i ys)
unfolding member
member-append i [] ys = refl
member-append i (x ∷ xs) ys = ground (arith, member-append i xs ys)

pub delete-cons {ℓ} :
    {A : Type ℓ} (p : A → Bool) (x : A) (xs : List A)
    → delete_where p (x ∷ xs) ≡ (if p x then delete_where p xs else x ∷ delete_where p xs)
unfolding delete_where
delete-cons p x xs = ground arith

find_none-delete :
    (i : ℕ) (c : List ℕ) (js : List Job)
    → find_job i js ≡ none
    → find_job i (delete_where (λ j. member j.id c) js) ≡ none
find_none-delete i c js h = ground (arith, h, find_job-delete i c js)

Distinct-delete :
    (c : List ℕ) (js : List Job) → Distinct js → Distinct (delete_where (λ j. member j.id c) js)
Distinct-delete c [] d = unfold delete_where in tt
Distinct-delete c (j ∷ js) d = elim (Bool-cases (member j.id c)) [
  | inl e ↦ rw (delete-cons _ j js, e) (Distinct-delete c js d.1)
  | inr e ↦ rw (delete-cons _ j js, e) (find_none-delete j.id c js d.0, Distinct-delete c js d.1)
]

Within-delete :
    (m i : ℕ) (c : List ℕ) (db : Db)
    → Inv m db
    → Within m
        (if member i c then none else find_job i db.jobs)
        (if member i c then 0 else count_attempts i db.attempts)
Within-delete m i c db h = elim (Bool-cases (member i c)) [
  | inl e ↦ rw e refl
  | inr e ↦ rw e (h.within i)
]

prune_chunk-Inv :
    (m : ℕ) (c : List ℕ) (stats : PruneStats) (db : Db)
    → Inv m db
    → Inv m (prune_chunk c stats db).1
unfolding prune_chunk
prune_chunk-Inv m c stats db h = record {
  within = λ i.
      rw (find_job-delete i c db.jobs, count_attempts-delete i c db.attempts)
        (Within-delete m i c db h);
  distinct = Distinct-delete c db.jobs h.distinct;
  unused = λ i le. find_none-delete i c db.jobs (h.unused i le);
  numbered = λ i n t. ground (
    arith,
    t,
    has_attempt_number-delete i n c db.attempts,
    count_attempts-delete i c db.attempts,
    h.numbered i n,
  );
}

prune_chunks-Inv :
    (m : ℕ) (cs : List (List ℕ)) (stats : PruneStats) (db : Db)
    → Inv m db
    → Inv m (prune_chunks cs stats db).1
unfolding prune_chunks
prune_chunks-Inv m [] stats db h = h
prune_chunks-Inv m (c ∷ cs) stats db h =
    prune_chunks-Inv m cs (prune_chunk c stats db).0 (prune_chunk c stats db).1
      (prune_chunk-Inv m c stats db h)

abbrev no_stats : PruneStats
no_stats = record { pruned_jobs = 0; pruned_attempts = 0; pruned_events = 0 }

pub Kept-prune_history : (m cutoff : ℕ) (db : Db) → Inv m db → Kept m (prune_history cutoff db)
unfolding prune_history
Kept-prune_history m cutoff db h =
    Kept-ok (prune_chunks-Inv m (chunks 500 (old_job_ids cutoff db.jobs)) no_stats db h)
