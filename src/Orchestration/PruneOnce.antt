-- ===== src/Orchestration/PruneOnce.antt =====
-- What `prune_history` of llama_pack/core/orchestration/retention.py deletes, over all its chunks.
use mathlib.Core.Bool.{◌||◌}
use llama_pack.Prelude.{
  ℕ, ◌+◌, Bool, true, false, not, ◌≡◌, refl, sym, ◌∙◌, ap, Option, none, some, List, [], ◌∷◌, ◌++◌,
  arith, filter, length, nat_eq, Bool-cases, inl, inr, if◌then◌else◌,
}
use llama_pack.Orchestration.Rows.{Job, Attempt, Event, Artifact, Db, find_job}
use llama_pack.Orchestration.Tx.{after, settled, ok}
use llama_pack.Orchestration.Retention.{
  PruneStats, member, opt_member, delete_where, count_where, attempt_ids_of, prune_chunk,
  prune_chunks, chunks, is_old, old_job_ids, prune_history,
}
use llama_pack.Orchestration.Bounded.{Distinct}
use llama_pack.Orchestration.Bounded.Queue.{head_differs, tail_none}
use llama_pack.Orchestration.Bounded.Pruning.{flatten, chunks-flatten, member-append, delete-cons}

delete-delete {ℓ} :
    {A : Type ℓ} (p q r : A → Bool) (xs : List A)
    → ((a : A) → r a ≡ (p a || q a))
    → delete_where q (delete_where p xs) ≡ delete_where r xs
delete-delete p q r [] h = unfold delete_where in refl
delete-delete p q r (x ∷ xs) h = elim (Bool-cases (p x)) [
  | inl e ↦ rw (delete-cons p x xs, delete-cons r x xs, h x, e) (delete-delete p q r xs h)
  | inr e ↦
      rw (delete-cons p x xs, delete-cons r x xs, h x, e)
        (rw (delete-cons q x (delete_where p xs), delete-delete p q r xs h))
]

delete-none {ℓ} :
    {A : Type ℓ} (p : A → Bool) (xs : List A) → ((a : A) → p a ≡ false) → delete_where p xs ≡ xs
delete-none p [] h = unfold delete_where in refl
delete-none p (x ∷ xs) h = rw (delete-cons p x xs, h x, delete-none p xs h)

-- Deleted and left are all.
count-delete {ℓ} :
    {A : Type ℓ} (p : A → Bool) (xs : List A)
    → count_where p xs + length (delete_where p xs) ≡ length xs
unfolding count_where delete_where
count-delete p [] = omega arith
count-delete p (x ∷ xs) = ground (arith, count-delete p xs)

no_member : (i : ℕ) → member i [] ≡ false
unfolding member
no_member i = refl

abbrev job_in : List ℕ → Job → Bool
job_in ids j = member j.id ids

abbrev pub attempt_in : List ℕ → Attempt → Bool
attempt_in ids a = member a.job_id ids

abbrev pub artifact_in : List ℕ → Artifact → Bool
artifact_in ids a = member a.job_id ids

prune_chunks-jobs :
    (cs : List (List ℕ)) (stats : PruneStats) (db : Db)
    → (prune_chunks cs stats db).1.jobs ≡ delete_where (job_in (flatten cs)) db.jobs
unfolding prune_chunks prune_chunk
prune_chunks-jobs [] stats db = sym (delete-none (job_in []) db.jobs (λ j. no_member j.id))
prune_chunks-jobs (c ∷ cs) stats db =
    prune_chunks-jobs cs (prune_chunk c stats db).0 (prune_chunk c stats db).1
    ∙ delete-delete (job_in c) (job_in (flatten cs)) (job_in (c ++ flatten cs)) db.jobs
        (λ j. member-append j.id c (flatten cs))

prune_chunks-attempts :
    (cs : List (List ℕ)) (stats : PruneStats) (db : Db)
    → (prune_chunks cs stats db).1.attempts ≡ delete_where (attempt_in (flatten cs)) db.attempts
unfolding prune_chunks prune_chunk
prune_chunks-attempts [] stats db =
    sym (delete-none (attempt_in []) db.attempts (λ j. no_member j.job_id))
prune_chunks-attempts (c ∷ cs) stats db =
    prune_chunks-attempts cs (prune_chunk c stats db).0 (prune_chunk c stats db).1
    ∙ delete-delete (attempt_in c) (attempt_in (flatten cs)) (attempt_in (c ++ flatten cs))
        db.attempts (λ j. member-append j.job_id c (flatten cs))

prune_chunks-artifacts :
    (cs : List (List ℕ)) (stats : PruneStats) (db : Db)
    → (prune_chunks cs stats db).1.artifacts ≡ delete_where (artifact_in (flatten cs)) db.artifacts
unfolding prune_chunks prune_chunk
prune_chunks-artifacts [] stats db =
    sym (delete-none (artifact_in []) db.artifacts (λ j. no_member j.job_id))
prune_chunks-artifacts (c ∷ cs) stats db =
    prune_chunks-artifacts cs (prune_chunk c stats db).0 (prune_chunk c stats db).1
    ∙ delete-delete (artifact_in c) (artifact_in (flatten cs)) (artifact_in (c ++ flatten cs))
        db.artifacts (λ j. member-append j.job_id c (flatten cs))

attempt_ids-cons :
    (i : ℕ) (c : List ℕ) (a : Attempt) (as' : List Attempt)
    → member i (attempt_ids_of c (a ∷ as')) ≡ (
        if member a.job_id c
        then nat_eq a.id i || member i (attempt_ids_of c as')
        else member i (attempt_ids_of c as'))
unfolding attempt_ids_of member
attempt_ids-cons i c a as' = ground arith

-- The attempts of the jobs of two lists, those of the first being gone when the second is read.
attempt_ids-append :
    (i : ℕ) (c d : List ℕ) (as' : List Attempt)
    → member i (attempt_ids_of (c ++ d) as') ≡ (
        member i (attempt_ids_of c as')
        || member i (attempt_ids_of d (delete_where (attempt_in c) as')))
attempt_ids-append i c d [] = unfold attempt_ids_of member delete_where in refl
attempt_ids-append i c d (a ∷ as') = elim (Bool-cases (member a.job_id c)) [
  | inl e ↦
      rw (delete-cons (attempt_in c) a as', e)
        (ground (
          arith,
          e,
          member-append a.job_id c d,
          attempt_ids-cons i (c ++ d) a as',
          attempt_ids-cons i c a as',
          attempt_ids-append i c d as',
        ))
  | inr e ↦
      rw (delete-cons (attempt_in c) a as', e)
        (ground (
          arith,
          e,
          member-append a.job_id c d,
          attempt_ids-cons i (c ++ d) a as',
          attempt_ids-cons i c a as',
          attempt_ids-cons i d a (delete_where (attempt_in c) as'),
          attempt_ids-append i c d as',
        ))
]

no_attempt : (i : ℕ) (attempts : List Attempt) → member i (attempt_ids_of [] attempts) ≡ false
no_attempt i [] = unfold attempt_ids_of member in refl
no_attempt i (a ∷ as') =
    ground (arith, attempt_ids-cons i [] a as', no_member a.job_id, no_attempt i as')

-- An event goes with its job, and with an attempt of such a job.
abbrev pub event_in : List ℕ → List Attempt → Event → Bool
event_in ids attempts e =
    opt_member e.attempt_id (attempt_ids_of ids attempts) || member e.job_id ids

event_in-append :
    (c d : List ℕ) (attempts : List Attempt) (e : Event)
    → event_in (c ++ d) attempts e
      ≡ (event_in c attempts e || event_in d (delete_where (attempt_in c) attempts) e)
event_in-append c d attempts e = by_attempt e.attempt_id
  where
    by_attempt :
        (o : Option ℕ)
        → (opt_member o (attempt_ids_of (c ++ d) attempts) || member e.job_id (c ++ d)) ≡ (
            (opt_member o (attempt_ids_of c attempts) || member e.job_id c)
            || (opt_member o (attempt_ids_of d (delete_where (attempt_in c) attempts))
                || member e.job_id d))
    by_attempt none = unfold opt_member in ground (arith, member-append e.job_id c d)
    by_attempt (some i) =
        unfold opt_member in
        ground (arith, member-append e.job_id c d, attempt_ids-append i c d attempts)

prune_chunk-events :
    (c : List ℕ) (stats : PruneStats) (db : Db)
    → (prune_chunk c stats db).1.events ≡ delete_where (event_in c db.attempts) db.events
unfolding prune_chunk
prune_chunk-events c stats db =
    delete-delete (λ e. opt_member e.attempt_id (attempt_ids_of c db.attempts))
      (λ e. member e.job_id c) (event_in c db.attempts) db.events (λ e. refl)

prune_chunk-attempts :
    (c : List ℕ) (stats : PruneStats) (db : Db)
    → (prune_chunk c stats db).1.attempts ≡ delete_where (attempt_in c) db.attempts
unfolding prune_chunk
prune_chunk-attempts c stats db = refl

none_in : (attempts : List Attempt) (e : Event) → event_in [] attempts e ≡ false
none_in attempts e = by_attempt e.attempt_id
  where
    by_attempt :
        (o : Option ℕ) → (opt_member o (attempt_ids_of [] attempts) || member e.job_id []) ≡ false
    by_attempt none = unfold opt_member member in refl
    by_attempt (some i) = unfold opt_member in rw (no_member e.job_id, no_attempt i attempts)

prune_chunks-events :
    (cs : List (List ℕ)) (stats : PruneStats) (db : Db)
    → (prune_chunks cs stats db).1.events
      ≡ delete_where (event_in (flatten cs) db.attempts) db.events
unfolding prune_chunks
prune_chunks-events [] stats db =
    sym (delete-none (event_in [] db.attempts) db.events (none_in db.attempts))
prune_chunks-events (c ∷ cs) stats db =
    prune_chunks-events cs (prune_chunk c stats db).0 (prune_chunk c stats db).1
    ∙ rw (prune_chunk-events c stats db, prune_chunk-attempts c stats db)
        (delete-delete (event_in c db.attempts)
          (event_in (flatten cs) (delete_where (attempt_in c) db.attempts))
          (event_in (c ++ flatten cs) db.attempts) db.events
          (event_in-append c (flatten cs) db.attempts))

prune_chunks-stats :
    (cs : List (List ℕ)) (stats : PruneStats) (db : Db)
    → (prune_chunks cs stats db).0.pruned_jobs + length (prune_chunks cs stats db).1.jobs
      ≡ stats.pruned_jobs + length db.jobs
unfolding prune_chunks prune_chunk
prune_chunks-stats [] stats db = refl
prune_chunks-stats (c ∷ cs) stats db = omega (
  arith,
  prune_chunks-stats cs (prune_chunk c stats db).0 (prune_chunk c stats db).1,
  count-delete (job_in c) db.jobs,
)

old_job_ids-cons :
    (cutoff : ℕ) (x : Job) (js : List Job)
    → old_job_ids cutoff (x ∷ js)
      ≡ (if is_old cutoff x then x.id ∷ old_job_ids cutoff js else old_job_ids cutoff js)
unfolding old_job_ids
old_job_ids-cons cutoff x js = elim (Bool-cases (is_old cutoff x)) [ inl e ↦ rw e | inr e ↦ rw e ]

member-cons : (i k : ℕ) (ks : List ℕ) → member i (k ∷ ks) ≡ (nat_eq k i || member i ks)
unfolding member
member-cons i k ks = refl

member-head : (i : ℕ) (ks : List ℕ) → member i (i ∷ ks) ≡ true
member-head i ks = ground (arith, member-cons i i ks)

other_id :
    (i : ℕ) (ids : List ℕ) (js : List Job)
    → find_job i js ≡ none
    → delete_where (job_in (i ∷ ids)) js ≡ delete_where (job_in ids) js
other_id i ids [] h = unfold delete_where in refl
other_id i ids (j ∷ js) h =
    let e = head_differs j i js h in
    let same : member j.id (i ∷ ids) ≡ member j.id ids =
      ground (arith, e, member-cons j.id i ids) in
    rw (
      delete-cons (job_in (i ∷ ids)) j js,
      delete-cons (job_in ids) j js,
      same,
      other_id i ids js (tail_none j i js h),
    )

not_old :
    (i cutoff : ℕ) (js : List Job) → find_job i js ≡ none → member i (old_job_ids cutoff js) ≡ false
not_old i cutoff [] h = unfold old_job_ids member in refl
not_old i cutoff (j ∷ js) h = ground (
  arith,
  head_differs j i js h,
  not_old i cutoff js (tail_none j i js h),
  old_job_ids-cons cutoff j js,
  member-cons i j.id (old_job_ids cutoff js),
)

-- Where no id stands twice, a job is among the ids of the old ones exactly if it is old.
old_ids-is_old :
    (cutoff : ℕ) (js : List Job)
    → Distinct js
    → delete_where (job_in (old_job_ids cutoff js)) js ≡ filter (λ j. not (is_old cutoff j)) js
old_ids-is_old cutoff [] d = unfold delete_where in refl
old_ids-is_old cutoff (x ∷ js) d = elim (Bool-cases (is_old cutoff x)) [
  | inl e ↦
      rw
        (
          delete-cons (job_in (old_job_ids cutoff (x ∷ js))) x js,
          old_job_ids-cons cutoff x js,
          e,
          member-head x.id,
        )
        (other_id x.id (old_job_ids cutoff js) js d.0 ∙ old_ids-is_old cutoff js d.1)
  | inr e ↦
      rw
        (
          delete-cons (job_in (old_job_ids cutoff (x ∷ js))) x js,
          old_job_ids-cons cutoff x js,
          e,
          not_old x.id cutoff js d.0,
        )
        (ap (λ l. x ∷ l) (old_ids-is_old cutoff js d.1))
]

-- Where no job id stands twice, pruning in chunks of 500 returns and deletes what it should: of the
-- jobs exactly those that ended before the cutoff, the attempts and the artifacts of those, and the
-- events of those or of their attempts. The number of jobs that it reports is that of those gone.
pub prune_history-deletes :
    (cutoff : ℕ) (db : Db)
    → Distinct db.jobs
    → let ids = old_job_ids cutoff db.jobs in
      let db' = after (prune_history cutoff) db in
      (stats : PruneStats) × (prune_history cutoff db ≡ ok (stats, db'))
      × (stats.pruned_jobs + length db'.jobs ≡ length db.jobs)
      × (db'.jobs ≡ filter (λ j. not (is_old cutoff j)) db.jobs)
      × (db'.attempts ≡ delete_where (attempt_in ids) db.attempts)
      × (db'.artifacts ≡ delete_where (artifact_in ids) db.artifacts)
      × (db'.events ≡ delete_where (event_in ids db.attempts) db.events)
unfolding prune_history settled
prune_history-deletes cutoff db d =
    let ids = old_job_ids cutoff db.jobs in
    let whole = chunks-flatten 500 ids (omega arith) in
    (
      _,
      refl,
      omega (arith, prune_chunks-stats (chunks 500 ids) _ db),
      prune_chunks-jobs (chunks 500 ids) _ db ∙ rw whole (old_ids-is_old cutoff db.jobs d),
      prune_chunks-attempts (chunks 500 ids) _ db ∙ rw whole,
      prune_chunks-artifacts (chunks 500 ids) _ db ∙ rw whole,
      prune_chunks-events (chunks 500 ids) _ db ∙ rw whole,
    )
