-- ===== src/Orchestration/Leadership.antt =====
-- What the leader lease of llama_pack/core/orchestration/orchestrator.py promises to its holder.
use llama_pack.Prelude.{
  ℕ, ◌+◌, ◌≤◌, Bool, true, false, ◌≡◌, ◌≢◌, refl, inl, inr, some, List, [], ◌∷◌, map, arith, ap,
  All, text_has_eq, text_eq_iff, text_eq_self, Bool-cases,
}
use llama_pack.Prelude.Dict.{lookup, lookup-insert}
use llama_pack.Prelude.Text.{Text}
use llama_pack.Orchestration.Rows.{Db}
use llama_pack.Orchestration.Tx.{Result, ok, err, settled}
use llama_pack.Orchestration.Leader.{may_lead, lease_of, try_acquire_leader_lease}

abbrev told : Result (Bool × Db) → Bool
told (ok (b, db)) = b
told (err e) = false

-- Tries of several instances, each at its own clock's time, one after another: what they were told.
unfoldable pub answers : ℕ → Text → List (Text × ℕ) → Db → List Bool
answers seconds name [] db = []
answers seconds name ((who, t) ∷ rest) db =
    told (try_acquire_leader_lease who seconds name t db)
    ∷ answers seconds name rest (settled (try_acquire_leader_lease who seconds name t db) db)

-- The lease that a granted call writes.
granted-lease :
    (a : Text) (seconds : ℕ) (name : Text) (now : ℕ) (db db' : Db)
    → try_acquire_leader_lease a seconds name now db ≡ ok (true, db')
    → lookup name db'.controller_leases ≡ some (lease_of a seconds now)
unfolding try_acquire_leader_lease
granted-lease a seconds name now db db' h =
    elim (Bool-cases (may_lead (lookup name db.controller_leases) a now)) [
      | inl t ↦ ground (
        arith,
        t,
        text_eq_self name,
        lookup-insert db.controller_leases name name (lease_of a seconds now),
      )
      | inr f ↦ ground (arith, f)
    ]

refused :
    (a b : Text) (seconds : ℕ) (name : Text) (t0 t : ℕ) (db : Db)
    → lookup name db.controller_leases ≡ some (lease_of a seconds t0)
    → b ≢ a
    → t ≤ t0 + seconds
    → try_acquire_leader_lease b seconds name t db ≡ ok (false, db)
unfolding try_acquire_leader_lease may_lead
refused a b seconds name t0 t db h ne le = ground (arith, h, text_eq_iff a b)

answers_held :
    (a : Text) (seconds : ℕ) (name : Text) (now : ℕ) (tries : List (Text × ℕ)) (db : Db)
    → lookup name db.controller_leases ≡ some (lease_of a seconds now)
    → All (λ p. (p.0 ≢ a) × (p.1 ≤ now + seconds)) tries
    → answers seconds name tries db ≡ map (λ _. false) tries
unfolding answers settled
answers_held a seconds name now [] db e ps = refl
answers_held a seconds name now ((b, t) ∷ rest) db e ps =
    rw (refused a b seconds name now t db e ps.0.0 ps.0.1)
      (ap (λ l. false ∷ l) (answers_held a seconds name now rest db e ps.1))

-- Once an instance is granted the lease, no other instance is until the lease has run out, however
-- many of them try and in whatever order.
pub lead-exclusive :
    (a : Text) (seconds : ℕ) (name : Text) (now : ℕ) (db db' : Db)
    → try_acquire_leader_lease a seconds name now db ≡ ok (true, db')
    → (tries : List (Text × ℕ)) → All (λ p. (p.0 ≢ a) × (p.1 ≤ now + seconds)) tries
    → answers seconds name tries db' ≡ map (λ _. false) tries
lead-exclusive a seconds name now db db' h tries ps =
    answers_held a seconds name now tries db' (granted-lease a seconds name now db db' h) ps
