-- ===== src/Threads/Routing/Served.antt =====
-- What holds of the node and the model of a decision of routing.py: the checks that it rests on.
use llama_pack.Prelude.{
  some_inj, All-append, Bool, true, false, ◌≡◌, refl, subst, ◌⊎◌, inl, inr, Option, none, some,
  List, [], ◌∷◌, All, Bool-cases,
}
use llama_pack.Prelude.Text.{Text, codes}
use llama_pack.Threads.Routing.Probes.{
  CheckResult, returned, raised, Probes, Candidate, answered, candidate_model_running,
  candidate_model_available, RouteDecision,
}
use llama_pack.Threads.Routing.Availability.{decide_available, available_loop}
use llama_pack.Threads.Routing.Choice.{Found, found, missed, running_loop}

-- The model was reported to run on the node.
abbrev pub Running : Probes → Text → Text → Type 0
Running p node model = p.model_running node model ≡ returned true

-- The model can be started on the node: it is registered there, or its file is; where presence is
-- not asked for, it was reported to be available.
abbrev pub ObtainableBy :
    Option (Text → Text → CheckResult (Option Text)) → Probes → Text → Text → Type 0
ObtainableBy (some probe) p node model =
    (probe node model ≡ returned (some (codes "registered")))
    ⊎ (probe node model ≡ returned (some (codes "gguf_present")))
ObtainableBy none p node model = p.model_available node model ≡ returned true

abbrev pub Obtainable : Probes → Text → Text → Type 0
Obtainable p = ObtainableBy p.model_artifact_presence p

-- A decision for a model that runs, or one for a model that can be started.
pub record Served (p : Probes) (P : Text → Text → Type 0) (d : RouteDecision) : Type 0 where
  pub served :
      (Running p d.node d.model × (d.startup_needed ≡ false))
      ⊎ (Obtainable p d.node d.model × (d.startup_needed ≡ true))
  pub known : P d.node d.model

answered-true :
    (check : Text) (a : CheckResult Bool) (c : Candidate)
    → (answered false check a c).0 ≡ true
    → a ≡ returned true
unfolding answered
answered-true check (returned true) c h = refl
answered-true check (returned false) c h = cc
answered-true check (raised e) c h = cc

pub answered-some :
    (check state : Text) (a : CheckResult (Option Text)) (c : Candidate)
    → (answered none check a c).0 ≡ some state
    → a ≡ returned (some state)
unfolding answered
answered-some check state (returned o) c h = rw h
answered-some check state (raised e) c h = cc

pub Running-true :
    (p : Probes) (c : Candidate) → (candidate_model_running p c).0 ≡ true → Running p c.node c.model
unfolding candidate_model_running
Running-true p c h = answered-true (codes "model_running") _ c h

-- A check leaves the node and the model of the candidate alone.
pub answered-same {ℓ} :
    {A : Type ℓ} (default : A) (check : Text) (a : CheckResult A) (c : Candidate)
    → ((answered default check a c).1.node ≡ c.node)
      × ((answered default check a c).1.model ≡ c.model)
unfolding answered
answered-same default check (returned a) c = (refl, refl)
answered-same default check (raised e) c = (refl, refl)

abbrev pub Holds : (Text → Text → Type 0) → Candidate → Type 0
Holds P c = P c.node c.model

pub running_check-same :
    (p : Probes) (c : Candidate)
    → ((candidate_model_running p c).1.node ≡ c.node)
      × ((candidate_model_running p c).1.model ≡ c.model)
unfolding candidate_model_running
running_check-same p c =
    answered-same false (codes "model_running") (p.model_running c.node c.model) c

-- What a loop over candidates found.
abbrev pub FoundOne : Probes → (Text → Text → Type 0) → Found → Type 0
FoundOne p P (found c cs) = Running p c.node c.model × P c.node c.model
FoundOne p P (missed cs) = All (Holds P) cs

module _ (p : Probes) (P : Text → Text → Type 0) where
  -- A check leaves what is known of the node and the model.
  answered-Holds {ℓ} :
      {A : Type ℓ} (default : A) (check : Text) (a : CheckResult A) (c : Candidate)
      → Holds P c
      → Holds P (answered default check a c).1
  answered-Holds default check a c h =
      let same = answered-same default check a c in rw (same.0, same.1) h

  pub Running-found :
      (c : Candidate)
      → (candidate_model_running p c).0 ≡ true
      → Running p (candidate_model_running p c).1.node (candidate_model_running p c).1.model
  unfolding candidate_model_running
  Running-found c h =
      let same = answered-same false (codes "model_running") (p.model_running c.node c.model) c in
      rw (same.0, same.1) (Running-true p c h)

  pub running_check-Holds : (c : Candidate) → Holds P c → Holds P (candidate_model_running p c).1
  unfolding candidate_model_running
  running_check-Holds c h = answered-Holds false (codes "model_running") _ c h

  available_here :
      (prefix : Text) (before : List Candidate) (c : Candidate) (rest : List Candidate)
      → p.model_artifact_presence ≡ none
      → (candidate_model_available p c).0 ≡ true
      → Holds P c
      → Served p P (
          decide_available p prefix before
            (record (candidate_model_available p c).1 { model_available = some true })
            rest)
  unfolding decide_available candidate_model_available
  available_here prefix before c rest n e h =
      let same =
        answered-same false (codes "model_available") (p.model_available c.node c.model) c in
      record {
        served = inr (rw (same.0, same.1, n) (answered-true (codes "model_available") _ c e), refl);
        known = rw (same.0, same.1) h;
      }

  pub running_loop-FoundOne :
      (cs before : List Candidate)
      → All (Holds P) before
      → All (Holds P) cs
      → FoundOne p P (running_loop p before cs)
  unfolding running_loop
  running_loop-FoundOne [] before bs ps = bs
  running_loop-FoundOne (c ∷ cs) before bs ps = elim (Bool-cases (candidate_model_running p c).0) [
    | inl e ↦ rw (running_loop, e) (Running-found c e, running_check-Holds c ps.0)
    | inr e ↦
        rw (running_loop, e)
          (running_loop-FoundOne cs _ (All-append _ before _ bs (running_check-Holds c ps.0)) ps.1)
  ]

  pub Served-eq : (d d' : RouteDecision) → some d ≡ some d' → Served p P d → Served p P d'
  Served-eq d d' e s = subst (Served p P) (some_inj e) s

  ObtainableBy-none :
      (node model : Text)
      → p.model_artifact_presence ≡ none
      → p.model_available node model ≡ returned true
      → Obtainable p node model
  ObtainableBy-none node model n h = rw n h

  pub available_loop-Served :
      (prefix : Text) (cs before : List Candidate) (d : RouteDecision)
      → p.model_artifact_presence ≡ none
      → All (Holds P) cs
      → available_loop p prefix before cs ≡ some d
      → Served p P d
  unfolding available_loop
  available_loop-Served prefix [] before d n ps h = cc
  available_loop-Served prefix (c ∷ cs) before d n ps h =
      elim (Bool-cases (candidate_model_available p c).0) [
        | inl e ↦
            let h' = rw (available_loop, e) at h in
            Served-eq _ d h' (available_here prefix before c cs n e ps.0)
        | inr e ↦
            let h' = rw (available_loop, e) at h in available_loop-Served prefix cs _ d n ps.1 h'
      ]
