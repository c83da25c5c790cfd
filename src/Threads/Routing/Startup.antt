-- ===== src/Threads/Routing/Startup.antt =====
-- The availability pass of routing.py announces a start.
use llama_pack.Prelude.{
  some_inj, zero, true, ◌≡◌, sym, ap, inl, inr, none, some, List, [], ◌∷◌, Bool-cases, Option-cases,
  get_elem?,
}
use llama_pack.Prelude.Text.{Text}
use llama_pack.Threads.Routing.Probes.{Probes, Candidate, candidate_model_available, RouteDecision}
use llama_pack.Threads.Routing.Availability.{
  presence_loop, best_of, decide_present, choose_present, choose_available_candidate,
  available_loop, decide_available,
}

available_loop-startup :
    (p : Probes) (prefix : Text) (cs before : List Candidate) (d : RouteDecision)
    → available_loop p prefix before cs ≡ some d
    → d.startup_needed ≡ true
unfolding available_loop decide_available
available_loop-startup p prefix [] before d h = cc
available_loop-startup p prefix (c ∷ cs) before d h =
    elim (Bool-cases (candidate_model_available p c).0) [
      | inl e ↦
          let h' = rw (available_loop, e) at h in sym (ap (λ o. o.startup_needed) (some_inj h'))
      | inr e ↦ let h' = rw (available_loop, e) at h in available_loop-startup p prefix cs _ d h'
    ]

choose_present-startup :
    (p : Probes) (prefix : Text) (cs : List Candidate) (d : RouteDecision)
    → choose_present p prefix cs ≡ some d
    → d.startup_needed ≡ true
unfolding choose_present decide_present
choose_present-startup p prefix cs d h =
    elim (Option-cases (best_of (presence_loop p zero none none cs))) [
      | inl n ↦ let h' = rw (choose_present, n) at h in cc
      | inr (i, e) ↦
          elim (Option-cases (get_elem? (presence_loop p zero none none cs).candidates i)) [
            | inl n ↦ let h' = rw (choose_present, e, n) at h in cc
            | inr (c, at) ↦
                let h' = rw (choose_present, e, at) at h in
                sym (ap (λ o. o.startup_needed) (some_inj h'))
          ]
    ]

-- The availability pass says that a start is needed.
pub choose_available-startup :
    (p : Probes) (prefix : Text) (cs : List Candidate) (d : RouteDecision)
    → choose_available_candidate p cs prefix ≡ some d
    → d.startup_needed ≡ true
unfolding choose_available_candidate
choose_available-startup p prefix cs d h = elim (Option-cases p.model_artifact_presence) [
  | inl n ↦
      let h' = rw (choose_available_candidate, n) at h in available_loop-startup p prefix cs [] d h'
  | inr (probe, e) ↦
      let h' = rw (choose_available_candidate, e) at h in choose_present-startup p prefix cs d h'
]
