-- ===== src/Threads/Routing/Preference.antt =====
-- The scored availability pass of routing.py prefers a registered model to one with only a file.
use llama_pack.Prelude.{
  some_inj, ℕ, zero, ◌≡◌, ◌≢◌, refl, sym, ◌∙◌, ap, ◌⊎◌, inl, inr, Option, none, some, List, All,
  Option-cases, get_elem?,
}
use llama_pack.Prelude.Sorting.{All-map}
use llama_pack.Prelude.Text.{Text, codes}
use llama_pack.Threads.Routing.Probes.{CheckResult, returned, Probes, Candidate, RouteDecision}
use llama_pack.Threads.Routing.Availability.{
  presence_loop, best_of, decide_present, choose_present, choose_available_candidate,
}
use llama_pack.Threads.Routing.Presence.{
  presence_loop-registered, presence_loop-gguf, presence_loop-candidates, At, scan_from_start-At,
  presence_some, scanned-same,
}
use llama_pack.Threads.Routing.Complete.{first_index-none, without_state}

module _ (p : Probes) (probe : Text → Text → CheckResult (Option Text))
    (asks : p.model_artifact_presence ≡ some probe) where
  -- The decision is for the candidate at the index.
  picked_state :
      (prefix state : Text) (cs : List Candidate) (i : ℕ) (d : RouteDecision)
      → best_of (presence_loop p zero none none cs) ≡ some i
      → At p state i cs
      → choose_present p prefix cs ≡ some d
      → probe d.node d.model ≡ returned (some state)
  unfolding choose_present decide_present
  picked_state prefix state cs i d e (c, at, s, from) h =
      let at' = ap (λ l. get_elem? l i) (presence_loop-candidates p zero none none cs) ∙ at in
      let h' = some_inj (rw (choose_present, e, at') at h) in
      let same = scanned-same p c in
      let node = sym (ap (λ o. o.node) h') ∙ same.0 in
      let model = sym (ap (λ o. o.model) h') ∙ same.1 in
      rw (node, model) (presence_some p (λ n m. Unit) probe asks state c s)

  choose_present-prefers :
      (prefix : Text) (cs : List Candidate) (d : RouteDecision)
      → choose_present p prefix cs ≡ some d
      → (probe d.node d.model ≡ returned (some (codes "registered")))
        ⊎ ((probe d.node d.model ≡ returned (some (codes "gguf_present")))
            × All (λ c. probe c.node c.model ≢ returned (some (codes "registered"))) cs)
  unfolding choose_present best_of
  choose_present-prefers prefix cs d h =
      elim (Option-cases (presence_loop p zero none none cs).best_registered) [
        | inr (i, e) ↦
            let b : best_of (presence_loop p zero none none cs) ≡ some i = rw (best_of, e) refl in
            let at =
              scan_from_start-At (codes "registered") p cs i
                (sym (presence_loop-registered p zero none none cs) ∙ e) in
            inl (picked_state prefix (codes "registered") cs i d b at h)
        | inl n ↦ elim (Option-cases (presence_loop p zero none none cs).best_gguf) [
          | inl m ↦ let h' = rw (choose_present, best_of, n, m) at h in cc
          | inr (i, e) ↦
              let b : best_of (presence_loop p zero none none cs) ≡ some i =
                rw (best_of, n, e) refl in
              let at =
                scan_from_start-At (codes "gguf_present") p cs i
                  (sym (presence_loop-gguf p zero none none cs) ∙ e) in
              let none_registered =
                first_index-none p (codes "registered") cs zero
                  (sym (presence_loop-registered p zero none none cs) ∙ n) in
              inr (
                picked_state prefix (codes "gguf_present") cs i d b at h,
                All-map (λ c s. without_state p probe (codes "registered") c asks s) cs
                    none_registered,
              )
        ]
      ]

-- Where presence can be asked for, a model that is started is registered on its node; or its file is
-- there, and no candidate is registered.
pub choose_available-prefers :
    (p : Probes) (probe : Text → Text → CheckResult (Option Text)) (prefix : Text)
    (cs : List Candidate) (d : RouteDecision)
    → p.model_artifact_presence ≡ some probe
    → choose_available_candidate p cs prefix ≡ some d
    → (probe d.node d.model ≡ returned (some (codes "registered")))
      ⊎ ((probe d.node d.model ≡ returned (some (codes "gguf_present")))
          × All (λ c. probe c.node c.model ≢ returned (some (codes "registered"))) cs)
unfolding choose_available_candidate
choose_available-prefers p probe prefix cs d asks h =
    let h' = rw (choose_available_candidate, asks) at h in
    choose_present-prefers p probe asks prefix cs d h'
