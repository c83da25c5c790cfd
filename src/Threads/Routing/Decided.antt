-- ===== src/Threads/Routing/Decided.antt =====
-- What the decision of `_choose_deterministic` rests on, whichever choice it comes from.
use llama_pack.Prelude.{
  ◌≡◌, refl, subst, inl, inr, Option, some, [], ◌∷◌, Bool-cases, Option-cases, text_has_eq,
}
use llama_pack.Prelude.Dict.{lookup}
use llama_pack.Prelude.Json.{Fields}
use llama_pack.Prelude.Text.{Text, codes}
use llama_pack.Threads.Routing.Probes.{
  Probes, NodeConfig, Config, candidate, candidate_model_running, RouteDecision, chosen,
}
use llama_pack.Threads.Routing.Availability.{choose_available_candidate}
use llama_pack.Threads.Routing.Choice.{
  or_model, choose_local_agent, choose_explicit_node, previous_pair, previous_route_model,
  single_local_model, choose_thread_affinity,
}
use llama_pack.Threads.Routing.Served.{
  Served, Running-true, Running-found, running_check-Holds, Served-eq,
}
use llama_pack.Threads.Routing.Presence.{choose_available-Served}
use llama_pack.Threads.Routing.Sources.{KnownNode, NodeKnown}

pub chosen_inj : {d d' : RouteDecision} → chosen d ≡ chosen d' → d ≡ d'
chosen_inj h = cc

pub choose_thread_affinity-Served :
    (cfg : Config) (p : Probes) (previous : Option Fields) (d : RouteDecision)
    → choose_thread_affinity cfg p previous ≡ some d
    → Served p (NodeKnown cfg) d
unfolding choose_thread_affinity
choose_thread_affinity-Served cfg p previous d h = elim (Option-cases (previous_pair previous)) [
  | inl n ↦ let h' = rw (choose_thread_affinity, n) at h in cc
  | inr ((node, model), e) ↦ elim (Option-cases (lookup node cfg.nodes)) [
    | inl n ↦ let h' = rw (choose_thread_affinity, e, n) at h in cc
    | inr (known, k) ↦
        let c = candidate node model (codes "previous_route") in
        let is_known : KnownNode cfg node = λ n. (let k' = rw n at k in cc) in
        elim (Bool-cases (candidate_model_running p c).0) [
          | inl r ↦
              let h' = rw (choose_thread_affinity, e, k, r) at h in
              Served-eq p (NodeKnown cfg) _ d h' (record {
                served = inl (Running-found p (NodeKnown cfg) c r, refl);
                known = running_check-Holds p (NodeKnown cfg) c is_known;
              })
          | inr r ↦ let h' = rw (choose_thread_affinity, e, k, r) at h in cc
        ]
  ]
]

-- The strategy of a decision is no part of what it rests on.
Served-strategy :
    (p : Probes) (P : Text → Text → Type 0) (d : RouteDecision) (strategy : Text)
    → Served p P d
    → Served p P (record d { strategy = strategy })
Served-strategy p P d strategy s = record { served = s.served; known = s.known }

pub choose_explicit_node-Served :
    (cfg : Config) (p : Probes) (name : Text) (requested : Option Text) (d : RouteDecision)
    → choose_explicit_node cfg p name requested ≡ chosen d
    → Served p (NodeKnown cfg) d
unfolding choose_explicit_node
choose_explicit_node-Served cfg p name requested d h = elim (Option-cases (lookup name cfg.nodes)) [
  | inl n ↦ let h' = rw (choose_explicit_node, n) at h in cc
  | inr (node, e) ↦ elim (Option-cases (or_model requested node.default_model)) [
    | inl n ↦ let h' = rw (choose_explicit_node, e, n) at h in cc
    | inr (model, m) ↦
        let known : KnownNode cfg name = λ n. (let e' = rw n at e in cc) in
        asked node e model m known
  ]
]
  where
    asked :
        (node : NodeConfig)
        → lookup name cfg.nodes ≡ some node
        → (model : Text) → or_model requested node.default_model ≡ some model
        → KnownNode cfg name
        → Served p (NodeKnown cfg) d
    asked node e model m known =
        let c = candidate name model (codes "explicit") in
        let tried = (candidate_model_running p c).1 ∷ [] in
        elim (Bool-cases (candidate_model_running p c).0) [
          | inl r ↦
              let h' = rw (choose_explicit_node, e, m, r) at h in
              subst (Served p (NodeKnown cfg)) (chosen_inj h')
                (record { served = inl (Running-true p c r, refl); known = known })
          | inr r ↦
              elim (Option-cases (choose_available_candidate p tried (codes "explicit_target"))) [
                | inl a ↦ let h' = rw (choose_explicit_node, e, m, r, a) at h in cc
                | inr (available, a) ↦
                    let h' = rw (choose_explicit_node, e, m, r, a) at h in
                    subst (Served p (NodeKnown cfg)) (chosen_inj h') (
                      Served-strategy p (NodeKnown cfg) available (codes "explicit") (
                        choose_available-Served p (NodeKnown cfg) (codes "explicit_target") tried
                          available (running_check-Holds p (NodeKnown cfg) c known, tt) a))
              ]
        ]

pub choose_local_agent-Served :
    (cfg : Config) (p : Probes) (requested : Option Text) (previous : Option Fields)
    (d : RouteDecision)
    → choose_local_agent cfg p requested previous ≡ chosen d
    → Served p (λ node model. node ≡ codes "local") d
unfolding choose_local_agent
choose_local_agent-Served cfg p requested previous d h =
    elim (Option-cases
      (or_model requested (or_model (previous_route_model previous) (single_local_model cfg)))) [
        | inl n ↦ let h' = rw (choose_local_agent, n) at h in cc
        | inr (model, m) ↦
            let c = candidate (codes "local") model (codes "local") in
            elim (Bool-cases (candidate_model_running p c).0) [
              | inl r ↦
                  let h' = rw (choose_local_agent, m, r) at h in
                  subst (Served p (λ node model. node ≡ codes "local")) (chosen_inj h')
                    (record { served = inl (Running-true p c r, refl); known = refl })
              | inr r ↦ let h' = rw (choose_local_agent, m, r) at h in cc
            ]
      ]
