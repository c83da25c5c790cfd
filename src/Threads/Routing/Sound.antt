-- ===== src/Threads/Routing/Sound.antt =====
-- The decisions of `_choose_deterministic` as a whole.
use llama_pack.Prelude.{
  true, false, ◌≡◌, refl, ap, subst, ◌⊎◌, inl, inr, Option, none, some, [], Bool-cases,
  Option-cases, text_eq, text_eq_iff, text_has_eq, if◌then◌else◌, ◌||◌,
}
use llama_pack.Prelude.Json.{Fields}
use llama_pack.Prelude.Text.{Text, codes, strip_prefix}
use llama_pack.Threads.Routing.Probes.{Probes, Config, RouteDecision, Choice, chosen}
use llama_pack.Threads.Routing.Choice.{
  choose_request_type, choose_fallback, names_profile, or_else, with_fanout, choose_auto,
  choose_deterministic, after_request_type,
}
use llama_pack.Threads.Routing.Served.{Running, Obtainable, Served}
use llama_pack.Threads.Routing.Sources.{
  KnownNode, NodeKnown, choose_request_type-Served, choose_fallback-Served,
}
use llama_pack.Threads.Routing.Decided.{
  chosen_inj, choose_thread_affinity-Served, choose_explicit_node-Served, choose_local_agent-Served,
}

-- Where a decision may lead: in controller mode to a node that is configured, else to this one.
abbrev pub Routable : Config → Text → Text → Type 0
Routable cfg node model =
    ((cfg.mode ≡ codes "controller") × KnownNode cfg node) ⊎ (node ≡ codes "local")

-- The model runs or can be started, and the node may be routed to.
abbrev pub Backed : Config → Probes → RouteDecision → Type 0
Backed cfg p d =
    (Running p d.node d.model ⊎ Obtainable p d.node d.model) × Routable cfg d.node d.model

Served-weaken :
    (p : Probes) (P Q : Text → Text → Type 0) (d : RouteDecision)
    → ((node model : Text) → P node model → Q node model)
    → Served p P d
    → Served p Q d
Served-weaken p P Q d weaken s = record { served = s.served; known = weaken _ _ s.known }

Served-Backed :
    (cfg : Config) (p : Probes) (d : RouteDecision) → Served p (Routable cfg) d → Backed cfg p d
Served-Backed cfg p d s = (elim s.served [ inl (r, e) ↦ inl r | inr (o, e) ↦ inr o ], s.known)

or_else-chosen :
    (first : Option RouteDecision) (rest : Choice) (d : RouteDecision)
    → or_else first rest ≡ chosen d
    → (first ≡ some d) ⊎ ((first ≡ none) × (rest ≡ chosen d))
unfolding or_else
or_else-chosen none rest d h = inr (refl, h)
or_else-chosen (some e) rest d h = inl (ap some (chosen_inj h))

-- What holds of all that is served, and is kept where fan-out targets are added, holds of the
-- decision.
module _ (cfg : Config) (p : Probes) (request_type : Text) (Q : RouteDecision → Type 0)
    (serves : (d : RouteDecision) → Served p (NodeKnown cfg) d → Q d)
    (fans : (d : RouteDecision)
      → Served p (NodeKnown cfg) d
      → Q (with_fanout cfg p request_type d)) where
  after_request_type-Q :
      (requested : Option Text) (o : Option RouteDecision) (d : RouteDecision)
      → choose_request_type cfg p request_type ≡ o
      → after_request_type cfg p request_type requested o ≡ chosen d
      → Q d
  unfolding after_request_type
  after_request_type-Q requested (some e) d q h =
      subst Q (chosen_inj h) (fans e (choose_request_type-Served cfg p request_type e q))
  after_request_type-Q requested none d q h =
      elim (or_else-chosen (choose_fallback cfg p requested) _ d h) [
        | inl e ↦ serves d (choose_fallback-Served cfg p requested d e)
        | inr (n, e) ↦ cc
      ]

  choose_auto-Q :
      (requested : Option Text) (previous : Option Fields) (d : RouteDecision)
      → choose_auto cfg p request_type requested previous ≡ chosen d
      → Q d
  unfolding choose_auto
  choose_auto-Q requested previous d h = elim (or_else-chosen _ _ d h) [
    | inl e ↦ serves d (choose_thread_affinity-Served cfg p previous d e)
    | inr (n, e) ↦ elim (or_else-chosen _ _ d e) [
      | inl f ↦ profile f
      | inr (m, f) ↦ after_request_type-Q requested _ d refl f
    ]
  ]
    where
      profile :
          (if names_profile requested then choose_fallback cfg p requested else none) ≡ some d → Q d
      profile f = elim (Bool-cases (names_profile requested)) [
        | inl t ↦ let f' = rw t at f in serves d (choose_fallback-Served cfg p requested d f')
        | inr t ↦ let f' = rw t at f in cc
      ]

  choose_deterministic-Q :
      (requested : Option Text) (target : Text) (previous : Option Fields) (d : RouteDecision)
      → cfg.mode ≡ codes "controller"
      → choose_deterministic cfg p request_type requested target previous ≡ chosen d
      → Q d
  unfolding choose_deterministic
  choose_deterministic-Q requested target previous d mode h =
      elim (Option-cases (strip_prefix (codes "node:") target)) [
        | inr (name, e) ↦
            let h' = rw (choose_deterministic, is_controller, e) at h in
            serves d (choose_explicit_node-Served cfg p name requested d h')
        | inl n ↦ elim (Bool-cases (text_eq target [] || text_eq target (codes "auto"))) [
          | inl a ↦
              let h' = rw (choose_deterministic, is_controller, n, a) at h in
              choose_auto-Q requested previous d h'
          | inr a ↦ let h' = rw (choose_deterministic, is_controller, n, a) at h in cc
        ]
      ]
    where
      is_controller : text_eq cfg.mode (codes "controller") ≡ true
      is_controller = (text_eq_iff cfg.mode (codes "controller")).1 mode

-- Where fan-out is off, a decision rests on what was asked: the model runs on the node and no start
-- is needed, or it can be started there and a start is needed; and the node may be routed to.
pub choose_deterministic-Served :
    (cfg : Config) (p : Probes) (request_type : Text) (requested : Option Text) (target : Text)
    (previous : Option Fields) (d : RouteDecision)
    → cfg.routing_fanout_enabled ≡ false
    → choose_deterministic cfg p request_type requested target previous ≡ chosen d
    → Served p (Routable cfg) d
unfolding choose_deterministic
choose_deterministic-Served cfg p request_type requested target previous d off h =
    elim (Bool-cases (text_eq cfg.mode (codes "controller"))) [
      | inl t ↦
          let mode = (text_eq_iff cfg.mode (codes "controller")).0 t in
          Served-weaken p (NodeKnown cfg) (Routable cfg) d (λ node model k. inl (mode, k))
            (choose_deterministic-Q cfg p request_type (Served p (NodeKnown cfg)) (λ e s. s)
              (λ e s. rw off s) requested target previous d mode h)
      | inr f ↦
          let h' = rw (choose_deterministic, f) at h in
          Served-weaken p _ (Routable cfg) d (λ node model k. inr k)
            (choose_local_agent-Served cfg p requested previous d h')
    ]

-- With or without fan-out, the model of a decision runs on its node or can be started there, and the
-- node is one that is configured in controller mode, else this node.
pub choose_deterministic-Backed :
    (cfg : Config) (p : Probes) (request_type : Text) (requested : Option Text) (target : Text)
    (previous : Option Fields) (d : RouteDecision)
    → choose_deterministic cfg p request_type requested target previous ≡ chosen d
    → Backed cfg p d
unfolding choose_deterministic
choose_deterministic-Backed cfg p request_type requested target previous d h =
    elim (Bool-cases (text_eq cfg.mode (codes "controller"))) [
      | inl t ↦
          let mode = (text_eq_iff cfg.mode (codes "controller")).0 t in
          choose_deterministic-Q cfg p request_type (Backed cfg p) (known mode) (fanned mode)
            requested target previous d mode h
      | inr f ↦
          let h' = rw (choose_deterministic, f) at h in
          Served-Backed cfg p d (
            Served-weaken p _ (Routable cfg) d (λ node model k. inr k)
              (choose_local_agent-Served cfg p requested previous d h'))
    ]
  where
    known :
        cfg.mode ≡ codes "controller"
        → (e : RouteDecision) → Served p (NodeKnown cfg) e
        → Backed cfg p e
    known mode e s =
        Served-Backed cfg p e
          (Served-weaken p (NodeKnown cfg) (Routable cfg) e (λ node model k. inl (mode, k)) s)

    fanned :
        cfg.mode ≡ codes "controller"
        → (e : RouteDecision) → Served p (NodeKnown cfg) e
        → Backed cfg p (with_fanout cfg p request_type e)
    fanned mode e s = elim (Bool-cases cfg.routing_fanout_enabled) [
      | inl t ↦ rw t (known mode e s)
      | inr f ↦ rw f (known mode e s)
    ]
