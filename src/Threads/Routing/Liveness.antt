-- ===== src/Threads/Routing/Liveness.antt =====
-- Where some node can serve, `_choose_deterministic` returns a decision.
use llama_pack.Prelude.{
  true, ◌≡◌, refl, subst, ◌⊎◌, inl, inr, Option, none, some, [], Bool-cases, text_eq, text_eq_iff,
  text_has_eq, ◌||◌,
}
use llama_pack.Prelude.Dict.{lookup}
use llama_pack.Prelude.Json.{Fields}
use llama_pack.Prelude.Text.{Text, codes, strip_prefix}
use llama_pack.Threads.Routing.Probes.{
  Probes, NodeConfig, RequestRoute, Config, RouteDecision, Choice, chosen, error,
}
use llama_pack.Threads.Routing.Choice.{
  or_model, choose_request_type, choose_fallback, or_else, after_request_type, choose_auto,
  choose_deterministic,
}
use llama_pack.Threads.Routing.Served.{Running, Obtainable}
use llama_pack.Threads.Routing.Complete.{Unserved}
use llama_pack.Threads.Routing.Exhausted.{choose_request_type-none, choose_fallback-none}

-- What a configured node offers: the model of its route for the request type, or the model that a
-- fallback to it would use.
abbrev pub Offers : Config → Text → Option Text → Text → Text → Type 0
Offers cfg request_type requested name model =
    (node : NodeConfig) × (lookup name cfg.nodes ≡ some node)
    × (((route : RequestRoute) × (lookup request_type node.request_types ≡ some route)
          × (route.model ≡ model))
        ⊎ (or_model requested node.default_model ≡ some model))

or_else-error :
    (first : Option RouteDecision) (rest : Choice) (message : Text)
    → or_else first rest ≡ error message
    → (first ≡ none) × (rest ≡ error message)
unfolding or_else
or_else-error none rest message h = (refl, h)
or_else-error (some d) rest message h = cc

-- An error means that neither pass found anything.
choose_auto-error :
    (cfg : Config) (p : Probes) (request_type : Text) (requested : Option Text)
    (previous : Option Fields) (message : Text)
    → choose_auto cfg p request_type requested previous ≡ error message
    → (choose_request_type cfg p request_type ≡ none) × (choose_fallback cfg p requested ≡ none)
unfolding choose_auto after_request_type
choose_auto-error cfg p request_type requested previous message h =
    after (choose_request_type cfg p request_type) refl
      (or_else-error _ _ message (or_else-error _ _ message h).1).1
  where
    after :
        (o : Option RouteDecision)
        → choose_request_type cfg p request_type ≡ o
        → after_request_type cfg p request_type requested o ≡ error message
        → (choose_request_type cfg p request_type ≡ none) × (choose_fallback cfg p requested ≡ none)
    after (some d) e g = cc
    after none e g = (e, (or_else-error _ _ message g).0)

Choice-cases :
    (o : Choice) → ((d : RouteDecision) × (o ≡ chosen d)) ⊎ ((message : Text) × (o ≡ error message))
Choice-cases (chosen d) = inl (d, refl)
Choice-cases (error message) = inr (message, refl)

pub is_no_target :
    (target : Text)
    → (target ≡ []) ⊎ (target ≡ codes "auto")
    → (text_eq target [] || text_eq target (codes "auto")) ≡ true
is_no_target target (inl e) = rw ((text_eq_iff target []).1 e) refl
is_no_target target (inr e) = elim (Bool-cases (text_eq target [])) [
  | inl t ↦ rw t refl
  | inr f ↦ rw (f, (text_eq_iff target (codes "auto")).1 e) refl
]

pub no_node_prefix :
    (target : Text)
    → (target ≡ []) ⊎ (target ≡ codes "auto")
    → strip_prefix (codes "node:") target ≡ none
unfolding strip_prefix
no_node_prefix target (inl e) = rw e refl
no_node_prefix target (inr e) = rw e refl

-- In controller mode, with no target named, routing returns a decision wherever a configured node
-- offers a model that runs there or can be started there.
pub choose_deterministic-decides :
    (cfg : Config) (p : Probes) (request_type : Text) (requested : Option Text) (target : Text)
    (previous : Option Fields) (name model : Text)
    → cfg.mode ≡ codes "controller"
    → (target ≡ []) ⊎ (target ≡ codes "auto")
    → Offers cfg request_type requested name model
    → Running p name model ⊎ Obtainable p name model
    → (d : RouteDecision) × (choose_deterministic cfg p request_type requested target previous
        ≡ chosen d)
unfolding choose_deterministic
choose_deterministic-decides cfg p request_type requested target previous name model mode auto
      offers serves =
    elim (Choice-cases (choose_auto cfg p request_type requested previous)) [
      | inl (d, e) ↦ (
        d,
        rw
            (
              choose_deterministic,
              is_controller,
              no_node_prefix target auto,
              is_no_target target auto,
            )
            e,
      )
      | inr (message, e) ↦
          absurd (refuse (choose_auto-error cfg p request_type requested previous message e) offers)
    ]
  where
    is_controller : text_eq cfg.mode (codes "controller") ≡ true
    is_controller = (text_eq_iff cfg.mode (codes "controller")).1 mode

    unserved : Unserved p name model → ⊥
    unserved u = elim serves [ inl r ↦ u.0 r | inr o ↦ u.1 o ]

    refuse :
        (choose_request_type cfg p request_type ≡ none) × (choose_fallback cfg p requested ≡ none)
        → Offers cfg request_type requested name model
        → ⊥
    refuse (r, f) (node, e, inr m) =
        unserved (choose_fallback-none cfg p requested name node model f e m)
    refuse (r, f) (node, e, inl (route, has_route, m)) = unserved (
        subst (Unserved p name) m
          (choose_request_type-none cfg p request_type name node route r e has_route))
