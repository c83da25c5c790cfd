-- ===== src/Threads/Routing/Sources.antt =====
-- Where the candidates of routing.py come from, and what each choice of `_choose_deterministic`
-- rests on.
use llama_pack.Prelude.{
  All-append, ◌≡◌, ◌≢◌, refl, inl, inr, Option, none, some, List, [], ◌∷◌, map, All, Bool-cases,
  Option-cases, text_eq, text_eq_iff, text_has_eq,
}
use llama_pack.Prelude.Dict.{Dict, lookup}
use llama_pack.Prelude.Sorting.{All-sort_by, All-map}
use llama_pack.Prelude.Text.{Text, codes}
use llama_pack.Threads.Routing.Probes.{
  Probes, NodeConfig, Config, Candidate, candidate, candidate_model_running, before_in_order,
  RouteDecision,
}
use llama_pack.Threads.Routing.Choice.{
  or_model, Found, found, missed, routes_for, candidate_of, request_type_candidates,
  choose_request_type, fallback_loop, names_of, choose_fallback, decide_found,
}
use llama_pack.Threads.Routing.Served.{
  Served, Holds, FoundOne, Running-found, running_check-Holds, running_loop-FoundOne, Served-eq,
}
use llama_pack.Threads.Routing.Presence.{choose_available-Served}

abbrev pub KnownNode : Config → Text → Type 0
KnownNode cfg node = lookup node cfg.nodes ≢ none

-- The node of a candidate is known.
abbrev pub NodeKnown : Config → Text → Text → Type 0
NodeKnown cfg node model = KnownNode cfg node

lookup_first :
    (name : Text) (node : NodeConfig) (rest : Dict Text NodeConfig)
    → lookup name ((name, node) ∷ rest) ≢ none
unfolding lookup
lookup_first name node rest h =
    let e = (text_eq_iff name name).1 refl in let h' = rw (lookup, e) at h in cc

lookup_later :
    (asked name : Text) (node : NodeConfig) (rest : Dict Text NodeConfig)
    → lookup asked rest ≢ none
    → lookup asked ((name, node) ∷ rest) ≢ none
unfolding lookup
lookup_later asked name node rest h e = elim (Bool-cases (text_eq name asked)) [
  | inl t ↦ let e' = rw (lookup, t) at e in cc
  | inr f ↦ let e' = rw (lookup, f) at e in h e'
]

names_known :
    (nodes : Dict Text NodeConfig) → All (λ name. lookup name nodes ≢ none) (names_of nodes)
names_known [] = tt
names_known ((name, node) ∷ rest) = (
  lookup_first name node rest,
  All-map (λ asked h. lookup_later asked name node rest h) (names_of rest) (names_known rest),
)

routes_for-All :
    (Q : Text → Type 0) (request_type : Text) (nodes : Dict Text NodeConfig)
    → All Q (names_of nodes)
    → All (λ route. Q (candidate_of route).node) (routes_for request_type nodes)
unfolding routes_for
routes_for-All Q request_type [] qs = tt
routes_for-All Q request_type ((name, node) ∷ rest) qs =
    elim (Option-cases (lookup request_type node.request_types)) [
      | inl n ↦ rw (routes_for, n) (routes_for-All Q request_type rest qs.1)
      | inr (route, e) ↦ rw (routes_for, e) (qs.0, routes_for-All Q request_type rest qs.1)
    ]

All-map_of {ℓ κ μ} :
    {A : Type ℓ} {B : Type κ} (P : B → Type μ) (f : A → B) (xs : List A)
    → All (λ a. P (f a)) xs
    → All P (map f xs)
All-map_of P f [] h = tt
All-map_of P f (x ∷ xs) h = (h.0, All-map_of P f xs h.1)

pub request_type_candidates-known :
    (cfg : Config) (request_type : Text)
    → All (Holds (NodeKnown cfg)) (request_type_candidates cfg request_type)
unfolding request_type_candidates
request_type_candidates-known cfg request_type = All-map_of (Holds (NodeKnown cfg)) candidate_of _ (
    All-sort_by (λ route. KnownNode cfg (candidate_of route).node) before_in_order _
      (routes_for-All (KnownNode cfg) request_type cfg.nodes (names_known cfg.nodes)))

-- What one of the two passes finds is served.
pub decide_found-Served :
    (p : Probes) (P : Text → Text → Type 0) (reason : Text) (f : Found) (d : RouteDecision)
    → FoundOne p P f
    → decide_found p reason f ≡ some d
    → Served p P d
unfolding decide_found
decide_found-Served p P reason (found c candidates) d (r, k) h =
    Served-eq p P _ d h (record { served = inl (r, refl); known = k })
decide_found-Served p P reason (missed candidates) d ps h =
    choose_available-Served p P reason candidates d ps h

fallback_loop-FoundOne :
    (cfg : Config) (p : Probes) (requested : Option Text) (names : List Text)
    (before : List Candidate)
    → All (Holds (NodeKnown cfg)) before
    → FoundOne p (NodeKnown cfg) (fallback_loop cfg p requested before names)
unfolding fallback_loop
fallback_loop-FoundOne cfg p requested [] before bs = bs
fallback_loop-FoundOne cfg p requested (name ∷ names) before bs =
    elim (Option-cases (lookup name cfg.nodes)) [
      | inl n ↦ rw (fallback_loop, n) (fallback_loop-FoundOne cfg p requested names before bs)
      | inr (node, e) ↦ elim (Option-cases (or_model requested node.default_model)) [
        | inl m ↦ rw (fallback_loop, e, m) (fallback_loop-FoundOne cfg p requested names before bs)
        | inr (model, m) ↦
            let c = candidate name model (codes "fallback") in
            let known : KnownNode cfg name = λ n. (let e' = rw n at e in cc) in
            elim (Bool-cases (candidate_model_running p c).0) [
              | inl r ↦
                  rw (fallback_loop, e, m, r)
                    (
                      Running-found p (NodeKnown cfg) c r,
                      running_check-Holds p (NodeKnown cfg) c known,
                    )
              | inr r ↦
                  rw (fallback_loop, e, m, r)
                    (fallback_loop-FoundOne cfg p requested names _ (
                      All-append (Holds (NodeKnown cfg)) before _ bs
                        (running_check-Holds p (NodeKnown cfg) c known)))
            ]
      ]
    ]

pub choose_request_type-Served :
    (cfg : Config) (p : Probes) (request_type : Text) (d : RouteDecision)
    → choose_request_type cfg p request_type ≡ some d
    → Served p (NodeKnown cfg) d
unfolding choose_request_type
choose_request_type-Served cfg p request_type d h =
    decide_found-Served p (NodeKnown cfg) (codes "request_type") _ d
      (running_loop-FoundOne p (NodeKnown cfg) (request_type_candidates cfg request_type) [] tt
        (request_type_candidates-known cfg request_type))
      h

pub choose_fallback-Served :
    (cfg : Config) (p : Probes) (requested : Option Text) (d : RouteDecision)
    → choose_fallback cfg p requested ≡ some d
    → Served p (NodeKnown cfg) d
unfolding choose_fallback
choose_fallback-Served cfg p requested d h =
    decide_found-Served p (NodeKnown cfg) (codes "fallback") _ d
      (fallback_loop-FoundOne cfg p requested _ [] tt) h
