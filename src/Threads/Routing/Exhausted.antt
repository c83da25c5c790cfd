-- ===== src/Threads/Routing/Exhausted.antt =====
-- Where the choices by request type and by fallback find nothing, no node serves what they ask for.
use llama_pack.Prelude.{
  some_inj, ◌≡◌, sym, ◌∙◌, subst, inl, inr, Option, none, some, List, [], ◌∷◌, map, All, Bool-cases,
  Option-cases, text_eq, text_eq_iff, text_has_eq, text_leb,
}
use llama_pack.Prelude.Dict.{Dict, lookup}
use llama_pack.Prelude.Text.{Text, codes}
use llama_pack.Prelude.Sorting.{sort_by-All}
use llama_pack.Threads.Routing.Probes.{
  Probes, NodeConfig, RequestRoute, Config, Candidate, candidate, candidate_model_running,
  before_in_order,
}
use llama_pack.Threads.Routing.Choice.{
  or_model, missed, routes_for, candidate_of, request_type_candidates, choose_request_type,
  fallback_loop, names_of, choose_fallback,
}
use llama_pack.Threads.Routing.Served.{Holds}
use llama_pack.Threads.Routing.Complete.{
  Unobtainable, Unserved, not-Running, All-back, missed_inj, running_check-before,
  running_loop-missed, decide_found-none,
}

All-map_back {ℓ κ μ} :
    {A : Type ℓ} {B : Type κ} (P : B → Type μ) (f : A → B) (xs : List A)
    → All P (map f xs)
    → All (λ a. P (f a)) xs
All-map_back P f [] h = tt
All-map_back P f (x ∷ xs) h = (h.0, All-map_back P f xs h.1)

-- What holds of every route holds of the one that a node has.
routes_for-pick :
    (P : Text → Text → Type 0) (request_type name : Text) (node : NodeConfig) (route : RequestRoute)
    (nodes : Dict Text NodeConfig)
    → All (λ r. P (candidate_of r).node (candidate_of r).model) (routes_for request_type nodes)
    → lookup name nodes ≡ some node
    → lookup request_type node.request_types ≡ some route
    → P name route.model
unfolding routes_for lookup
routes_for-pick P request_type name node route [] ps found_node has_route = cc
routes_for-pick P request_type name node route ((n, v) ∷ nodes) ps found_node has_route =
    elim (Bool-cases (text_eq n name)) [
      | inl e ↦
          let same : v ≡ node = some_inj (rw (lookup, e) at found_node) in
          let route_here : lookup request_type v.request_types ≡ some route = rw same has_route in
          let ps' = rw (routes_for, route_here) at ps in
          let named = (text_eq_iff n name).0 e in subst (λ m. P m route.model) named ps'.0
      | inr e ↦
          let later = rw (lookup, e) at found_node in
          elim (Option-cases (lookup request_type v.request_types)) [
            | inl m ↦
                let ps' = rw (routes_for, m) at ps in
                routes_for-pick P request_type name node route nodes ps' later has_route
            | inr (other, m) ↦
                let ps' = rw (routes_for, m) at ps in
                routes_for-pick P request_type name node route nodes ps'.1 later has_route
          ]
    ]

names_of-pick :
    (Q : Text → Type 0) (name : Text) (node : NodeConfig) (nodes : Dict Text NodeConfig)
    → All Q (names_of nodes)
    → lookup name nodes ≡ some node
    → Q name
unfolding lookup
names_of-pick Q name node [] qs h = cc
names_of-pick Q name node ((n, v) ∷ nodes) qs h = elim (Bool-cases (text_eq n name)) [
  | inl e ↦ subst Q ((text_eq_iff n name).0 e) qs.0
  | inr e ↦ let h' = rw (lookup, e) at h in names_of-pick Q name node nodes qs.1 h'
]

module _ (cfg : Config) (p : Probes) where
  pub choose_request_type-none :
      (request_type name : Text) (node : NodeConfig) (route : RequestRoute)
      → choose_request_type cfg p request_type ≡ none
      → lookup name cfg.nodes ≡ some node
      → lookup request_type node.request_types ≡ some route
      → Unserved p name route.model
  unfolding choose_request_type request_type_candidates
  choose_request_type-none request_type name node route h has_node has_route =
      let (l, e, ps) = decide_found-none p (codes "request_type") _ h in
      let none_serves = (running_loop-missed p (Unobtainable p) _ [] l e ps).1 in
      routes_for-pick (Unserved p) request_type name node route cfg.nodes
        (sort_by-All _ before_in_order _
          (All-map_back (Holds (Unserved p)) candidate_of _ none_serves))
        has_node has_route

  -- The fallback model of the node, if it has one, is not served.
  abbrev NoFallback : Option Text → Text → Type 0
  NoFallback requested name =
      (node : NodeConfig) (model : Text)
      → lookup name cfg.nodes ≡ some node
      → or_model requested node.default_model ≡ some model
      → Unserved p name model

  without_model :
      (requested : Option Text) (name : Text) (node : NodeConfig)
      → lookup name cfg.nodes ≡ some node
      → or_model requested node.default_model ≡ none
      → NoFallback requested name
  without_model requested name node e n node' model k m =
      let same : node ≡ node' = some_inj (sym e ∙ k) in
      let n' : or_model requested node'.default_model ≡ none = rw same at n in cc

  with_model :
      (requested : Option Text) (name : Text) (node : NodeConfig) (model : Text)
      → lookup name cfg.nodes ≡ some node
      → or_model requested node.default_model ≡ some model
      → Unserved p name model
      → NoFallback requested name
  with_model requested name node model e m u node' model' k m' =
      let same : node ≡ node' = some_inj (sym e ∙ k) in
      let m'' : or_model requested node'.default_model ≡ some model = rw same at m in
      subst (Unserved p name) (some_inj (sym m'' ∙ m')) u

  fallback_loop-missed :
      (requested : Option Text) (names : List Text) (before l : List Candidate)
      → fallback_loop cfg p requested before names ≡ missed l
      → All (Holds (Unobtainable p)) l
      → All (Holds (Unobtainable p)) before × All (NoFallback requested) names
  unfolding fallback_loop
  fallback_loop-missed requested [] before l h ps =
      (subst (All (Holds (Unobtainable p))) (missed_inj (sym h)) ps, tt)
  fallback_loop-missed requested (name ∷ names) before l h ps =
      elim (Option-cases (lookup name cfg.nodes)) [
        | inl n ↦
            let rest =
              fallback_loop-missed requested names before l (rw (fallback_loop, n) at h) ps in
            (rest.0, ((λ node model k m. (let k' = rw n at k in cc)), rest.1))
        | inr (node, e) ↦ elim (Option-cases (or_model requested node.default_model)) [
          | inl n ↦
              let rest =
                fallback_loop-missed requested names before l (rw (fallback_loop, e, n) at h) ps in
              (rest.0, (without_model requested name node e n, rest.1))
          | inr (model, m) ↦
              let c = candidate name model (codes "fallback") in
              elim (Bool-cases (candidate_model_running p c).0) [
                | inl r ↦ let h' = rw (fallback_loop, e, m, r) at h in cc
                | inr r ↦
                    let rest =
                      fallback_loop-missed requested names _ l (rw (fallback_loop, e, m, r) at h)
                        ps in
                    let back = All-back (Holds (Unobtainable p)) before _ rest.0 in
                    let u : Unserved p name model =
                      (not-Running p c r, running_check-before p (Unobtainable p) c back.1) in
                    (back.0, (with_model requested name node model e m u, rest.1))
              ]
        ]
      ]

  pub choose_fallback-none :
      (requested : Option Text) (name : Text) (node : NodeConfig) (model : Text)
      → choose_fallback cfg p requested ≡ none
      → lookup name cfg.nodes ≡ some node
      → or_model requested node.default_model ≡ some model
      → Unserved p name model
  unfolding choose_fallback
  choose_fallback-none requested name node model h e m =
      let (l, missed_all, ps) = decide_found-none p (codes "fallback") _ h in
      let none_serves = (fallback_loop-missed requested _ [] l missed_all ps).1 in
      names_of-pick (NoFallback requested) name node cfg.nodes
        (sort_by-All (NoFallback requested) text_leb _ none_serves) e node model e m
