-- ===== src/Threads/Routing/Order.antt =====
-- Which of the running models of a request type is chosen: the least by (priority, node).
use mathlib.Core.List.{Mem, mem-cons_self, mem-cons_of_mem}
use llama_pack.Prelude.{
  some_inj, ◌+◌, ◌<◌, text_leb, true, false, ◌≡◌, sym, ◌∙◌, ap, ◌⊎◌, inl, inr, some, List, [], ◌∷◌,
  map, All, arith, Bool-cases, sort_by, Sorted,
}
use llama_pack.Prelude.Int.{ℤ, pos_part, neg_part}
use llama_pack.Prelude.Sorting.{
  text_leb_total, text_leb_trans, All-sort_by, sort_by-All, sort_by-Sorted, All-map,
}
use llama_pack.Prelude.Text.{Text, codes}
use llama_pack.Threads.Routing.Probes.{
  Probes, Config, Candidate, candidate_model_running, before_in_order, RouteDecision,
}
use llama_pack.Threads.Routing.Choice.{
  Found, found, missed, running_loop, decide_found, routes_for, candidate_of,
  request_type_candidates, choose_request_type,
}
use llama_pack.Threads.Routing.Served.{Running, running_check-same}
use llama_pack.Threads.Routing.Startup.{choose_available-startup}
use llama_pack.Threads.Routing.Complete.{not-Running}

before_total : (a b : ℤ × Candidate) → before_in_order a b ≡ false → before_in_order b a ≡ true
unfolding before_in_order
before_total (i, a) (j, b) h = ground (arith, h, text_leb_total a.node b.node)

before_trans :
    (a b c : ℤ × Candidate)
    → before_in_order a b ≡ true
    → before_in_order b c ≡ true
    → before_in_order a c ≡ true
unfolding before_in_order
before_trans (i, a) (j, b) (k, c) p q = ground (arith, text_leb_trans a.node b.node c.node, p, q)

All-self {ℓ} : {A : Type ℓ} (xs : List A) → All (λ x. Mem x xs) xs
All-self [] = tt
All-self (x ∷ xs) = (mem-cons_self, All-map (λ y h. mem-cons_of_mem x h) xs (All-self xs))

-- The model of a route, at its node, is reported to run.
abbrev pub RouteRuns : Probes → ℤ × Candidate → Type 0
RouteRuns p r = Running p (candidate_of r).node (candidate_of r).model

-- No route that runs is sorted before this one.
abbrev Least : Probes → ℤ × Candidate → List (ℤ × Candidate) → Type 0
Least p r routes = All (λ other. (before_in_order r other ≡ true) ⊎ (¬ (RouteRuns p other))) routes

-- What the loop over a sorted list finds.
abbrev FirstFound : Probes → (ℤ × Candidate → Type 0) → List (ℤ × Candidate) → Found → Type 0
FirstFound p P routes (found c cs) =
    (r : ℤ × Candidate) × P r
    × (c.node ≡ (candidate_of r).node)
    × (c.model ≡ (candidate_of r).model)
    × Least p r routes
FirstFound p P routes (missed cs) = Unit

before_refl : (r : ℤ × Candidate) → before_in_order r r ≡ true
before_refl r = elim (Bool-cases (before_in_order r r)) [ inl e ↦ e | inr e ↦ before_total r r e ]

module _ (p : Probes) (P : ℤ × Candidate → Type 0) where
  add_stopped :
      (r : ℤ × Candidate) (routes : List (ℤ × Candidate)) (f : Found)
      → ¬ (RouteRuns p r)
      → FirstFound p P routes f
      → FirstFound p P (r ∷ routes) f
  add_stopped r routes (found c cs) n (first, h, node, model, least) =
      (first, h, node, model, (inr n, least))
  add_stopped r routes (missed cs) n h = tt

  running_loop-FirstFound :
      (routes : List (ℤ × Candidate)) (before : List Candidate)
      → Sorted before_in_order routes
      → All P routes
      → FirstFound p P routes (running_loop p before (map candidate_of routes))
  unfolding running_loop
  running_loop-FirstFound [] before s ps = tt
  running_loop-FirstFound (r ∷ routes) before s ps =
      elim (Bool-cases (candidate_model_running p (candidate_of r)).0) [
        | inl e ↦
            let same = running_check-same p (candidate_of r) in
            rw (running_loop, e)
              (
                r,
                ps.0,
                same.0,
                same.1,
                (inl (before_refl r), All-map (λ other b. inl b) routes s.0),
              )
        | inr e ↦
            rw (running_loop, e)
              (add_stopped r routes _ (not-Running p (candidate_of r) e)
                (running_loop-FirstFound routes _ s.1 ps.1))
      ]

decide_found-First :
    (p : Probes) (P : ℤ × Candidate → Type 0) (routes : List (ℤ × Candidate)) (f : Found)
    (reason : Text) (d : RouteDecision)
    → d.startup_needed ≡ false
    → FirstFound p P routes f
    → decide_found p reason f ≡ some d
    → (r : ℤ × Candidate) × P r
      × (d.node ≡ (candidate_of r).node)
      × (d.model ≡ (candidate_of r).model)
      × Least p r routes
unfolding decide_found
decide_found-First p P routes (found c cs) reason d off (r, in_routes, node, model, first) h =
    let same = some_inj h in
    (r, in_routes, sym (ap (λ o. o.node) same) ∙ node, sym (ap (λ o. o.model) same) ∙ model, first)
decide_found-First p P routes (missed cs) reason d off t h =
    let on = choose_available-startup p reason cs d h in cc

-- A smaller priority, or the same and a node that is not after the other in the order of texts.
abbrev pub Precedes : ℤ × Candidate → ℤ × Candidate → Type 0
Precedes r s =
    (pos_part r.0 + neg_part s.0 < pos_part s.0 + neg_part r.0)
    ⊎ ((pos_part r.0 + neg_part s.0 ≡ pos_part s.0 + neg_part r.0)
        × (text_leb r.1.node s.1.node ≡ true))

before-Precedes : (r s : ℤ × Candidate) → before_in_order r s ≡ true → Precedes r s
unfolding before_in_order
before-Precedes (i, a) (j, b) h = ground (arith, h)

-- A route comes first: it precedes every other one that runs.
abbrev pub First : Probes → ℤ × Candidate → List (ℤ × Candidate) → Type 0
First p r routes = All (λ other. Precedes r other ⊎ (¬ (RouteRuns p other))) routes

Least-First :
    (p : Probes) (r : ℤ × Candidate) (routes : List (ℤ × Candidate))
    → Least p r routes
    → First p r routes
Least-First p r routes h = All-map (λ other o. step other o) routes h
  where
    step :
        (other : ℤ × Candidate)
        → (before_in_order r other ≡ true) ⊎ (¬ (RouteRuns p other))
        → Precedes r other ⊎ (¬ (RouteRuns p other))
    step other (inl b) = inl (before-Precedes r other b)
    step other (inr n) = inr n

-- Where a choice by request type needs no start, it is for a route of that type whose model runs, and
-- it precedes every route of that type whose model runs: by its priority, or at the same
-- priority by its node.
pub choose_request_type-First :
    (cfg : Config) (p : Probes) (request_type : Text) (d : RouteDecision)
    → choose_request_type cfg p request_type ≡ some d
    → d.startup_needed ≡ false
    → (r : ℤ × Candidate) × Mem r (routes_for request_type cfg.nodes)
      × (d.node ≡ (candidate_of r).node)
      × (d.model ≡ (candidate_of r).model)
      × First p r (routes_for request_type cfg.nodes)
unfolding choose_request_type request_type_candidates
choose_request_type-First cfg p request_type d h off =
    let routes = routes_for request_type cfg.nodes in
    let sorted = sort_by-Sorted before_in_order before_total before_trans routes in
    let members = All-sort_by (λ r. Mem r routes) before_in_order routes (All-self routes) in
    let (r, member, node, model, first) =
      decide_found-First p (λ r. Mem r routes) (sort_by before_in_order routes) _
        (codes "request_type") d off
        (running_loop-FirstFound p (λ r. Mem r routes) _ [] sorted members) h in
    (r, member, node, model, Least-First p r routes (sort_by-All _ before_in_order routes first))
