-- ===== src/Threads/Routing/Fanout.antt =====
-- The fan-out targets of routing.py.
use llama_pack.Prelude.{
  ℕ, suc, ◌-◌, ◌≤◌, max, false, ◌≡◌, ◌≢◌, refl, inl, inr, List, [], ◌∷◌, All, arith, Bool-cases,
  text_eq, text_eq_iff, nat_eq, length, text_has_eq,
}
use llama_pack.Prelude.Int.{ℤ, pos, negsuc, pos_part}
use llama_pack.Prelude.Text.{Text}
use llama_pack.Threads.Routing.Probes.{Probes, Config, Candidate, candidate_model_running, Target}
use llama_pack.Threads.Routing.Choice.{
  fanout_loop, fanout_slots, collect_fanout_targets, request_type_candidates,
}
use llama_pack.Threads.Routing.Served.{Running, Holds, Running-true}
use llama_pack.Threads.Routing.Sources.{KnownNode, NodeKnown, request_type_candidates-known}

-- A fan-out target runs on a configured node other than the primary one.
abbrev pub GoodTarget : Config → Probes → Text → Target → Type 0
GoodTarget cfg p primary t = (t.node ≢ primary) × Running p t.node t.model × KnownNode cfg t.node

differs : (s t : Text) → text_eq s t ≡ false → s ≢ t
differs s t h e = let e' = (text_eq_iff s t).1 e in cc

module _ (cfg : Config) (p : Probes) (primary : Text) where
  fanout_loop-good :
      (slots : ℕ) (cs : List Candidate)
      → All (Holds (NodeKnown cfg)) cs
      → All (GoodTarget cfg p primary) (fanout_loop p primary slots cs)
  unfolding fanout_loop
  fanout_loop-good slots [] ks = tt
  fanout_loop-good slots (c ∷ cs) ks = elim (Bool-cases (nat_eq slots 0)) [
    | inl z ↦ rw (fanout_loop, z) tt
    | inr z ↦ elim (Bool-cases (text_eq c.node primary)) [
      | inl e ↦ rw (fanout_loop, z, e) (fanout_loop-good slots cs ks.1)
      | inr e ↦ elim (Bool-cases (candidate_model_running p c).0) [
        | inl r ↦
            rw (fanout_loop, z, e, r)
              (
                (differs c.node primary e, Running-true p c r, ks.0),
                fanout_loop-good (slots - 1) cs ks.1,
              )
        | inr r ↦ rw (fanout_loop, z, e, r) (fanout_loop-good slots cs ks.1)
      ]
    ]
  ]

  length-fanout_loop :
      (slots : ℕ) (cs : List Candidate) → length (fanout_loop p primary slots cs) ≤ slots
  unfolding fanout_loop
  length-fanout_loop slots [] = omega arith
  length-fanout_loop slots (c ∷ cs) = elim (Bool-cases (nat_eq slots 0)) [
    | inl z ↦ rw (fanout_loop, z) (omega arith)
    | inr z ↦ elim (Bool-cases (text_eq c.node primary)) [
      | inl e ↦ rw (fanout_loop, z, e) (length-fanout_loop slots cs)
      | inr e ↦ elim (Bool-cases (candidate_model_running p c).0) [
        | inl r ↦ rw (fanout_loop, z, e, r) (ground (arith, z, length-fanout_loop (slots - 1) cs))
        | inr r ↦ rw (fanout_loop, z, e, r) (length-fanout_loop slots cs)
      ]
    ]
  ]

  -- Fan-out targets run, each on a configured node other than the primary one, and with the primary
  -- decision they are at most routing_fanout_max, or one.
  pub collect_fanout_targets-good :
      (request_type : Text)
      → All (GoodTarget cfg p primary) (collect_fanout_targets cfg p primary request_type)
        × (suc (length (collect_fanout_targets cfg p primary request_type))
            ≤ max 1 (pos_part cfg.routing_fanout_max))
  unfolding collect_fanout_targets fanout_slots
  collect_fanout_targets-good request_type =
      let candidates = request_type_candidates cfg request_type in
      (
        fanout_loop-good (fanout_slots cfg) candidates
            (request_type_candidates-known cfg request_type),
        fits cfg.routing_fanout_max refl (length-fanout_loop (fanout_slots cfg) candidates),
      )
    where
      fits :
          (m : ℤ)
          → cfg.routing_fanout_max ≡ m
          → length (collect_fanout_targets cfg p primary request_type) ≤ fanout_slots cfg
          → suc (length (collect_fanout_targets cfg p primary request_type))
            ≤ max 1 (pos_part cfg.routing_fanout_max)
      fits (pos n) e h = let h' = rw (fanout_slots, e) at h in rw e (omega (arith, h'))
      fits (negsuc n) e h = let h' = rw (fanout_slots, e) at h in rw e (omega (arith, h'))
