-- ===== src/Threads/Routing/Presence.antt =====
-- The scored availability pass of routing.py: what `_choose_available_candidate` picks where it can
-- ask for the presence of a model's files.
use llama_pack.Prelude.{
  some_inj, ℕ, zero, suc, ◌+◌, true, ◌≡◌, refl, sym, ◌∙◌, ap, subst, ◌⊎◌, inl, inr, Option, none,
  some, List, [], ◌∷◌, map, All, arith, Bool-cases, Option-cases, text_eq_iff, get_elem?,
}
use llama_pack.Prelude.Text.{Text, codes}
use llama_pack.Threads.Routing.Probes.{
  CheckResult, returned, Probes, Candidate, candidate_artifact_presence, get_artifact_presence,
  RouteDecision,
}
use llama_pack.Threads.Routing.Availability.{
  has_state, best_or, presence_loop, best_of, decide_present, choose_present,
  choose_available_candidate,
}
use llama_pack.Threads.Routing.Served.{
  Served, answered-some, answered-same, Holds, Served-eq, available_loop-Served,
}

-- One round of the loop.
abbrev pub scanned : Probes → Candidate → Candidate
scanned p c = record (candidate_artifact_presence p c).1 {
  artifact_state = some (candidate_artifact_presence p c).0;
}

pub scanned-same :
    (p : Probes) (c : Candidate) → ((scanned p c).node ≡ c.node) × ((scanned p c).model ≡ c.model)
unfolding candidate_artifact_presence
scanned-same p c = answered-same none (codes "artifact_presence") _ c

-- The index of the first candidate with that state, from `index` on, if none was found before.
unfoldable pub first_index : Text → Probes → ℕ → Option ℕ → List Candidate → Option ℕ
first_index state p index best [] = best
first_index state p index best (c ∷ cs) =
    first_index state p (suc index) (best_or best (candidate_artifact_presence p c).0 state index)
      cs

pub presence_loop-registered :
    (p : Probes) (index : ℕ) (r g : Option ℕ) (cs : List Candidate)
    → (presence_loop p index r g cs).best_registered ≡ first_index (codes "registered") p index r cs
unfolding presence_loop first_index
presence_loop-registered p index r g [] = refl
presence_loop-registered p index r g (c ∷ cs) = presence_loop-registered p (suc index) _ _ cs

pub presence_loop-gguf :
    (p : Probes) (index : ℕ) (r g : Option ℕ) (cs : List Candidate)
    → (presence_loop p index r g cs).best_gguf ≡ first_index (codes "gguf_present") p index g cs
unfolding presence_loop first_index
presence_loop-gguf p index r g [] = refl
presence_loop-gguf p index r g (c ∷ cs) = presence_loop-gguf p (suc index) _ _ cs

pub presence_loop-candidates :
    (p : Probes) (index : ℕ) (r g : Option ℕ) (cs : List Candidate)
    → (presence_loop p index r g cs).candidates ≡ map (scanned p) cs
unfolding presence_loop
presence_loop-candidates p index r g [] = refl
presence_loop-candidates p index r g (c ∷ cs) =
    ap (λ l. scanned p c ∷ l) (presence_loop-candidates p (suc index) _ _ cs)

-- There is such a candidate, and its presence is the state.
abbrev pub At : Probes → Text → ℕ → List Candidate → Type 0
At p state k cs =
    (c : Candidate) × (get_elem? (map (scanned p) cs) k ≡ some (scanned p c))
    × ((candidate_artifact_presence p c).0 ≡ some state)
    × (get_elem? cs k ≡ some c)

has_state-some : (o : Option Text) (state : Text) → has_state o state ≡ true → o ≡ some state
unfolding has_state
has_state-some none state h = cc
has_state-some (some s) state h = ap some ((text_eq_iff s state).0 h)

first_index-At :
    (state : Text) (p : Probes) (cs : List Candidate) (index : ℕ) (best : Option ℕ) (i : ℕ)
    → first_index state p index best cs ≡ some i
    → (best ≡ some i) ⊎ ((k : ℕ) × (i ≡ index + k) × At p state k cs)
unfolding first_index best_or
first_index-At state p [] index best i h = inl h
first_index-At state p (c ∷ cs) index best i h = step (first_index-At state p cs (suc index) _ i h)
  where
    step :
        (best_or best (candidate_artifact_presence p c).0 state index ≡ some i)
          ⊎ ((k : ℕ) × (i ≡ suc index + k) × At p state k cs)
        → (best ≡ some i) ⊎ ((k : ℕ) × (i ≡ index + k) × At p state k (c ∷ cs))
    step (inr (k, e, a)) = inr (suc k, omega (arith, e), a)
    step (inl e) = here best refl e
      where
        here :
            (b : Option ℕ)
            → best ≡ b
            → best_or b (candidate_artifact_presence p c).0 state index ≡ some i
            → (best ≡ some i) ⊎ ((k : ℕ) × (i ≡ index + k) × At p state k (c ∷ cs))
        here (some j) q e = inl (q ∙ e)
        here none q e = elim (Bool-cases (has_state (candidate_artifact_presence p c).0 state)) [
          | inl t ↦
              let e' = rw (best_or, t) at e in
              inr (
                zero,
                omega (arith, some_inj e'),
                (c, refl, has_state-some (candidate_artifact_presence p c).0 state t, refl),
              )
          | inr f ↦ let e' = rw (best_or, f) at e in cc
        ]

-- The scan from the start finds candidates with these states.
pub scan_from_start-At :
    (state : Text) (p : Probes) (cs : List Candidate) (i : ℕ)
    → first_index state p zero none cs ≡ some i
    → At p state i cs
scan_from_start-At state p cs i h = elim (first_index-At state p cs zero none i h) [
  | inl e ↦ cc
  | inr (k, e, a) ↦ subst (λ j. At p state j cs) (omega (arith, e)) a
]

pub best_of-At :
    (p : Probes) (cs : List Candidate) (i : ℕ)
    → best_of (presence_loop p zero none none cs) ≡ some i
    → At p (codes "registered") i cs ⊎ At p (codes "gguf_present") i cs
unfolding best_of
best_of-At p cs i h = elim (Option-cases (presence_loop p zero none none cs).best_registered) [
  | inl n ↦
      let h' = rw (best_of, n, presence_loop-gguf p zero none none cs) at h in
      inr (scan_from_start-At _ p cs i h')
  | inr (j, e) ↦
      let h' : some j ≡ some i = rw (best_of, e) at h in
      let f = sym (presence_loop-registered p zero none none cs) ∙ e ∙ h' in
      inl (scan_from_start-At _ p cs i f)
]

get_elem-All {ℓ κ} :
    {A : Type ℓ} (P : A → Type κ) (xs : List A) (k : ℕ) (x : A)
    → All P xs
    → get_elem? xs k ≡ some x
    → P x
get_elem-All P [] k x ps h = cc
get_elem-All P (y ∷ ys) zero x ps h = subst P (some_inj h) ps.0
get_elem-All P (y ∷ ys) (suc k) x ps h = get_elem-All P ys k x ps.1 h

module _ (p : Probes) (P : Text → Text → Type 0) (probe : Text → Text → CheckResult (Option Text))
    (asks : p.model_artifact_presence ≡ some probe) where
  pub presence_some :
      (state : Text) (c : Candidate)
      → (candidate_artifact_presence p c).0 ≡ some state
      → probe c.node c.model ≡ returned (some state)
  unfolding candidate_artifact_presence get_artifact_presence
  presence_some state c h =
      let h' = answered-some (codes "artifact_presence") state _ c h in
      rw (get_artifact_presence, asks) at h'

  decide_present-Served :
      (prefix : Text) (cs : List Candidate) (index : ℕ) (c : Candidate)
      → (probe c.node c.model ≡ returned (some (codes "registered")))
        ⊎ (probe c.node c.model ≡ returned (some (codes "gguf_present")))
      → Holds P c
      → Served p P (decide_present p prefix cs index (scanned p c))
  unfolding decide_present candidate_artifact_presence
  decide_present-Served prefix cs index c o h =
      let same =
        answered-same none (codes "artifact_presence") (get_artifact_presence p c.node c.model) c in
      record { served = inr (rw (same.0, same.1, asks) o, refl); known = rw (same.0, same.1) h }

  At-probe :
      (i : ℕ) (cs : List Candidate)
      → At p (codes "registered") i cs ⊎ At p (codes "gguf_present") i cs
      → (c : Candidate) × (get_elem? (map (scanned p) cs) i ≡ some (scanned p c))
        × ((probe c.node c.model ≡ returned (some (codes "registered")))
            ⊎ (probe c.node c.model ≡ returned (some (codes "gguf_present"))))
        × (get_elem? cs i ≡ some c)
  At-probe i cs (inl (c, e, s, f)) = (c, e, inl (presence_some _ c s), f)
  At-probe i cs (inr (c, e, s, f)) = (c, e, inr (presence_some _ c s), f)

  pub choose_present-Served :
      (prefix : Text) (cs : List Candidate) (d : RouteDecision)
      → All (Holds P) cs
      → choose_present p prefix cs ≡ some d
      → Served p P d
  unfolding choose_present
  choose_present-Served prefix cs d ps h =
      elim (Option-cases (best_of (presence_loop p zero none none cs))) [
        | inl n ↦ let h' = rw (choose_present, n) at h in cc
        | inr (i, e) ↦ picked i e (At-probe i cs (best_of-At p cs i e))
      ]
    where
      picked :
          (i : ℕ)
          → best_of (presence_loop p zero none none cs) ≡ some i
          → (c : Candidate) × (get_elem? (map (scanned p) cs) i ≡ some (scanned p c))
            × ((probe c.node c.model ≡ returned (some (codes "registered")))
                ⊎ (probe c.node c.model ≡ returned (some (codes "gguf_present"))))
            × (get_elem? cs i ≡ some c)
          → Served p P d
      picked i e (c, at, o, from) =
          let at' = ap (λ l. get_elem? l i) (presence_loop-candidates p zero none none cs) ∙ at in
          let h' = rw (choose_present, e, at') at h in
          Served-eq p P _ d h'
            (decide_present-Served prefix _ i c o (get_elem-All (Holds P) cs i c ps from))

-- The availability pass decides for a model that can be started.
pub choose_available-Served :
    (p : Probes) (P : Text → Text → Type 0) (prefix : Text) (cs : List Candidate)
    (d : RouteDecision)
    → All (Holds P) cs
    → choose_available_candidate p cs prefix ≡ some d
    → Served p P d
unfolding choose_available_candidate
choose_available-Served p P prefix cs d ps h = elim (Option-cases p.model_artifact_presence) [
  | inl n ↦
      let h' = rw (choose_available_candidate, n) at h in
      available_loop-Served p P prefix cs [] d n ps h'
  | inr (probe, e) ↦
      let h' = rw (choose_available_candidate, e) at h in
      choose_present-Served p P probe e prefix cs d ps h'
]
