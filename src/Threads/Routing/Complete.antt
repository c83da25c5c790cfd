-- ===== src/Threads/Routing/Complete.antt =====
-- The passes of routing.py miss no candidate that runs or can be started.
use llama_pack.Prelude.{
  ℕ, zero, suc, Bool, true, false, ◌≡◌, ◌≢◌, refl, sym, ◌∙◌, ap, subst, ◌⊎◌, inl, inr, Option, none,
  some, List, [], ◌∷◌, ◌++◌, map, All, Bool-cases, Option-cases, text_eq_iff, text_has_eq,
  get_elem?,
}
use llama_pack.Prelude.Text.{Text, codes}
use llama_pack.Threads.Routing.Probes.{
  CheckResult, returned, raised, Probes, Candidate, answered, candidate_model_running,
  candidate_model_available, candidate_artifact_presence, get_artifact_presence,
}
use llama_pack.Threads.Routing.Availability.{
  has_state, best_or, presence_loop, best_of, choose_present, available_loop,
  choose_available_candidate,
}
use llama_pack.Threads.Routing.Choice.{Found, found, missed, running_loop, decide_found}
use llama_pack.Threads.Routing.Served.{Running, Obtainable, Holds, answered-same}
use llama_pack.Threads.Routing.Presence.{
  scanned, first_index, presence_loop-registered, presence_loop-gguf, presence_loop-candidates, At,
  best_of-At,
}

-- The model can not be started on the node.
abbrev pub Unobtainable : Probes → Text → Text → Type 0
Unobtainable p node model = ¬ (Obtainable p node model)

-- The model neither runs on the node nor can be started there.
abbrev pub Unserved : Probes → Text → Text → Type 0
Unserved p node model = (¬ (Running p node model)) × Unobtainable p node model

answered-false :
    (check : Text) (a : CheckResult Bool) (c : Candidate)
    → (answered false check a c).0 ≡ false
    → a ≢ returned true
unfolding answered
answered-false check (returned true) c h e = cc
answered-false check (returned false) c h e = cc
answered-false check (raised f) c h e = cc

pub not-Running :
    (p : Probes) (c : Candidate)
    → (candidate_model_running p c).0 ≡ false
    → ¬ (Running p c.node c.model)
unfolding candidate_model_running
not-Running p c h = answered-false (codes "model_running") _ c h

pub All-back {ℓ κ} :
    {A : Type ℓ} (P : A → Type κ) (xs : List A) (y : A) → All P (xs ++ y ∷ []) → All P xs × P y
All-back P [] y (h, t) = (t, h)
All-back P (x ∷ xs) y (h, t) = let r = All-back P xs y t in ((h, r.0), r.1)

pub missed_inj : {l m : List Candidate} → missed l ≡ missed m → l ≡ m
missed_inj h = cc

module _ (p : Probes) where
  not_available :
      (c : Candidate)
      → p.model_artifact_presence ≡ none
      → (candidate_model_available p c).0 ≡ false
      → Unobtainable p c.node c.model
  unfolding candidate_model_available
  not_available c n h o =
      let o' : p.model_available c.node c.model ≡ returned true = rw n at o in
      answered-false (codes "model_available") _ c h o'

  available_loop-none :
      (prefix : Text) (cs before : List Candidate)
      → p.model_artifact_presence ≡ none
      → available_loop p prefix before cs ≡ none
      → All (Holds (Unobtainable p)) cs
  unfolding available_loop
  available_loop-none prefix [] before n h = tt
  available_loop-none prefix (c ∷ cs) before n h =
      elim (Bool-cases (candidate_model_available p c).0) [
        | inl e ↦ let h' = rw (available_loop, e) at h in cc
        | inr e ↦
            let h' = rw (available_loop, e) at h in
            (not_available c n e, available_loop-none prefix cs _ n h')
      ]

  first_index-some :
      (state : Text) (cs : List Candidate) (index i : ℕ)
      → first_index state p index (some i) cs ≡ some i
  unfolding first_index best_or
  first_index-some state [] index i = refl
  first_index-some state (c ∷ cs) index i = first_index-some state cs (suc index) i

  pub first_index-none :
      (state : Text) (cs : List Candidate) (index : ℕ)
      → first_index state p index none cs ≡ none
      → All (λ c. has_state (candidate_artifact_presence p c).0 state ≡ false) cs
  unfolding first_index best_or
  first_index-none state [] index h = tt
  first_index-none state (c ∷ cs) index h =
      elim (Bool-cases (has_state (candidate_artifact_presence p c).0 state)) [
        | inl e ↦
            let h' = rw (first_index, best_or, e) at h in
            let i = first_index-some state cs (suc index) index in cc
        | inr e ↦
            let h' = rw (first_index, best_or, e) at h in
            (e, first_index-none state cs (suc index) h')
      ]

  pub without_state :
      (probe : Text → Text → CheckResult (Option Text)) (state : Text) (c : Candidate)
      → p.model_artifact_presence ≡ some probe
      → has_state (candidate_artifact_presence p c).0 state ≡ false
      → probe c.node c.model ≢ returned (some state)
  unfolding candidate_artifact_presence get_artifact_presence answered has_state
  without_state probe state c asks h e =
      let h' = rw (candidate_artifact_presence, get_artifact_presence, asks, e) at h in
      let same = (text_eq_iff state state).1 refl in cc

  pub choose_present-none :
      (probe : Text → Text → CheckResult (Option Text)) (prefix : Text) (cs : List Candidate)
      → p.model_artifact_presence ≡ some probe
      → choose_present p prefix cs ≡ none
      → best_of (presence_loop p zero none none cs) ≡ none
  unfolding choose_present
  choose_present-none probe prefix cs asks h =
      elim (Option-cases (best_of (presence_loop p zero none none cs))) [
        | inl n ↦ n
        | inr (i, e) ↦ there i e (best_of-At p cs i e)
      ]
    where
      at_index :
          (i : ℕ) (c : Candidate)
          → best_of (presence_loop p zero none none cs) ≡ some i
          → get_elem? (map (scanned p) cs) i ≡ some (scanned p c)
          → best_of (presence_loop p zero none none cs) ≡ none
      at_index i c e at =
          let at' = ap (λ l. get_elem? l i) (presence_loop-candidates p zero none none cs) ∙ at in
          let h' = rw (choose_present, e, at') at h in cc

      there :
          (i : ℕ)
          → best_of (presence_loop p zero none none cs) ≡ some i
          → At p (codes "registered") i cs ⊎ At p (codes "gguf_present") i cs
          → best_of (presence_loop p zero none none cs) ≡ none
      there i e (inl (c, at, s, o)) = at_index i c e at
      there i e (inr (c, at, s, o)) = at_index i c e at

  best_of-none :
      (cs : List Candidate)
      → best_of (presence_loop p zero none none cs) ≡ none
      → (first_index (codes "registered") p zero none cs ≡ none)
        × (first_index (codes "gguf_present") p zero none cs ≡ none)
  unfolding best_of
  best_of-none cs h =
      let r = presence_loop-registered p zero none none cs in
      let g = presence_loop-gguf p zero none none cs in
      elim (Option-cases (presence_loop p zero none none cs).best_registered) [
        | inl n ↦ let h' = rw (best_of, n) at h in (sym r ∙ n, sym g ∙ h')
        | inr (i, e) ↦ let h' = rw (best_of, e) at h in cc
      ]

  neither_state :
      (probe : Text → Text → CheckResult (Option Text))
      → p.model_artifact_presence ≡ some probe
      → (cs : List Candidate)
      → All (λ c. has_state (candidate_artifact_presence p c).0 (codes "registered") ≡ false) cs
      → All (λ c. has_state (candidate_artifact_presence p c).0 (codes "gguf_present") ≡ false) cs
      → All (Holds (Unobtainable p)) cs
  neither_state probe asks [] rs gs = tt
  neither_state probe asks (c ∷ cs) rs gs = (unobtainable, neither_state probe asks cs rs.1 gs.1)
    where
      unobtainable : Unobtainable p c.node c.model
      unobtainable o = split (rw asks at o)
        where
          split :
              (probe c.node c.model ≡ returned (some (codes "registered")))
                ⊎ (probe c.node c.model ≡ returned (some (codes "gguf_present")))
              → ⊥
          split (inl e) = without_state probe (codes "registered") c asks rs.0 e
          split (inr e) = without_state probe (codes "gguf_present") c asks gs.0 e

  pub choose_available-none :
      (prefix : Text) (cs : List Candidate)
      → choose_available_candidate p cs prefix ≡ none
      → All (Holds (Unobtainable p)) cs
  unfolding choose_available_candidate
  choose_available-none prefix cs h = elim (Option-cases p.model_artifact_presence) [
    | inl n ↦
        let h' = rw (choose_available_candidate, n) at h in available_loop-none prefix cs [] n h'
    | inr (probe, e) ↦
        let h' = rw (choose_available_candidate, e) at h in
        let b = best_of-none cs (choose_present-none probe prefix cs e h') in
        neither_state probe e cs (first_index-none (codes "registered") cs zero b.0)
          (first_index-none (codes "gguf_present") cs zero b.1)
  ]

  -- A check leaves the node and the model, so what holds after it held before.
  pub running_check-before :
      (P : Text → Text → Type 0) (c : Candidate)
      → P (candidate_model_running p c).1.node (candidate_model_running p c).1.model
      → P c.node c.model
  unfolding candidate_model_running
  running_check-before P c h =
      let same = answered-same false (codes "model_running") (p.model_running c.node c.model) c in
      rw (same.0, same.1) at h

  pub running_loop-missed :
      (P : Text → Text → Type 0) (cs before l : List Candidate)
      → running_loop p before cs ≡ missed l
      → All (Holds P) l
      → All (Holds P) before × All (λ c. (¬ (Running p c.node c.model)) × P c.node c.model) cs
  unfolding running_loop
  running_loop-missed P [] before l h ps = (subst (All (Holds P)) (missed_inj (sym h)) ps, tt)
  running_loop-missed P (c ∷ cs) before l h ps = elim (Bool-cases (candidate_model_running p c).0) [
    | inl e ↦ let h' = rw (running_loop, e) at h in cc
    | inr e ↦
        let h' = rw (running_loop, e) at h in
        let rest = running_loop-missed P cs _ l h' ps in
        let back = All-back (Holds P) before _ rest.0 in
        (back.0, ((not-Running p c e, running_check-before P c back.1), rest.1))
  ]

  pub decide_found-none :
      (reason : Text) (f : Found)
      → decide_found p reason f ≡ none
      → (l : List Candidate) × (f ≡ missed l) × All (Holds (Unobtainable p)) l
  unfolding decide_found
  decide_found-none reason (found c cs) h = cc
  decide_found-none reason (missed l) h = (l, refl, choose_available-none reason l h)
