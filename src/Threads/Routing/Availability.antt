-- ===== src/Threads/Routing/Availability.antt =====
-- The availability pass of routing.py, `_choose_available_candidate`: where no model runs, one that
-- can be started.
use llama_pack.Prelude.{
  ℕ, zero, suc, Bool, true, false, Option, none, some, List, [], ◌∷◌, ◌++◌, text_eq, get_elem?,
  if◌then◌else◌,
}
use llama_pack.Prelude.Text.{Text, codes}
use llama_pack.Threads.Routing.Probes.{
  Probes, Candidate, candidate_model_available, candidate_artifact_presence,
  candidate_startup_allowed, Startup, start_now, defer, RouteDecision, decision,
}

-- xs[i] = v, for an element that is there.
unfoldable pub set {ℓ} : {A : Type ℓ} → List A → ℕ → A → List A
set [] i v = []
set (x ∷ xs) zero v = v ∷ xs
set (x ∷ xs) (suc i) v = x ∷ set xs i v

abbrev pub startup_of : Bool → Startup
startup_of true = start_now
startup_of false = defer

-- presence == state
unfoldable pub has_state : Option Text → Text → Bool
has_state none state = false
has_state (some s) state = text_eq s state

-- The index kept, or this one if the presence is the state that is sought.
unfoldable pub best_or : Option ℕ → Option Text → Text → ℕ → Option ℕ
unfolding has_state
best_or (some i) presence state index = some i
best_or none presence state index = if has_state presence state then some index else none

-- The candidates with their artifact states, and where the first registered one and the first with
-- a file are. A candidate is named by its index, since the list and the choice share it.
pub record Scan : Type 0 where
  pub candidates : List Candidate
  pub best_registered : Option ℕ
  pub best_gguf : Option ℕ

unfoldable pub presence_loop : Probes → ℕ → Option ℕ → Option ℕ → List Candidate → Scan
unfolding best_or
presence_loop p index registered gguf [] = record {
  candidates = [];
  best_registered = registered;
  best_gguf = gguf;
}
presence_loop p index registered gguf (c ∷ rest) =
    let (presence, c') = candidate_artifact_presence p c in
    let later =
      presence_loop p (suc index) (best_or registered presence (codes "registered") index)
        (best_or gguf presence (codes "gguf_present") index) rest in
    record later { candidates = record c' { artifact_state = some presence } ∷ later.candidates }

-- best_registered or best_gguf
unfoldable pub best_of : Scan → Option ℕ
best_of s = elim s.best_registered [ some i ↦ some i | none ↦ s.best_gguf ]

-- f"{chosen['artifact_state']}"
abbrev pub state_text : Option (Option Text) → Text
state_text none = codes "None"
state_text (some none) = codes "None"
state_text (some (some s)) = s

unfoldable pub decide_present : Probes → Text → List Candidate → ℕ → Candidate → RouteDecision
decide_present p reason_prefix candidates index c =
    let (startup_allowed, c') = candidate_startup_allowed p c in
    record (decision c.node c.model (codes "deterministic")
      (reason_prefix ++ codes "_artifact_" ++ state_text c.artifact_state)
      (set candidates index c')) {
        startup_needed = true;
        startup_decision = some (startup_of startup_allowed);
      }

unfoldable pub choose_present : Probes → Text → List Candidate → Option RouteDecision
unfolding best_of
choose_present p reason_prefix candidates =
    let s = presence_loop p 0 none none candidates in
    elim (best_of s) [
      | none ↦ none
      | some index ↦ elim (get_elem? s.candidates index) [
        | none ↦ none
        | some c ↦ some (decide_present p reason_prefix s.candidates index c)
      ]
    ]

unfoldable pub decide_available :
    Probes → Text → List Candidate → Candidate → List Candidate → RouteDecision
decide_available p reason_prefix before c rest =
    let (startup_allowed, c') = candidate_startup_allowed p c in
    record (decision c.node c.model (codes "deterministic")
      (reason_prefix ++ codes "_model_available") (before ++ c' ∷ rest)) {
        startup_needed = true;
        startup_decision = some (startup_of startup_allowed);
      }

-- The legacy path: `before` are the candidates that were found not to be available.
unfoldable pub available_loop :
    Probes → Text → List Candidate → List Candidate → Option RouteDecision
available_loop p reason_prefix before [] = none
available_loop p reason_prefix before (c ∷ rest) =
    let (available, c') = candidate_model_available p c in
    elim available [
      | true ↦
          some (
            decide_available p reason_prefix before (record c' { model_available = some true })
              rest)
      | false ↦
          available_loop p reason_prefix (before ++ record c' { model_available = some false } ∷ [])
            rest
    ]

unfoldable pub choose_available_candidate : Probes → List Candidate → Text → Option RouteDecision
choose_available_candidate p candidates reason_prefix = elim p.model_artifact_presence [
  | some probe ↦ choose_present p reason_prefix candidates
  | none ↦ available_loop p reason_prefix [] candidates
]
