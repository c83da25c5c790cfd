-- ===== src/Threads/Routing/Probes.antt =====
-- The data of routing.py, and its checks of a candidate. A check that raises is recorded on the
-- candidate, and its answer is a default.
use llama_pack.Prelude.{
  Bool, true, false, ◌||◌, ◌&&◌, Option, none, some, List, [], ◌∷◌, ◌++◌, text_leb,
}
use llama_pack.Prelude.Dict.{Dict}
use llama_pack.Prelude.Int.{ℤ, ltb_ℤ, eqb_ℤ}
use llama_pack.Prelude.Json.{Value, Fields}
use llama_pack.Prelude.Text.{Text, codes}

-- An exception of a callback: its type's name and its text.
pub record CheckFailure : Type 0 where
  pub error_type : Text
  pub message : Text

pub data CheckResult {ℓ} (A : Type ℓ) : Type ℓ where
  returned : A → CheckResult A
  raised : CheckFailure → CheckResult A

-- ModelRunning, ModelAvailable, ModelArtifactPresence and NodeStartupAllowed, after `bool`.
pub record Probes : Type 0 where
  pub model_running : Text → Text → CheckResult Bool
  pub model_available : Text → Text → CheckResult Bool
  pub model_artifact_presence : Option (Text → Text → CheckResult (Option Text))
  pub node_startup_allowed : Option (Text → Text → CheckResult Bool)

-- NodeRequestTypeConfig and NodeConfig of config/models.py, as far as routes depend on them.
pub record RequestRoute : Type 0 where
  pub model : Text
  pub priority : ℤ

pub record NodeConfig : Type 0 where
  pub default_model : Option Text
  pub request_types : Dict Text RequestRoute

-- The settings of AppConfig that routing reads; `models` are the keys of its models, and `nodes`
-- what `node_configs` returns.
pub record Config : Type 0 where
  pub mode : Text
  pub models : List Text
  pub nodes : Dict Text NodeConfig
  pub routing_fanout_enabled : Bool
  pub routing_fanout_max : ℤ

pub record CheckError : Type 0 where
  pub check : Text
  pub failure : CheckFailure

-- The dictionary of a candidate. A key that is not set is `none`, or no error.
pub record Candidate : Type 0 where
  pub node : Text
  pub model : Text
  pub source : Text
  pub priority : Option ℤ
  pub model_running : Option Bool
  pub model_available : Option Bool
  pub artifact_state : Option (Option Text)
  pub route_check_errors : List CheckError

abbrev pub candidate : Text → Text → Text → Candidate
candidate node model source = record {
  node = node;
  model = model;
  source = source;
  priority = none;
  model_running = none;
  model_available = none;
  artifact_state = none;
  route_check_errors = [];
}

unfoldable pub record_candidate_error : Candidate → Text → CheckFailure → Candidate
record_candidate_error c check e = record c {
  route_check_errors = c.route_check_errors ++ record { check = check; failure = e } ∷ [];
}

-- The value of a check, or the default, and the candidate after it.
unfoldable pub answered {ℓ} : {A : Type ℓ} → A → Text → CheckResult A → Candidate → A × Candidate
unfolding record_candidate_error
answered default check (returned a) c = (a, c)
answered default check (raised e) c = (default, record_candidate_error c check e)

unfoldable pub candidate_model_running : Probes → Candidate → Bool × Candidate
candidate_model_running p c =
    answered false (codes "model_running") (p.model_running c.node c.model) c

unfoldable pub candidate_model_available : Probes → Candidate → Bool × Candidate
candidate_model_available p c =
    answered false (codes "model_available") (p.model_available c.node c.model) c

unfoldable pub get_artifact_presence : Probes → Text → Text → CheckResult (Option Text)
get_artifact_presence p node model = elim p.model_artifact_presence [
  | none ↦ returned none
  | some probe ↦ probe node model
]

unfoldable pub candidate_artifact_presence : Probes → Candidate → Option Text × Candidate
unfolding get_artifact_presence
candidate_artifact_presence p c =
    answered none (codes "artifact_presence") (get_artifact_presence p c.node c.model) c

unfoldable pub is_startup_allowed : Probes → Text → Text → CheckResult Bool
is_startup_allowed p node model = elim p.node_startup_allowed [
  | none ↦ returned true
  | some probe ↦ probe node model
]

unfoldable pub candidate_startup_allowed : Probes → Candidate → Bool × Candidate
unfolding is_startup_allowed
candidate_startup_allowed p c =
    answered true (codes "startup_allowed") (is_startup_allowed p c.node c.model) c

-- key=lambda candidate: (candidate["priority"], candidate["node"])
unfoldable pub before_in_order : ℤ × Candidate → ℤ × Candidate → Bool
before_in_order (i, a) (j, b) = ltb_ℤ i j || (eqb_ℤ i j && text_leb a.node b.node)

pub data Startup : Type 0 where
  start_now defer : Startup

-- A RouteDecision that carries no fan-out of its own.
pub record Target : Type 0 where
  pub node : Text
  pub model : Text
  pub strategy : Text
  pub reason : Text
  pub candidates : List Candidate

pub record ClassifierHint : Type 0 where
  pub request_type : Option Text
  pub confidence : Value
  pub constraints : Fields

pub record RouteDecision : Type 0 where
  pub node : Text
  pub model : Text
  pub strategy : Text
  pub reason : Text
  pub candidates : List Candidate
  pub fanout_targets : List Target
  pub classifier_hint : Option ClassifierHint
  pub startup_needed : Bool
  pub startup_decision : Option Startup

-- RouteDecision with the defaults of its other fields.
abbrev pub decision : Text → Text → Text → Text → List Candidate → RouteDecision
decision node model strategy reason candidates = record {
  node = node;
  model = model;
  strategy = strategy;
  reason = reason;
  candidates = candidates;
  fanout_targets = [];
  classifier_hint = none;
  startup_needed = false;
  startup_decision = none;
}

-- A decision, or the text of a ValueError.
pub data Choice : Type 0 where
  chosen : RouteDecision → Choice
  error : Text → Choice
