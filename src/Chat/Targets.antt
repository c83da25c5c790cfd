-- ===== src/Chat/Targets.antt =====
-- The choice of a target for a chat, llama_pack/core/chat/target_resolver.py. What the process manager,
-- the registry of nodes and the catalog answer is a record of parameters.
use llama_pack.Prelude.{
  Bool, true, false, ◌&&◌, ◌||◌, Option, none, some, List, [], ◌∷◌, ◌++◌, nat_eq, text_eq,
  if◌then◌else◌,
}
use llama_pack.Prelude.Text.{Text, codes, strip, strip_prefix}

-- A status that `running` and `port` are read of.
pub record LocalStatus : Type 0 where
  pub is_running : Bool
  pub port : Text

-- An entry of a node's list of models.
pub record RemoteStatus : Type 0 where
  pub model_name : Text
  pub is_up : Bool

pub record Deployment : Type 0 where
  pub deployed_on : Option Text
  pub enabled : Bool
  pub profile_key : Option Text

pub record KnownTarget : Type 0 where
  pub target_name : Text
  pub url : Text

-- Python's `lower`; the mode; the status of a local model, none where there is a KeyError; the nodes; the
-- models of a node, none where the request fails or returns no list; the deployments of a model of the
-- catalog, none where there is no catalog or no such model.
pub record Services : Type 0 where
  pub lower : Text → Text
  pub mode : Text
  pub local_status : Text → Option LocalStatus
  pub list_nodes : List KnownTarget
  pub node_models : Text → Option (List RemoteStatus)
  pub list_deployments : Text → Option (List Deployment)

pub data ChatTarget : Type 0 where
  local : Text → ChatTarget
  remote : Text → Text → ChatTarget

-- A target, or the text of a ModelNotRunningError.
pub data Resolution : Type 0 where
  resolved : ChatTarget → Resolution
  not_running : Text → Resolution

abbrev pub host_label : Text → Text
host_label mode =
    if text_eq mode (codes "controller") then codes "controller host" else codes "agent host"

abbrev pub not_running_locally : Services → Text → Resolution
not_running_locally s model =
    not_running
      (codes "Model is not running locally on " ++ host_label s.mode ++ codes ": " ++ model)

unfoldable pub resolve_local_target : Services → Text → Resolution
resolve_local_target s model = elim (s.local_status model) [
  | none ↦ not_running_locally s model
  | some status ↦
      if status.is_running
      then resolved
          (local (codes "http://127.0.0.1:" ++ status.port ++ codes "/v1/chat/completions"))
      else not_running_locally s model
]

unfoldable pub any_running : Text → List RemoteStatus → Bool
any_running model [] = false
any_running model (r ∷ rs) = (text_eq r.model_name model && r.is_up) || any_running model rs

unfoldable pub is_model_running_on_node : Services → Text → Text → Bool
unfolding any_running
is_model_running_on_node s node model = elim (s.node_models node) [
  | none ↦ false
  | some statuses ↦ any_running model statuses
]

-- model_name.partition(":"): what is before the first colon, and what is after it.
unfoldable pub partition_colon : Text → Text × Text
partition_colon [] = ([], [])
partition_colon (c ∷ s) =
    let rest = partition_colon s in if nat_eq c 58 then ([], s) else (c ∷ rest.0, rest.1)

unfoldable pub has_profile_key : Text → Option Text → Bool
has_profile_key [] none = true
has_profile_key [] (some []) = true
has_profile_key [] (some (c ∷ s)) = text_eq (c ∷ s) (codes "default")
has_profile_key (c ∷ s) none = false
has_profile_key (c ∷ s) (some t) = text_eq t (c ∷ s)

abbrev pub is_on : Text → Option Text → Bool
is_on node none = false
is_on node (some name) = text_eq name node

unfoldable pub any_deployed : Text → Text → List Deployment → Bool
unfolding has_profile_key
any_deployed node profile_key [] = false
any_deployed node profile_key (d ∷ ds) =
    (is_on node d.deployed_on && d.enabled && has_profile_key profile_key d.profile_key)
    || any_deployed node profile_key ds

unfoldable pub has_persisted_remote_deployment : Services → Text → Text → Bool
unfolding partition_colon any_deployed
has_persisted_remote_deployment s node model =
    let (base_name, profile_key) = partition_colon model in
    elim (s.list_deployments base_name) [
      | none ↦ false
      | some deployments ↦ any_deployed node profile_key deployments
    ]

unfoldable pub find_node : Text → List KnownTarget → Option KnownTarget
find_node name [] = none
find_node name (n ∷ ns) =
    let rest = find_node name ns in if text_eq n.target_name name then some n else rest

unfoldable pub resolve_known_node_target : Services → Text → Resolution
unfolding find_node
resolve_known_node_target s name = elim (find_node name s.list_nodes) [
  | none ↦ not_running (codes "Unknown controller node: " ++ name)
  | some node ↦ resolved (remote node.url name)
]

-- The model runs on the node or is deployed there.
abbrev pub serves : Services → Text → Text → Bool
serves s model name =
    is_model_running_on_node s name model || has_persisted_remote_deployment s name model

unfoldable pub resolve_named_node_target : Services → Text → Text → Resolution
unfolding find_node is_model_running_on_node has_persisted_remote_deployment
resolve_named_node_target s model name = elim (find_node name s.list_nodes) [
  | none ↦ not_running (codes "Unknown controller node: " ++ name)
  | some node ↦
      if serves s model name
      then resolved (remote node.url name)
      else not_running
          (codes "Model is not running on controller node '" ++ name ++ codes "': " ++ model)
]

-- The first node that passes a test, as a target.
unfoldable pub first_node : (Text → Bool) → List KnownTarget → Option ChatTarget
first_node test [] = none
first_node test (n ∷ ns) =
    let rest = first_node test ns in
    if test n.target_name then some (remote n.url n.target_name) else rest

abbrev pub or_next : Option ChatTarget → Resolution → Resolution
or_next (some t) rest = resolved t
or_next none rest = rest

-- After the local host: a node where the model runs, else one where it is deployed.
unfoldable pub resolve_any_node : Services → Text → Resolution
unfolding first_node is_model_running_on_node has_persisted_remote_deployment
resolve_any_node s model =
    or_next (first_node (λ name. is_model_running_on_node s name model) s.list_nodes) (
      or_next (first_node (λ name. has_persisted_remote_deployment s name model) s.list_nodes)
        (not_running (codes "Model is not running locally or on any controller node: " ++ model)))

unfoldable pub or_nodes : Resolution → Resolution → Resolution
or_nodes (resolved t) rest = resolved t
or_nodes (not_running message) rest = rest

unfoldable pub resolve_selector : Services → Text → Text → Resolution
unfolding resolve_local_target resolve_named_node_target resolve_any_node or_nodes
resolve_selector s model selector =
    if text_eq selector (codes "local")
    then resolve_local_target s model
    else elim (strip_prefix (codes "node:") selector) [
      | some name ↦ elim (strip name) [
        | [] ↦ not_running (codes "Invalid target selector: node name is required")
        | c ∷ t ↦ resolve_named_node_target s model (c ∷ t)
      ]
      | none ↦
          if text_eq selector [] || text_eq selector (codes "auto")
          then or_nodes (resolve_local_target s model) (resolve_any_node s model)
          else not_running (codes "Invalid target selector. Use 'auto', 'local', or 'node:<name>'")
    ]

unfoldable pub resolve_controller_target : Services → Text → Text → Resolution
unfolding resolve_selector
resolve_controller_target s model target_selector =
    resolve_selector s model (s.lower (strip target_selector))
