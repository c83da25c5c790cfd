-- ===== src/Chat/TargetExamples.antt =====
-- A model that runs on one remote node.
use llama_pack.Prelude.{none, some, [], ◌∷◌, true}
use llama_pack.Prelude.Text.{codes}
use llama_pack.Chat.Targets.{Services, resolve_controller_target}
use llama_pack.Chat.Resolved.{RestsIn, resolve_controller_target-Rests}

abbrev one_remote : Services
one_remote = record {
  lower = λ s. s;
  mode = codes "controller";
  local_status = λ model. none;
  list_nodes = record { target_name = codes "a"; url = codes "http://a" } ∷ [];
  node_models = λ node. some (record { model_name = codes "m"; is_up = true } ∷ []);
  list_deployments = λ model. none;
}

resolve_controller_target-Rests_example :
    RestsIn one_remote (codes "m") (resolve_controller_target one_remote (codes "m") (codes "auto"))
resolve_controller_target-Rests_example =
    resolve_controller_target-Rests one_remote (codes "m") (codes "auto")
