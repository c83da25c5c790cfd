-- ===== src/Plugins/Examples.antt =====
-- The theorems on hooks at two plugins.
use llama_pack.Prelude.{◌≡◌, ◌↔◌, false, none, List, [], ◌∷◌, All, text_eq}
use llama_pack.Prelude.Json.{Value, null, bool, str, obj, end, field}
use llama_pack.Prelude.Text.{Text, codes}
use llama_pack.Plugins.Hooks.{
  Answer, returned, passed, hooks_of, objection, run_policy_hooks, remove_plugin,
}
use llama_pack.Plugins.Registered.{Change, add_hook, change_all, promised, change_all-promised}
use llama_pack.Plugins.Policies.{run_policy_hooks-passed, removed_plugin-silent}

-- `str` of a text.
abbrev text_of : Value → Text
text_of (str s) = s
text_of v = []

abbrev allows : Value → Answer
allows v = returned null

abbrev objects : Value → Answer
objects v = returned (obj (field (codes "allowed") (bool false) end))

abbrev changes : List (Change (Value → Answer))
changes =
    add_hook (codes "a") (codes "chat") objects ∷ add_hook (codes "b") (codes "chat") allows ∷ []

change_all-promised_example :
    hooks_of (codes "chat") (change_all changes []) ≡ promised (codes "chat") changes []
change_all-promised_example = change_all-promised (codes "chat") changes

run_policy_hooks-passed_example :
    ((run_policy_hooks text_of (codes "chat") (change_all changes []) null).0 ≡ passed)
    ↔ All
        (λ h. objection text_of (h.1 null) ≡ none)
        (hooks_of (codes "chat") (change_all changes []))
run_policy_hooks-passed_example =
    run_policy_hooks-passed text_of (codes "chat") (change_all changes []) null

removed_plugin-silent_example :
    All
      (λ r. text_eq r.plugin_id (codes "a") ≡ false)
      (run_policy_hooks text_of
        (codes "chat")
        (remove_plugin (codes "a") (change_all changes []))
        null).1
removed_plugin-silent_example =
    removed_plugin-silent text_of changes (codes "a") (codes "chat") null
