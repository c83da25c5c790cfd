-- ===== src/Plugins/Hooks.antt =====
-- llama_pack/core/plugins/hooks.py: the policy hooks of plugins. A handler is a parameter: a
-- function from the payload to what it returns or raises, a timeout included.
use llama_pack.Prelude.{
  Bool, true, false, not, Option, none, some, List, [], ◌∷◌, ◌++◌, filter, text_eq, text_has_eq,
  nat_eq, if◌then◌else◌,
}
use llama_pack.Prelude.Dict.{Dict, lookup, insert}
use llama_pack.Prelude.Int.{pos, negsuc}
use llama_pack.Prelude.Json.{
  Value, null, bool, num, str, arr, obj, nil, cons, Fields, end, field, get,
}
use llama_pack.Prelude.Text.{Text, codes}

pub data Answer : Type 0 where
  raised : Text → Answer
  returned : Value → Answer

pub data Verdict : Type 0 where
  passed : Verdict
  rejected : Text → Verdict

-- A call of the health recorder.
pub record Health : Type 0 where
  pub plugin_id : Text
  pub level : Text
  pub message : Text

-- self._hooks.get(hook_name, [])
unfoldable pub hooks_of {ℓ} : {H : Type ℓ} → Text → Dict Text (List H) → List H
hooks_of hook_name hooks = elim (lookup hook_name hooks) [ none ↦ [] | some hs ↦ hs ]

unfoldable pub add_policy_hook {ℓ} :
    {H : Type ℓ} → Text → Text → H → Dict Text (List (Text × H)) → Dict Text (List (Text × H))
add_policy_hook plugin_id hook_name handler hooks =
    insert hook_name (hooks_of hook_name hooks ++ (plugin_id, handler) ∷ []) hooks

-- [(owner, handler) for owner, handler in hooks if owner != plugin_id]
abbrev pub others {ℓ} : {H : Type ℓ} → Text → List (Text × H) → List (Text × H)
others plugin_id = filter (λ h. not (text_eq h.0 plugin_id))

-- The entry of a hook name, or none where no hook remains.
unfoldable pub keep_entry {ℓ} :
    {H : Type ℓ} → Text → List H → Dict Text (List H) → Dict Text (List H)
keep_entry hook_name [] rest = rest
keep_entry hook_name (h ∷ remaining) rest = (hook_name, h ∷ remaining) ∷ rest

unfoldable pub remove_plugin {ℓ} :
    {H : Type ℓ} → Text → Dict Text (List (Text × H)) → Dict Text (List (Text × H))
remove_plugin plugin_id [] = []
remove_plugin plugin_id ((hook_name, hs) ∷ rest) =
    keep_entry hook_name (others plugin_id hs) (remove_plugin plugin_id rest)

-- The value's truth, as in `a or b`.
unfoldable pub is_truthy : Value → Bool
is_truthy null = false
is_truthy (bool b) = b
is_truthy (num (pos n) d) = not (nat_eq n 0)
is_truthy (num (negsuc n) d) = true
is_truthy (str []) = false
is_truthy (str (c ∷ s)) = true
is_truthy (arr nil) = false
is_truthy (arr (cons v vs)) = true
is_truthy (obj end) = false
is_truthy (obj (field k v fs)) = true

-- d.get(key), if it is true.
unfoldable pub true_field : Text → Fields → Option Value
true_field key fs = elim (get key fs) [
  | none ↦ none
  | some v ↦ if is_truthy v then some v else none
]

-- result.get("allowed") is False
unfoldable pub is_disallowed : Fields → Bool
is_disallowed fs = elim (get (codes "allowed") fs) [ some (bool false) ↦ true | _ ↦ false ]

-- `py_str` is Python's `str` of a value.
module _ (py_str : Value → Text) where
  -- str(result.get("message") or result.get("reason") or "Rejected by policy hook")
  unfoldable pub message_of : Fields → Text
  message_of fs = elim (true_field (codes "message") fs) [
    | some v ↦ py_str v
    | none ↦ elim (true_field (codes "reason") fs) [
      | some v ↦ py_str v
      | none ↦ py_str (str (codes "Rejected by policy hook"))
    ]
  ]

  -- What one answer means: none, or the level and the message of a rejection.
  unfoldable pub objection : Answer → Option (Text × Text)
  objection (raised e) = some (codes "error", e)
  objection (returned (obj fs)) =
      if is_disallowed fs then some (codes "warning", message_of fs) else none
  objection (returned _) = none

  unfoldable pub run_hooks : List (Text × (Value → Answer)) → Value → Verdict × List Health
  run_hooks [] payload = (passed, [])
  run_hooks ((plugin_id, handler) ∷ rest) payload = elim (objection (handler payload)) [
    | none ↦ run_hooks rest payload
    | some (level, message) ↦
        (rejected message, record { plugin_id = plugin_id; level = level; message = message } ∷ [])
  ]

  unfoldable pub run_policy_hooks :
      Text → Dict Text (List (Text × (Value → Answer))) → Value → Verdict × List Health
  run_policy_hooks hook_name hooks payload = run_hooks (hooks_of hook_name hooks) payload
