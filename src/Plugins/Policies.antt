-- ===== src/Plugins/Policies.antt =====
-- What `run_policy_hooks` of hooks.py decides.
use llama_pack.Prelude.{
  false, ◌≡◌, ◌↔◌, refl, none, List, [], ◌∷◌, All, text_eq, Bool-cases, Option-cases, inl, inr,
}
use llama_pack.Prelude.Dict.{Dict}
use llama_pack.Prelude.Json.{Value}
use llama_pack.Prelude.Text.{Text}
use llama_pack.Plugins.Hooks.{
  Answer, passed, hooks_of, others, objection, run_hooks, run_policy_hooks, remove_plugin,
}
use llama_pack.Plugins.Registered.{Change, change_all, change_all-Keyed, hooks_of-remove}

module _ (py_str : Value → Text) where
  run_hooks-passed :
      (hs : List (Text × (Value → Answer))) (payload : Value)
      → ((run_hooks py_str hs payload).0 ≡ passed)
        ↔ All (λ h. objection py_str (h.1 payload) ≡ none) hs
  unfolding run_hooks
  run_hooks-passed [] payload = ((λ _. tt), (λ _. refl))
  run_hooks-passed ((i, h) ∷ hs) payload = elim (Option-cases (objection py_str (h payload))) [
    | inl e ↦
        let r = run_hooks-passed hs payload in
        rw (run_hooks, e) ((λ p. (refl, r.0 p)), (λ p. r.1 p.1))
    | inr ((level, message), e) ↦ rw (run_hooks, e) ((λ p. cc), (λ p. let q = p.0 in cc))
  ]

  -- A request passes the policy hooks of a name if and only if no hook of that name objects to it:
  -- none raises, times out or answers with `allowed` false.
  pub run_policy_hooks-passed :
      (name : Text) (hooks : Dict Text (List (Text × (Value → Answer)))) (payload : Value)
      → ((run_policy_hooks py_str name hooks payload).0 ≡ passed)
        ↔ All (λ h. objection py_str (h.1 payload) ≡ none) (hooks_of name hooks)
  unfolding run_policy_hooks
  run_policy_hooks-passed name hooks payload = run_hooks-passed (hooks_of name hooks) payload

  run_hooks-others :
      (i : Text) (hs : List (Text × (Value → Answer))) (payload : Value)
      → All (λ r. text_eq r.plugin_id i ≡ false) (run_hooks py_str (others i hs) payload).1
  unfolding run_hooks
  run_hooks-others i [] payload = tt
  run_hooks-others i ((j, h) ∷ hs) payload = elim (Bool-cases (text_eq j i)) [
    | inl e ↦ rw e (run_hooks-others i hs payload)
    | inr e ↦ rw e (elim (Option-cases (objection py_str (h payload))) [
      | inl o ↦ rw (run_hooks, o) (run_hooks-others i hs payload)
      | inr ((level, message), o) ↦ rw (run_hooks, o) (e, tt)
    ])
  ]

  -- Once a plugin is removed from a registry that came about by any calls, no run of policy hooks
  -- reports a failure or a rejection of that plugin.
  pub removed_plugin-silent :
      (changes : List (Change (Value → Answer))) (i name : Text) (payload : Value)
      → All
          (λ r. text_eq r.plugin_id i ≡ false)
          (run_policy_hooks py_str name (remove_plugin i (change_all changes [])) payload).1
  unfolding run_policy_hooks
  removed_plugin-silent changes i name payload =
      rw (hooks_of-remove name i (change_all changes []) (change_all-Keyed changes [] tt))
        (run_hooks-others i (hooks_of name (change_all changes [])) payload)
