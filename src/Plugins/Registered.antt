-- ===== src/Plugins/Registered.antt =====
-- Which hooks are registered after calls of `add_policy_hook` and `remove_plugin` of hooks.py.
use llama_pack.Prelude.{
  false, ◌≡◌, refl, ◌∙◌, none, List, [], ◌∷◌, ◌++◌, text_eq, text_has_eq, arith, text_eq_iff,
  Bool-cases, inl, inr, if◌then◌else◌,
}
use llama_pack.Prelude.Dict.{Dict, lookup, insert, lookup-insert}
use llama_pack.Prelude.Text.{Text}
use llama_pack.Plugins.Hooks.{hooks_of, add_policy_hook, others, keep_entry, remove_plugin}

-- No key stands twice.
abbrev pub Keyed {ℓ} : {V : Type ℓ} → Dict Text V → Type ℓ
Keyed [] = Unit
Keyed ((k, v) ∷ d) = (lookup k d ≡ none) × Keyed d

Keyed-insert {ℓ} :
    {V : Type ℓ} (k : Text) (v : V) (d : Dict Text V) → Keyed d → Keyed (insert k v d)
unfolding insert lookup
Keyed-insert k v [] h = (refl, tt)
Keyed-insert k v ((j, w) ∷ d) h = elim (Bool-cases (text_eq j k)) [
  | inl e ↦ rw e h
  | inr e ↦ rw e (
    ground (arith, e, h.0, lookup-insert d k j v, text_eq_iff j k, text_eq_iff k j),
    Keyed-insert k v d h.1,
  )
]

module _ {ℓ} {H : Type ℓ} where
  lookup-keep_none :
      (k j : Text) (hs : List H) (d : Dict Text (List H))
      → text_eq j k ≡ false
      → lookup k d ≡ none
      → lookup k (keep_entry j hs d) ≡ none
  unfolding lookup keep_entry
  lookup-keep_none k j [] d e h = h
  lookup-keep_none k j (x ∷ hs) d e h = rw e h

  Keyed-keep :
      (j : Text) (hs : List H) (d : Dict Text (List H))
      → lookup j d ≡ none
      → Keyed d
      → Keyed (keep_entry j hs d)
  unfolding keep_entry
  Keyed-keep j [] d e h = h
  Keyed-keep j (x ∷ hs) d e h = (e, h)

  hooks_of-keep :
      (k j : Text) (hs : List H) (d : Dict Text (List H))
      → lookup j d ≡ none
      → hooks_of k (keep_entry j hs d) ≡ (if text_eq j k then hs else hooks_of k d)
  unfolding hooks_of keep_entry lookup
  hooks_of-keep k j [] d e = ground (arith, e, text_eq_iff j k)
  hooks_of-keep k j (x ∷ hs) d e = ground arith

  hooks_of-cons :
      (k j : Text) (hs : List H) (d : Dict Text (List H))
      → hooks_of k ((j, hs) ∷ d) ≡ (if text_eq j k then hs else hooks_of k d)
  unfolding hooks_of lookup
  hooks_of-cons k j hs d = ground arith

module _ {ℓ} {H : Type ℓ} where
  lookup-remove_none :
      (k i : Text) (d : Dict Text (List (Text × H)))
      → lookup k d ≡ none
      → lookup k (remove_plugin i d) ≡ none
  unfolding lookup remove_plugin
  lookup-remove_none k i [] h = refl
  lookup-remove_none k i ((j, hs) ∷ d) h = elim (Bool-cases (text_eq j k)) [
    | inl e ↦ let h' = rw (lookup, e) at h in cc
    | inr e ↦
        let h' : lookup k d ≡ none = rw (lookup, e) at h in
        lookup-keep_none k j (others i hs) (remove_plugin i d) e (lookup-remove_none k i d h')
  ]

  Keyed-remove : (i : Text) (d : Dict Text (List (Text × H))) → Keyed d → Keyed (remove_plugin i d)
  unfolding remove_plugin
  Keyed-remove i [] h = tt
  Keyed-remove i ((j, hs) ∷ d) h =
      Keyed-keep j (others i hs) (remove_plugin i d) (lookup-remove_none j i d h.0)
        (Keyed-remove i d h.1)

  pub hooks_of-remove :
      (k i : Text) (d : Dict Text (List (Text × H)))
      → Keyed d
      → hooks_of k (remove_plugin i d) ≡ others i (hooks_of k d)
  unfolding hooks_of remove_plugin lookup
  hooks_of-remove k i [] h = refl
  hooks_of-remove k i ((j, hs) ∷ d) h =
      hooks_of-keep k j (others i hs) (remove_plugin i d) (lookup-remove_none j i d h.0)
      ∙ (elim (Bool-cases (text_eq j k)) [
        | inl e ↦ rw (hooks_of-cons k j hs d, e)
        | inr e ↦ rw (hooks_of-cons k j hs d, e) (hooks_of-remove k i d h.1)
      ])

  hooks_of-add :
      (k i n : Text) (h : H) (d : Dict Text (List (Text × H)))
      → hooks_of k (add_policy_hook i n h d)
        ≡ (if text_eq n k then hooks_of k d ++ (i, h) ∷ [] else hooks_of k d)
  unfolding hooks_of add_policy_hook
  hooks_of-add k i n h d = elim (Bool-cases (text_eq n k)) [
    | inl e ↦
        let same : n ≡ k = (text_eq_iff n k).0 e in
        rw (hooks_of, lookup-insert d n k (hooks_of n d ++ (i, h) ∷ []), e, same)
    | inr e ↦ rw (hooks_of, lookup-insert d n k (hooks_of n d ++ (i, h) ∷ []), e)
  ]

-- A call that changes the registry.
pub data Change {ℓ} (H : Type ℓ) : Type ℓ where
  add_hook : Text → Text → H → Change H
  remove : Text → Change H

unfoldable pub change_all {ℓ} :
    {H : Type ℓ} → List (Change H) → Dict Text (List (Text × H)) → Dict Text (List (Text × H))
change_all [] d = d
change_all (add_hook plugin_id hook_name handler ∷ rest) d =
    change_all rest (add_policy_hook plugin_id hook_name handler d)
change_all (remove plugin_id ∷ rest) d = change_all rest (remove_plugin plugin_id d)

-- What a registry promises for one hook name: the handlers in the order of their registration,
-- less those of the plugins that were removed since.
unfoldable pub promised {ℓ} :
    {H : Type ℓ} → Text → List (Change H) → List (Text × H) → List (Text × H)
promised name [] hs = hs
promised name (add_hook plugin_id hook_name handler ∷ rest) hs =
    let added = promised name rest (hs ++ (plugin_id, handler) ∷ []) in
    let same = promised name rest hs in if text_eq hook_name name then added else same
promised name (remove plugin_id ∷ rest) hs = promised name rest (others plugin_id hs)

module _ {ℓ} {H : Type ℓ} where
  change_all-promised_from :
      (name : Text) (cs : List (Change H)) (d : Dict Text (List (Text × H)))
      → Keyed d
      → hooks_of name (change_all cs d) ≡ promised name cs (hooks_of name d)
  unfolding change_all promised
  change_all-promised_from name [] d h = refl
  change_all-promised_from name (add_hook i n x ∷ cs) d h =
      change_all-promised_from name cs (add_policy_hook i n x d)
        (unfold add_policy_hook in Keyed-insert n _ d h)
      ∙ (elim (Bool-cases (text_eq n name)) [
        | inl e ↦ rw (hooks_of-add name i n x d, e)
        | inr e ↦ rw (hooks_of-add name i n x d, e)
      ])
  change_all-promised_from name (remove i ∷ cs) d h =
      change_all-promised_from name cs (remove_plugin i d) (Keyed-remove i d h)
      ∙ rw (hooks_of-remove name i d h)

pub change_all-Keyed {ℓ} :
    {H : Type ℓ} (cs : List (Change H)) (d : Dict Text (List (Text × H)))
    → Keyed d
    → Keyed (change_all cs d)
unfolding change_all add_policy_hook
change_all-Keyed [] d h = h
change_all-Keyed (add_hook i n x ∷ cs) d h = change_all-Keyed cs _ (Keyed-insert n _ d h)
change_all-Keyed (remove i ∷ cs) d h = change_all-Keyed cs _ (Keyed-remove i d h)

-- After any calls that add hooks and remove plugins, from an empty registry on, the hooks of each
-- name are those promised: the handlers in the order of their registration, less those of plugins
-- that were removed since.
pub change_all-promised {ℓ} :
    {H : Type ℓ} (name : Text) (changes : List (Change H))
    → hooks_of name (change_all changes []) ≡ promised name changes []
unfolding hooks_of lookup
change_all-promised name changes = change_all-promised_from name changes [] tt
