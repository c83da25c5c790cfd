-- ===== src/Chat/Resolved.antt =====
-- What a resolved chat target rests on.
use llama_pack.Prelude.{
  some_inj, Bool, true, false, ◌≡◌, refl, subst, inl, inr, ◌||◌, Option, none, some, List, [], ◌∷◌,
  text_eq, text_eq_iff, Bool-cases, Option-cases,
}
use mathlib.Core.List.{Mem, mem-cons_self, mem-cons_of_mem}
use llama_pack.Prelude.Text.{Text, codes, strip, strip_prefix}
use llama_pack.Chat.Targets.{
  LocalStatus, KnownTarget, Services, ChatTarget, local, remote, Resolution, resolved, not_running,
  resolve_local_target, is_model_running_on_node, has_persisted_remote_deployment, find_node,
  serves, resolve_named_node_target, first_node, or_next, resolve_any_node, or_nodes,
  resolve_selector, resolve_controller_target,
}

-- Locally the model runs; a node is known, by that URL, and the model runs or is deployed there.
abbrev pub Rests : Services → Text → ChatTarget → Type 0
Rests s model (local url) =
    (status : LocalStatus) × (s.local_status model ≡ some status) × (status.is_running ≡ true)
Rests s model (remote url name) =
    ((node : KnownTarget) × Mem node s.list_nodes × (node.target_name ≡ name) × (node.url ≡ url))
    × (serves s model name ≡ true)

abbrev pub RestsIn : Services → Text → Resolution → Type 0
RestsIn s model (resolved t) = Rests s model t
RestsIn s model (not_running message) = Unit

module _ (s : Services) (model : Text) where
  local-Rests : RestsIn s model (resolve_local_target s model)
  unfolding resolve_local_target
  local-Rests = elim (Option-cases (s.local_status model)) [
    | inl n ↦ rw (resolve_local_target, n) tt
    | inr (status, e) ↦ elim (Bool-cases status.is_running) [
      | inl r ↦ rw (resolve_local_target, e, r) (status, e, r)
      | inr r ↦ rw (resolve_local_target, e, r) tt
    ]
  ]

  find_node-known :
      (name : Text) (ns : List KnownTarget) (n : KnownTarget)
      → find_node name ns ≡ some n
      → Mem n ns × (n.target_name ≡ name)
  unfolding find_node
  find_node-known name [] n h = cc
  find_node-known name (m ∷ ns) n h = elim (Bool-cases (text_eq m.target_name name)) [
    | inl e ↦
        let same : m ≡ n = some_inj (rw (find_node, e) at h) in
        (
          subst (λ x. Mem x (m ∷ ns)) same mem-cons_self,
          subst (λ x. x.target_name ≡ name) same ((text_eq_iff m.target_name name).0 e),
        )
    | inr e ↦
        let later = find_node-known name ns n (rw (find_node, e) at h) in
        (mem-cons_of_mem m later.0, later.1)
  ]

  named-Rests : (name : Text) → RestsIn s model (resolve_named_node_target s model name)
  unfolding resolve_named_node_target
  named-Rests name = elim (Option-cases (find_node name s.list_nodes)) [
    | inl n ↦ rw (resolve_named_node_target, n) tt
    | inr (node, e) ↦ elim (Bool-cases (serves s model name)) [
      | inl r ↦
          let known = find_node-known name s.list_nodes node e in
          rw (resolve_named_node_target, e, r) ((node, known.0, known.1, refl), r)
      | inr r ↦ rw (resolve_named_node_target, e, r) tt
    ]
  ]

  -- The node and the URL of a target that a test found.
  abbrev Passes : (Text → Bool) → List KnownTarget → ChatTarget → Type 0
  Passes test ns (local url) = ⊥
  Passes test ns (remote url name) =
      ((node : KnownTarget) × Mem node ns × (node.target_name ≡ name) × (node.url ≡ url))
      × (test name ≡ true)

  Passes-later :
      (test : Text → Bool) (n : KnownTarget) (ns : List KnownTarget) (t : ChatTarget)
      → Passes test ns t
      → Passes test (n ∷ ns) t
  Passes-later test n ns (local url) h = h
  Passes-later test n ns (remote url name) ((node, m, e, f), q) =
      ((node, mem-cons_of_mem n m, e, f), q)

  first_node-Passes :
      (test : Text → Bool) (ns : List KnownTarget) (t : ChatTarget)
      → first_node test ns ≡ some t
      → Passes test ns t
  unfolding first_node
  first_node-Passes test [] t h = cc
  first_node-Passes test (n ∷ ns) t h = elim (Bool-cases (test n.target_name)) [
    | inl e ↦
        let same : remote n.url n.target_name ≡ t = some_inj (rw (first_node, e) at h) in
        subst (Passes test (n ∷ ns)) same ((n, mem-cons_self, refl, refl), e)
    | inr e ↦ Passes-later test n ns t (first_node-Passes test ns t (rw (first_node, e) at h))
  ]

  Passes-Rests :
      (test : Text → Bool) (t : ChatTarget)
      → ((name : Text) → test name ≡ true → serves s model name ≡ true)
      → Passes test s.list_nodes t
      → Rests s model t
  Passes-Rests test (local url) implies h = absurd h
  Passes-Rests test (remote url name) implies (known, q) = (known, implies name q)

  or_next-Rests :
      (o : Option ChatTarget) (rest : Resolution)
      → ((t : ChatTarget) → o ≡ some t → Rests s model t)
      → RestsIn s model rest
      → RestsIn s model (or_next o rest)
  or_next-Rests none rest h r = r
  or_next-Rests (some t) rest h r = h t refl

  any-Rests : RestsIn s model (resolve_any_node s model)
  unfolding resolve_any_node
  any-Rests =
      or_next-Rests _ _
        (λ t e.
          Passes-Rests (λ name. is_model_running_on_node s name model) t (λ name q. rw q refl)
            (first_node-Passes (λ name. is_model_running_on_node s name model) s.list_nodes t e))
        (or_next-Rests _ _
          (λ t e.
            Passes-Rests (λ name. has_persisted_remote_deployment s name model) t deployed
              (first_node-Passes (λ name. has_persisted_remote_deployment s name model) s.list_nodes
                t e))
          tt)
    where
      deployed :
          (name : Text)
          → has_persisted_remote_deployment s name model ≡ true
          → serves s model name ≡ true
      deployed name q = elim (Bool-cases (is_model_running_on_node s name model)) [
        | inl r ↦ rw r refl
        | inr r ↦ rw (r, q) refl
      ]

  or_nodes-Rests :
      (first rest : Resolution)
      → RestsIn s model first
      → RestsIn s model rest
      → RestsIn s model (or_nodes first rest)
  unfolding or_nodes
  or_nodes-Rests (resolved t) rest h r = h
  or_nodes-Rests (not_running message) rest h r = r

  selector-Rests : (selector : Text) → RestsIn s model (resolve_selector s model selector)
  unfolding resolve_selector
  selector-Rests selector = elim (Bool-cases (text_eq selector (codes "local"))) [
    | inl l ↦ rw (resolve_selector, l) local-Rests
    | inr l ↦ elim (Option-cases (strip_prefix (codes "node:") selector)) [
      | inr (name, e) ↦ named l name e (strip name) refl
      | inl e ↦ elim (Bool-cases (text_eq selector [] || text_eq selector (codes "auto"))) [
        | inl a ↦ rw (resolve_selector, l, e, a) (or_nodes-Rests _ _ local-Rests any-Rests)
        | inr a ↦ rw (resolve_selector, l, e, a) tt
      ]
    ]
  ]
    where
      named :
          text_eq selector (codes "local") ≡ false
          → (name : Text) → strip_prefix (codes "node:") selector ≡ some name
          → (stripped : Text) → strip name ≡ stripped
          → RestsIn s model (resolve_selector s model selector)
      named l name e [] q = rw (resolve_selector, l, e, q) tt
      named l name e (c ∷ t) q = rw (resolve_selector, l, e, q) (named-Rests (c ∷ t))

-- Whatever target is asked for: a local one is returned only if the model runs here; a remote one only
-- if its node is known by that name and URL, and the model runs there or is deployed there.
pub resolve_controller_target-Rests :
    (s : Services) (model target_selector : Text)
    → RestsIn s model (resolve_controller_target s model target_selector)
unfolding resolve_controller_target
resolve_controller_target-Rests s model target_selector =
    selector-Rests s model (s.lower (strip target_selector))
