-- ===== src/Prelude/Dict.antt =====
-- Python's `dict`: an association list in the order of first insertion. Assigning to a key that is
-- there keeps its place.
use mathlib.Core.Path.{◌≡◌, refl}
use mathlib.Core.Option.{Option, none, some}
use mathlib.Core.List.{List, [], ◌∷◌}
use native.Mathlib.Omega.{arith}
use llama_pack.Prelude.Tests.{if◌then◌else◌}
use llama_pack.Prelude.Equality.{Eq, ◌==◌}

abbrev pub Dict {ℓ κ} : Type ℓ → Type κ → Type (ℓ ⊔ κ)
Dict K V = List (K × V)

module _ {ℓ κ} {K : Type ℓ} {V : Type κ} ⦃e : Eq K⦄ where
  -- d.get(k)
  unfoldable pub lookup : K → Dict K V → Option V
  lookup k [] = none
  lookup k ((j, v) ∷ m) = if j == k then some v else lookup k m

  -- d[k] = v
  unfoldable pub insert : K → V → Dict K V → Dict K V
  insert k v [] = (k, v) ∷ []
  insert k v ((j, w) ∷ m) = if j == k then (j, v) ∷ m else (j, w) ∷ insert k v m

  -- After an assignment, its key has the new value and every other key the old one.
  pub lookup-insert :
      (d : Dict K V) (key asked : K) (new : V)
      → lookup asked (insert key new d) ≡ (if key == asked then some new else lookup asked d)
  unfolding lookup insert
  lookup-insert [] key asked new = refl
  lookup-insert ((i, w) ∷ d) key asked new = ground (
    arith,
    e.same_iff i key,
    e.same_iff i asked,
    e.same_iff key asked,
    lookup-insert d key asked new,
  )
