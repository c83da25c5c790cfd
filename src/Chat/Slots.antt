-- ===== src/Chat/Slots.antt =====
-- llama_pack/core/chat/slot_allocator.py: which slot of a model server's cache an account uses.
use llama_pack.Prelude.{
  ℕ, zero, suc, max, Bool, true, false, ◌≡◌, ◌↔◌, Option, none, some, List, [], ◌∷◌, arith, Eq,
  ◌==◌, text_has_eq,
}
use llama_pack.Prelude.Dict.{Dict, lookup, insert}
use llama_pack.Prelude.Int.{ℤ, pos, negsuc, pos_part, eqb_ℤ}
use llama_pack.Prelude.Text.{Text}

pub eqb_ℤ_iff : (a b : ℤ) → (eqb_ℤ a b ≡ true) ↔ (a ≡ b)
eqb_ℤ_iff (pos a) (pos b) = ground arith
eqb_ℤ_iff (pos a) (negsuc b) = ground arith
eqb_ℤ_iff (negsuc a) (pos b) = ground arith
eqb_ℤ_iff (negsuc a) (negsuc b) = ground arith

instance abbrev pub int_has_eq : Eq ℤ
int_has_eq = record { same = eqb_ℤ; same_iff = eqb_ℤ_iff }

pub record Allocator : Type 0 where
  pub account_slots : Dict Text (Dict Text ℤ)
  pub slot_owners : Dict Text (Dict ℤ Text)

abbrev pub no_slots : Allocator
no_slots = record { account_slots = []; slot_owners = [] }

-- What a call returns or raises; `running` is a loop that has used up its fuel.
pub data Reply : Type 0 where
  slot : Option ℤ → Reply
  refused running : Reply

-- The inner dictionary of a route, empty if there is none.
unfoldable pub route_of {ℓ} : {A : Type ℓ} → Text → Dict Text (List A) → List A
route_of route_key d = elim (lookup route_key d) [ none ↦ [] | some m ↦ m ]

-- d.setdefault(route_key, {})
unfoldable pub setdefault {ℓ} : {A : Type ℓ} → Text → Dict Text (List A) → Dict Text (List A)
setdefault route_key d = elim (lookup route_key d) [ none ↦ insert route_key [] d | some m ↦ d ]

-- The loop of `_next_available_slot` from `slot_id` on.
unfoldable pub next_slot_from : ℕ → Dict ℤ Text → ℕ → Option ℕ
next_slot_from zero owners slot_id = none
next_slot_from (suc fuel) owners slot_id =
    let rest = next_slot_from fuel owners (suc slot_id) in
    elim (lookup (pos slot_id) owners) [ none ↦ some slot_id | some owner ↦ rest ]

-- A number above every slot that is owned: the rounds that the loop may take.
unfoldable pub above_all : Dict ℤ Text → ℕ
above_all [] = 0
above_all ((s, owner) ∷ owners) = max (suc (pos_part s)) (above_all owners)

unfoldable pub next_available_slot : Dict ℤ Text → Option ℕ
next_available_slot owners = next_slot_from (suc (above_all owners)) owners 0

-- Both assignments to the dictionaries of the route.
unfoldable pub give : Text → Text → ℤ → Allocator → Allocator
give route_key account_id slot_id st = record {
  account_slots =
      insert route_key (insert account_id slot_id (route_of route_key st.account_slots))
        st.account_slots;
  slot_owners =
      insert route_key (insert slot_id account_id (route_of route_key st.slot_owners))
        st.slot_owners;
}

-- owner is None or owner == account_id
unfoldable pub may_have : Option Text → Text → Bool
may_have none account_id = true
may_have (some owner) account_id = owner == account_id

-- What follows the two calls of `setdefault`.
unfoldable pub assign_in : Text → Text → Option ℤ → Allocator → Reply × Allocator
assign_in route_key account_id (some slot_id) st =
    elim (may_have (lookup slot_id (route_of route_key st.slot_owners)) account_id) [
      | true ↦ (slot (some slot_id), give route_key account_id slot_id st)
      | false ↦ (refused, st)
    ]
assign_in route_key account_id none st =
    elim (lookup account_id (route_of route_key st.account_slots)) [
      | some existing ↦ (slot (some existing), st)
      | none ↦ elim (next_available_slot (route_of route_key st.slot_owners)) [
        | some next ↦ (slot (some (pos next)), give route_key account_id (pos next) st)
        | none ↦ (running, st)
      ]
    ]

unfoldable pub assign_slot : Text → Text → Option ℤ → Bool → Allocator → Reply × Allocator
assign_slot route_key [] requested_slot_id admin st = (slot requested_slot_id, st)
assign_slot route_key (c ∷ cs) requested_slot_id true st = (slot requested_slot_id, st)
assign_slot route_key (c ∷ cs) requested_slot_id false st =
    assign_in route_key (c ∷ cs) requested_slot_id (record {
      account_slots = setdefault route_key st.account_slots;
      slot_owners = setdefault route_key st.slot_owners;
    })
