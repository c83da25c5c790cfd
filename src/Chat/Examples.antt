-- ===== src/Chat/Examples.antt =====
-- The theorems on the slots at two accounts of one route.
use llama_pack.Prelude.{ℕ, ◌≡◌, refl, false, none, some, List, [], ◌∷◌, arith}
use llama_pack.Prelude.Dict.{lookup, insert}
use llama_pack.Prelude.Equality.{text_eq}
use llama_pack.Prelude.Int.{pos}
use llama_pack.Prelude.Text.{Text, codes}
use llama_pack.Chat.Slots.{
  no_slots, slot, refused, route_of, setdefault, next_slot_from, above_all, next_available_slot,
  give, assign_in, assign_slot,
}
use llama_pack.Chat.Owners.{slot_of, owner_of}
use llama_pack.Chat.Sharing.{
  Request, serve, serve-slots_exclusive, serve-refuses_others, assign_slot-finds_free,
}

abbrev route : Text
route = codes "r"

abbrev wish : Text → Request
wish a = record { route_key = route; account_id = a; requested_slot_id = none; admin = false }

abbrev both : List Request
both = wish (codes "a") ∷ wish (codes "ab") ∷ []

second : slot_of route (codes "ab") (serve both no_slots) ≡ some (pos 1)
unfolding serve assign_slot assign_in setdefault route_of lookup insert next_available_slot
    next_slot_from above_all give text_eq
second = refl

first_told : (assign_slot route (codes "a") none false (serve [] no_slots)).0 ≡ slot (some (pos 0))
unfolding serve assign_slot assign_in setdefault route_of lookup insert next_available_slot
    next_slot_from above_all give text_eq
first_told = refl

serve-slots_exclusive_example : codes "ab" ≡ codes "ab"
serve-slots_exclusive_example =
    serve-slots_exclusive both route (codes "ab") (codes "ab") (pos 1) second second

serve-refuses_others_example :
    (assign_slot route
      (codes "ab")
      (some (pos 0))
      false
      (serve both (assign_slot route (codes "a") none false (serve [] no_slots)).1)).0
    ≡ refused
serve-refuses_others_example =
    serve-refuses_others [] both route (codes "a") (codes "ab") none (pos 0) (omega arith)
      (omega arith) (cc) first_told

assign_slot-finds_free_example :
    (n : ℕ) × ((assign_slot route (codes "c") none false no_slots).0 ≡ slot (some (pos n)))
    × (owner_of route (pos n) no_slots ≡ none)
unfolding route_of lookup
assign_slot-finds_free_example =
    assign_slot-finds_free route (codes "c") no_slots (omega arith) refl
