-- ===== src/Chat/Sharing.antt =====
-- What slot_allocator.py promises to the accounts that share a model server.
use llama_pack.Prelude.{
  ℕ, suc, ◌<◌, Bool, false, ◌≡◌, ◌≢◌, refl, ◌∙◌, inl, inr, Option, none, some, List, [], ◌∷◌, arith,
  text_has_eq, text_eq_iff, text_eq_self, Bool-cases, Option-cases, length,
}
use llama_pack.Prelude.Dict.{lookup}
use llama_pack.Prelude.Int.{ℤ, pos}
use llama_pack.Prelude.Text.{Text}
use llama_pack.Chat.Slots.{
  Allocator, no_slots, Reply, slot, refused, route_of, setdefault, above_all, next_available_slot,
  give, may_have, assign_in, assign_slot, int_has_eq, eqb_ℤ_iff,
}
use llama_pack.Chat.Owners.{
  slot_of, owner_of, assign_slot-Effect, Owned, Effect-Owned, Effect-keeps_owner, owner_of-give,
  route_of-setdefault, next_slot_from-free, next_slot_from-some,
}

-- The arguments of a call.
pub record Request : Type 0 where
  pub route_key : Text
  pub account_id : Text
  pub requested_slot_id : Option ℤ
  pub admin : Bool

abbrev pub ask : Request → Allocator → Reply × Allocator
ask q = assign_slot q.route_key q.account_id q.requested_slot_id q.admin

-- The allocator after calls, each answered or refused.
unfoldable pub serve : List Request → Allocator → Allocator
serve [] st = st
serve (q ∷ rest) st = serve rest (ask q st).1

serve-Owned : (qs : List Request) (st : Allocator) → Owned st → Owned (serve qs st)
unfolding serve
serve-Owned [] st o = o
serve-Owned (q ∷ rest) st o = serve-Owned rest (ask q st).1 (
    Effect-Owned st _ (assign_slot-Effect q.route_key q.account_id q.requested_slot_id q.admin st)
      o)

serve-keeps_owner :
    (qs : List Request) (st : Allocator) (r a : Text) (s : ℤ)
    → owner_of r s st ≡ some a
    → owner_of r s (serve qs st) ≡ some a
unfolding serve
serve-keeps_owner [] st r a s h = h
serve-keeps_owner (q ∷ rest) st r a s h = serve-keeps_owner rest (ask q st).1 r a s (
    Effect-keeps_owner st _ r a s
      (assign_slot-Effect q.route_key q.account_id q.requested_slot_id q.admin st) h)

no_slots-Owned : Owned no_slots
unfolding route_of lookup
no_slots-Owned = record { owned = λ r a s h. cc }

-- After any calls from an empty allocator on, two accounts that have the same slot of a route are
-- the same account.
pub serve-slots_exclusive :
    (qs : List Request) (r a b : Text) (s : ℤ)
    → slot_of r a (serve qs no_slots) ≡ some s
    → slot_of r b (serve qs no_slots) ≡ some s
    → a ≡ b
serve-slots_exclusive qs r a b s ha hb =
    let o = serve-Owned qs no_slots no_slots-Owned in
    let oa = o.owned r a s ha in let ob = o.owned r b s hb in cc

give_lem : (r a : Text) (s : ℤ) (st : Allocator) → owner_of r s (give r a s st) ≡ some a
give_lem r a s st = owner_of-give r r a s s st ∙ ground (arith, text_eq_self r, eqb_ℤ_iff s s)

told_asked :
    (r a : Text) (t : ℤ) (st : Allocator) (s : ℤ)
    → (assign_in r a (some t) st).0 ≡ slot (some s)
    → owner_of r s (assign_in r a (some t) st).1 ≡ some a
unfolding assign_in
told_asked r a t st s h = elim (Bool-cases (may_have (owner_of r t st) a)) [
  | inl e ↦
      let same : t ≡ s = let h' = rw (assign_in, e) at h in cc in
      rw (assign_in, e, ← same) (give_lem r a t st)
  | inr e ↦ let h' = rw (assign_in, e) at h in cc
]

told_found :
    (r a : Text) (st : Allocator) (s : ℤ)
    → Owned st
    → (assign_in r a none st).0 ≡ slot (some s)
    → owner_of r s (assign_in r a none st).1 ≡ some a
unfolding assign_in
told_found r a st s o h = elim (Option-cases (slot_of r a st)) [
  | inr (t, e) ↦
      let same : t ≡ s = let h' = rw (assign_in, e) at h in cc in
      rw (assign_in, e) (o.owned r a s (rw (← same) e))
  | inl e ↦ elim (Option-cases (next_available_slot (route_of r st.slot_owners))) [
    | inl n ↦ let h' = rw (assign_in, e, n) at h in cc
    | inr (n, found) ↦
        let same : pos n ≡ s = let h' = rw (assign_in, e, found) at h in cc in
        rw (assign_in, e, found, ← same) (give_lem r a (pos n) st)
  ]
]

told_in-owner :
    (r a : Text) (q : Option ℤ) (st : Allocator) (s : ℤ)
    → Owned st
    → (assign_in r a q st).0 ≡ slot (some s)
    → owner_of r s (assign_in r a q st).1 ≡ some a
told_in-owner r a none st s o h = told_found r a st s o h
told_in-owner r a (some t) st s o h = told_asked r a t st s h

refused_in :
    (r a b : Text) (s : ℤ) (st : Allocator)
    → owner_of r s st ≡ some a
    → b ≢ a
    → (assign_in r b (some s) st).0 ≡ refused
unfolding assign_in may_have
refused_in r a b s st h ne = ground (arith, h, text_eq_iff a b)

-- The dictionaries of a call that is neither anonymous nor an administrator's.
abbrev with_route : Text → Allocator → Allocator
with_route r st = record {
  account_slots = setdefault r st.account_slots;
  slot_owners = setdefault r st.slot_owners;
}

with_route-Owned : (r : Text) (st : Allocator) → Owned st → Owned (with_route r st)
with_route-Owned r st o = record {
  owned = λ k a s h.
      rw (route_of-setdefault r k st.slot_owners)
        (o.owned k a s (rw (route_of-setdefault r k st.account_slots) at h));
}

told-owner :
    (r a : Text) (q : Option ℤ) (st : Allocator) (s : ℤ)
    → 0 < length a
    → Owned st
    → (assign_slot r a q false st).0 ≡ slot (some s)
    → owner_of r s (assign_slot r a q false st).1 ≡ some a
unfolding assign_slot
told-owner r [] q st s p o h = absurd (omega arith)
told-owner r (c ∷ cs) q st s p o h =
    told_in-owner r (c ∷ cs) q (with_route r st) s (with_route-Owned r st o) h

refused_lem :
    (r a b : Text) (s : ℤ) (st : Allocator)
    → 0 < length b
    → owner_of r s st ≡ some a
    → b ≢ a
    → (assign_slot r b (some s) false st).0 ≡ refused
unfolding assign_slot
refused_lem r a [] s st p h ne = absurd (omega arith)
refused_lem r a (c ∷ cs) s st p h ne =
    refused_in r a (c ∷ cs) s (with_route r st) (rw (route_of-setdefault r r st.slot_owners) h) ne

-- Once an account that has a name and is not served as an administrator's is told a slot of a
-- route, after any calls before and any calls since, another such account that asks for that slot
-- is refused.
pub serve-refuses_others :
    (before since : List Request) (r a b : Text) (q : Option ℤ) (s : ℤ)
    → 0 < length a
    → 0 < length b
    → b ≢ a
    → (assign_slot r a q false (serve before no_slots)).0 ≡ slot (some s)
    → (assign_slot r b
        (some s)
        false
        (serve since (assign_slot r a q false (serve before no_slots)).1)).0
      ≡ refused
serve-refuses_others before since r a b q s pa pb ne told =
    let st = serve before no_slots in
    let mine = told-owner r a q st s pa (serve-Owned before no_slots no_slots-Owned) told in
    refused_lem r a b s _ pb (serve-keeps_owner since _ r a s mine) ne

fresh_in :
    (r a : Text) (st : Allocator)
    → slot_of r a st ≡ none
    → (n : ℕ) × ((assign_in r a none st).0 ≡ slot (some (pos n))) × (owner_of r (pos n) st ≡ none)
unfolding assign_in next_available_slot
fresh_in r a st h =
    let owners = route_of r st.slot_owners in
    let (n, found) =
      next_slot_from-some (suc (above_all owners)) owners 0 (omega arith) (omega arith) in
    (n, rw (assign_in, h, found) refl, (next_slot_from-free _ owners 0 n found).0)

-- An account that has a name, is not served as an administrator's, has no slot of a route and asks
-- for none in particular is always told one that no account owns: the search for it ends.
pub assign_slot-finds_free :
    (r a : Text) (st : Allocator)
    → 0 < length a
    → slot_of r a st ≡ none
    → (n : ℕ) × ((assign_slot r a none false st).0 ≡ slot (some (pos n)))
      × (owner_of r (pos n) st ≡ none)
unfolding assign_slot
assign_slot-finds_free r [] st p h = absurd (omega arith)
assign_slot-finds_free r (c ∷ cs) st p h =
    let (n, told, free) =
      fresh_in r (c ∷ cs) (with_route r st) (rw (route_of-setdefault r r st.account_slots) h) in
    (n, told, rw (route_of-setdefault r r st.slot_owners) at free)
