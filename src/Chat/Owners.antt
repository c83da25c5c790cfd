-- ===== src/Chat/Owners.antt =====
-- Who owns a slot of slot_allocator.py: one account, for good.
use llama_pack.Prelude.{
  ℕ, zero, suc, ◌+◌, ◌≤◌, ◌<◌, Bool, true, false, ◌&&◌, ◌≡◌, refl, sym, ◌∙◌, inl, inr, Option, none,
  some, List, [], ◌∷◌, arith, text_has_eq, text_eq, text_eq_iff, Bool-cases, Option-cases, ltb,
  ltb→lt, if◌then◌else◌,
}
use llama_pack.Prelude.Dict.{Dict, lookup, insert, lookup-insert}
use llama_pack.Prelude.Int.{ℤ, pos, eqb_ℤ}
use llama_pack.Prelude.Text.{Text}
use llama_pack.Chat.Slots.{
  Allocator, route_of, setdefault, next_slot_from, above_all, next_available_slot, give, may_have,
  assign_in, assign_slot, int_has_eq, eqb_ℤ_iff,
}

abbrev pub slot_of : Text → Text → Allocator → Option ℤ
slot_of route_key account_id st = lookup account_id (route_of route_key st.account_slots)

abbrev pub owner_of : Text → ℤ → Allocator → Option Text
owner_of route_key slot_id st = lookup slot_id (route_of route_key st.slot_owners)

route_of-insert {ℓ} :
    {A : Type ℓ} (r k : Text) (m : List A) (d : Dict Text (List A))
    → route_of k (insert r m d) ≡ (if text_eq r k then m else route_of k d)
unfolding route_of
route_of-insert r k m d = elim (Bool-cases (text_eq r k)) [
  | inl e ↦ rw (route_of, lookup-insert d r k m, e)
  | inr e ↦ rw (route_of, lookup-insert d r k m, e)
]

pub route_of-setdefault {ℓ} :
    {A : Type ℓ} (r k : Text) (d : Dict Text (List A)) → route_of k (setdefault r d) ≡ route_of k d
unfolding route_of setdefault
route_of-setdefault r k d = elim (Option-cases (lookup r d)) [
  | inl e ↦ ground (arith, e, lookup-insert d r k [], text_eq_iff r k)
  | inr (m, e) ↦ rw (e, setdefault)
]

slot_of-give :
    (r k a b : Text) (s : ℤ) (st : Allocator)
    → slot_of k b (give r a s st) ≡ (if text_eq r k && text_eq a b then some s else slot_of k b st)
unfolding give
slot_of-give r k a b s st = elim (Bool-cases (text_eq r k)) [
  | inl e ↦ rw (route_of-insert, e, lookup-insert) (ground (arith, e, text_eq_iff r k))
  | inr e ↦ rw (route_of-insert, e)
]

pub owner_of-give :
    (r k a : Text) (s t : ℤ) (st : Allocator)
    → owner_of k t (give r a s st) ≡ (if text_eq r k && eqb_ℤ s t then some a else owner_of k t st)
unfolding give
owner_of-give r k a s t st = elim (Bool-cases (text_eq r k)) [
  | inl e ↦ rw (route_of-insert, e, lookup-insert) (ground (arith, e, text_eq_iff r k))
  | inr e ↦ rw (route_of-insert, e)
]

-- What a call may do to the allocator: nothing that shows, or one assignment of a slot that is
-- free or the account's own.
pub data Effect (st st' : Allocator) : Type 0 where
  none_seen :
      ((r a : Text) → slot_of r a st' ≡ slot_of r a st)
      → ((r : Text) (s : ℤ) → owner_of r s st' ≡ owner_of r s st)
      → Effect st st'
  gave :
      (r a : Text) (s : ℤ)
      → may_have (owner_of r s st) a ≡ true
      → ((k b : Text)
          → slot_of k b st' ≡ (if text_eq r k && text_eq a b then some s else slot_of k b st))
      → ((k : Text) (t : ℤ)
          → owner_of k t st' ≡ (if text_eq r k && eqb_ℤ s t then some a else owner_of k t st))
      → Effect st st'

-- The slot that the loop stops at is the first free one.
pub next_slot_from-free :
    (fuel : ℕ) (owners : Dict ℤ Text) (i n : ℕ)
    → next_slot_from fuel owners i ≡ some n
    → (lookup (pos n) owners ≡ none) × (i ≤ n)
unfolding next_slot_from
next_slot_from-free zero owners i n h = cc
next_slot_from-free (suc fuel) owners i n h = elim (Option-cases (lookup (pos i) owners)) [
  | inl e ↦ ground (arith, e, h)
  | inr (o, e) ↦
      let r = next_slot_from-free fuel owners (suc i) n (rw (next_slot_from, e) at h) in
      (r.0, omega (arith, r.1))
]

-- No slot from there on is owned.
above_all-free :
    (owners : Dict ℤ Text) (n : ℕ) → above_all owners ≤ n → lookup (pos n) owners ≡ none
unfolding above_all lookup
above_all-free [] n h = refl
above_all-free ((s, o) ∷ owners) n h = ground (arith, above_all-free owners n, eqb_ℤ_iff s (pos n))

not_above_all :
    (owners : Dict ℤ Text) (i : ℕ) (o : Text)
    → lookup (pos i) owners ≡ some o
    → i < above_all owners
not_above_all owners i o e = elim (Bool-cases (ltb i (above_all owners))) [
  | inl l ↦ ltb→lt _ _ l
  | inr l ↦ let free = above_all-free owners i (ground (arith, l)) in absurd cc
]

pub next_slot_from-some :
    (fuel : ℕ) (owners : Dict ℤ Text) (i : ℕ)
    → i ≤ above_all owners
    → above_all owners < i + fuel
    → (n : ℕ) × next_slot_from fuel owners i ≡ some n
unfolding next_slot_from
next_slot_from-some zero owners i le h = absurd (omega arith)
next_slot_from-some (suc fuel) owners i le h = elim (Option-cases (lookup (pos i) owners)) [
  | inl e ↦ (i, rw (next_slot_from, e) refl)
  | inr (o, e) ↦
      let below : i < above_all owners = not_above_all owners i o e in
      let (n, r) = next_slot_from-some fuel owners (suc i) (omega (arith, below)) (omega arith) in
      (n, rw (next_slot_from, e) r)
]

free_may_have :
    (r : Text) (n : ℕ) (a : Text) (st : Allocator)
    → next_available_slot (route_of r st.slot_owners) ≡ some n
    → may_have (owner_of r (pos n) st) a ≡ true
unfolding next_available_slot may_have
free_may_have r n a st h = rw ((next_slot_from-free _ (route_of r st.slot_owners) 0 n h).0) refl

assign_in-Effect : (r a : Text) (q : Option ℤ) (st : Allocator) → Effect st (assign_in r a q st).1
unfolding assign_in
assign_in-Effect r a (some s) st = elim (Bool-cases (may_have (owner_of r s st) a)) [
  | inl e ↦
      rw (assign_in, e)
        (gave r a s e (λ k b. slot_of-give r k a b s st) (λ k t. owner_of-give r k a s t st))
  | inr e ↦ rw (assign_in, e) (none_seen (λ _ _. refl) (λ _ _. refl))
]
assign_in-Effect r a none st = elim (Option-cases (slot_of r a st)) [
  | inr (s, e) ↦ rw (assign_in, e) (none_seen (λ _ _. refl) (λ _ _. refl))
  | inl e ↦ elim (Option-cases (next_available_slot (route_of r st.slot_owners))) [
    | inl n ↦ rw (assign_in, e, n) (none_seen (λ _ _. refl) (λ _ _. refl))
    | inr (n, found) ↦
        rw (assign_in, e, found)
          (gave r a (pos n) (free_may_have r n a st found) (λ k b. slot_of-give r k a b (pos n) st)
            (λ k t. owner_of-give r k a (pos n) t st))
  ]
]

Effect-setdefault :
    (r : Text) (st st' : Allocator)
    → Effect
        (record {
          account_slots = setdefault r st.account_slots;
          slot_owners = setdefault r st.slot_owners;
        })
        st'
    → Effect st st'
Effect-setdefault r st st' (none_seen f g) =
    none_seen (λ k a. f k a ∙ rw (route_of-setdefault r k st.account_slots))
      (λ k a. g k a ∙ rw (route_of-setdefault r k st.slot_owners))
Effect-setdefault r st st' (gave k a s m f g) =
    gave k a s (rw (route_of-setdefault r k st.slot_owners) at m)
      (λ l b. f l b ∙ rw (route_of-setdefault r l st.account_slots))
      (λ l t. g l t ∙ rw (route_of-setdefault r l st.slot_owners))

pub assign_slot-Effect :
    (r a : Text) (q : Option ℤ) (admin : Bool) (st : Allocator)
    → Effect st (assign_slot r a q admin st).1
unfolding assign_slot
assign_slot-Effect r [] q admin st = none_seen (λ _ _. refl) (λ _ _. refl)
assign_slot-Effect r (c ∷ cs) q true st = none_seen (λ _ _. refl) (λ _ _. refl)
assign_slot-Effect r (c ∷ cs) q false st =
    Effect-setdefault r st _ (assign_in-Effect r (c ∷ cs) q _)

-- Each account's slot is its own.
pub record Owned (st : Allocator) : Type 0 where
  pub owned : (r a : Text) (s : ℤ) → slot_of r a st ≡ some s → owner_of r s st ≡ some a

pub Effect-keeps_owner :
    (st st' : Allocator) (r a : Text) (s : ℤ)
    → Effect st st'
    → owner_of r s st ≡ some a
    → owner_of r s st' ≡ some a
unfolding may_have
Effect-keeps_owner st st' r a s (none_seen f g) h = g r s ∙ h
Effect-keeps_owner st st' r a s (gave k b t m f g) h =
    g r s ∙ ground (arith, h, m, text_eq_iff k r, text_eq_iff a b, eqb_ℤ_iff t s)

pub Effect-Owned : (st st' : Allocator) → Effect st st' → Owned st → Owned st'
Effect-Owned st st' (none_seen f g) o = record {
  owned = λ r a s h. g r s ∙ o.owned r a s (sym (f r a) ∙ h);
}
Effect-Owned st st' (gave k b t m f g) o = record {
  owned = λ r a s h. elim (Bool-cases (text_eq k r && text_eq b a)) [
    | inl e ↦ g r s ∙ ground (arith, e, f r a, h, text_eq_iff k r, text_eq_iff b a, eqb_ℤ_iff t s)
    | inr e ↦
        Effect-keeps_owner st st' r a s (gave k b t m f g)
          (o.owned r a s (ground (arith, e, f r a, h)))
  ];
}
