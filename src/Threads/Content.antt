-- ===== src/Threads/Content.antt =====
-- What plugins are told of an event's content: all but two keys, cut to a bounded size.
use mathlib.Core.Option as Option
use llama_pack.Prelude.{
  ℕ, zero, suc, ◌≤◌, ◌≡◌, refl, sym, ◌∙◌, ap, inl, inr, none, length, length-take, arith, text_eq,
  text_eq_iff, Bool-cases, if◌then◌else◌,
}
use llama_pack.Prelude.Json.{
  Value, null, bool, num, str, arr, obj, Items, nil, cons, Fields, end, field, get, count_fields,
}
use llama_pack.Prelude.Text.{Text}
use llama_pack.Threads.Session.{values}
use llama_pack.Threads.Events.{
  take_items, take_fields, bounded_value, is_left_out, bounded_plugin_content,
}

-- At most 1000 characters, or 20 entries.
abbrev pub Small : Value → Type 0
Small (str s) = length s ≤ 1000
Small (arr vs) = length (values vs) ≤ 20
Small (obj fs) = count_fields fs ≤ 20
Small v = Unit

abbrev pub AllSmall : Fields → Type 0
AllSmall end = Unit
AllSmall (field k v fs) = Small v × AllSmall fs

length-take_items : (n : ℕ) (vs : Items) → length (values (take_items n vs)) ≤ n
unfolding take_items
length-take_items zero vs = omega arith
length-take_items (suc n) nil = omega arith
length-take_items (suc n) (cons v vs) = omega (arith, length-take_items n vs)

count-take_fields : (n : ℕ) (fs : Fields) → count_fields (take_fields n fs) ≤ n
unfolding take_fields count_fields
count-take_fields zero fs = omega arith
count-take_fields (suc n) end = omega arith
count-take_fields (suc n) (field k v fs) = omega (arith, count-take_fields n fs)

bounded_value-Small : (v : Value) → Small (bounded_value v)
unfolding bounded_value
bounded_value-Small (str s) = omega (arith, length-take 1000 s)
bounded_value-Small (arr vs) = length-take_items 20 vs
bounded_value-Small (obj fs) = count-take_fields 20 fs
bounded_value-Small null = tt
bounded_value-Small (bool b) = tt
bounded_value-Small (num n d) = tt

bounded_content-AllSmall : (fs : Fields) → AllSmall (bounded_plugin_content fs)
unfolding bounded_plugin_content
bounded_content-AllSmall end = tt
bounded_content-AllSmall (field k v fs) = elim (Bool-cases (is_left_out k)) [
  | inl e ↦ rw e (bounded_content-AllSmall fs)
  | inr e ↦ rw e (bounded_value-Small v, bounded_content-AllSmall fs)
]

get-bounded_content :
    (key : Text) (fs : Fields)
    → get key (bounded_plugin_content fs)
      ≡ (if is_left_out key then none else Option.map bounded_value (get key fs))
unfolding bounded_plugin_content get
get-bounded_content key end = elim (Bool-cases (is_left_out key)) [
  | inl e ↦ rw e refl
  | inr e ↦ rw e refl
]
get-bounded_content key (field k v fs) = elim (Bool-cases (is_left_out k)) [
  | inl e ↦ elim (Bool-cases (text_eq k key)) [
    | inl same ↦
        let e' = ap is_left_out (sym ((text_eq_iff k key).0 same)) ∙ e in
        rw (e, same, e') (get-bounded_content key fs ∙ rw e' refl)
    | inr other ↦ rw (e, other) (get-bounded_content key fs)
  ]
  | inr e ↦ elim (Bool-cases (text_eq k key)) [
    | inl same ↦
        let e' = ap is_left_out (sym ((text_eq_iff k key).0 same)) ∙ e in rw (e, get, same, e') refl
    | inr other ↦ rw (e, get, other) (get-bounded_content key fs)
  ]
]

-- What plugins are told of a content has no raw response and no messages, and each other key with its
-- value, cut: of the values at its keys, a text has at most 1000 characters and a list or a dictionary
-- at most 20 entries. The number of keys, and what stands inside these entries, is not bounded.
pub bounded_plugin_content_lem :
    (content : Fields)
    → AllSmall (bounded_plugin_content content)
      × ((key : Text)
          → get key (bounded_plugin_content content)
            ≡ (if is_left_out key then none else Option.map bounded_value (get key content)))
bounded_plugin_content_lem content =
    (bounded_content-AllSmall content, λ key. get-bounded_content key content)
