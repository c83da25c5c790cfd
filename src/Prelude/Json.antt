-- ===== src/Prelude/Json.antt =====
-- JSON values as the program reads them. A number is a fraction, `num n d` for n / (d + 1): an
-- int, or a finite float, and Python compares an int with a float exactly. NaN and the
-- infinities are left out.
use Prim.Native.Nat.{ℕ, suc, ◌*◌, ◌+◌}
use mathlib.Core.Bool.{Bool, true, false, ◌&&◌}
use mathlib.Core.Option.{Option, none, some}
use llama_pack.Prelude.Tests.{nat_eq, ltb, if◌then◌else◌}
use llama_pack.Prelude.Int.{ℤ, pos, pos_part, neg_part}
use llama_pack.Prelude.Equality.{text_eq}
use llama_pack.Prelude.Text.{Text}

mutual
  pub data Value : Type 0 where
    null : Value
    bool : Bool → Value
    num : ℤ → ℕ → Value
    str : Text → Value
    arr : Items → Value
    obj : Fields → Value

  pub data Items : Type 0 where
    nil : Items
    cons : Value → Items → Items

  pub data Fields : Type 0 where
    end : Fields
    field : Text → Value → Fields → Fields

-- The numbers among the values, `isinstance(v, (int, float))`: a bool is the int 0 or 1.
unfoldable pub number? : Value → Option (ℤ × ℕ)
number? (bool true) = some (pos 1, 0)
number? (bool false) = some (pos 0, 0)
number? (num n d) = some (n, d)
number? _ = none

-- a / (d + 1) < b / (e + 1)
abbrev pub frac_lt : ℤ × ℕ → ℤ × ℕ → Bool
frac_lt (a, d) (b, e) =
    ltb (pos_part a * suc e + neg_part b * suc d) (pos_part b * suc d + neg_part a * suc e)

abbrev pub frac_eq : ℤ × ℕ → ℤ × ℕ → Bool
frac_eq (a, d) (b, e) =
    nat_eq (pos_part a * suc e + neg_part b * suc d) (pos_part b * suc d + neg_part a * suc e)

-- d.get(k) on an object.
unfoldable pub get : Text → Fields → Option Value
get k end = none
get k (field j v fs) = if text_eq j k then some v else get k fs

unfoldable pub count_fields : Fields → ℕ
count_fields end = 0
count_fields (field k v fs) = suc (count_fields fs)

abbrev pub bool_frac : Bool → ℤ × ℕ
bool_frac true = (pos 1, 0)
bool_frac false = (pos 0, 0)

-- `a == b`: objects without regard to order, their keys being distinct.
unfoldable mutual
  unfolding number? get count_fields

  pub value_eq : Value → Value → Bool
  value_eq null null = true
  value_eq (bool b) w = elim (number? w) [ none ↦ false | some q ↦ frac_eq (bool_frac b) q ]
  value_eq (num n d) w = elim (number? w) [ none ↦ false | some q ↦ frac_eq (n, d) q ]
  value_eq (str s) (str t) = text_eq s t
  value_eq (arr xs) (arr ys) = items_eq xs ys
  value_eq (obj fs) (obj gs) = nat_eq (count_fields fs) (count_fields gs) && fields_eq fs gs
  value_eq _ _ = false

  pub items_eq : Items → Items → Bool
  items_eq nil nil = true
  items_eq (cons v xs) (cons w ys) = value_eq v w && items_eq xs ys
  items_eq _ _ = false

  pub fields_eq : Fields → Fields → Bool
  fields_eq end gs = true
  fields_eq (field k v fs) gs =
      elim (get k gs) [ none ↦ false | some w ↦ value_eq v w ] && fields_eq fs gs
