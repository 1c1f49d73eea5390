-- ===== src/Json.antt =====
-- JSON values as Python's `json` returns them. A number with a fraction or an exponent is a binary
-- float; a finite one is a dyadic fraction, which is its exact value.
use ai_bobnet.Base.{
  refl, text_eq_iff, arith, ◌≡◌, ℕ, suc, ◌+◌, ◌-◌, ◌*◌, ◌^◌, Text, text_eq, Bool, true, false, not,
  ◌&&◌, ◌||◌, Option, none, some, List, any, ◌==◌, if◌then◌else◌, Result, ok, err, type_error,
}

-- `negsuc n` is -(n + 1).
pub data ℤ : Type 0 where
  pos : ℕ → ℤ
  negsuc : ℕ → ℤ

-- `dyadic m k` is m / 2 ^ k.
pub data Float : Type 0 where
  dyadic : ℤ → ℕ → Float
  infinite : Bool → Float
  not_a_number : Float

mutual
  pub data Value : Type 0 where
    null : Value
    bool : Bool → Value
    int : ℤ → Value
    float : Float → Value
    str : Text → Value
    arr : Items → Value
    obj : Fields → Value

  pub data Items : Type 0 where
    nil : Items
    cons : Value → Items → Items

  pub data Fields : Type 0 where
    end : Fields
    field : Text → Value → Fields → Fields

-- `record.get(key)`: a missing key reads as `None`
unfoldable pub get : Text → Fields → Value
get k end = null
get k (field j v r) = if text_eq j k then v else get k r

-- `key in record`
unfoldable pub has : Text → Fields → Bool
has k end = false
has k (field j v r) = text_eq j k || has k r

-- `value == "literal"`
unfoldable pub is_str : Value → Text → Bool
is_str (str s) t = text_eq s t
is_str _ t = false

unfoldable pub is_null : Value → Bool
is_null null = true
is_null _ = false

-- the text of a `str`, the dict of a `dict`
unfoldable pub as_str : Value → Option Text
as_str (str s) = some s
as_str _ = none

unfoldable pub as_obj : Value → Option Fields
as_obj (obj r) = some r
as_obj _ = none

-- `value == 1`, which `true` and `1.0` pass too
unfoldable pub is_one : Value → Bool
is_one (int (pos n)) = n == 1
is_one (bool b) = b
is_one (float (dyadic (pos m) k)) = m == 2 ^ k
is_one _ = false

abbrev pub among : Text → List Text → Bool
among s names = any (λ t. text_eq s t) names

-- `value in {…}`: a list or a dict is not hashable
unfoldable pub in_names : {R : Type 0} → Value → List Text → Result R Bool
in_names (str s) names = ok (among s names)
in_names (arr _) names = err type_error
in_names (obj _) names = err type_error
in_names _ names = ok false

abbrev scaled : ℤ → ℕ → ℤ
scaled (pos m) k = pos (m * 2 ^ k)
scaled (negsuc m) k = negsuc ((m + 1) * 2 ^ k - 1)

abbrev int_eq : ℤ → ℤ → Bool
int_eq (pos m) (pos n) = m == n
int_eq (negsuc m) (negsuc n) = m == n
int_eq _ _ = false

-- a number as a dyadic fraction; `True` is 1
abbrev exact : Value → Option (ℤ × ℕ)
exact (bool true) = some (pos 1, 0)
exact (bool false) = some (pos 0, 0)
exact (int n) = some (n, 0)
exact (float (dyadic m k)) = some (m, k)
exact _ = none

abbrev numbers_eq : Option (ℤ × ℕ) → Option (ℤ × ℕ) → Bool
numbers_eq (some (m, j)) (some (n, k)) = int_eq (scaled m k) (scaled n j)
numbers_eq _ _ = false

-- equal values without parts
abbrev plain_eq : Value → Value → Bool
plain_eq null null = true
plain_eq (str s) (str t) = text_eq s t
plain_eq (float (infinite a)) (float (infinite b)) = if a then b else not b
plain_eq v w = numbers_eq (exact v) (exact w)

-- The decoder has one object for NaN, and containers compare by identity first.
abbrev both_nan : Value → Value → Bool
both_nan (float not_a_number) (float not_a_number) = true
both_nan _ _ = false

abbrev item_count : Items → ℕ
item_count nil = 0
item_count (cons v xs) = suc (item_count xs)

abbrev field_count : Fields → ℕ
field_count end = 0
field_count (field k v r) = suc (field_count r)

-- `value == other`; the keys of a dict are all different, and their order is of no matter
unfoldable mutual
  pub value_eq : Value → Value → Bool
  value_eq (arr xs) (arr ys) = items_eq xs ys
  value_eq (obj r) (obj s) = (field_count r == field_count s) && fields_eq r s
  value_eq v w = plain_eq v w

  items_eq : Items → Items → Bool
  items_eq nil nil = true
  items_eq (cons v xs) (cons w ys) = (both_nan v w || value_eq v w) && items_eq xs ys
  items_eq _ _ = false

  fields_eq : Fields → Fields → Bool
  fields_eq end s = true
  fields_eq (field k v r) s =
      (has k s && (both_nan v (get k s) || value_eq v (get k s))) && fields_eq r s

-- `record[key] = value`
unfoldable pub put : Text → Value → Fields → Fields
put k v end = field k v end
put k v (field j w r) = if text_eq j k then field j v r else field j w (put k v r)

-- `record.get(key, default)`
abbrev pub get_or : Text → Value → Fields → Value
get_or k d r = if has k r then get k r else d

pub get-put :
    (k j : Text) (v : Value) (r : Fields) → get j (put k v r) ≡ (if text_eq k j then v else get j r)
unfolding get put
get-put k j v end = refl
get-put k j v (field i w r) =
    ground (arith, text_eq_iff k j, text_eq_iff i k, text_eq_iff i j, get-put k j v r)
