-- ===== src/Core/Json.antt =====
-- The values of the program's dictionaries: what `json.loads` returns. A float is a fraction with a
-- power of two below it, which every finite float is; `NaN` and the infinities are left out.
use Prim.Native.Nat.{◌^◌}
use blender_ai_sidebar.Prelude.{
  ℕ, ◌*◌, suc, Bool, true, false, ◌&&◌, not, String, List, [], ◌∷◌, Option, none, some, ◌==◌,
  nat_comparable, string_comparable, if◌then◌else◌,
}

-- `negsuc n` is -(n + 1).
pub data ℤ : Type 0 where
  pos : ℕ → ℤ
  negsuc : ℕ → ℤ

abbrev pos_part : ℤ → ℕ
pos_part (pos n) = n
pos_part (negsuc n) = 0

abbrev neg_part : ℤ → ℕ
neg_part (pos n) = 0
neg_part (negsuc n) = suc n

mutual
  pub data Value : Type 0 where
    null : Value
    boolean : Bool → Value
    integer : ℤ → Value
    float : ℤ → ℕ → Value
    text : String → Value
    array : Items → Value
    object : Fields → Value

  pub data Items : Type 0 where
    nil : Items
    cons : Value → Items → Items

  pub data Fields : Type 0 where
    end : Fields
    field : String → Value → Fields → Fields

-- Python's truth of a value.
abbrev pub is_truthy : Value → Bool
is_truthy null = false
is_truthy (boolean b) = b
is_truthy (integer (pos n)) = not (n == 0)
is_truthy (float (pos n) k) = not (n == 0)
is_truthy (text t) = not (t == "")
is_truthy (array nil) = false
is_truthy (object end) = false
is_truthy _ = true

-- `v or w`, where `v` may be missing.
abbrev pub or_else : Option Value → Value → Value
or_else none w = w
or_else (some v) w = if is_truthy v then v else w

abbrev pub or_next : Option Value → Option Value → Option Value
or_next none w = w
or_next (some v) w = if is_truthy v then some v else w

-- `v is not None and isinstance(v, dict)`
abbrev pub as_object : Option Value → Option Fields
as_object (some (object d)) = some d
as_object _ = none

-- `d[k] = v`: in place, or at the end.
unfoldable pub put : String → Value → Fields → Fields
put k v end = field k v end
put k v (field j w d) = if j == k then field j v d else field j w (put k v d)

-- `del d[k]`
unfoldable pub delete : String → Fields → Fields
delete k end = end
delete k (field j w d) = if j == k then d else field j w (delete k d)

-- `d.get(k)`, where `none` says that the key is missing.
unfoldable pub get : String → Fields → Option Value
get k end = none
get k (field j v d) = if j == k then some v else get k d

abbrev pub has_key : String → Fields → Bool
has_key k d = elim (get k d) [ none ↦ false | some v ↦ true ]

unfoldable pub keys : Fields → List String
keys end = []
keys (field k v d) = k ∷ keys d

unfoldable pub items : Items → List Value
items nil = []
items (cons v vs) = v ∷ items vs

unfoldable pub of_list : List Value → Items
of_list [] = nil
of_list (v ∷ vs) = cons v (of_list vs)

unfoldable pub entries : Fields → List (String × Value)
entries end = []
entries (field k v d) = (k, v) ∷ entries d

unfoldable pub size : Fields → ℕ
size end = 0
size (field k v d) = suc (size d)

-- A number of Python as a fraction: `True` is 1, and an integer equals a float of its value.
abbrev numeric : Value → Option (ℤ × ℕ)
numeric (boolean true) = some (pos 1, 0)
numeric (boolean false) = some (pos 0, 0)
numeric (integer n) = some (n, 0)
numeric (float n k) = some (n, k)
numeric _ = none

abbrev same_fraction : ℤ × ℕ → ℤ × ℕ → Bool
same_fraction (m, j) (n, k) =
    (pos_part m * 2 ^ k == pos_part n * 2 ^ j) && (neg_part m * 2 ^ k == neg_part n * 2 ^ j)

abbrev same_number : Option (ℤ × ℕ) → Option (ℤ × ℕ) → Bool
same_number (some a) (some b) = same_fraction a b
same_number _ _ = false

-- Python's `==`.
unfoldable mutual
  unfolding get size

  pub eq_value : Value → Value → Bool
  eq_value null null = true
  eq_value (text s) (text t) = s == t
  eq_value (array xs) (array ys) = eq_items xs ys
  eq_value (object d) (object e) = (size d == size e) && eq_fields d e
  eq_value v w = same_number (numeric v) (numeric w)

  eq_items : Items → Items → Bool
  eq_items nil nil = true
  eq_items (cons x xs) (cons y ys) = eq_value x y && eq_items xs ys
  eq_items _ _ = false

  eq_fields : Fields → Fields → Bool
  eq_fields end e = true
  eq_fields (field k v d) e =
      elim (get k e) [ none ↦ false | some w ↦ eq_value v w ] && eq_fields d e
