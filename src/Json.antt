-- ===== src/Json.antt =====
-- JSON values, as `serde_json::Value` is used by the runtime. The number type `N` is a parameter.
-- An object is read and written by key; what depends on the order of its keys sorts them, since
-- `serde_json` keeps a map sorted.
use ows_runtime_rust.Prelude.{
  ℕ, suc, String, ◌≡◌, refl, Bool, Option, none, some, List, [], ◌∷◌, arith, str_eq, eq_iff,
  if◌then◌else◌, true, false, not, ◌&&◌, ◌==◌,
}

mutual
  pub data Value (N : Type 0) : Type 0 where
    null : Value N
    bool : Bool → Value N
    number : N → Value N
    string : String → Value N
    array : Items N → Value N
    object : Fields N → Value N

  pub data Items (N : Type 0) : Type 0 where
    nil : Items N
    cons : Value N → Items N → Items N

  pub data Fields (N : Type 0) : Type 0 where
    end : Fields N
    field : String → Value N → Fields N → Fields N

module _ {N : Type 0} where
  -- `map.get(key)`
  unfoldable pub get : String → Fields N → Option (Value N)
  get k end = none
  get k (field j v m) = if str_eq j k then some v else get k m

  unfoldable pub count_fields : Fields N → ℕ
  count_fields end = 0
  count_fields (field _ _ m) = suc (count_fields m)

  abbrev found_equal : (Value N → Bool) → Option (Value N) → Bool
  found_equal test none = false
  found_equal test (some v) = test v

-- `values_equal`: numbers are compared by `number_eq`, as floats; objects by key.
unfoldable mutual
  pub values_equal : {N : Type 0} → (N → N → Bool) → Value N → Value N → Bool
  values_equal eq null null = true
  values_equal eq (bool a) (bool b) = if a then b else not b
  values_equal eq (number a) (number b) = eq a b
  values_equal eq (string a) (string b) = str_eq a b
  values_equal eq (array xs) (array ys) = items_equal eq xs ys
  values_equal eq (object m) (object n) = (count_fields m == count_fields n) && fields_equal eq m n
  values_equal eq _ _ = false

  -- of the same length, and equal item by item
  pub items_equal : {N : Type 0} → (N → N → Bool) → Items N → Items N → Bool
  items_equal eq nil nil = true
  items_equal eq (cons x xs) (cons y ys) = values_equal eq x y && items_equal eq xs ys
  items_equal eq _ _ = false

  -- every field of the first is an equal field of the second
  pub fields_equal : {N : Type 0} → (N → N → Bool) → Fields N → Fields N → Bool
  fields_equal eq end n = true
  fields_equal eq (field k v m) n = found_equal (values_equal eq v) (get k n) && fields_equal eq m n

module _ {N : Type 0} where
  abbrev pub items_of_list : List (Value N) → Items N
  items_of_list [] = nil
  items_of_list (x ∷ xs) = cons x (items_of_list xs)

  abbrev pub list_of_items : Items N → List (Value N)
  list_of_items nil = []
  list_of_items (cons x xs) = x ∷ list_of_items xs

  -- `map.insert(key, value)`
  unfoldable pub insert : String → Value N → Fields N → Fields N
  insert k v end = field k v end
  insert k v (field j w m) = if str_eq j k then field k v m else field j w (insert k v m)

  -- `map.remove(key)`
  unfoldable pub remove : String → Fields N → Fields N
  remove k end = end
  remove k (field j v m) = let rest = remove k m in if str_eq j k then rest else field j v rest

  -- `for (k, v) in other { map.insert(k, v) }`
  unfoldable pub extend : Fields N → Fields N → Fields N
  extend map end = map
  extend map (field k v other) = extend (insert k v map) other

  pub get-insert :
      (k j : String) (v : Value N) (m : Fields N)
      → get j (insert k v m) ≡ (if str_eq k j then some v else get j m)
  unfolding get insert
  get-insert k j v end = refl
  get-insert k j v (field i w m) =
      ground (arith, eq_iff k j, eq_iff i k, eq_iff i j, get-insert k j v m)

  pub get-remove :
      (k j : String) (m : Fields N) → get j (remove k m) ≡ (if str_eq k j then none else get j m)
  unfolding get remove
  get-remove k j end = ground arith
  get-remove k j (field i w m) =
      ground (arith, eq_iff k j, eq_iff i k, eq_iff i j, get-remove k j m)
