-- ===== src/Json/Equal.antt =====
-- Python's `==` on JSON values.
use cernopendata_portal.Base.{ℕ, suc, Bool, true, false, ◌&&◌, none, some}
use cernopendata_portal.Base.{◌==◌, string_eq, nat_eq, if◌then◌else◌}
use cernopendata_portal.Json.{
  Value, null, bool, num, text, arr, obj, Items, nil, cons, Fields, end, field,
}
use cernopendata_portal.Json.Dict.{lookup}

abbrev count_keys : Fields → ℕ
count_keys end = 0
count_keys (field k v d) = suc (count_keys d)

abbrev of_bool : Bool → ℕ
of_bool b = if b then 1 else 0

abbrev same_bool : Bool → Bool → Bool
same_bool a b = of_bool a == of_bool b

-- Dicts are equal if they have the same keys with equal values, in any order; `True == 1`.
unfoldable mutual
  pub equal : Value → Value → Bool
  equal null null = true
  equal null _ = false
  equal (bool a) (bool b) = same_bool a b
  equal (bool a) (num n) = of_bool a == n
  equal (bool a) _ = false
  equal (num m) (num n) = m == n
  equal (num m) (bool b) = m == of_bool b
  equal (num m) _ = false
  equal (text s) (text t) = s == t
  equal (text s) _ = false
  equal (arr xs) (arr ys) = equal_items xs ys
  equal (arr xs) _ = false
  equal (obj d) (obj e) = count_keys d == count_keys e && equal_fields d e
  equal (obj d) _ = false

  equal_items : Items → Items → Bool
  equal_items nil nil = true
  equal_items nil (cons y ys) = false
  equal_items (cons x xs) nil = false
  equal_items (cons x xs) (cons y ys) = equal x y && equal_items xs ys

  -- Every key of the first dict is in the second, with an equal value.
  equal_fields : Fields → Fields → Bool
  equal_fields end e = true
  equal_fields (field k v d) e = elim (lookup k e) [
    | none ↦ false
    | some w ↦ equal v w && equal_fields d e
  ]
