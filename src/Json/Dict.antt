-- ===== src/Json/Dict.antt =====
-- The dict operations on JSON objects. Proofs elsewhere go by the laws.
use cernopendata_portal.Base.{◌≡◌, String, Bool, Option, none, some, arith}
use cernopendata_portal.Base.{◌==◌, string_eq, if◌then◌else◌, is_some}
use cernopendata_portal.Json.{Value, Fields, end, field}

-- `d.get(k)`, with an absent key told apart from `None`.
unfoldable pub lookup : String → Fields → Option Value
lookup k end = none
lookup k (field j v d) = if k == j then some v else lookup k d

-- `k in d`
abbrev pub has_key : String → Fields → Bool
has_key k d = is_some (lookup k d)

-- `d[k] = v`
unfoldable pub insert : String → Value → Fields → Fields
insert k v end = field k v end
insert k v (field j w d) = let rest = insert k v d in if k == j then field k v d else field j w rest

-- `d.pop(k, None)`
unfoldable pub erase : String → Fields → Fields
erase k end = end
erase k (field j w d) = let rest = erase k d in if k == j then rest else field j w rest

-- `d.setdefault(k, v)`, for its effect on `d`.
abbrev pub set_default : String → Value → Fields → Fields
set_default k v d = if has_key k d then d else insert k v d

pub lookup-insert :
    (j k : String) (v : Value) (d : Fields)
    → lookup j (insert k v d) ≡ (if j == k then some v else lookup j d)
unfolding lookup insert
lookup-insert j k v end = ground arith
lookup-insert j k v (field i w d) = ground (arith, lookup-insert j k v d)

pub lookup-erase :
    (j k : String) (d : Fields) → lookup j (erase k d) ≡ (if j == k then none else lookup j d)
unfolding lookup erase
lookup-erase j k end = ground arith
lookup-erase j k (field i w d) = ground (arith, lookup-erase j k d)

pub lookup-insert_self : (k : String) (v : Value) (d : Fields) → lookup k (insert k v d) ≡ some v
lookup-insert_self k v d = ground (arith, lookup-insert k k v d)
