-- ===== src/Validation/Expected/Nested.antt =====
-- Reading and writing a nested field.
use cernopendata_portal.Base.{String, ◌≡◌, ◌≢◌, sym, List, [], ◌∷◌, arith, string_eq}
use cernopendata_portal.Base.Result.{ok, >>=-eq-ok, ok-injective}
use cernopendata_portal.Json.{Value, obj, Fields}
use cernopendata_portal.Json.Dict.{lookup, insert, lookup-insert, lookup-insert_self}
use cernopendata_portal.Json.Python.{get_attr}
use cernopendata_portal.Validation.Expected.{get_nested, set_nested, sub_dict}

-- Setting below the first key writes a dict in which the rest of the path is set.
set_nested-deep :
    (k k' : String) (ks : List String) (v : Value) (d : Fields) {d' : Fields}
    → set_nested (k ∷ k' ∷ ks) v d ≡ ok d'
    → (e : Fields) × (sub : Fields) × (set_nested (k' ∷ ks) v e ≡ ok sub)
      × (d' ≡ insert k (obj sub) d)
unfolding set_nested
set_nested-deep k k' ks v d h =
    let (e, found, rest) = >>=-eq-ok (sub_dict ks (lookup k d)) _ h in
    let (sub, below, last) = >>=-eq-ok (set_nested (k' ∷ ks) v e) _ rest in
    (e, sub, below, sym (ok-injective last))

-- Where setting a value along a path of keys returns, the value is read back along the path.
pub get_nested-set_nested :
    (k : String) (ks : List String) (v : Value) (d : Fields) {d' : Fields}
    → set_nested (k ∷ ks) v d ≡ ok d'
    → get_nested (k ∷ ks) (obj d') ≡ ok v
unfolding get_nested set_nested get_attr
get_nested-set_nested k [] v d h = rw (← ok-injective h) (ground (arith, lookup-insert k k v d))
get_nested-set_nested k (k' ∷ ks) v d h =
    let (e, sub, below, same) = set_nested-deep k k' ks v d h in
    rw (same, get_attr, lookup-insert_self) (get_nested-set_nested k' ks v e below)

-- Where setting a value along a path returns, it leaves every key of the dict but the first key of
-- the path as it was.
pub lookup-set_nested :
    (j k : String) (ks : List String) (v : Value) (d : Fields) {d' : Fields}
    → j ≢ k
    → set_nested (k ∷ ks) v d ≡ ok d'
    → lookup j d' ≡ lookup j d
unfolding set_nested
lookup-set_nested j k [] v d ne h = rw (← ok-injective h) (ground (arith, lookup-insert j k v d))
lookup-set_nested j k (k' ∷ ks) v d ne h =
    let (e, sub, below, same) = set_nested-deep k k' ks v d h in
    rw same (ground (arith, lookup-insert j k (obj sub) d))
