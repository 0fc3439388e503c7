-- ===== src/Json/Python.antt =====
-- Python's iteration, `in` and subscription on a JSON value, with the exceptions they raise.
use package.text.Mathlib.Text.{find?}
use cernopendata_portal.Base.{
  String, Bool, true, false, none, some, List, [], ◌∷◌, ◌==◌, string_eq, is_some, if◌then◌else◌,
}
use cernopendata_portal.Base.Result.{Result, ok, raise, type_error, attribute_error, or_key_error}
use cernopendata_portal.Json.{
  Value, null, text, arr, obj, Fields, end, field, Items, nil, cons, items_of,
}
use cernopendata_portal.Json.Dict.{lookup, insert, has_key}

abbrev pub keys : Fields → List Value
keys end = []
keys (field k v d) = text k ∷ keys d

-- The one-character texts of a text.
abbrev characters : String → List Value
characters String.[] = []
characters (String.◌∷◌ c s) = text (String.◌∷◌ c String.[]) ∷ characters s

-- `list(v)`
unfoldable pub iterate : Value → Result (List Value)
iterate (arr vs) = ok (items_of vs)
iterate (obj d) = ok (keys d)
iterate (text s) = ok (characters s)
iterate _ = raise type_error

-- The entries of a list that equal the text `k`.
abbrev has_text : String → Items → Bool
has_text k nil = false
has_text k (cons (text s) vs) = if k == s then true else has_text k vs
has_text k (cons _ vs) = has_text k vs

-- `k in v`
unfoldable pub member : String → Value → Result Bool
member k (obj d) = ok (has_key k d)
member k (arr vs) = ok (has_text k vs)
member k (text s) = ok (is_some (find? s k))
member k _ = raise type_error

-- `v[k]`
unfoldable pub get_item : String → Value → Result Value
get_item k (obj d) = or_key_error k (lookup k d)
get_item k _ = raise type_error

-- `v[k] = w`
unfoldable pub set_item : String → Value → Value → Result Value
set_item k w (obj d) = ok (obj (insert k w d))
set_item k w _ = raise type_error

-- `v.get(k)`, which gives `None` for an absent key.
unfoldable pub get_attr : String → Value → Result Value
get_attr k (obj d) = elim (lookup k d) [ none ↦ ok null | some w ↦ ok w ]
get_attr k _ = raise attribute_error

-- `v.get(k, d)`
unfoldable pub get_default : String → Value → Value → Result Value
get_default k d (obj fs) = elim (lookup k fs) [ none ↦ ok d | some w ↦ ok w ]
get_default k d _ = raise attribute_error
