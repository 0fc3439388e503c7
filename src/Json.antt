-- ===== src/Json.antt =====
-- JSON values as Python holds them: `None`, Booleans, integers, texts, lists and dicts.
-- Numbers are naturals: the fields that the program computes with are sizes and counts.
pub mod Dict
pub mod Equal
pub mod Python
use cernopendata_portal.Base.{ℕ, String, Bool, true, false, not, Option, none, some, List, [], ◌∷◌}
use cernopendata_portal.Base.{◌==◌, string_eq, nat_eq, if◌then◌else◌, is_empty}

mutual
  -- A dict in insertion order.
  pub data Fields : Type 0 where
    end : Fields
    field : String → Value → Fields → Fields

  pub data Items : Type 0 where
    nil : Items
    cons : Value → Items → Items

  pub data Value : Type 0 where
    null : Value
    bool : Bool → Value
    num : ℕ → Value
    text : String → Value
    arr : Items → Value
    obj : Fields → Value

-- `bool(v)`
unfoldable pub truthy : Value → Bool
truthy null = false
truthy (bool b) = b
truthy (num n) = not (n == 0)
truthy (text s) = not (s == "")
truthy (arr nil) = false
truthy (arr (cons v vs)) = true
truthy (obj end) = false
truthy (obj (field k v fs)) = true

abbrev pub items_of : Items → List Value
items_of nil = []
items_of (cons v vs) = v ∷ items_of vs

abbrev pub to_items : List Value → Items
to_items [] = nil
to_items (v ∷ vs) = cons v (to_items vs)
