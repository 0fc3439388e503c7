-- ===== src/Validation/Pid/Distinct.antt =====
-- What it means that the identifiers of a release pass.
use cernopendata_portal.Base.{ℕ, String, ◌≡◌, true, false, none, List, [], ◌∷◌, All}
use cernopendata_portal.Base.Result.{Result}
use cernopendata_portal.Json.{Value, Fields, truthy}
use cernopendata_portal.Json.Equal.{equal}
use cernopendata_portal.Release.Model.{status_eq}
use cernopendata_portal.Release.Edit.{get}
use cernopendata_portal.Validation.Pid.{Pid, hashable, seen_at}

module _ (id_field : String) where
  abbrev pub id_of : Fields → Value
  id_of = get id_field

  -- Every entry has an identifier, and no later entry has an equal one.
  abbrev pub IsPresent : Fields → Type 0
  IsPresent item = (truthy (id_of item) ≡ true) × (hashable (id_of item) ≡ true)

  abbrev pub Distinct : List Fields → Type 0
  Distinct [] = Unit
  Distinct (item ∷ items) =
      IsPresent item
      × All (λ later. equal (id_of later) (id_of item) ≡ false) items
      × Distinct items

  Unseen : List (Value × ℕ) → List Fields → Type 0
  Unseen seen items = All (λ item. seen_at (id_of item) seen ≡ none) items
