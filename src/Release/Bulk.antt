-- ===== src/Release/Bulk.antt =====
-- `Release.bulk_update` and `Release.bulk_preview` (cernopendata/modules/releases/api.py).
-- `DeepDiff(...).to_json()` and `json.loads` are the parameters of the preview.
pub mod Laws
use cernopendata_portal.Base.{
  ℕ, suc, ◌+◌, String, Bool, true, false, Option, none, some, List, [], ◌∷◌, ◌==◌, string_eq,
  if◌then◌else◌, contains, take, ◌||◌,
}
use cernopendata_portal.Base.Result.{Result, ok, ◌>>=◌}
use cernopendata_portal.Json.{Value, Fields, end, field}
use cernopendata_portal.Json.Dict.{lookup, insert, erase, has_key}
use cernopendata_portal.Release.Model.{Metadata, Validator, bulk_immutable_fields}
use cernopendata_portal.Release.Validate.{validate}
use cernopendata_portal.Release.Edit.{get}

-- The request's `updates`: the keys `set` and `delete`, each of which may be absent.
pub record Updates : Type 0 where
  pub set : Option Fields
  pub delete : Option (List String)

-- The loop over `updates["set"]` on one record, with the flag `modified`.
unfoldable pub set_fields : Fields → Fields × Bool → Fields × Bool
set_fields end state = state
set_fields (field k v rest) (r, modified) =
    set_fields rest
      (if contains k bulk_immutable_fields then (r, modified) else (insert k v r, true))

-- The loop over `updates["delete"]`.
unfoldable pub delete_fields : List String → Fields × Bool → Fields × Bool
delete_fields [] state = state
delete_fields (k ∷ rest) (r, modified) = delete_fields rest (
    if contains k bulk_immutable_fields
    then (r, modified)
    else if has_key k r
    then (erase k r, true)
    else (r, modified))

-- The body of the loop over the records.
unfoldable pub update_record : Updates → Fields → Fields × Bool
update_record u r =
    let after_set : Fields × Bool = elim u.set [
      | none ↦ (r, false)
      | some d ↦ set_fields d (r, false)
    ] in
    elim u.delete [ none ↦ after_set | some ks ↦ delete_fields ks after_set ]

unfoldable pub update_all : Updates → List Fields → ℕ → List Fields × ℕ
update_all u [] n = ([], n)
update_all u (r ∷ rs) n =
    let (r', modified) = update_record u r in
    let (rs', total) = update_all u rs (if modified then suc n else n) in (r' ∷ rs', total)

-- The result is committed, and the number of records modified returned.
unfoldable pub bulk_update : List Validator → Updates → ℕ → Metadata → Result (Metadata × ℕ)
bulk_update registry u user m =
    let (records, modified) = update_all u m.records 0 in
    validate registry user (record m { records = records }) >>= λ m'. ok (m', modified)

-- The preview's loops, on a copy: `modified.pop(key, None)`.
unfoldable pub preview_set : Fields → Fields → Fields
preview_set end r = r
preview_set (field k v rest) r =
    preview_set rest (if contains k bulk_immutable_fields then r else insert k v r)

unfoldable pub preview_delete : List String → Fields → Fields
preview_delete [] r = r
preview_delete (k ∷ rest) r =
    preview_delete rest (if contains k bulk_immutable_fields then r else erase k r)

unfoldable pub preview_record : Updates → Fields → Fields
preview_record u r =
    let after_set : Fields = elim u.set [ none ↦ r | some d ↦ preview_set d r ] in
    elim u.delete [ none ↦ after_set | some ks ↦ preview_delete ks after_set ]

pub record Diff : Type 0 where
  pub index : ℕ
  pub recid : Value
  pub diff : Value

module _ (deep_diff : Fields → Fields → String) (loads : String → Value) where
  -- `if diff:` tests a text, and `to_json` gives at least `{}`.
  unfoldable pub preview_from : Updates → ℕ → List Fields → List Diff
  preview_from u i [] = []
  preview_from u i (r ∷ rs) =
      let rest = preview_from u (suc i) rs in
      let diff = deep_diff r (preview_record u r) in
      if diff == ""
      then rest
      else record { index = i; recid = get "recid" r; diff = loads diff } ∷ rest

  unfoldable pub bulk_preview : Updates → ℕ → Metadata → List Diff
  bulk_preview u max_preview m = preview_from u 0 (take max_preview m.records)
