-- ===== src/Validation/Pid.antt =====
-- validations/pid.py: identifiers that must be present, unique and not registered yet.
pub mod Distinct
use cernopendata_portal.Base.{
  ℕ, suc, String, Bool, true, false, not, Option, none, some, List, [], ◌∷◌, ◌++◌, map, ◌==◌,
  string_eq, ◌&&◌, if◌then◌else◌, keep_if, is_empty,
}
use cernopendata_portal.Base.Result.{Result, ok, raise, type_error, ◌>>=◌}
use cernopendata_portal.Json.{Value, text, arr, obj, Fields, truthy}
use cernopendata_portal.Json.Equal.{equal}
use cernopendata_portal.Release.Model.{
  Status, staged, status_eq, Message, missing_field, duplicate_value, already_registered, Metadata,
  Validator,
}
use cernopendata_portal.Release.Edit.{get}
use cernopendata_portal.Release.Fix.{has_value}

-- A row of the table of persistent identifiers; `registered` is the test of its status.
pub record Pid : Type 0 where
  pub pid_type : String
  pub pid_value : String
  pub registered : Bool

-- Lists and dicts cannot be keys of a dict.
unfoldable pub hashable : Value → Bool
hashable (arr vs) = false
hashable (obj d) = false
hashable _ = true

-- `seen[value]`
unfoldable pub seen_at : Value → List (Value × ℕ) → Option ℕ
seen_at v [] = none
seen_at v ((w, i) ∷ seen) = if equal v w then some i else seen_at v seen

-- The tests of one entry's identifier, in the order of the loop.
pub data Verdict : Type 0 where
  missing unhashable fresh : Verdict
  duplicate : ℕ → Verdict

unfoldable pub judge : Value → List (Value × ℕ) → Verdict
judge v seen =
    if not (truthy v)
    then missing
    else if not (hashable v)
    then unhashable
    else (elim (seen_at v seen) [ none ↦ fresh | some j ↦ duplicate j ])

-- The loop of `validate`, from entry `i` on.
unfoldable pub check_ids : String → ℕ → List Fields → List (Value × ℕ) → Result (List Message)
check_ids id_field i [] seen = ok []
check_ids id_field i (item ∷ items) seen =
    let value = get id_field item in
    elim (judge value seen) [
      | missing ↦
          check_ids id_field (suc i) items seen >>= λ es. ok (missing_field (suc i) id_field ∷ es)
      | unhashable ↦ raise type_error
      | duplicate j ↦ check_ids id_field (suc i) items seen >>= λ es.
          ok (duplicate_value (suc i) id_field value (suc j) ∷ es)
      | fresh ↦ check_ids id_field (suc i) items ((value, i) ∷ seen)
    ]

-- `[item.get(id_field) for item in items if item.get(id_field)]`
unfoldable pub id_values : String → List Fields → List Value
id_values id_field items = keep_if truthy (map (get id_field) items)

-- The query for registered identifiers of a type among some values.
unfoldable pub registered_among : List Pid → String → List Value → List Value
registered_among table pid_type values =
    map (λ p. text p.pid_value)
      (keep_if
        (λ p. p.pid_type == pid_type && (p.registered && has_value (text p.pid_value) values))
        table)

module _ (table : List Pid) (id_field pid_type : String) where
  -- `_duplicate_pids`
  unfoldable pub duplicate_pids : List Fields → List Value
  unfolding id_values registered_among
  duplicate_pids items =
      let values = id_values id_field items in
      if is_empty values then [] else registered_among table pid_type values

  -- `PIDValidation.validate`, on the entries of the kind that the class is about.
  unfoldable pub validate_pids : List Fields → Status → Result (List Message)
  validate_pids items status =
      let used = duplicate_pids items in
      check_ids id_field 0 items [] >>= λ errors. ok (
        if not (status == staged) && not (is_empty used)
        then errors ++ (already_registered id_field used ∷ [])
        else errors)
