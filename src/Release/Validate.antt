-- ===== src/Release/Validate.antt =====
-- `Release.validate` and `change_status`, with the wrapper `class ReleaseValidation`
-- (cernopendata/modules/releases/api.py).
pub mod Outcome
use cernopendata_portal.Base.{
  ℕ, suc, String, ◌+◌, Bool, true, false, Option, none, some, List, [], ◌∷◌, ◌++◌, ◌==◌, string_eq,
  nat_eq, if◌then◌else◌, length, is_empty, find_first, ◌&&◌,
}
use cernopendata_portal.Base.Result.{Result, ok, raise, attribute_error, ◌>>=◌}
use cernopendata_portal.Json.{Value, text, obj, Fields}
use cernopendata_portal.Json.Dict.{lookup}
use cernopendata_portal.Json.Equal.{equal}
use cernopendata_portal.Json.Python.{iterate, member, get_item}
use cernopendata_portal.Release.Model.{
  Status, ready, draft, Message, crashed, Check, Event, Metadata, Validator,
}

-- `Release.change_status`
unfoldable pub change_status : Status → ℕ → Metadata → Metadata
change_status status user m = record m {
  status = status;
  history = m.history ++ (record { status = status; user_id = user } ∷ []);
}

-- Whether a file of a record is an index: `"type" in file and file["type"] == "index.json"`.
unfoldable pub is_index : Value → Result Bool
is_index file = do
  typed ← member "type" file
  if typed then (get_item "type" file >>= λ t. ok (equal t (text "index.json"))) else ok false

-- The inner counting loop, over `entry["files"]`: files and file indices so far.
unfoldable pub count_entries : List Value → ℕ × ℕ → Result (ℕ × ℕ)
count_entries [] totals = ok totals
count_entries (file ∷ files) (direct, indices) = is_index file >>= λ index.
    count_entries files (if index then (direct, suc indices) else (suc direct, indices))

unfoldable pub count_record : Fields → ℕ × ℕ → Result (ℕ × ℕ)
count_record entry totals = elim (lookup "files" entry) [
  | none ↦ ok totals
  | some files ↦ iterate files >>= λ fs. count_entries fs totals
]

unfoldable pub count_files : List Fields → ℕ × ℕ → Result (ℕ × ℕ)
count_files [] totals = ok totals
count_files (entry ∷ records) totals =
    count_record entry totals >>= λ totals'. count_files records totals'

-- The `try` in the loop over the validations.
unfoldable pub caught : String → Result (List Message) → List Message
caught name (ok errors) = errors
caught name (raise e) = crashed name ∷ []

module _ (registry : List Validator) where
  -- `ReleaseValidation.validator`
  unfoldable pub validator_of : String → Option Validator
  validator_of name = find_first (λ v. v.name == name) registry

  -- `ReleaseValidation.validate`
  unfoldable pub check_errors : String → Metadata → Result (List Message)
  check_errors name m = elim (validator_of name) [ none ↦ ok [] | some v ↦ v.validate m ]

  -- The loop over the validations: those done, those to do, and the errors so far. A validation
  -- is given the release as the loop has left it.
  unfoldable pub run_checks :
      Metadata → List Check → List Check → List Message → List Check × List Message
  run_checks m done [] errors = (done, errors)
  run_checks m done (c ∷ rest) errors =
      let now : Metadata = record m { errors = errors; validations = done ++ c ∷ rest } in
      let found = caught c.name (check_errors c.name now) in
      let c' : Check = if c.enabled then record c { status = is_empty found } else c in
      run_checks m (done ++ (c' ∷ [])) rest (if c.enabled then errors ++ found else errors)

  -- `Release.validate`
  unfoldable pub validate : ℕ → Metadata → Result Metadata
  validate user m =
      let start : Metadata = record m {
        num_records = length m.records;
        num_files = 0;
        num_file_indices = 0;
        errors = [];
      } in
      let (checks, errors) = run_checks start [] m.validations [] in
      count_files m.records (0, 0) >>= λ totals.
      let counted : Metadata = record start {
        errors = errors;
        validations = checks;
        num_files = totals.0;
        num_file_indices = totals.1;
        num_errors = length errors;
      } in
      ok (change_status (if length errors == 0 then ready else draft) user counted)
