-- ===== src/Release/Views.antt =====
-- The request handlers that move a release from status to status
-- (cernopendata/modules/releases/views.py), on the row of the release that the request names.
-- A handler gives the response and the row as it was last committed. `acquired` says whether the
-- database gives the row lock at once, and `curated` lists what `curator_experiments` returns for
-- the user who makes the request.
pub mod Guards
pub mod Documents
pub mod Curators
use cernopendata_portal.Base.{
  ℕ, String, Bool, true, false, not, Option, none, some, List, [], ◌∷◌, ◌==◌, string_eq, contains,
  is_empty, if◌then◌else◌,
}
use cernopendata_portal.Base.Result.{Exn, Result, ok, raise, attribute_error, ◌>>=◌}
use cernopendata_portal.Json.{Value, Fields}
use cernopendata_portal.Release.Model.{
  Status, draft, ready, editing, staging, staged, publishing, status_eq, Check, Metadata, Validator,
}
use cernopendata_portal.Release.Edit.{
  is_one_of, lock, delete, update_records, add_records, add_documents, update_document,
  enable_validation,
}
use cernopendata_portal.Release.Bulk.{Updates, bulk_update}
use cernopendata_portal.Release.Fix.{fix_checks}
use cernopendata_portal.Release.Publish.{Portal, Outcome, rollback}

-- `crash` is an exception that no handler catches.
pub data Response (A : Type 0) : Type 0 where
  done : A → Response A
  abort : ℕ → Response A
  crash : Exn → Response A

abbrev pub Row : Type 0
Row = Option Metadata

-- A handler's response, and the row that it leaves in the database.
abbrev pub Reply : Type 0
Reply = Response (Unit {0}) × Row

abbrev pub experiments : List String
experiments = "lhcb" ∷ "opera" ∷ "alice" ∷ "atlas" ∷ "cms" ∷ "delphi" ∷ []

-- `Release.validate_experiment`
unfoldable pub validate_experiment : String → Bool
validate_experiment experiment = contains experiment experiments

-- A handler that commits what its operation returns, and nothing if the operation raises.
abbrev pub commits {ℓ} : {A : Type ℓ} → (A → Metadata) → Metadata → Result A → Reply
commits saved m (ok a) = (done tt, some (saved a))
commits saved m (raise e) = (crash e, some m)

-- `_check_experiment`: the code that it aborts with, if any.
unfoldable pub check_experiment : List String → String → Option ℕ
unfolding validate_experiment
check_experiment curated experiment =
    if not (validate_experiment experiment)
    then some 404
    else if not (contains experiment curated)
    then some 403
    else none

abbrev refuses : Option (List Status) → Metadata → Bool
refuses none m = false
refuses (some ss) m = not (is_one_of ss m)

module _ (curated : List String) (acquired : Bool) (experiment : String) (user : ℕ) where
  -- `_get_release`. `Release.get` wraps a missing row too, so `if not release` never holds; the
  -- first use of such a release raises.
  unfoldable pub get_release : Option (List Status) → Option Status → Row → Response Metadata × Row
  unfolding check_experiment lock is_one_of
  get_release statuses target row = elim (check_experiment curated experiment) [
    | some code ↦ (abort code, row)
    | none ↦ elim row [
      | none ↦ (crash attribute_error, none)
      | some m ↦ if refuses statuses m then (abort 409, some m) else (elim target [
        | none ↦ (done m, some m)
        | some s ↦
            let (locked, m') = lock acquired (some m.status) s user m in
            if locked then (done m', some m') else (abort 409, some m)
      ])
    ]
  ]

  -- A handler that gets its release and goes on with it.
  unfoldable pub with_release :
      Option (List Status) → Option Status → (Metadata → Reply) → Row → Reply
  unfolding get_release
  with_release statuses target body row =
      let (response, row') = get_release statuses target row in
      elim response [
        | done m ↦ body m
        | abort code ↦ (abort code, row')
        | crash e ↦ (crash e, row')
      ]

  -- `stage` and `publish`, up to the background task that they start.
  abbrev cleared : Metadata → Reply
  cleared m = (done tt, some (record m { errors = []; num_errors = 0 }))

  unfoldable pub stage_view : Row → Reply
  unfolding with_release
  stage_view = with_release (some (ready ∷ [])) (some staging) cleared

  unfoldable pub publish_view : Row → Reply
  unfolding with_release
  publish_view = with_release (some (staged ∷ [])) (some publishing) cleared

  -- `RuntimeError` is caught: the page tells of it.
  unfoldable pub delete_view : Row → Reply
  unfolding with_release delete
  delete_view =
      with_release none none
        (λ m. elim (delete m) [ ok row ↦ (done tt, row) | raise _ ↦ (done tt, some m) ])

  module _ (registry : List Validator) (record_schema document_schema : String) where
    unfoldable pub update_records_view : List Fields → Row → Reply
    unfolding with_release
    update_records_view records row =
        if is_empty records
        then (abort 400, row)
        else with_release none (some editing)
            (λ m.
              commits (λ m'. m') m
                (update_records registry record_schema document_schema records user m))
            row

    unfoldable pub add_records_view : List Fields → Row → Reply
    unfolding with_release
    add_records_view records = with_release none none (λ m.
        commits (λ m'. m') m (add_records registry record_schema document_schema records user m))

    -- `updates` are absent if the request has none, or nothing that is true in them.
    unfoldable pub bulk_update_view : Option Updates → Row → Reply
    unfolding with_release
    bulk_update_view none row = (abort 400, row)
    bulk_update_view (some updates) row =
        with_release none (some editing)
          (λ m. commits (λ r. r.0) m (bulk_update registry updates user m)) row

    unfoldable pub fix_checks_view : Row → Reply
    unfolding with_release
    fix_checks_view =
        with_release (some (draft ∷ ready ∷ [])) (some editing)
          (λ m. commits (λ m'. m') m (fix_checks registry user m))

    unfoldable pub enable_validation_view : (ℕ → Option Check) → ℕ → Bool → Row → Reply
    unfolding with_release
    enable_validation_view elsewhere i enabled = with_release (some (draft ∷ ready ∷ [])) none (λ m.
        commits (λ r. r.0) m
          (enable_validation registry record_schema document_schema elsewhere i enabled user m))

  -- `rollback`, with the database of the portal.
  unfoldable pub rollback_view : {D X : Type 0} → Portal D X → D × X → Row → Reply
  unfolding with_release
  rollback_view portal w = with_release (some (staged ∷ [])) none (λ m.
      let o = rollback portal user m w in
      (elim o.result [ ok _ ↦ (done tt, some o.saved) | raise e ↦ (crash e, some o.saved) ]))
