-- ===== src/Release/Views/Guards.antt =====
-- Who may act on a release, and in which status.
use cernopendata_portal.Base.{
  ℕ, String, ◌≡◌, refl, ◌⊎◌, Bool, true, Option, none, some, List, string_eq, contains, arith,
}
use cernopendata_portal.Base.Result.{Exn, raise}
use cernopendata_portal.Release.Model.{
  Status, draft, ready, editing, status_eq, Metadata, Validator,
}
use cernopendata_portal.Release.Edit.{is_one_of, is_status, lock}
use cernopendata_portal.Release.Validate.{change_status}
use cernopendata_portal.Release.Fix.{fix_checks}
use cernopendata_portal.Release.Views.{
  done, abort, Row, experiments, validate_experiment, check_experiment, get_release,
  fix_checks_view,
}

module _ (curated : List String) (acquired : Bool) (experiment : String) (user : ℕ) where
  -- A handler that asks for statuses and for a lock gets its release only for a known experiment
  -- that the user curates, with the row lock, in one of the statuses, and then with the status
  -- changed.
  pub get_release_grants :
      (statuses : List Status) (target : Status) (row : Row) (m : Metadata)
      → (get_release curated acquired experiment user (some statuses) (some target) row).0 ≡ done m
      → (contains experiment experiments ≡ true)
        × (contains experiment curated ≡ true)
        × (acquired ≡ true)
        × ((old : Metadata) × (row ≡ some old)
            × (contains old.status statuses ≡ true)
            × (m ≡ change_status target user old))
  unfolding get_release check_experiment validate_experiment lock is_one_of is_status
  get_release_grants statuses target none m h = absurd (ground arith)
  get_release_grants statuses target (some old) m h =
      (ground arith, ground arith, ground arith, (old, refl, ground arith, ground arith))

  -- A request that is refused leaves the row as it was, and the code is 403, 404 or 409.
  pub get_release_refuses :
      (statuses : Option (List Status)) (target : Option Status) (row : Row) (code : ℕ)
      → (get_release curated acquired experiment user statuses target row).0 ≡ abort code
      → ((get_release curated acquired experiment user statuses target row).1 ≡ row)
        × ((code ≡ 403) ⊎ (code ≡ 404) ⊎ (code ≡ 409))
  unfolding get_release check_experiment validate_experiment lock is_one_of is_status
  get_release_refuses statuses target row code h = ground arith

  module _ (registry : List Validator) (record_schema document_schema : String) where
    -- If a fix raises in a request to fix the checks, the release stays in EDITING and the same
    -- request is refused with 409 from then on.
    pub fix_checks_view_stuck :
        (m : Metadata) {e : Exn}
        → check_experiment curated experiment ≡ none
        → acquired ≡ true
        → (m.status ≡ draft) ⊎ (m.status ≡ ready)
        → fix_checks registry user (change_status editing user m) ≡ raise e
        → let view =
            fix_checks_view curated acquired experiment user registry record_schema
              document_schema in
          let row = (view (some m)).1 in
          (row ≡ some (change_status editing user m)) × (view row ≡ (abort 409, row))
    unfolding fix_checks_view lock is_one_of is_status change_status
    fix_checks_view_stuck m free got from raised = (ground arith, ground arith)
