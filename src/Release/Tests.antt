-- ===== src/Release/Tests.antt =====
-- The theorems on releases at concrete releases of one record and one document.
pub mod Payloads
pub mod Published
pub mod Requests
pub mod Pictures
pub mod Documents
use cernopendata_portal.Base.{
  ℕ, String, ◌≡◌, refl, ◌↔◌, ◌⊎◌, inl, true, false, none, some, List, [], ◌∷◌, map, All, string_eq,
  nat_eq, ◌++◌, length, keep_if, contains, if◌then◌else◌, ◌==◌, ◌+◌,
}
use cernopendata_portal.Base.Result.{type_error, Result, ok, raise}
use cernopendata_portal.Json.{text, num, Fields, end, field, truthy}
use cernopendata_portal.Json.Dict.{lookup, insert, erase}
use cernopendata_portal.Json.Equal.{equal}
use cernopendata_portal.Json.Python.{iterate}
use cernopendata_portal.Release.Model.{
  Status, draft, ready, editing, staging, staged, published, status_eq, Metadata, Validator,
}
use cernopendata_portal.Release.Validate.{
  change_status, count_files, count_record, count_entries, validator_of, check_errors, run_checks,
  validate, caught,
}
use cernopendata_portal.Release.Validate.Outcome.{
  Passes, all_findings, rechecked, validate-eq, validate_ready, validate_keeps, validate_status,
}
use cernopendata_portal.Release.Edit.{create, checks_for, with_schema, is_status, is_one_of, lock}
use cernopendata_portal.Release.Bulk.{
  Updates, update_record, update_all, preview_record, set_fields, delete_fields,
}
use cernopendata_portal.Release.Bulk.Laws.{
  preview-update, lookup-update_record, is_immutable, or_old,
}
use cernopendata_portal.Release.Fix.{fix_checks, fix_all, fix_one, fix, fixable}
use cernopendata_portal.Release.Publish.{Portal}
use cernopendata_portal.Release.Publish.Ends.{StagingEnds, stage_release_ends}
use cernopendata_portal.Release.Views.{
  abort, Row, experiments, check_experiment, validate_experiment, get_release, with_release,
  stage_view, fix_checks_view,
}
use cernopendata_portal.Release.Views.Guards.{
  get_release_grants, get_release_refuses, fix_checks_view_stuck,
}
use cernopendata_portal.Release.Lifecycle.{IsSound, created, then_step, stage_request}
use cernopendata_portal.Release.Lifecycle.Reached.{Reachable-IsSound}
use cernopendata_portal.Validation.Pid.{
  validate_pids, check_ids, judge, hashable, seen_at, duplicate_pids, id_values, registered_among,
}
use cernopendata_portal.Validation.Slug.{valid_slug, fix_slugs, fix_slug}
use cernopendata_portal.Validation.Lawful.{valid_slug-IsLocal, valid_slug-FixesInPlace}

abbrev pub a_record : Fields
a_record = field "recid" (text "cms-7") (field "title" (text "Muons") end)

abbrev pub a_document : Fields
a_document = field "slug" (text "about-cms") end

abbrev pub registry : List Validator
registry = valid_slug [] ∷ []

abbrev pub release_in : Status → Metadata
release_in s = record {
  status = s;
  id = "1";
  name = none;
  description = none;
  discussion_url = none;
  experiment = "cms";
  records = a_record ∷ [];
  documents = a_document ∷ [];
  errors = [];
  num_records = 1;
  num_errors = 0;
  num_docs = 1;
  num_files = 0;
  num_file_indices = 0;
  max_recid = 0;
  history = [];
  validations = record { id = 5; name = "Valid slug"; status = false; enabled = true } ∷ [];
}

abbrev pub cms_curator : List String
cms_curator = "cms" ∷ []

abbrev pub conflict : ℕ
conflict = 409

abbrev or_draft : Result Metadata → Metadata
or_draft (ok m) = m
or_draft (raise e) = release_in draft

-- A database and an index that list what was written to them.
abbrev pub shelf : Portal (List Fields) (List Fields)
shelf = record {
  create_record = λ r w. (ok tt, (r ∷ w.0, w.1));
  create_doc = λ d w. (ok tt, (d ∷ w.0, w.1));
  get_pid = λ type value w. ok 0;
  update_record = λ i r w. (ok r, (r ∷ w.0, w.1));
  update_doc = λ i d w. (ok d, (d ∷ w.0, w.1));
  delete_record = λ i w. (ok tt, w);
  delete_doc = λ i w. (ok tt, w);
  register_doi = λ r w. (ok tt, w);
  index = λ r w. (ok tt, (w.0, r ∷ w.1));
}

abbrev pub created_release : Metadata
created_release = or_draft (
    create registry "record-schema" "doc-schema" "1" "cms" (λ _. 5) 1 (a_record ∷ [])
      (a_document ∷ []) none none none)

abbrev staged_row : Row → Metadata
staged_row none = release_in draft
staged_row (some m) = m

Reachable-IsSound_example :
    IsSound (staged_row (stage_view cms_curator true "cms" 2 (some created_release)).1)
unfolding create validate change_status run_checks count_files count_record count_entries
    validator_of check_errors checks_for with_schema string_eq nat_eq status_eq stage_view
    with_release get_release check_experiment validate_experiment lock is_status is_one_of
    valid_slug validate_pids check_ids judge hashable seen_at duplicate_pids id_values
    registered_among lookup insert truthy equal caught
Reachable-IsSound_example =
    Reachable-IsSound shelf registry "record-schema" "doc-schema" (valid_slug-FixesInPlace [], tt)
      (then_step
        (created "1" "cms" (λ _. 5) 1 (a_record ∷ []) (a_document ∷ []) none none none
          {m = created_release} refl)
        (stage_request cms_curator true "cms" 2 refl))

abbrev validated : Metadata
validated = or_draft (validate registry 1 (release_in draft))

validate_ready_example :
    (validated.status ≡ ready)
    ↔ All (Passes registry (release_in draft)) (release_in draft).validations
unfolding validate change_status run_checks count_files count_record count_entries validator_of
    check_errors string_eq nat_eq status_eq valid_slug validate_pids check_ids judge hashable
    seen_at duplicate_pids id_values registered_among lookup truthy equal
validate_ready_example =
    validate_ready registry (valid_slug-IsLocal [], tt) 1 (release_in draft) {m' = validated} refl

validate_status_example : (validated.status ≡ ready) ⊎ (validated.status ≡ draft)
unfolding validate change_status run_checks count_files count_record count_entries validator_of
    check_errors string_eq nat_eq status_eq valid_slug validate_pids check_ids judge hashable
    seen_at duplicate_pids id_values registered_among lookup truthy equal caught
validate_status_example = validate_status registry 1 (release_in draft) {m' = validated} refl

-- A record whose `_files` is a number.
abbrev odd_files : Metadata
odd_files = record (release_in draft) { records = field "files" (num 3) end ∷ [] }

stage_release_ends_example :
    StagingEnds shelf "record-schema" "doc-schema" 1 (release_in staging) ([], [])
stage_release_ends_example =
    stage_release_ends shelf "record-schema" "doc-schema" 1 (release_in staging) ([], [])
