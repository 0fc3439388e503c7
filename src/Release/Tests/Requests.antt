-- ===== src/Release/Tests/Requests.antt =====
-- The theorems on bulk edits and on requests at the sample release.
use cernopendata_portal.Base.{
  String, ◌≡◌, refl, inl, true, none, some, List, [], ◌∷◌, string_eq, nat_eq, contains,
  if◌then◌else◌,
}
use cernopendata_portal.Json.{text, num, Fields, end, field, truthy}
use cernopendata_portal.Json.Dict.{lookup}
use cernopendata_portal.Release.Model.{Status, draft, ready, editing, status_eq, Metadata}
use cernopendata_portal.Release.Validate.{change_status, validator_of}
use cernopendata_portal.Release.Edit.{is_status, is_one_of, lock}
use cernopendata_portal.Release.Bulk.{Updates, update_record, preview_record}
use cernopendata_portal.Release.Bulk.Laws.{
  preview-update, lookup-update_record, is_immutable, or_old,
}
use cernopendata_portal.Release.Fix.{fix_checks, fix_all, fix_one, fix, fixable}
use cernopendata_portal.Release.Views.{
  abort, experiments, check_experiment, validate_experiment, get_release, fix_checks_view,
}
use cernopendata_portal.Release.Views.Guards.{get_release_grants, fix_checks_view_stuck}
use cernopendata_portal.Validation.Slug.{valid_slug, fix_slugs, fix_slug}
use cernopendata_portal.Release.Tests.{a_record, registry, release_in, cms_curator, conflict}

abbrev new_fields : Fields
new_fields = field "title" (text "Jets") (field "abstract" (text "Two jets") end)

abbrev old_keys : List String
old_keys = "license" ∷ "recid" ∷ []

abbrev updates : Updates
updates = record { set = some new_fields; delete = some old_keys }

preview-update_example : preview_record updates a_record ≡ (update_record updates a_record).0
preview-update_example = preview-update updates a_record

lookup-update_record_example :
    lookup "abstract"
      (update_record (record { set = some new_fields; delete = some old_keys }) a_record).0
    ≡ (if is_immutable "abstract"
        then lookup "abstract" a_record
        else if contains "abstract" old_keys
        then none
        else or_old (lookup "abstract" new_fields) (lookup "abstract" a_record))
unfolding lookup string_eq
lookup-update_record_example =
    lookup-update_record "abstract" new_fields old_keys a_record (refl, (refl, tt))

abbrev no_updates : Updates
no_updates = record {
  set = some (field "recid" (text "cms-8") end);
  delete = some ("license" ∷ []);
}

get_release_grants_example :
    (contains "cms" experiments ≡ true)
    × (contains "cms" cms_curator ≡ true)
    × (true ≡ true)
    × ((old : Metadata) × (some (release_in ready) ≡ some old)
        × (contains {A = Status} old.status (draft ∷ ready ∷ []) ≡ true)
        × (change_status editing 1 (release_in ready) ≡ change_status editing 1 old))
unfolding get_release check_experiment validate_experiment lock is_status is_one_of string_eq
    status_eq
get_release_grants_example =
    get_release_grants cms_curator true "cms" 1 (draft ∷ ready ∷ []) editing
      (some (release_in ready)) (change_status editing 1 (release_in ready)) refl

-- A document whose file name is a number: the fix of its slug raises.
abbrev unfixable : Metadata
unfixable = record (release_in draft) { documents = field "_source_filename" (num 3) end ∷ [] }

fix_checks_view_stuck_example :
    let view = fix_checks_view cms_curator true "cms" 1 registry "record-schema" "doc-schema" in
    let row = (view (some unfixable)).1 in
    (row ≡ some (change_status editing 1 unfixable)) × (view row ≡ (abort conflict, row))
unfolding check_experiment validate_experiment fix_checks fix_all fix_one fix fixable validator_of
    valid_slug fix_slugs fix_slug truthy lookup change_status string_eq nat_eq
fix_checks_view_stuck_example =
    fix_checks_view_stuck cms_curator true "cms" 1 registry "record-schema" "doc-schema" unfixable
      refl refl (inl refl) refl
