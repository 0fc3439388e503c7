-- ===== src/Release/Tests/Published.antt =====
-- The way to PUBLISHED of the sample release, in a database that lists what was written to it.
use cernopendata_portal.Base.{◌≡◌, refl, true, none, some, List, [], ◌∷◌, string_eq, nat_eq}
use cernopendata_portal.Json.{Fields, truthy}
use cernopendata_portal.Json.Dict.{lookup, insert, erase}
use cernopendata_portal.Json.Python.{member, set_item}
use cernopendata_portal.Json.Equal.{equal}
use cernopendata_portal.Release.Model.{published, status_eq, Metadata}
use cernopendata_portal.Release.Validate.{
  change_status, count_files, count_record, count_entries, validator_of, check_errors, run_checks,
  validate, caught,
}
use cernopendata_portal.Release.Edit.{create, checks_for, with_schema}
use cernopendata_portal.Release.Publish.{
  prerelease, stage_fields, stage_records, stage_document, stage_documents, publish_record,
  publish_records, publish_document, publish_documents,
}
use cernopendata_portal.Release.Publish.Task.{
  stage_release, create_all, publish_release, publish_all,
}
use cernopendata_portal.Release.Views.{
  check_experiment, validate_experiment, stage_view, publish_view,
}
use cernopendata_portal.Release.Lifecycle.{Reachable, created}
use cernopendata_portal.Release.Lifecycle.Published.{ready_to_published}
use cernopendata_portal.Release.Tests.{
  a_record, a_document, registry, cms_curator, shelf, created_release,
}
use cernopendata_portal.Validation.Pid.{
  validate_pids, check_ids, judge, hashable, seen_at, duplicate_pids, id_values, registered_among,
}
use cernopendata_portal.Validation.Slug.{valid_slug}

abbrev Shelves : Type 0
Shelves = List Fields × List Fields

abbrev staged_entries : Shelves
staged_entries = (create_all shelf "record-schema" "doc-schema" created_release ([], [])).1

abbrev published_entries : Shelves
published_entries = (publish_all shelf created_release staged_entries).1

ready_to_published_example :
    (m₁ : Metadata) × (m₂ : Metadata) × (m₃ : Metadata) × (m₄ : Metadata) × ((stage_view cms_curator
        true "cms" 2
        (some created_release)).1
      ≡ some m₁)
    × (stage_release shelf "record-schema" "doc-schema" 2 m₁ ([], []) ≡ (m₂, staged_entries))
    × ((publish_view cms_curator true "cms" 2 (some m₂)).1 ≡ some m₃)
    × (publish_release shelf 2 m₃ staged_entries ≡ (m₄, published_entries))
    × (m₄.status ≡ published)
    × (m₄.errors ≡ [])
    × (m₄.records ≡ created_release.records)
    × (m₄.documents ≡ created_release.documents)
    × Reachable shelf registry "record-schema" "doc-schema" m₄
unfolding create validate change_status run_checks count_files count_record count_entries
    validator_of check_errors checks_for with_schema string_eq nat_eq status_eq check_experiment
    validate_experiment valid_slug validate_pids check_ids judge hashable seen_at duplicate_pids
    id_values registered_among lookup insert erase truthy equal caught stage_records stage_fields
    stage_documents stage_document prerelease publish_record publish_records publish_document
    publish_documents member set_item
ready_to_published_example =
    ready_to_published shelf "record-schema" "doc-schema" registry cms_curator "cms" 2
      created_release [] ([], []) staged_entries published_entries
      (created "1" "cms" (λ _. 5) 1 (a_record ∷ []) (a_document ∷ []) none none none
        {m = created_release} refl)
      refl refl refl refl
