-- ===== src/Release/Tests/Documents.antt =====
-- The theorems on requests that add documents, and on curators, at the sample release, one document
-- and one role.
use cernopendata_portal.Base.{
  ◌∷◌, ◌↔◌, ◌<>◌, contains, List, true, ◌≡◌, refl, none, some, string_eq, nat_eq, All, [],
}
use cernopendata_portal.Base.Text.{ends_with}
use cernopendata_portal.Json.{Value, text, arr, obj, Fields, nil, cons, end, field, truthy}
use cernopendata_portal.Json.Dict.{lookup, insert}
use cernopendata_portal.Json.Python.{get_attr, get_default}
use cernopendata_portal.Release.Model.{draft, Metadata}
use cernopendata_portal.Release.Edit.{add_documents, with_schema}
use cernopendata_portal.Release.Validate.{
  validate, run_checks, count_files, count_record, count_entries, change_status, validator_of,
}
use cernopendata_portal.Release.Views.{
  Row, check_experiment, validate_experiment, get_release, with_release,
}
use cernopendata_portal.Release.Views.Curators.{curator_experiments, check_experiment-curator}
use cernopendata_portal.Release.Views.Documents.{
  content_of, check_inline, requested_documents, add_documents_to, add_documents_view,
}
use cernopendata_portal.Release.Views.Documents.Stored.{
  IsInline, AreStored, add_documents_view_stores,
}
use cernopendata_portal.Release.Tests.{release_in, cms_curator}

abbrev guide : Fields
guide = field "slug" (text "guide") (field "body" (obj (field "content" (text "Read me") end)) end)

abbrev request : Value
request = obj (field "documents" (arr (cons (obj guide) nil)) end)

abbrev with_guide : Row
with_guide =
    (add_documents_view cms_curator true "cms" 1 [] "document.json" (λ url. none) request
      (some (release_in draft))).1

add_documents_view_stores_example :
    (m : Metadata) × (m' : Metadata) × (docs : List Fields) × (some (release_in draft) ≡ some m)
    × (with_guide ≡ some m')
    × All IsInline docs
    × AreStored "document.json" docs m m'
unfolding add_documents_view with_release get_release check_experiment validate_experiment
    requested_documents add_documents_to check_inline content_of add_documents with_schema validate
    run_checks count_files count_record count_entries change_status validator_of get_attr
    get_default lookup insert truthy ends_with string_eq nat_eq
add_documents_view_stores_example =
    add_documents_view_stores cms_curator true "cms" 1 [] "document.json" (λ url. none) request
      (some (release_in draft)) with_guide refl

check_experiment-curator_example :
    (check_experiment (curator_experiments ("cms-curator" ∷ [])) "cms" ≡ none) ↔ (
      (validate_experiment "cms" ≡ true)
      × (contains ("cms" <> "-curator") ("cms-curator" ∷ []) ≡ true))
check_experiment-curator_example = check_experiment-curator "cms" ("cms-curator" ∷ [])
