-- ===== src/Validation/Slug.antt =====
-- validations/slug.py: the slugs of the documents, and their derivation from file names.
-- `_source_filename` is a text, as the upload sets it; `.rsplit` of anything else raises.
pub mod Laws
use cernopendata_portal.Base.{
  ℕ, suc, String, Bool, true, false, not, Option, none, some, List, [], ◌∷◌, ◌==◌, string_eq,
  if◌then◌else◌,
}
use cernopendata_portal.Base.Result.{Result, ok, raise, attribute_error, ◌>>=◌}
use cernopendata_portal.Base.Text.{after_last, strip_suffix}
use cernopendata_portal.Json.{Value, text, Fields, truthy}
use cernopendata_portal.Json.Dict.{insert}
use cernopendata_portal.Release.Model.{Message, no_source_filename, no_slug, Metadata, Validator}
use cernopendata_portal.Release.Edit.{get}
use cernopendata_portal.Validation.Pid.{Pid, validate_pids}

-- The file's name, less its directories and a final `.json`.
unfoldable pub slug_of : String → String
slug_of source =
    let name = after_last 0x2f source in
    elim (strip_suffix name ".json") [ none ↦ name | some stem ↦ stem ]

-- The body of the loop of `fix`, on document number `i`: the document after it, and an error, if
-- there is one.
unfoldable pub fix_slug : ℕ → Fields → Result (Fields × Option Message)
fix_slug i doc =
    let source = get "_source_filename" doc in
    let derived : Result (Fields × Option Message) = elim source [
      | text s ↦
          let slug = slug_of s in
          ok (
            if slug == ""
            then (doc, some (no_slug (suc i) (text s)))
            else (insert "slug" (text slug) doc, none))
      | _ ↦ raise attribute_error
    ] in
    if truthy (get "slug" doc)
    then ok (doc, none)
    else if not (truthy source)
    then ok (doc, some (no_source_filename (suc i)))
    else derived

unfoldable pub fix_slugs : ℕ → List Fields → Result (List Fields × List Message)
fix_slugs i [] = ok ([], [])
fix_slugs i (doc ∷ docs) = fix_slug i doc >>= λ fixed. fix_slugs (suc i) docs >>= λ rest.
    ok (fixed.0 ∷ rest.0, (elim fixed.1 [ none ↦ rest.1 | some e ↦ e ∷ rest.1 ]))

unfoldable pub valid_slug : List Pid → Validator
unfolding validate_pids fix_slugs
valid_slug table = record {
  name = "Valid slug";
  experiment = none;
  optional = false;
  validate = λ m. validate_pids table "slug" "docid" m.documents m.status;
  fix = some (λ m. fix_slugs 0 m.documents >>= λ r. ok (record m { documents = r.0 }, r.1));
  fixable = λ _. ok true;
}
