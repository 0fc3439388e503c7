-- ===== src/Release/Payload/RoundTrip.antt =====
-- Uploading what `release_json` (modules/releases/views.py) gives of a release.
use cernopendata_portal.Base.{
  ℕ, String, ◌≡◌, refl, ap, Option, none, some, List, [], ◌∷◌, map, string_eq,
}
use cernopendata_portal.Base.Result.{ok}
use cernopendata_portal.Json.{Value, text, obj, Fields, truthy, items_of, to_items}
use cernopendata_portal.Json.Dict.{lookup, set_default}
use cernopendata_portal.Json.Python.{iterate}
use cernopendata_portal.Release.Model.{Metadata, Validator}
use cernopendata_portal.Release.Edit.{create}
use cernopendata_portal.Release.Payload.{
  entries, or_empty, name_sources, split_payload, release_body, dicts_in, entries_in, name_or,
  upload, as_text, optional_text, text_at, fields_of,
}

abbrev pub with_source : String → List Fields → List Fields
with_source source = map (set_default "_source_filename" (text source))

or_empty-entries : (ds : List Fields) → or_empty (entries ds) ≡ entries ds
unfolding truthy
or_empty-entries [] = refl
or_empty-entries (d ∷ ds) = refl

items_of-to_items : (vs : List Value) → items_of (to_items vs) ≡ vs
items_of-to_items [] = refl
items_of-to_items (v ∷ vs) = ap (λ ws. v ∷ ws) (items_of-to_items vs)

name_sources-entries :
    (source : String) (ds : List Fields)
    → name_sources source (map (λ d. obj d) ds) ≡ ok (map (λ d. obj d) (with_source source ds))
unfolding name_sources
name_sources-entries source [] = refl
name_sources-entries source (d ∷ ds) = rw (name_sources-entries source ds) refl

dicts_in-entries : (ds : List Fields) → dicts_in (map (λ d. obj d) ds) ≡ ok ds
unfolding dicts_in
dicts_in-entries [] = refl
dicts_in-entries (d ∷ ds) = rw (dicts_in-entries ds) refl

entries_in-entries : (ds : List Fields) → entries_in (entries ds) ≡ ok ds
unfolding entries_in
entries_in-entries ds = rw (items_of-to_items (map (λ d. obj d) ds)) (dicts_in-entries ds)

split_payload-release_body :
    (source : String) (m : Metadata)
    → split_payload source (release_body m)
      ≡ ok (entries m.records, entries (with_source source m.documents))
unfolding split_payload release_body lookup string_eq iterate
split_payload-release_body source m =
    rw (or_empty-entries m.records, or_empty-entries m.documents)
      (rw (items_of-to_items (map (λ d. obj d) m.documents))
        (rw (name_sources-entries source m.documents) refl))

as_text-optional_text : (o : Option String) → as_text (optional_text o) ≡ o
unfolding as_text
as_text-optional_text none = refl
as_text-optional_text (some s) = refl

-- The three texts of a release are read back from its body.
texts-release_body :
    (m : Metadata)
    → let d = fields_of (release_body m) in
      (text_at "name" d ≡ m.name)
      × (text_at "description" d ≡ m.description)
      × (text_at "discussion_url" d ≡ m.discussion_url)
unfolding release_body lookup string_eq text_at as_text
texts-release_body m = (
  as_text-optional_text m.name,
  as_text-optional_text m.description,
  as_text-optional_text m.discussion_url,
)

-- Uploading the body that a release is downloaded with is the creation of a release with the same
-- records, the same documents, each with the name of the uploaded file as its source unless it
-- names one, the same description and discussion URL, and the same name, or that of the file if it
-- is missing or empty.
pub upload-release_body :
    (registry : List Validator) (record_schema document_schema id experiment : String)
    → (row_id : String → ℕ) (user : ℕ) (source : String) (m : Metadata)
    → upload registry record_schema document_schema id experiment row_id user source
        (release_body m)
      ≡ create registry record_schema document_schema id experiment row_id user m.records
          (with_source source m.documents)
          (some (name_or source m.name))
          m.description
          m.discussion_url
unfolding upload
upload-release_body registry record_schema document_schema id experiment row_id user source m =
    rw (split_payload-release_body source m) (
      rw (entries_in-entries m.records, entries_in-entries (with_source source m.documents))
        (let (n, d, u) = texts-release_body m in rw (n, d, u) refl))
