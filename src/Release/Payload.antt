-- ===== src/Release/Payload.antt =====
-- Uploaded payloads (cernopendata/modules/releases/views.py): JSON values of any shape, from which the
-- records and documents of a release are taken, and the JSON that a release is downloaded as.
pub mod RoundTrip
pub mod Normal
use cernopendata_portal.Base.{
  ℕ, String, ◌<>◌, Bool, true, false, not, Option, none, some, List, [], ◌∷◌, ◌++◌, map, ◌&&◌, ◌||◌,
  if◌then◌else◌, ◌==◌, string_eq,
}
use cernopendata_portal.Base.Result.{
  Result, ok, raise, attribute_error, type_error, value_error, ◌>>=◌,
}
use cernopendata_portal.Base.Text.{after_last}
use cernopendata_portal.Json.{
  Value, null, bool, num, text, arr, obj, Items, nil, cons, Fields, end, field, truthy, items_of,
  to_items,
}
use cernopendata_portal.Json.Dict.{lookup, has_key, insert, erase, set_default}
use cernopendata_portal.Json.Python.{iterate, member}
use cernopendata_portal.Release.Model.{Metadata, Validator}
use cernopendata_portal.Release.Edit.{get, create}

-- `v or []`
abbrev pub or_empty : Value → Value
or_empty v = if truthy v then v else arr nil

abbrev is_list : Value → Bool
is_list (arr vs) = true
is_list _ = false

-- `uri.rsplit(".", 1)[-1]`
abbrev last_extension : Value → Result String
last_extension (text s) = ok (after_last 0x2e s)
last_extension _ = raise attribute_error

-- An index file with the type that its URI tells.
unfoldable pub typed_index : Value → Result Value
typed_index (obj d) =
    let uri : Value = elim (lookup "uri" d) [ none ↦ text "" | some v ↦ v ] in
    member "." uri >>= λ dotted. (if dotted then last_extension uri else ok "json") >>= λ extension.
    ok (obj (insert "type" (text ("index." <> extension)) d))
typed_index _ = raise attribute_error

unfoldable pub typed_indices : List Value → Result (List Value)
typed_indices [] = ok []
typed_indices (v ∷ vs) = typed_index v >>= λ v'. typed_indices vs >>= λ vs'. ok (v' ∷ vs')

-- `files.append`, for each file; a list that stays as it is needs no method.
abbrev pub append_all : Value → List Value → Result Value
append_all files [] = ok files
append_all (arr fs) (v ∷ vs) = ok (arr (to_items (items_of fs ++ (v ∷ vs))))
append_all _ (v ∷ vs) = raise attribute_error

-- `_merge_index_files`
unfoldable pub merge_index_files : Value → Fields → Result Fields
unfolding typed_indices
merge_index_files index_files d = iterate index_files >>= λ new. typed_indices new >>= λ typed.
    append_all (or_empty (get "files" d)) typed >>= λ files.
    ok (insert "files" files (erase "index_files" d))

-- What `record.pop(field, None)` raises on a value that is no dict.
abbrev pop_error : Value → Result Fields
pop_error (obj d) = ok d
pop_error (arr vs) = raise type_error
pop_error _ = raise attribute_error

abbrev without_internals : Fields → Fields
without_internals d = erase "_file_indices" (erase "bucket" (erase "_bucket" (erase "_files" d)))

-- The record itself, or what the portal's own API has under `metadata`.
unfoldable pub unwrapped : Fields → Result Fields
unwrapped d = elim (lookup "metadata" d) [
  | none ↦ ok d
  | some inner ↦ pop_error inner >>= λ e. ok (without_internals e)
]

unfoldable pub with_indices_merged : Fields → Result Fields
unfolding merge_index_files
with_indices_merged d = elim (lookup "index_files" d) [
  | none ↦ ok d
  | some index_files ↦ merge_index_files index_files d
]

-- `_normalise_record`
unfoldable pub normalise_record : Value → Result Value
unfolding unwrapped with_indices_merged
normalise_record (obj d) = unwrapped d >>= λ e. with_indices_merged e >>= λ r. ok (obj r)
normalise_record v = ok v

unfoldable pub normalise_records : List Value → Result (List Value)
unfolding normalise_record
normalise_records [] = ok []
normalise_records (v ∷ vs) =
    normalise_record v >>= λ v'. normalise_records vs >>= λ vs'. ok (v' ∷ vs')

-- `_normalise_payload`
unfoldable pub normalise_payload : Value → Result Value
unfolding normalise_records
normalise_payload (obj d) = normalise_records (obj d ∷ []) >>= λ vs. ok (arr (to_items vs))
normalise_payload (arr vs) = normalise_records (items_of vs) >>= λ vs'. ok (arr (to_items vs'))
normalise_payload v = ok v

-- `items[0] if items else None`; a number or a Boolean that is true cannot be subscripted, and of a
-- text the character is no dict, so it does not matter which it is. A dict is never an item here.
unfoldable pub sample_of : Value → Result Value
sample_of (arr (cons v vs)) = ok v
sample_of (num n) = if truthy (num n) then raise type_error else ok null
sample_of (bool b) = if b then raise type_error else ok null
sample_of _ = ok null

unfoldable pub is_document : Value → Bool
is_document (obj d) =
    (has_key "slug" d || has_key "body" d) && (not (has_key "recid" d) && not (has_key "files" d))
is_document _ = false

-- `doc.setdefault("_source_filename", source_filename)`, for each document.
unfoldable pub name_sources : String → List Value → Result (List Value)
name_sources source [] = ok []
name_sources source (obj d ∷ vs) = name_sources source vs >>= λ vs'.
    ok (obj (set_default "_source_filename" (text source) d) ∷ vs')
name_sources source (_ ∷ vs) = raise attribute_error

-- `_split_payload`: records and documents.
abbrev is_release : Value → Bool
is_release (obj d) = is_list (get "records" d) || is_list (get "documents" d)
is_release _ = false

abbrev pub fields_of : Value → Fields
fields_of (obj d) = d
fields_of _ = end

unfoldable pub split_payload : String → Value → Result (Value × Value)
unfolding normalise_payload sample_of is_document name_sources
split_payload source payload =
    let d = fields_of payload in
    let parts : Result (Value × Value) =
      if is_release payload
      then ok (or_empty (get "records" d), or_empty (get "documents" d))
      else (normalise_payload payload >>= λ items. sample_of items >>= λ sample.
          ok (if is_document sample then (arr nil, items) else (items, arr nil))) in
    parts >>= λ p. iterate p.1 >>= name_sources source >>= λ docs. ok (p.0, arr (to_items docs))

abbrev pub optional_text : Option String → Value
optional_text none = null
optional_text (some s) = text s

abbrev pub entries : List Fields → Value
entries ds = arr (to_items (map (λ d. obj d) ds))

-- The body of `release_json`.
unfoldable pub release_body : Metadata → Value
release_body m = obj (
    field "name" (optional_text m.name) (
      field "description" (optional_text m.description) (
        field "discussion_url" (optional_text m.discussion_url)
          (field "records" (entries m.records) (field "documents" (entries m.documents) end)))))

-- The dicts of a list, into which `Release.create` writes the schema.
unfoldable pub dicts_in : List Value → Result (List Fields)
dicts_in [] = ok []
dicts_in (obj d ∷ vs) = dicts_in vs >>= λ ds. ok (d ∷ ds)
dicts_in (_ ∷ vs) = raise type_error

unfoldable pub entries_in : Value → Result (List Fields)
unfolding dicts_in
entries_in (arr vs) = dicts_in (items_of vs)
entries_in _ = raise value_error

-- A text of the payload, where it has one; the three fields are texts or absent.
unfoldable pub as_text : Value → Option String
as_text (text s) = some s
as_text _ = none

abbrev pub text_at : String → Fields → Option String
unfolding as_text
text_at k d = as_text (get k d)

abbrev pub name_or : String → Option String → String
name_or source none = source
name_or source (some s) = if s == "" then source else s

-- `release_upload`, from the parsed payload on.
unfoldable pub upload :
    List Validator
    → String
    → String
    → String
    → String
    → (String → ℕ)
    → ℕ
    → String
    → Value
    → Result Metadata
unfolding split_payload entries_in
upload registry record_schema document_schema id experiment row_id user source payload =
    let d = fields_of payload in
    split_payload source payload >>= λ parts. entries_in parts.0 >>= λ records.
    entries_in parts.1 >>= λ documents.
    create registry record_schema document_schema id experiment row_id user records documents
      (some (name_or source (text_at "name" d))) (text_at "description" d)
      (text_at "discussion_url" d)
