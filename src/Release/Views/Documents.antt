-- ===== src/Release/Views/Documents.antt =====
-- The request handlers for a release's documents and for its name, link and description, with the
-- reading of the request's body, and `_release_download_filename`
-- (cernopendata/modules/releases/views.py).
-- A body is the value that `request.get_json` gives, `None` if there is none. `fetch` stands for
-- `_fetch_json`, which gives no payload where it raises `URLFetchError`.
pub mod Stored
use cernopendata_portal.Base.{
  ℕ, String, Bool, true, false, not, ◌||◌, Option, none, some, List, [], ◌∷◌, ◌++◌, ◌==◌, string_eq,
  is_some, if◌then◌else◌, ◌<>◌, map,
}
use cernopendata_portal.Base.Text.{split_at, first_part, after_last, ends_with, strip_suffix, lower}
use cernopendata_portal.Base.Result.{
  Exn, Result, ok, raise, attribute_error, type_error, value_error, ◌>>=◌,
}
use cernopendata_portal.Json.{
  Value, null, text, arr, obj, Fields, end, field, nil, items_of, truthy,
}
use cernopendata_portal.Json.Dict.{lookup, set_default}
use cernopendata_portal.Json.Python.{iterate, get_attr, get_default}
use cernopendata_portal.Release.Model.{Metadata, Validator, Status, staged}
use cernopendata_portal.Release.Edit.{add_documents, update_document, replace_slug, update_metadata}
use cernopendata_portal.Release.Fix.{generate_doi}
use cernopendata_portal.Release.Views.{
  Response, done, abort, crash, Row, Reply, commits, with_release, check_experiment,
}

abbrev pub and_then : {A : Type 0} {B : Type 0} → Response A → (A → Response B) → Response B
and_then (done a) f = f a
and_then (abort code) f = abort code
and_then (crash e) f = crash e

-- An exception that the handler does not catch.
abbrev pub uncaught : {A : Type 0} → Result A → Response A
uncaught (ok a) = done a
uncaught (raise e) = crash e

-- `doc.setdefault("_source_filename", filename)`, for each document.
unfoldable pub source_named : String → List Value → Response (List Fields)
source_named filename [] = done []
source_named filename (obj d ∷ docs) =
    and_then (source_named filename docs)
      (λ rest. done (set_default "_source_filename" (text filename) d ∷ rest))
source_named filename (_ ∷ docs) = crash attribute_error

abbrev as_list : Value → List Value
as_list (arr vs) = items_of vs
as_list v = v ∷ []

abbrev fetched : Option Value → String → Response (List Fields) → Response (List Fields)
fetched none filename rest = abort 400
fetched (some payload) filename rest =
    and_then (source_named filename (as_list payload))
      (λ docs. and_then rest (λ more. done (docs ++ more)))

-- The loop over the URLs.
unfoldable pub fetch_documents : (String → Option Value) → List Value → Response (List Fields)
unfolding source_named
fetch_documents fetch [] = done []
fetch_documents fetch (text url ∷ urls) =
    let clean_url = first_part (split_at b'?' url) in
    let rest = fetch_documents fetch urls in
    if not (ends_with clean_url ".json")
    then abort 400
    else fetched (fetch url) (after_last b'/' clean_url) rest
fetch_documents fetch (_ ∷ urls) = crash attribute_error

-- `doc.get("body", {}).get("content", "")`
unfoldable pub content_of : Value → Result Value
unfolding get_default
content_of doc = get_default "body" (obj end) doc >>= get_default "content" (text "")

abbrev pub is_pointer : Value → Bool
is_pointer (text s) = ends_with s ".md"
is_pointer _ = false

-- The loop over the documents, which refuses one that names a file instead of its text.
unfoldable pub check_inline : List Value → Response (List Fields)
unfolding content_of
check_inline [] = done []
check_inline (obj d ∷ docs) =
    let rest = check_inline docs in
    and_then (uncaught (content_of (obj d)))
      (λ content. if is_pointer content then abort 400 else and_then rest (λ more. done (d ∷ more)))
check_inline (_ ∷ docs) = crash attribute_error

-- The documents of the body, before that loop.
abbrev listed : Value → Response (List Value)
listed (arr nil) = abort 400
listed (arr vs) = done (items_of vs)
listed _ = abort 400

abbrev from_urls : (String → Option Value) → Value → Response (List Value)
from_urls fetch urls =
    if not (truthy urls)
    then abort 400
    else and_then (uncaught (iterate urls))
        (λ us. and_then (fetch_documents fetch us) (λ docs. done (map obj docs)))

abbrev is_text : String → Value → Bool
is_text s (text t) = s == t
is_text s _ = false

unfoldable pub requested_documents : (String → Option Value) → Value → Response (List Value)
unfolding fetch_documents iterate get_attr get_default
requested_documents fetch body =
    and_then (uncaught (get_default "source" (text "json") body)) (λ source.
      if is_text "urls" source
      then and_then (uncaught (get_default "urls" (arr nil) body)) (from_urls fetch)
      else and_then (uncaught (get_attr "documents" body)) listed)

-- A handler that stops with the code or the exception of what it read, and the row as it is.
abbrev pub reply : {A : Type 0} → Response A → Row → (A → Reply) → Reply
reply (done a) row f = f a
reply (abort code) row f = (abort code, row)
reply (crash e) row f = (crash e, row)

-- `update_document` turns a `ValueError` into 404.
abbrev pub commits_document : Metadata → Result Metadata → Reply
commits_document m (ok m') = (done tt, some m')
commits_document m (raise value_error) = (abort 404, some m)
commits_document m (raise e) = (crash e, some m)

-- The first characters of a text, as many as the first argument has.
abbrev as_long_as : String → String → String
as_long_as String.[] t = String.[]
as_long_as (String.◌∷◌ c s) String.[] = String.[]
as_long_as (String.◌∷◌ c s) (String.◌∷◌ d t) = String.◌∷◌ d (as_long_as s t)

-- `_release_download_filename`, with werkzeug's `secure_filename`.
unfoldable pub release_download_filename : (String → String) → Option String → String → String
unfolding strip_suffix lower
release_download_filename secure_filename name release_id =
    let base : String = secure_filename (elim name [ none ↦ "" | some n ↦ n ]) in
    let stem : String = elim (strip_suffix (lower base) ".json") [
      | none ↦ base
      | some s ↦ as_long_as s base
    ] in
    (if stem == "" then "release-" <> release_id else stem) <> ".json"

-- A text or `None`, as a row keeps it.
abbrev pub nullable : Value → Option String
nullable (text s) = some s
nullable _ = none

abbrev pub posted : Option Value → Option (Option String)
posted none = none
posted (some v) = some (nullable v)

-- Without a row, the documents are read and looked at before `Release.add_documents` raises.
abbrev pub add_nowhere : List Value → Reply
add_nowhere docs = reply (check_inline docs) none (λ checked. (crash attribute_error, none))

module _ (user : ℕ) (registry : List Validator) (document_schema : String) where
  unfoldable pub add_documents_to : List Value → Metadata → Reply
  unfolding check_inline add_documents
  add_documents_to docs m =
      reply (check_inline docs) (some m)
        (λ checked. commits (λ m'. m') m (add_documents registry "" document_schema checked user m))

  -- `updated_doc["$schema"] = ...` raises on what is no dict, if the slug is there.
  unfoldable pub update_document_to : String → Value → Metadata → Reply
  unfolding update_document replace_slug
  update_document_to slug (obj doc) m =
      commits_document m (update_document registry "" document_schema slug doc user m)
  update_document_to slug doc m =
      if is_some (replace_slug slug end m.documents)
      then (crash type_error, some m)
      else (abort 404, some m)

module _ (curated : List String) (acquired : Bool) (experiment : String) (user : ℕ) where
  -- `update_release`, on a dict of texts and `None`s.
  unfoldable pub update_release_view : Fields → Row → Reply
  unfolding with_release update_metadata lookup
  update_release_view body = with_release curated acquired experiment user none none (λ m. (
    done tt,
    some (
        update_metadata (posted (lookup "name" body)) (posted (lookup "discussion_url" body))
          (posted (lookup "description" body)) m),
  ))

  -- `generate_doi`, with the state from which the DOIs are drawn.
  unfoldable pub generate_doi_view :
      {W : Type 0} → (W → String × W) → (Fields → Result (Unit {0})) → W → List Value → Row → Reply
  unfolding with_release generate_doi
  generate_doi_view mint validate_datacite w recids =
      with_release curated acquired experiment user (some (staged ∷ [])) none
        (λ m. (done tt, some (generate_doi mint validate_datacite recids m w).0))

  module _ (registry : List Validator) (document_schema : String) where
    unfoldable pub add_documents_view : (String → Option Value) → Value → Row → Reply
    unfolding with_release check_experiment requested_documents add_documents_to check_inline
    add_documents_view fetch body row = if not (truthy body) then (abort 400, row) else (elim row [
      | none ↦ elim (check_experiment curated experiment) [
        | some code ↦ (abort code, none)
        | none ↦ reply (requested_documents fetch body) none add_nowhere
      ]
      | some m ↦
          with_release curated acquired experiment user none none
            (λ m.
              reply (requested_documents fetch body) (some m)
                (λ docs. add_documents_to user registry document_schema docs m))
            (some m)
    ])

    unfoldable pub update_document_view : String → Value → Row → Reply
    unfolding with_release get_attr update_document_to
    update_document_view slug body row =
        if not (truthy body)
        then (abort 400, row)
        else reply (uncaught (get_attr "document" body)) row (λ doc.
          if not (truthy doc)
          then (abort 400, row)
          else with_release curated acquired experiment user none none
              (update_document_to user registry document_schema slug doc) row)
