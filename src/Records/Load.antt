-- ===== src/Records/Load.antt =====
-- `_handle_record_files` (cernopendata/modules/fixtures/cli.py), which sorts the files of an entry into
-- file indices and direct files. The files of an entry are dicts.
pub mod Refreshed
pub mod Complete
use cernopendata_portal.Base.{
  ℕ, String, Bool, false, not, ◌&&◌, Option, none, some, List, [], ◌∷◌, ◌++◌, string_eq,
  if◌then◌else◌,
}
use cernopendata_portal.Base.Text.{split_at, last_part}
use cernopendata_portal.Base.Result.{
  Result, ok, raise, type_error, attribute_error, assertion_error, ◌>>=◌,
}
use cernopendata_portal.Json.{Value, text, Fields, end, field}
use cernopendata_portal.Json.Dict.{lookup, has_key}
use cernopendata_portal.Json.Equal.{equal}
use cernopendata_portal.Json.Python.{member, get_item}
use cernopendata_portal.Cold.Model.{Request, Transfer}
use cernopendata_portal.Cold.Availability.{Counts}
use cernopendata_portal.Fixtures.Entries.{updated}
use cernopendata_portal.Records.Index.{IndexMetadata, create_index, by_key}
use cernopendata_portal.Records.Flush.{Bucket, file_indices, check_indices}

-- The object version that the database makes for a direct file.
pub record ObjectVersion : Type 0 where
  pub bucket_id : String
  pub checksum : Value
  pub key : String
  pub version_id : String

-- What the loop has made so far: `_file_indices`, `real_files`, and the buckets of the database.
pub record Progress : Type 0 where
  pub indices : List IndexMetadata
  pub real_files : List Fields
  pub buckets : List Bucket

-- What is set in the record: the availability alone if the data have no files.
pub data Handled : Type 0 where
  no_files : Value → Handled
  has_files : List IndexMetadata → List Fields → Counts × String → Handled

abbrev pub filename_of : String → String
filename_of uri = last_part (split_at b'/' uri)

-- `file.get("uri").split`
abbrev pub uri_of : Option Value → Result String
uri_of (some (text uri)) = ok uri
uri_of _ = raise attribute_error

-- `"type" in file and file["type"] == kind`
abbrev pub is_type : String → Option Value → Bool
is_type kind none = false
is_type kind (some t) = equal t (text kind)

-- `file.get("description", filename)`, which becomes the value of a tag: a text.
abbrev pub description_of : String → Option Value → Result String
description_of filename none = ok filename
description_of filename (some (text d)) = ok d
description_of filename (some _) = raise type_error

abbrev pub has_required : Fields → Bool
has_required file = has_key "uri" file && (has_key "size" file && has_key "checksum" file)

abbrev file_info : ObjectVersion → Fields
file_info o = field "bucket" (text o.bucket_id) (
    field "checksum" o.checksum (
      field "key" (text o.key)
        (field "version_id" (text o.version_id) (field "availability" (text "online") end))))

-- A file for which the database makes no version is logged, and kept as it is.
unfoldable pub placed : Option ObjectVersion → Fields → Fields
unfolding updated
placed none file = file
placed (some o) file = updated file (file_info o)

-- The tags of a new bucket, and its rows as a query gives them.
abbrev pub bucket_of : String → String → String → IndexMetadata → Bucket
bucket_of uuid uri description made = record {
  record_id = uuid;
  index_name = filename_of uri;
  description = some description;
  files = by_key made.files;
}

abbrev pub add_index : String → String → String → Progress → IndexMetadata → Progress
add_index uuid uri description p made = record p {
  indices = p.indices ++ (made ∷ []);
  buckets = p.buckets ++ (bucket_of uuid uri description made ∷ []);
}

abbrev pub add_direct : Option ObjectVersion → Fields → Progress → Progress
add_direct version file p = record p { real_files = p.real_files ++ (placed version file ∷ []) }

-- `read` opens an index file and parses it, `create_version` makes the row of a direct file, and
-- `availabilities` are those of the record's files once the direct ones are flushed.
module _ (read : String → Result (List Fields))
    (create_version : String → Fields → Option ObjectVersion)
    (availabilities : List Fields → List String) where
  -- The branch of an index file.
  unfoldable pub handle_index : String → String → Fields → Progress → Result Progress
  unfolding create_index
  handle_index uuid uri file p = do
    content ← read uri
    description ← description_of (filename_of uri) (lookup "description" file)
    made ← create_index uri description content
    ok (add_index uuid uri description p made)

  -- The body of the loop.
  unfoldable pub handle_file : String → Fields → Progress → Result Progress
  unfolding handle_index placed
  handle_file uuid file p =
      if not (has_required file)
      then raise assertion_error
      else (uri_of (lookup "uri" file) >>= λ uri.
          if is_type "index.json" (lookup "type" file)
          then handle_index uuid uri file p
          else if is_type "index.txt" (lookup "type" file)
          then ok p
          else ok (record p {
            real_files = p.real_files ++ (placed (create_version (filename_of uri) file) file ∷ []);
          }))

  unfoldable pub handle_files : String → List Fields → Progress → Result Progress
  unfolding handle_file
  handle_files uuid [] p = ok p
  handle_files uuid (file ∷ files) p = handle_file uuid file p >>= λ p'. handle_files uuid files p'

  -- The availability of a record whose data have no files: that of its distribution, or online.
  unfoldable pub distribution_availability : Fields → Result Value
  distribution_availability content = elim (lookup "distribution" content) [
    | none ↦ ok (text "online")
    | some d ↦ member "availability" d >>= λ given.
        if given then get_item "availability" d else ok (text "online")
  ]

  abbrev pub handled : String → List Request → List Transfer → Progress → Handled × List Bucket
  handled uuid requests transfers p = (
    has_files (file_indices p.indices) p.real_files (
        check_indices uuid (file_indices p.indices) (availabilities p.real_files) requests
          transfers),
    p.buckets,
  )

  -- `_handle_record_files` for a record and the files of the data, if there are any.
  unfoldable pub handle_record_files :
      String
      → Fields
      → Option (List Fields)
      → List Request
      → List Transfer
      → List Bucket
      → Result (Handled × List Bucket)
  unfolding handle_files distribution_availability check_indices file_indices
  handle_record_files uuid content none requests transfers buckets =
      distribution_availability content >>= λ a. ok (no_files a, buckets)
  handle_record_files uuid content (some files) requests transfers buckets =
      handle_files uuid files (record { indices = []; real_files = []; buckets = buckets }) >>= λ p.
      ok (handled uuid requests transfers p)
