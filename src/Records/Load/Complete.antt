-- ===== src/Records/Load/Complete.antt =====
-- That a record loads (`_handle_record_files` of cernopendata/modules/fixtures/cli.py), and what a
-- refresh finds then.
use cernopendata_portal.Base.{
  ℕ, String, ◌≡◌, refl, map, true, false, some, Option, List, [], ◌∷◌, ◌==◌, string_eq, All,
  Bool-cases, inl, inr,
}
use cernopendata_portal.Base.Result.{Result, ok, Returns}
use cernopendata_portal.Json.{Value, num, text, Fields}
use cernopendata_portal.Json.Dict.{lookup}
use cernopendata_portal.Cold.Model.{Request, Transfer}
use cernopendata_portal.Cold.Availability.{Counts}
use cernopendata_portal.Records.Index.{
  IndexMetadata, indexed_file, given_availability, create_files, create_index, empty_index,
}
use cernopendata_portal.Records.Index.Reread.{summary, IsPlain}
use cernopendata_portal.Records.Flush.{
  Bucket, file_indices, indices_of, check_indices, flush_indices, delete_by_record,
}
use cernopendata_portal.Records.Load.{
  ObjectVersion, Progress, has_files, handle_index, handle_file, handle_files, handled,
  handle_record_files, is_type, description_of, filename_of, add_index, add_direct,
}
use cernopendata_portal.Records.Load.Refreshed.{flush_indices-handle_record_files}

-- An entry of an index file with all that is read of it.
abbrev pub IsEntry : Fields → Type 0
IsEntry entry =
    (uri : Value) × (size : ℕ) × (checksum : Value) × (lookup "uri" entry ≡ some uri)
    × (lookup "size" entry ≡ some (num size))
    × (lookup "checksum" entry ≡ some checksum)

create_files-Returns :
    (entries : List Fields) (index : IndexMetadata)
    → All IsEntry entries
    → All IsPlain entries
    → Returns (create_files entries index)
unfolding create_files indexed_file given_availability
create_files-Returns [] index h plain = (index, refl)
create_files-Returns (entry ∷ entries) index ((uri, size, checksum, u, s, c), h) (plain, others) =
    rw (u, s, c, plain) (create_files-Returns entries _ h others)

module _ (read : String → Result (List Fields)) where
  -- A file of an entry that can be loaded: it names its URI, size and checksum, a description is a
  -- text, and if it is an index, it can be read and has entries as above.
  abbrev pub IsLoadable : Fields → Type 0
  IsLoadable file =
      (uri : String) × (size : Value) × (checksum : Value) × (description : String) × (lookup "uri"
          file
        ≡ some (text uri))
      × (lookup "size" file ≡ some size)
      × (lookup "checksum" file ≡ some checksum)
      × (description_of (filename_of uri) (lookup "description" file) ≡ ok description)
      × (is_type "index.json" (lookup "type" file) ≡ true
          → (content : List Fields) × (read uri ≡ ok content) × All IsEntry content)

  module _
      (plain : (uri : String) (content : List Fields) → read uri ≡ ok content → All IsPlain content)
      (create_version : String → Fields → Option ObjectVersion)
      (availabilities : List Fields → List String) where
    handle_file-Returns :
        (uuid : String) (file : Fields) (p : Progress)
        → IsLoadable file
        → Returns (handle_file read create_version availabilities uuid file p)
    unfolding handle_file handle_index create_index
    handle_file-Returns uuid file p (uri, size, checksum, d, u, s, c, e, index) =
        elim (Bool-cases (is_type "index.json" (lookup "type" file))) [
          | inl is_index ↦
              let (content, r, entries) = index is_index in
              let (made, m) =
                create_files-Returns content (empty_index (filename_of uri) d) entries
                  (plain uri content r) in
              (add_index uuid uri d p made, rw (u, s, c, is_index, r, e, m) refl)
          | inr direct ↦ elim (Bool-cases (is_type "index.txt" (lookup "type" file))) [
            | inl is_text ↦ (p, rw (u, s, c, direct, is_text) refl)
            | inr other ↦ (
              add_direct (create_version (filename_of uri) file) file p,
              rw (u, s, c, direct, other) refl,
            )
          ]
        ]

    handle_files-Returns :
        (uuid : String) (files : List Fields) (p : Progress)
        → All IsLoadable files
        → Returns (handle_files read create_version availabilities uuid files p)
    unfolding handle_files
    handle_files-Returns uuid [] p h = (p, refl)
    handle_files-Returns uuid (file ∷ files) p (h, hs) =
        let (p', e) = handle_file-Returns uuid file p h in
        let (p'', e') = handle_files-Returns uuid files p' hs in (p'', rw e e')

    -- A record loads after its old indices were deleted, and a refresh finds what was loaded.
    abbrev pub IsRefreshed :
        String → Fields → List Fields → List Request → List Transfer → List Bucket → Type 0
    IsRefreshed uuid content files requests transfers old =
        (buckets : List Bucket) × (indices : List IndexMetadata) × (direct : List Fields)
        × (found : Counts × String) × (handle_record_files read create_version availabilities uuid
              content (some files) requests transfers (delete_by_record uuid old)
            ≡ ok (has_files indices direct found, buckets))
        × (let flushed = flush_indices uuid buckets (availabilities direct) requests transfers in
            (map summary (file_indices flushed.0) ≡ map summary indices)
            × (flushed.1 ≡ found)
            × ((v : String) → (uuid == v) ≡ false → indices_of v buckets ≡ indices_of v old))

    -- Where every file of an entry can be loaded, and no index file names availabilities: a record
    -- loads after its old indices were deleted; a refresh of its indices from the database finds
    -- the same indices up to the dicts of their files and the order of these, with the same names,
    -- descriptions, availabilities, numbers of files and sizes, and the same details and
    -- availability of the record; and the indices of every other record are as they were before.
    pub handle_record_files_refreshes :
        (uuid : String) (content : Fields) (files : List Fields) (requests : List Request)
        (transfers : List Transfer) (old : List Bucket)
        → All IsLoadable files
        → IsRefreshed uuid content files requests transfers old
    unfolding handle_record_files
    handle_record_files_refreshes uuid content files requests transfers old h =
        let (p, e) =
          handle_files-Returns uuid files
            (record { indices = []; real_files = []; buckets = delete_by_record uuid old }) h in
        let loaded : handle_record_files read create_version availabilities uuid content
              (some files) requests transfers (delete_by_record uuid old)
            ≡ ok (handled read create_version availabilities uuid requests transfers p) =
          rw e refl in
        (
          p.buckets,
          file_indices p.indices,
          p.real_files,
          check_indices uuid (file_indices p.indices) (availabilities p.real_files) requests
              transfers,
          loaded,
          flush_indices-handle_record_files read create_version availabilities plain uuid content
              files requests transfers old p.buckets (file_indices p.indices) p.real_files _ loaded,
        )
