-- ===== src/Records/Flush.antt =====
-- `class FileIndexIterator`, `RecordFilesWithIndex.flush_indices` and
-- `FileIndexMetadata.delete_by_record` (cernopendata/api.py). A bucket of the database is given with
-- its tags and with the rows of its files, in the order of the query for them.
pub mod Names
pub mod Tallied
use cernopendata_portal.Base.{
  ℕ, String, Bool, not, Option, List, [], ◌∷◌, ◌++◌, ◌==◌, string_eq, if◌then◌else◌, map, keep_if,
}
use cernopendata_portal.Cold.Model.{Request, Transfer}
use cernopendata_portal.Cold.Availability.{Counts as Tally, check_availability}
use cernopendata_portal.Records.Index.{IndexedFile, IndexMetadata, get_index}

-- `BucketTag` has the record, the name of the index file, and the description, if there is one.
pub record Bucket : Type 0 where
  pub record_id : String
  pub index_name : String
  pub description : Option String
  pub files : List IndexedFile

-- `self.file_indices`, a dict by key: a later index takes the place of one with its key.
unfoldable pub put_index : IndexMetadata → List IndexMetadata → List IndexMetadata
put_index new [] = new ∷ []
put_index new (index ∷ indices) =
    let rest = put_index new indices in
    if index.name == new.name then new ∷ indices else index ∷ rest

unfoldable pub put_indices : List IndexMetadata → List IndexMetadata → List IndexMetadata
unfolding put_index
put_indices [] dict = dict
put_indices (new ∷ indices) dict = put_indices indices (put_index new dict)

-- What the iterator over `_file_indices` gives, and what its `dumps` gives.
unfoldable pub file_indices : List IndexMetadata → List IndexMetadata
unfolding put_indices
file_indices indices = put_indices indices []

abbrev pub index_of : Bucket → IndexMetadata
index_of b = get_index b.index_name b.description b.files

-- The file indices of the buckets that have the record for a tag.
unfoldable pub indices_of : String → List Bucket → List IndexMetadata
indices_of uuid buckets = map index_of (keep_if (λ b. b.record_id == uuid) buckets)

-- The loop of `check_availability` over the indices, with its availability.
unfoldable pub check_indices :
    String → List IndexMetadata → List String → List Request → List Transfer → Tally × String
unfolding file_indices check_availability
check_indices uuid indices =
    check_availability uuid (map (λ index. index.availability) (file_indices indices))

-- `flush_indices`: the record's `_file_indices`, its details and its availability; `files` are the
-- availabilities of the files that are not in an index.
unfoldable pub flush_indices :
    String
    → List Bucket
    → List String
    → List Request
    → List Transfer
    → List IndexMetadata × (Tally × String)
unfolding indices_of check_indices
flush_indices uuid buckets files requests transfers =
    let indices = indices_of uuid buckets in
    (indices, check_indices uuid indices files requests transfers)

-- `FileIndexMetadata.delete_by_record`: the buckets go, with their tags and the rows of their files.
unfoldable pub delete_by_record : String → List Bucket → List Bucket
delete_by_record uuid = keep_if (λ b. not (b.record_id == uuid))
