-- ===== src/Records/Index.antt =====
-- `class FileIndexMetadata` and the availability of its files (cernopendata/api.py).
-- A file of an index is a row of the database with its object version; `hot_deleted` is its tag, and
-- `content` the other keys of the file's dict: those of the entry of the index file at first, and
-- the URI and the file name when the file is read back. Ids that the database gives are left out.
-- An availability that an entry of an index file brings along is a text.
pub mod Counted
pub mod Reread
use cernopendata_portal.Base.{
  ℕ, suc, ◌+◌, String, Bool, true, false, Option, none, some, List, [], ◌∷◌, ◌++◌, ◌==◌, string_eq,
  if◌then◌else◌, ◌<>◌,
}
use cernopendata_portal.Base.Text.{split_at, last_part, show}
use cernopendata_portal.Base.Result.{Result, ok, raise, type_error, or_key_error, ◌>>=◌}
use cernopendata_portal.Json.{Value, num, text, Fields, end, field}
use cernopendata_portal.Json.Dict.{lookup}
use cernopendata_portal.Release.Images.Files.{text_ltb}
use cernopendata_portal.Cold.Availability.{Counts, add_count}

pub record IndexedFile : Type 0 where
  pub key : String
  pub uri : Value
  pub size : ℕ
  pub checksum : Value
  pub hot_deleted : Bool
  pub content : Fields

pub record IndexMetadata : Type 0 where
  pub name : String
  pub description : String
  pub availability : Counts
  pub number_files : ℕ
  pub size : ℕ
  pub files : List IndexedFile

-- `MultiURIFileObject.availability`, of a file that brings none along.
unfoldable pub tag_availability : IndexedFile → String
tag_availability f = if f.hot_deleted then "on demand" else "online"

unfoldable pub add_file : IndexedFile → String → IndexMetadata → IndexMetadata
add_file f availability index = record index {
  availability = add_count availability 1 index.availability;
  number_files = suc index.number_files;
  size = index.size + f.size;
  files = index.files ++ (f ∷ []);
}

abbrev pub empty_index : String → String → IndexMetadata
empty_index name description = record {
  name = name;
  description = description;
  availability = [];
  number_files = 0;
  size = 0;
  files = [];
}

abbrev pub size_of : Value → Result ℕ
size_of (num n) = ok n
size_of _ = raise type_error

-- The row of an entry of the index file; it has no tags yet.
unfoldable pub indexed_file : String → ℕ → Fields → Result IndexedFile
unfolding show
indexed_file name n entry = or_key_error "uri" (lookup "uri" entry) >>= λ uri.
    or_key_error "size" (lookup "size" entry) >>= λ size.
    or_key_error "checksum" (lookup "checksum" entry) >>= λ checksum. size_of size >>= λ bytes.
    ok (record {
      key = name <> "_" <> show n;
      uri = uri;
      size = bytes;
      checksum = checksum;
      hot_deleted = false;
      content = entry;
    })

unfoldable pub given_availability : IndexedFile → Option Value → Result String
unfolding tag_availability
given_availability f none = ok (tag_availability f)
given_availability f (some (text a)) = ok a
given_availability f (some _) = raise type_error

unfoldable pub create_files : List Fields → IndexMetadata → Result IndexMetadata
unfolding indexed_file given_availability add_file
create_files [] index = ok index
create_files (entry ∷ entries) index = indexed_file index.name index.number_files entry >>= λ f.
    given_availability f (lookup "availability" entry) >>= λ a.
    create_files entries (add_file f a index)

-- `FileIndexMetadata.create`, on the content of the index file.
unfoldable pub create_index : String → String → List Fields → Result IndexMetadata
unfolding create_files
create_index uri description entries =
    create_files entries (empty_index (last_part (split_at b'/' uri)) description)

-- Rows in the order of their keys, as `ObjectVersion.get_by_bucket` gives them.
unfoldable pub place_row : IndexedFile → List IndexedFile → List IndexedFile
place_row f [] = f ∷ []
place_row f (g ∷ gs) =
    let rest = place_row f gs in if text_ltb f.key g.key then f ∷ g ∷ gs else g ∷ rest

unfoldable pub by_key : List IndexedFile → List IndexedFile
unfolding place_row
by_key [] = []
by_key (f ∷ fs) = place_row f (by_key fs)

-- `f["uri"].split("/")[-1]`; the URI of a row is a text.
abbrev name_of_uri : Value → String
name_of_uri (text uri) = last_part (split_at b'/' uri)
name_of_uri _ = ""

-- The file that is made of a row.
unfoldable pub file_of : IndexedFile → IndexedFile
file_of f = record f {
  content = field "uri" f.uri (field "filename" (text (name_of_uri f.uri)) end);
}

unfoldable pub get_files : List IndexedFile → IndexMetadata → IndexMetadata
unfolding add_file tag_availability file_of
get_files [] index = index
get_files (f ∷ fs) index = get_files fs (add_file (file_of f) (tag_availability f) index)

-- `FileIndexMetadata.get`, on the tags of the bucket and its rows, in the order of the query.
unfoldable pub get_index : String → Option String → List IndexedFile → IndexMetadata
unfolding get_files
get_index name description files =
    get_files files (empty_index name (elim description [ none ↦ name | some given ↦ given ]))
