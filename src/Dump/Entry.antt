-- ===== src/Dump/Entry.antt =====
-- The entries of a dump and what they are turned into (cernopendata/tasks.py). The MD5 sum of a path
-- and `datetime.fromtimestamp(t).isoformat()` are parameters.
use package.text.Mathlib.Text.{find?}
use cernopendata_portal.Base.{
  ℕ, String, ◌<>◌, ◌≡◌, Bool, Option, none, some, List, [], ◌∷◌, ap, sym, ◌∙◌, is_some,
}
use mathlib.Core.Option.{some-injective}
use cernopendata_portal.Base.Text.{strip_prefix, strip_prefix-append}

-- A line of the dump.
pub record DumpEntry : Type 0 where
  pub path : String
  pub size : ℕ
  pub adler32 : Option String
  pub mtime : ℕ
  pub atime : ℕ

-- What the database holds of the record that a file belongs to.
pub record Known : Type 0 where
  pub title : Option String
  pub recid : Option String
  pub date_published : Option String

-- A document of the index of known files, and one of the index of dark files; `timestamp` is dropped.
pub record MappingDoc : Type 0 where
  pub uri : String
  pub title : Option String
  pub recid : Option String
  pub year_published : Option String
  pub last_accessed : String

pub record DarkDoc : Type 0 where
  pub uri : String
  pub size : ℕ
  pub adler32 : Option String
  pub last_modified : String
  pub last_accessed : String

abbrev pub eos_prefix : String
eos_prefix = "root://eospublic.cern.ch/"

abbrev pub batch_size : ℕ
batch_size = 1000

-- `_normalize_dump_path`
unfoldable pub normalize_dump_path : String → String
normalize_dump_path path = eos_prefix <> path

pub normalize_dump_path-injective :
    (a b : String) → normalize_dump_path a ≡ normalize_dump_path b → a ≡ b
unfolding normalize_dump_path
normalize_dump_path-injective a b e = some-injective a b (
    sym (strip_prefix-append eos_prefix a)
    ∙ ap (strip_prefix eos_prefix) e
    ∙ strip_prefix-append eos_prefix b)

-- `"/upload/" in path`
unfoldable pub is_ignored : DumpEntry → Bool
is_ignored e = is_some (find? e.path "/upload/")

-- `_stream_dump_file`: lines that are no JSON are passed over.
unfoldable pub stream_dump_file : (String → Option DumpEntry) → List String → List DumpEntry
stream_dump_file parse [] = []
stream_dump_file parse (line ∷ lines) =
    let rest = stream_dump_file parse lines in elim (parse line) [ none ↦ rest | some e ↦ e ∷ rest ]

module _ (iso : ℕ → String) where
  -- `_transform_from_db`
  unfoldable pub transform_from_db : DumpEntry → Known → MappingDoc
  transform_from_db e k = record {
    uri = e.path;
    title = k.title;
    recid = k.recid;
    year_published = k.date_published;
    last_accessed = iso e.atime;
  }

  -- `_transform_dark_file`
  unfoldable pub transform_dark_file : DumpEntry → DarkDoc
  transform_dark_file e = record {
    uri = e.path;
    size = e.size;
    adler32 = e.adler32;
    last_modified = iso e.mtime;
    last_accessed = iso e.atime;
  }
