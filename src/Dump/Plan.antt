-- ===== src/Dump/Plan.antt =====
-- What a batch of the dump changes in the two indices (cernopendata/tasks.py, `_process_batch`), as a
-- function of what the queries returned.
pub mod Effect
use cernopendata_portal.Base.{
  ℕ, String, Bool, true, false, not, Option, none, some, List, [], ◌∷◌, ◌++◌, ◌==◌, string_eq, map,
  keep_if, is_some, if◌then◌else◌,
}
use cernopendata_portal.Dump.Entry.{
  DumpEntry, Known, MappingDoc, DarkDoc, normalize_dump_path, transform_from_db,
  transform_dark_file,
}

-- A hit of `_get_existing_mapping_info`.
pub record Hit : Type 0 where
  pub id : String
  pub last_accessed : Option String

-- `existing_mapping_info` and `existing_dark_info`, by path; `db_mapping`, by full URI.
abbrev pub Info : Type 0
Info = String → Option Hit

abbrev pub Database : Type 0
Database = String → Option Known

-- An action of the bulk update, with the id of the document.
pub data Change : Type 0 where
  index_mapping : String → MappingDoc → Change
  delete_dark : String → String → Change
  index_dark : String → DarkDoc → Change

-- `dump_mapping`: the entry of each full URI, in the order of the URIs; a later entry of the same
-- path takes the place of the earlier one.
unfoldable pub put_entry :
    String → DumpEntry → List (String × DumpEntry) → List (String × DumpEntry)
put_entry uri e [] = (uri, e) ∷ []
put_entry uri e ((u, old) ∷ rest) =
    let later = put_entry uri e rest in if u == uri then (uri, e) ∷ rest else (u, old) ∷ later

unfoldable pub dump_mapping : List DumpEntry → List (String × DumpEntry) → List (String × DumpEntry)
unfolding put_entry normalize_dump_path
dump_mapping [] found = found
dump_mapping (e ∷ es) found = dump_mapping es (put_entry (normalize_dump_path e.path) e found)

-- `needs_db_check`
unfoldable pub needs_db_check : Info → List DumpEntry → List DumpEntry
needs_db_check known = keep_if (λ e. not (is_some (known e.path)))

module _ (iso : ℕ → String) (path_to_id : String → String) where
  abbrev is_stale : DumpEntry → Option Hit → Bool
  is_stale e none = false
  is_stale e (some hit) = elim hit.last_accessed [ none ↦ true | some t ↦ not (t == iso e.atime) ]

  -- `existing_entries_to_update`
  unfoldable pub entries_to_update : Info → List DumpEntry → List DumpEntry
  entries_to_update known = keep_if (λ e. is_stale e (known e.path))

  -- The actions for one entry that the index of known files lacks, from what the database and the
  -- index of dark files have of it.
  unfoldable pub changes_of : DumpEntry → Option Known → Option Hit → List Change
  unfolding transform_from_db transform_dark_file
  changes_of e (some k) none = index_mapping (path_to_id e.path) (transform_from_db iso e k) ∷ []
  changes_of e (some k) (some hit) =
      index_mapping (path_to_id e.path) (transform_from_db iso e k) ∷ delete_dark hit.id e.path ∷ []
  changes_of e none none = index_dark (path_to_id e.path) (transform_dark_file iso e) ∷ []
  changes_of e none (some hit) = []

  abbrev pub changes_for : Database → Info → String × DumpEntry → List Change
  changes_for database dark (uri, e) = changes_of e (database uri) (dark e.path)

  -- `dark_entries_to_update`
  unfoldable pub dark_to_update : Database → Info → List (String × DumpEntry) → List DumpEntry
  dark_to_update database dark [] = []
  dark_to_update database dark ((uri, e) ∷ rest) =
      let later = dark_to_update database dark rest in
      if is_some (database uri)
      then later
      else if is_stale e (dark e.path)
      then e ∷ later
      else later

  unfoldable pub all_changes : Database → Info → List (String × DumpEntry) → List Change
  unfolding changes_of
  all_changes database dark [] = []
  all_changes database dark (pair ∷ rest) =
      changes_for database dark pair ++ all_changes database dark rest

  -- The updates of known files, those of dark files, and the actions.
  pub record Plan : Type 0 where
    pub known_updates : List DumpEntry
    pub dark_updates : List DumpEntry
    pub changes : List Change

  -- `_process_batch`
  unfoldable pub plan_batch : Info → Database → Info → List DumpEntry → Plan
  unfolding entries_to_update needs_db_check dump_mapping dark_to_update all_changes
  plan_batch known database dark entries =
      let wanted = dump_mapping (needs_db_check known entries) [] in
      record {
        known_updates = entries_to_update known entries;
        dark_updates = dark_to_update database dark wanted;
        changes = all_changes database dark wanted;
      }
