-- ===== src/Cold/Catalog.antt =====
-- cernopendata/cold_storage/catalog.py
use cernopendata_portal.Base.{
  ℕ, String, Bool, true, false, not, Option, none, some, List, [], ◌∷◌, ◌++◌, ◌==◌, string_eq,
  nat_eq, ◌&&◌, ◌||◌, map, keep_if, if◌then◌else◌, is_empty, take, drop, contains,
}
use cernopendata_portal.Base.Result.{Result, ok, raise, foreign, ◌>>=◌}
use cernopendata_portal.Cold.Model.{
  Action, stage, archive, clear_hot, File, FileIndex, Entry, Version, Store, Site,
}

-- An integer limit: the first files, or, if it is negative, all but the first ones.
pub data Limit : Type 0 where
  first : ℕ → Limit
  skipping : ℕ → Limit

-- The test of `if not file or f["key"] == file`.
abbrev is_asked : Option String → String → Bool
is_asked none key = true
is_asked (some f) key = f == "" || key == f

abbrev is_given : Option String → Bool
is_given none = false
is_given (some f) = not (f == "")

unfoldable pub indexed_files : Option String → List FileIndex → List File
indexed_files file [] = []
indexed_files file (f ∷ fs) =
    let rest = indexed_files file fs in if is_asked file f.key then f.files ++ rest else rest

unfoldable pub limited : Option Limit → List File → List File
limited none files = files
limited (some (first n)) files = if n == 0 then files else take n files
limited (some (skipping n)) files = drop n files

-- `get_files_from_record`. `_files` is a list of dicts, so no name is `in` it, and a name is found
-- among the keys of the file indices only.
unfoldable pub get_files_from_record : Entry → Option Limit → Option String → List File
unfolding indexed_files limited
get_files_from_record record_ limit file =
    let direct : List File =
      if is_given file then [] else elim record_.files [ none ↦ [] | some fs ↦ fs ] in
    let indexed : List File = elim record_.file_indices [
      | none ↦ []
      | some fs ↦ indexed_files file fs
    ] in
    let files = direct ++ indexed in
    if is_given file && is_empty files then [] else limited limit files

-- The function that `clear_hot` passes on: the tag is created, or `force` decides if it existed.
unfoldable pub clear_hot_tag : Bool → Version → Version × Bool
clear_hot_tag force v =
    if v.hot_deleted then (v, force) else (record v { hot_deleted = true }, true)

-- The function that `add_copy` passes on.
unfoldable pub add_copy_tag : Action → String → Version → Version × Bool
add_copy_tag archive name v = (record v { uri_cold = some name }, true)
add_copy_tag stage name v = (record v { hot_deleted = false }, true)
add_copy_tag clear_hot name v = (v, false)

abbrev pub versions_of : String → List Version → List Version
versions_of file_id = keep_if (λ v. v.file_id == file_id)

module _ {W : Type 0} where
  -- `_update_file_and_reindex`; `one_or_none` raises if there are several versions.
  unfoldable pub update_file :
      String → String → (Version → Version × Bool) → Store W → Result (Bool × Store W)
  update_file uuid file_id update s = elim (versions_of file_id s.versions) [
    | [] ↦ ok (false, s)
    | v ∷ vs ↦ elim vs [
      | _ ∷ _ ↦ raise (foreign "MultipleResultsFound")
      | [] ↦
          let updated = (update v).1 in
          let queue : List String =
            if updated && not (contains uuid s.queue) then s.queue ++ (uuid ∷ []) else s.queue in
          ok (
            updated,
            record s {
              versions = map (λ v'. if v'.file_id == file_id then (update v').0 else v') s.versions;
              queue = queue;
            },
          )
    ]
  ]

  -- `clear_hot`
  unfoldable pub mark_hot_deleted : String → String → Bool → Store W → Result (Bool × Store W)
  unfolding update_file clear_hot_tag
  mark_hot_deleted uuid file_id force = update_file uuid file_id (clear_hot_tag force)

  unfoldable pub add_copy : String → String → Action → String → Store W → Result (Bool × Store W)
  unfolding update_file add_copy_tag
  add_copy uuid file_id action name = update_file uuid file_id (add_copy_tag action name)

  -- `reindex_entries`
  unfoldable pub reindex_from : Site W → List String → Store W → Result (Store W)
  reindex_from site [] s = ok (record s { queue = [] })
  reindex_from site (uuid ∷ uuids) s = site.reindex uuid s.versions s.outside >>= λ w.
      reindex_from site uuids (record s { outside = w })

  unfoldable pub reindex_entries : Site W → Store W → Result (Store W)
  unfolding reindex_from
  reindex_entries site s = reindex_from site s.queue s
