-- ===== src/Validation/Files.antt =====
-- The validations of the files of records: validations/files.py, missing_files.py, and the checks of
-- expand_files.py and rucio.py. `str` is Python's. The fixes of these classes ask remote storage.
pub mod Complete
use cernopendata_portal.Base.{
  ℕ, suc, String, Bool, true, false, not, Option, none, some, List, [], ◌∷◌, ◌++◌, ◌==◌, string_eq,
  ◌&&◌, if◌then◌else◌, is_some,
}
use cernopendata_portal.Base.Result.{Result, ok, raise, attribute_error, type_error, ◌>>=◌}
use cernopendata_portal.Base.Text.{split_at, ends_with}
use cernopendata_portal.Json.{Value, null, num, text, obj, Fields, end, truthy}
use cernopendata_portal.Json.Dict.{lookup, has_key}
use cernopendata_portal.Json.Python.{iterate, member, get_item, get_attr}
use cernopendata_portal.Release.Model.{
  Message, missing_size, missing_checksum, invalid_checksum, no_files, unexpanded, is_directory,
  Metadata,
}
use cernopendata_portal.Release.Edit.{get}

abbrev two_parts : List String → Bool
two_parts (algorithm ∷ value ∷ []) = not (algorithm == "") && not (value == "")
two_parts _ = false

module _ (str : Value → String) where
  -- `_has_checksum_prefix`
  unfoldable pub has_checksum_prefix : Value → Bool
  has_checksum_prefix checksum = two_parts (split_at 0x3a (str checksum))

  -- The errors of one file, with the numbers of its record and of itself.
  unfoldable pub check_file : ℕ → ℕ → Value → Result (List Message)
  unfolding has_checksum_prefix
  check_file i j file = member "size" file >>= λ sized.
      let size_error : List Message = if sized then [] else missing_size (suc i) (suc j) ∷ [] in
      member "checksum" file >>= λ summed.
      if summed
      then (get_item "checksum" file >>= λ c. ok (
          size_error
          ++ (if has_checksum_prefix c then [] else invalid_checksum (suc i) (suc j) c ∷ [])))
      else ok (size_error ++ (missing_checksum (suc i) (suc j) ∷ []))

  unfoldable pub check_entry : ℕ → ℕ → List Value → Result (List Message)
  check_entry i j [] = ok []
  check_entry i j (file ∷ files) =
      check_file i j file >>= λ errors. check_entry i (suc j) files >>= λ rest. ok (errors ++ rest)

  -- `ValidFiles.validate`
  unfoldable pub check_files : ℕ → List Fields → Result (List Message)
  check_files i [] = ok []
  check_files i (r ∷ rs) =
      elim (lookup "files" r) [ none ↦ ok [] | some files ↦ iterate files >>= check_entry i 0 ]
      >>= λ errors. check_files (suc i) rs >>= λ rest. ok (errors ++ rest)

-- `(record.get("distribution") or {}).get("number_files") or 0`
unfoldable pub claimed_files : Fields → Result Value
claimed_files r =
    let distribution = get "distribution" r in
    get_attr "number_files" (if truthy distribution then distribution else obj end) >>= λ n.
    ok (if truthy n then n else num 0)

-- `MissingFiles.validate`
unfoldable pub missing_files : ℕ → List Fields → Result (List Message)
missing_files i [] = ok []
missing_files i (r ∷ rs) = claimed_files r >>= λ n. missing_files (suc i) rs >>= λ rest. ok (
    if truthy n && (not (truthy (get "files" r)) && not (has_key "rucio_dataset" r))
    then no_files (suc i) n ∷ rest
    else rest)

-- `RucioDatasets.validate`
unfoldable pub unexpanded_datasets : ℕ → List Fields → List Message
unexpanded_datasets i [] = []
unexpanded_datasets i (r ∷ rs) =
    let rest = unexpanded_datasets (suc i) rs in
    if has_key "rucio_dataset" r && not (has_key "files" r) then unexpanded (suc i) ∷ rest else rest

-- `uri.endswith("*")`
unfoldable pub is_pattern : Value → Result Bool
is_pattern (text s) = ok (ends_with s "*")
is_pattern _ = raise attribute_error

-- `CheckExpandDirectories.validate`, over the files of a record and over the records.
unfoldable pub directories_in : List Value → Result (List Message)
directories_in [] = ok []
directories_in (file ∷ files) = member "uri" file >>= λ named.
    (if named
      then (get_item "uri" file >>= λ uri.
          is_pattern uri >>= λ b. ok (if b then is_directory uri ∷ [] else []))
      else ok [])
    >>= λ errors. directories_in files >>= λ rest. ok (errors ++ rest)

unfoldable pub check_directories : List Fields → Result (List Message)
check_directories [] = ok []
check_directories (r ∷ rs) =
    elim (lookup "files" r) [ none ↦ ok [] | some files ↦ iterate files >>= directories_in ]
    >>= λ errors. check_directories rs >>= λ rest. ok (errors ++ rest)
