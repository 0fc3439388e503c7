-- ===== src/Release/Images/Change.antt =====
-- `list_images`, `delete_image` and `rename_image` (cernopendata/modules/releases/views.py).
use cernopendata_portal.Base.{
  ℕ, String, Bool, not, ◌&&◌, ◌||◌, Option, none, some, List, [], ◌∷◌, ◌++◌, ◌==◌, string_eq,
  is_empty, is_some, keep_if, if◌then◌else◌, map,
}
use cernopendata_portal.Json.{Value, Fields, text}
use cernopendata_portal.Json.Dict.{lookup}
use cernopendata_portal.Release.Model.{Metadata}
use cernopendata_portal.Release.Views.{Response, done, abort}
use cernopendata_portal.Release.Images.Files.{
  Bytes, Disk, names, read, write, remove, has_folder, drop_folder, sort,
}
use cernopendata_portal.Release.Images.{
  Link, Paths, Answer, within, at_folder, unless, parent_of, has_image_extension, link_to,
  safe_name,
}

-- `unlink`: the file may have gone since it was looked for.
pub data Unlink : Type 0 where
  unlinked gone failed : Unlink

-- The images of one document: what `iterdir` gives, if it gives it.
unfoldable pub images_in : String → Bool → String → String → Disk → List Link
unfolding sort names link_to
images_in release_id listable slug folder disk =
    if has_folder folder disk && listable
    then map (link_to release_id slug)
        (keep_if has_image_extension (sort (names folder disk.files)))
    else []

module _ (paths : Paths) (release_id : String) where
  abbrev pub images_at : Bool → String → Option String → Disk → List Link
  images_at listable slug none disk = []
  images_at listable slug (some folder) disk = images_in release_id listable slug folder disk

  -- The slug of a document is a text; a document without one is passed over.
  unfoldable pub images_of : (String → Bool) → Disk → Option Value → List Link
  unfolding images_in
  images_of listable disk (some (text slug)) =
      if slug == "" then [] else images_at (listable slug) slug (paths.locate slug) disk
  images_of listable disk _ = []

  unfoldable pub all_images : (String → Bool) → Disk → List Fields → List Link
  unfolding images_of
  all_images listable disk [] = []
  all_images listable disk (doc ∷ docs) =
      images_of listable disk (lookup "slug" doc) ++ all_images listable disk docs

  unfoldable pub list_images : (String → Bool) → Response Metadata → Disk → Answer (List Link)
  unfolding all_images
  list_images listable granted disk =
      within granted disk (λ m. (done (all_images listable disk m.documents), disk))

-- What follows the `unlink`: an empty folder goes, if `rmdir` succeeds.
unfoldable pub after_unlink : Unlink → Bool → String → String → Disk → Answer (Unit {0})
unfolding remove names
after_unlink failed removable folder name disk = (abort 500, disk)
after_unlink gone removable folder name disk =
    (abort 404, record disk { files = remove folder name disk.files })
after_unlink unlinked removable folder name disk =
    let after : Disk = record disk { files = remove folder name disk.files } in
    (
      done tt,
      if removable && is_empty (names folder after.files) then drop_folder folder after else after,
    )

module _ (paths : Paths) where
  unfoldable pub delete_in : Unlink → Bool → String → String → Disk → Answer (Unit {0})
  unfolding after_unlink read
  delete_in answer removable name folder disk =
      if name == ""
      then (abort 400, disk)
      else if not (paths.stays name)
      then (abort 400, disk)
      else if not (is_some (read folder name disk.files))
      then (abort 404, disk)
      else after_unlink answer removable folder name disk

  unfoldable pub delete_to : Unlink → Bool → String → String → Disk → Metadata → Answer (Unit {0})
  unfolding delete_in parent_of
  delete_to answer removable slug filename disk m =
      at_folder 404 (parent_of slug m) (paths.locate slug) disk
        (λ folder. delete_in answer removable (paths.secure_filename filename) folder disk)

  unfoldable pub delete_image :
      Unlink → Bool → String → String → Response Metadata → Disk → Answer (Unit {0})
  unfolding delete_to
  delete_image answer removable slug filename granted disk =
      within granted disk (delete_to answer removable slug filename disk)

  -- The checks of the names in `rename_image`.
  unfoldable pub rename_refusal : String → String → Option ℕ
  rename_refusal old new =
      if old == "" || new == ""
      then some 400
      else if not (has_image_extension new)
      then some 400
      else if not (paths.stays old && paths.stays new)
      then some 400
      else none

-- `source_path.rename(target_path)`
unfoldable pub move : String → String → String → Bytes → Disk → Disk
unfolding write remove
move folder old new content disk = record disk {
  files = write folder new content (remove folder old disk.files);
}

module _ (paths : Paths) (release_id : String) where
  unfoldable pub rename_found :
      Bool → String → String → String → String → Option Bytes → Disk → Answer Link
  unfolding read move link_to
  rename_found renames slug folder old new none disk = (abort 404, disk)
  rename_found renames slug folder old new (some content) disk =
      if new == old
      then (done (link_to release_id slug new), disk)
      else if is_some (read folder new disk.files)
      then (abort 409, disk)
      else if not renames
      then (abort 500, disk)
      else (done (link_to release_id slug new), move folder old new content disk)

  unfoldable pub rename_in : Bool → String → String → String → String → Disk → Answer Link
  unfolding rename_refusal rename_found
  rename_in renames slug old new folder disk =
      unless (rename_refusal paths old new) disk
        (rename_found renames slug folder old new (read folder old disk.files) disk)

  unfoldable pub rename_to : Bool → String → String → String → Disk → Metadata → Answer Link
  unfolding rename_in parent_of
  rename_to renames slug filename new_filename disk m =
      at_folder 404 (parent_of slug m) (paths.locate slug) disk (λ folder.
        rename_in renames slug (safe_name paths filename) (safe_name paths new_filename) folder
          disk)

  -- A name that is missing from the body is the empty text.
  unfoldable pub rename_image :
      Bool → String → String → String → Response Metadata → Disk → Answer Link
  unfolding rename_to
  rename_image renames slug filename new_filename granted disk =
      if new_filename == ""
      then (abort 400, disk)
      else within granted disk (rename_to renames slug filename new_filename disk)
