-- ===== src/Release/Tests/Pictures.antt =====
-- The theorems on images at a disk with one image and a request with another.
use cernopendata_portal.Base.{String, ◌≡◌, refl, true, some, [], ◌∷◌, string_eq, nat_eq}
use cernopendata_portal.Base.Text.{lower, split_at}
use cernopendata_portal.Base.Result.{raise, foreign}
use cernopendata_portal.Json.Dict.{lookup}
use cernopendata_portal.Release.Model.{draft, status_eq}
use cernopendata_portal.Release.Views.{done}
use cernopendata_portal.Release.Images.Files.{Disk, names, read, write, remove}
use cernopendata_portal.Release.Images.{
  Upload, prepared, Save, complete, Paths, parent_of, has_image_extension, path_suffix, link_to,
  safe_name, refusal, save, upload_all, prepare_upload, upload_to, upload_image,
}
use cernopendata_portal.Release.Images.Change.{
  unlinked, after_unlink, delete_in, delete_to, delete_image, rename_refusal, move, rename_found,
  rename_in, rename_to, rename_image,
}
use cernopendata_portal.Release.Images.Uploaded.{IsUploaded, upload_image_keeps}
use cernopendata_portal.Release.Images.Saved.{AreSaved, upload_image_saves}
use cernopendata_portal.Release.Images.Renamed.{IsMoved, rename_image_moves}
use cernopendata_portal.Release.Images.Listed.{IsDeleted, delete_image_removes}
use cernopendata_portal.Release.Images.Deleted.{
  cleared, has_parts, rmtree, delete_release_images, after_guard, delete_release,
}
use cernopendata_portal.Release.Images.Deleted.Cleaned.{IsCleanedUp, delete_release_cleans}
use cernopendata_portal.Release.Edit.{delete, is_status}
use cernopendata_portal.Release.Tests.{release_in}

abbrev paths : Paths
paths = record { secure_filename = λ name. name; locate = λ slug. some slug; stays = λ name. true }

abbrev disk : Disk
disk = record {
  folders = "about-cms" ∷ [];
  files = (record { folder = "about-cms"; name = "muon.png"; content = 7 ∷ [] }) ∷ [];
}

abbrev jet : Upload
jet = record { filename = "JET.PNG"; content = 1 ∷ 2 ∷ [] }

abbrev saves : String → Save
saves name = complete

abbrev uploaded : Disk
uploaded =
    (upload_image paths "7" prepared saves "about-cms" (jet ∷ []) (done (release_in draft)) disk).1

upload_image_keeps_example :
    IsUploaded paths "about-cms" disk
      (upload_image paths "7" prepared saves "about-cms"
        (jet ∷ [])
        (done (release_in draft))
        disk).1
upload_image_keeps_example =
    upload_image_keeps paths "7" prepared saves "about-cms" (jet ∷ []) (done (release_in draft))
      disk

abbrev with_jet : Disk
with_jet = record {
  folders = "about-cms" ∷ [];
  files =
      (record { folder = "about-cms"; name = "muon.png"; content = 7 ∷ [] })
      ∷ (record { folder = "about-cms"; name = "jet.png"; content = 1 ∷ 2 ∷ [] })
      ∷ [];
}

upload_image_saves_example :
    (folder : String) × (paths.locate "about-cms" ≡ some folder)
    × AreSaved paths "7" saves "about-cms" folder
        (jet ∷ [])
        (link_to "7" "about-cms" "jet.png" ∷ [])
        with_jet
unfolding upload_image upload_to prepare_upload upload_all save refusal parent_of lookup names write
    has_image_extension path_suffix split_at lower string_eq link_to nat_eq
upload_image_saves_example =
    upload_image_saves paths "7" saves prepared "about-cms" (jet ∷ []) (done (release_in draft))
      disk (link_to "7" "about-cms" "jet.png" ∷ []) with_jet refl

abbrev renamed : Disk
renamed = record disk {
  files = (record { folder = "about-cms"; name = "mu.png"; content = 7 ∷ [] }) ∷ [];
}

rename_image_moves_example :
    (folder : String) × (paths.locate "about-cms" ≡ some folder)
    × (has_image_extension (safe_name paths "mu.png") ≡ true)
    × IsMoved folder (safe_name paths "muon.png") (safe_name paths "mu.png") disk renamed
unfolding rename_image rename_to rename_in rename_found rename_refusal move parent_of lookup read
    write remove has_image_extension path_suffix split_at lower string_eq link_to nat_eq
rename_image_moves_example =
    rename_image_moves paths "7" true "about-cms" "muon.png" "mu.png" (done (release_in draft)) disk
      (link_to "7" "about-cms" "mu.png") renamed refl

abbrev emptied : Disk
emptied = record { folders = []; files = [] }

delete_image_removes_example :
    (folder : String) × (paths.locate "about-cms" ≡ some folder)
    × IsDeleted folder (paths.secure_filename "muon.png") disk emptied
unfolding delete_image delete_to delete_in after_unlink parent_of lookup read remove names string_eq
delete_image_removes_example =
    delete_image_removes paths unlinked true "about-cms" "muon.png" (done (release_in draft)) disk
      emptied refl

-- The images of the releases 1 and 12.
abbrev picture : String → Disk
picture folder = record {
  folders = folder ∷ [];
  files = (record { folder = folder; name = "muon.png"; content = 7 ∷ [] }) ∷ [];
}

abbrev two_releases : Disk
two_releases = record {
  folders = "images/1/about-cms" ∷ (picture "images/12/about").folders;
  files =
      (record { folder = "images/1/about-cms"; name = "jet.png"; content = 1 ∷ [] })
      ∷ (picture "images/12/about").files;
}

delete_release_cleans_example :
    IsCleanedUp
      ("images" ∷ [])
      cleared
      (raise (foreign "OperationalError"))
      (release_in draft)
      two_releases
      (some (release_in draft), picture "images/12/about")
unfolding delete_release after_guard delete_release_images rmtree delete has_parts split_at
    is_status string_eq nat_eq status_eq
delete_release_cleans_example =
    delete_release_cleans ("images" ∷ []) cleared (raise (foreign "OperationalError"))
      (release_in draft) (some (release_in draft)) two_releases
