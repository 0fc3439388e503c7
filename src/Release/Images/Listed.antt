-- ===== src/Release/Images/Listed.antt =====
-- What a deletion does to the images on the disk, and what the list of a document shows.
use cernopendata_portal.Base.{
  String, ◌≡◌, refl, ap, subst, ◌∙◌, Bool, true, false, not, ◌&&◌, ◌||◌, none, some, List, [], ◌∷◌,
  ◌==◌, string_eq, contains, is_empty, is_some, keep_if, if◌then◌else◌, map, arith,
}
use cernopendata_portal.Base.Members.{contains-keep_if}
use cernopendata_portal.Base.Result.{branch}
use cernopendata_portal.Release.Model.{Metadata}
use cernopendata_portal.Release.Views.{Response, done}
use cernopendata_portal.Release.Images.Files.{
  Disk, StoredImage, names, read, remove, has_folder, drop_folder, sort, place, read-remove,
}
use cernopendata_portal.Release.Images.Cases.{if-P}
use cernopendata_portal.Release.Images.{
  Link, Paths, Answer, parent_of, has_image_extension, link_to,
}
use cernopendata_portal.Release.Images.Change.{
  Unlink, unlinked, gone, failed, after_unlink, delete_in, delete_to, delete_image, images_in,
}
use cernopendata_portal.Release.Images.Saved.{within-done, at_folder-done, abort-ne-done}
use cernopendata_portal.Release.Images.Renamed.{disk_eq}

after_unlink-done :
    (how : Unlink) (removable : Bool) (folder name : String) (disk : Disk) {after : Disk}
    → after_unlink how removable folder name disk ≡ (done tt, after)
    → after.files ≡ remove folder name disk.files
unfolding after_unlink
after_unlink-done failed removable folder name disk h = absurd (abort-ne-done h)
after_unlink-done gone removable folder name disk h = absurd (abort-ne-done h)
after_unlink-done unlinked removable folder name disk h =
    let after : Disk = record disk { files = remove folder name disk.files } in
    subst (λ (d : Disk). d.files ≡ remove folder name disk.files) (disk_eq h)
      (if-P (λ (d : Disk). d.files ≡ remove folder name disk.files)
        (removable && is_empty (names folder after.files)) (drop_folder folder after) after refl
        refl)

-- The files of the new disk, if one file of a folder has been deleted.
abbrev pub IsDeleted : String → String → Disk → Disk → Type 0
IsDeleted folder name before after =
    (is_some (read folder name before.files) ≡ true)
    × ((g n : String)
        → read g n after.files ≡ (if g == folder && n == name then none else read g n before.files))

module _ (paths : Paths) (answer : Unlink) (removable : Bool) where
  delete_in-done :
      (folder name : String) (disk : Disk) {after : Disk}
      → delete_in paths answer removable name folder disk ≡ (done tt, after)
      → IsDeleted folder name disk after
  unfolding delete_in
  delete_in-done folder name disk h =
      branch {A = Answer (Unit {0})} (name == "") _ _ h (λ _ k. absurd (abort-ne-done k))
        (λ _ k.
          branch {A = Answer (Unit {0})} (not (paths.stays name)) _ _ k
            (λ _ l. absurd (abort-ne-done l))
            (λ _ l.
              branch {A = Answer (Unit {0})} (not (is_some (read folder name disk.files))) _ _ l
                (λ _ l. absurd (abort-ne-done l))
                (λ present l. (
                  ground (arith, present),
                  λ g n.
                      ap (read g n) (after_unlink-done answer removable folder name disk l)
                      ∙ read-remove g n folder name disk.files,
                ))))

  -- After a deletion that succeeds, the file that the request names in the folder of the document,
  -- which was there, is gone, and every other file is as it was.
  pub delete_image_removes :
      (slug filename : String) (granted : Response Metadata) (disk after : Disk)
      → delete_image paths answer removable slug filename granted disk ≡ (done tt, after)
      → (folder : String) × (paths.locate slug ≡ some folder)
        × IsDeleted folder (paths.secure_filename filename) disk after
  unfolding delete_image delete_to
  delete_image_removes slug filename granted disk after h =
      let (m, _, e) =
        within-done granted disk (delete_to paths answer removable slug filename disk) h in
      let (folder, at, e') =
        at_folder-done 404 (parent_of slug m) (paths.locate slug) disk
          (λ folder. delete_in paths answer removable (paths.secure_filename filename) folder disk)
          e in
      (folder, at, delete_in-done folder (paths.secure_filename filename) disk e')

contains-place :
    (n s : String) (ss : List String) → contains n (place s ss) ≡ (n == s || contains n ss)
unfolding place
contains-place n s [] = refl
contains-place n s (t ∷ ts) = ground (arith, contains-place n s ts)

contains-sort : (n : String) (ss : List String) → contains n (sort ss) ≡ contains n ss
unfolding sort
contains-sort n [] = refl
contains-sort n (s ∷ ss) = contains-place n s (sort ss) ∙ ap (λ b. n == s || b) (contains-sort n ss)

contains-names :
    (folder n : String) (files : List StoredImage)
    → contains n (names folder files) ≡ is_some (read folder n files)
unfolding names read
contains-names folder n [] = refl
contains-names folder n (f ∷ fs) = ground (arith, contains-names folder n fs)

filenames-links :
    (release_id slug : String) (ss : List String)
    → map (λ (l : Link). l.filename) (map (link_to release_id slug) ss) ≡ ss
unfolding link_to
filenames-links release_id slug [] = refl
filenames-links release_id slug (s ∷ ss) =
    ap (λ rest. s ∷ rest) (filenames-links release_id slug ss)

gated :
    (n : String) (b c : Bool) (links : List Link) {y : Bool}
    → contains n (map (λ (l : Link). l.filename) links) ≡ y
    → contains n (map (λ (l : Link). l.filename) (if b && c then links else [])) ≡ (b && c && y)
gated n true true links h = h
gated n true false links h = refl
gated n false c links h = refl

-- The list of a document shows a name exactly if the folder is there and can be listed, the name
-- has an extension that is allowed, and the folder has a file of that name.
pub images_in_exact :
    (release_id slug folder n : String) (listable : Bool) (disk : Disk)
    → contains n (map (λ (l : Link). l.filename) (images_in release_id listable slug folder disk))
      ≡ (has_folder folder disk
          && listable
          && (has_image_extension n && is_some (read folder n disk.files)))
unfolding images_in
images_in_exact release_id slug folder n listable disk =
    let shown = keep_if has_image_extension (sort (names folder disk.files)) in
    gated n (has_folder folder disk) listable (map (link_to release_id slug) shown) (
      ap (contains n) (filenames-links release_id slug shown)
      ∙ contains-keep_if n has_image_extension (sort (names folder disk.files))
      ∙ ap (λ b. has_image_extension n && b)
          (contains-sort n (names folder disk.files) ∙ contains-names folder n disk.files))
