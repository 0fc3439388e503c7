-- ===== src/Release/Images/Renamed.antt =====
-- What a rename does to the images on the disk.
use cernopendata_portal.Base.{
  String, ◌≡◌, refl, ap, subst, ◌⊎◌, inl, inr, Bool, true, false, not, ◌&&◌, Option, none, some,
  ◌==◌, string_eq, is_some, if◌then◌else◌, arith, Option-cases,
}
use cernopendata_portal.Base.Result.{branch}
use cernopendata_portal.Release.Model.{Metadata}
use cernopendata_portal.Release.Views.{Response, done}
use cernopendata_portal.Release.Images.Files.{Bytes, Disk, read, remove, read-write, read-remove}
use cernopendata_portal.Release.Images.{
  Link, Paths, Answer, unless, parent_of, has_image_extension, safe_name,
}
use cernopendata_portal.Release.Images.Change.{
  rename_refusal, move, rename_found, rename_in, rename_to, rename_image,
}
use cernopendata_portal.Release.Images.Saved.{within-done, at_folder-done, abort-ne-done}

-- The files of the new disk, if the old file of a folder has got the new name.
abbrev pub IsMoved : String → String → String → Disk → Disk → Type 0
IsMoved folder old new before after =
    (c : Bytes) × (read folder old before.files ≡ some c)
    × ((read folder new before.files ≡ none) ⊎ (new ≡ old))
    × ((g n : String)
        → read g n after.files ≡ (
            if g == folder && n == new
            then some c
            else if g == folder && n == old
            then none
            else read g n before.files))

==-true : (s t : String) → (s == t) ≡ true → s ≡ t
==-true s t h = ground (arith, h)

is_some-false : (o : Option Bytes) → is_some o ≡ false → o ≡ none
is_some-false none h = refl
is_some-false (some c) h = cc

-- The second component of an answer.
pub disk_eq :
    {A : Type 0} {a b : Response A} {d d' : Disk} → ◌≡◌ {A = Answer A} (a, d) (b, d') → d ≡ d'
disk_eq {A = A} h = ap (λ (x : Answer A). x.1) h

unmoved-IsMoved :
    (folder old new : String) (c : Bytes) (disk : Disk)
    → new ≡ old
    → read folder old disk.files ≡ some c
    → IsMoved folder old new disk disk
unmoved-IsMoved folder old new c disk same r = (c, r, inr same, λ g n. ground (arith, same, r))

move-IsMoved :
    (folder old new : String) (c : Bytes) (disk : Disk)
    → read folder old disk.files ≡ some c
    → read folder new disk.files ≡ none
    → IsMoved folder old new disk (move folder old new c disk)
unfolding move
move-IsMoved folder old new c disk r free = (
  c,
  r,
  inl free,
  λ g n. ground (
    arith,
    read-write g n folder new c (remove folder old disk.files),
    read-remove g n folder old disk.files,
  ),
)

module _ (paths : Paths) (release_id : String) (renames : Bool) (slug : String) where
  rename_refusal-none :
      (old new : String) → rename_refusal paths old new ≡ none → has_image_extension new ≡ true
  unfolding rename_refusal
  rename_refusal-none old new h = ground (arith, h)

  rename_found-done :
      (folder old new : String) (found : Option Bytes) (disk : Disk) {image : Link} {after : Disk}
      → read folder old disk.files ≡ found
      → rename_found paths release_id renames slug folder old new found disk ≡ (done image, after)
      → IsMoved folder old new disk after
  unfolding rename_found
  rename_found-done folder old new none disk r h = absurd (abort-ne-done h)
  rename_found-done folder old new (some c) disk r h =
      branch {A = Answer Link} (new == old) _ _ h
        (λ same k.
          subst (IsMoved folder old new disk) (disk_eq k)
            (unmoved-IsMoved folder old new c disk (==-true new old same) r))
        (λ other k.
          branch {A = Answer Link} (is_some (read folder new disk.files)) _ _ k
            (λ _ l. absurd (abort-ne-done l))
            (λ free l.
              branch {A = Answer Link} (not renames) _ _ l (λ _ l. absurd (abort-ne-done l))
                (λ _ l. subst (IsMoved folder old new disk) (disk_eq l) (
                  move-IsMoved folder old new c disk r
                    (is_some-false (read folder new disk.files) free)))))

  rename_in-done :
      (folder old new : String) (disk : Disk) {image : Link} {after : Disk}
      → rename_in paths release_id renames slug old new folder disk ≡ (done image, after)
      → (has_image_extension new ≡ true) × IsMoved folder old new disk after
  unfolding rename_in
  rename_in-done folder old new disk h = elim (Option-cases (rename_refusal paths old new)) [
    | inr (code, stops) ↦ absurd (abort-ne-done (rw (stops, unless) at h))
    | inl fine ↦ (
      rename_refusal-none old new fine,
      rename_found-done folder old new (read folder old disk.files) disk refl
          (rw (fine, unless) at h),
    )
  ]

  -- After a rename that succeeds, the new name is allowed, no other file had it, the file of the
  -- old name has the new name with its content, and every other file is as it was.
  pub rename_image_moves :
      (filename new_filename : String) (granted : Response Metadata) (disk : Disk) (image : Link)
      (after : Disk)
      → rename_image paths release_id renames slug filename new_filename granted disk
        ≡ (done image, after)
      → (folder : String) × (paths.locate slug ≡ some folder)
        × (has_image_extension (safe_name paths new_filename) ≡ true)
        × IsMoved folder (safe_name paths filename) (safe_name paths new_filename) disk after
  unfolding rename_image rename_to
  rename_image_moves filename new_filename granted disk image after h =
      branch {A = Answer Link} (new_filename == "") _ _ h (λ _ k. absurd (abort-ne-done k))
        (λ _ k.
          let (m, _, e) =
            within-done granted disk
              (rename_to paths release_id renames slug filename new_filename disk) k in
          let (folder, at, e') =
            at_folder-done 404 (parent_of slug m) (paths.locate slug) disk
              (λ folder.
                rename_in paths release_id renames slug (safe_name paths filename)
                  (safe_name paths new_filename) folder disk)
              e in
          let (ext, moved) =
            rename_in-done folder (safe_name paths filename) (safe_name paths new_filename) disk
              e' in
          (folder, at, ext, moved))
