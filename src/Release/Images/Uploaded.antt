-- ===== src/Release/Images/Uploaded.antt =====
-- What an upload does to the images on the disk.
use cernopendata_portal.Base.{
  ℕ, String, ◌≡◌, refl, sym, ap, subst, ◌∙◌, ◌⊎◌, inl, inr, Bool, true, false, none, some, List, [],
  ◌∷◌, ◌==◌, string_eq, contains, is_empty, length, take, ◌≤◌, arith, Bool-cases, Option-cases,
}
use cernopendata_portal.Release.Model.{Metadata}
use cernopendata_portal.Release.Views.{Response, done, abort, crash}
use cernopendata_portal.Release.Images.Files.{
  Bytes, Disk, StoredImage, names, read, write, has_folder, add_folder, read-write, names_complete,
}
use cernopendata_portal.Release.Images.Cases.{within-P, at_folder-P, if-P}
use cernopendata_portal.Release.Images.{
  Upload, Link, Prepare, prepared, not_made, not_listed, Save, complete, refused, cut_off, Paths,
  Answer, unless, parent_of, has_image_extension, link_to, safe_name, max_image_size, refusal, save,
  after_save, upload_all, prepare_upload, named, upload_to, upload_image,
}

-- Every file of the old disk is on the new one, with its content.
abbrev pub Keeps : Disk → Disk → Type 0
Keeps old new =
    (g n : String) (c : Bytes) → read g n old.files ≡ some c → read g n new.files ≡ some c

-- Every other file of the new disk is an image in the folder, of a size that is allowed.
abbrev pub IsAcceptable : String → String → String → Bytes → Type 0
IsAcceptable folder g n c =
    (g ≡ folder) × (has_image_extension n ≡ true) × (length c ≤ max_image_size)

abbrev pub Adds : String → Disk → Disk → Type 0
Adds folder old new =
    (g n : String) (c : Bytes)
    → read g n new.files ≡ some c
    → (read g n old.files ≡ some c) ⊎ IsAcceptable folder g n c

abbrev Extends : String → Disk → Disk → Type 0
Extends folder old new = Keeps old new × Adds folder old new

Extends-refl : (folder : String) (disk : Disk) → Extends folder disk disk
Extends-refl folder disk = (λ g n c h. h, λ g n c h. inl h)

Extends-trans :
    (folder : String) (a b c : Disk) → Extends folder a b → Extends folder b c → Extends folder a c
Extends-trans folder a b c (k, l) (k', l') = (
  λ g n bytes h. k' g n bytes (k g n bytes h),
  λ g n bytes h. elim (l' g n bytes h) [ inl old ↦ l g n bytes old | inr new ↦ inr new ],
)

length-take : {A : Type 0} (n : ℕ) (xs : List A) → length (take n xs) ≤ length xs
length-take ℕ.zero xs = omega arith
length-take (ℕ.suc n) [] = omega arith
length-take (ℕ.suc n) (x ∷ xs) = omega (arith, length-take n xs)

-- What is read after a write is what was read before, or what was written.
read-write_cases :
    (g n folder name : String) (c : Bytes) (files : List StoredImage) {bytes : Bytes}
    → read g n (write folder name c files) ≡ some bytes
    → (read g n files ≡ some bytes) ⊎ ((g ≡ folder) × (n ≡ name) × (c ≡ bytes))
read-write_cases g n folder name c files h = ground (arith, read-write g n folder name c files)

write-Extends :
    (folder name : String) (c : Bytes) (disk : Disk)
    → read folder name disk.files ≡ none
    → has_image_extension name ≡ true
    → length c ≤ max_image_size
    → Extends folder disk (record disk { files = write folder name c disk.files })
write-Extends folder name c disk fresh ext size = (
  λ g n bytes h. ground (arith, read-write g n folder name c disk.files),
  λ g n bytes h. elim (read-write_cases g n folder name c disk.files h) [
    | inl old ↦ inl old
    | inr (p, q, r) ↦
        inr (p, ap has_image_extension q ∙ ext, subst (λ b. length b ≤ max_image_size) r size)
  ],
)

pub save-Extends :
    (s : Save) (folder name : String) (c : Bytes) (disk : Disk)
    → read folder name disk.files ≡ none
    → has_image_extension name ≡ true
    → length c ≤ max_image_size
    → Extends folder disk (save s folder name c disk).1
unfolding save
save-Extends complete folder name c disk fresh ext size =
    write-Extends folder name c disk fresh ext size
save-Extends refused folder name c disk fresh ext size = Extends-refl folder disk
save-Extends (cut_off n) folder name c disk fresh ext size =
    write-Extends folder name (take n c) disk fresh ext (omega (arith, length-take n c, size))

module _ (paths : Paths) where
  -- What the checks of an image that is not refused have found.
  pub refusal-none :
      (existing : List String) (name : String) (c : Bytes)
      → refusal paths existing name c ≡ none
      → (has_image_extension name ≡ true)
        × (length c ≤ max_image_size)
        × (contains name existing ≡ false)
  unfolding refusal
  refusal-none existing name c h = ground (arith, h)

after_save-Extends :
    (folder : String) (disk : Disk) (saved : Bool × Disk) (image : Link) (rest : Answer (List Link))
    → Extends folder disk saved.1
    → Extends folder saved.1 rest.1
    → Extends folder disk (after_save saved image rest).1
after_save-Extends folder disk (false, d) image rest h k = h
after_save-Extends folder disk (true, d) image (done images, d') h k =
    Extends-trans folder disk d d' h k
after_save-Extends folder disk (true, d) image (abort code, d') h k =
    Extends-trans folder disk d d' h k
after_save-Extends folder disk (true, d) image (crash e, d') h k =
    Extends-trans folder disk d d' h k

-- The names that the loop has seen are at least those of the folder.
abbrev pub Covers : List String → String → Disk → Type 0
Covers existing folder disk =
    (n : String) → contains n existing ≡ false → read folder n disk.files ≡ none

pub save-Covers :
    (s : Save) (existing : List String) (folder name : String) (c : Bytes) (disk : Disk)
    → Covers existing folder disk
    → Covers (name ∷ existing) folder (save s folder name c disk).1
unfolding save
save-Covers complete existing folder name c disk h n other =
    ground (arith, read-write folder n folder name c disk.files, h n)
save-Covers refused existing folder name c disk h n other = ground (arith, h n)
save-Covers (cut_off k) existing folder name c disk h n other =
    ground (arith, read-write folder n folder name (take k c) disk.files, h n)

module _ (paths : Paths) (release_id : String) (saves : String → Save) (slug folder : String) where
  pub upload_all-Extends :
      (existing : List String) (files : List Upload) (disk : Disk)
      → Covers existing folder disk
      → Extends folder disk (upload_all paths release_id saves slug folder existing files disk).1
  unfolding upload_all
  upload_all-Extends existing [] disk h = Extends-refl folder disk
  upload_all-Extends existing (file ∷ files) disk h =
      let name = safe_name paths file.filename in
      let saved = save (saves name) folder name file.content disk in
      elim (Option-cases (refusal paths existing name file.content)) [
        | inr (code, stops) ↦ rw (stops, unless) (Extends-refl folder disk)
        | inl fine ↦
            let (ext, size, new) = refusal-none paths existing name file.content fine in
            rw (fine, unless)
              (after_save-Extends folder disk saved (link_to release_id slug name) _
                (save-Extends (saves name) folder name file.content disk (h name new) ext size)
                (upload_all-Extends (name ∷ existing) files saved.1
                  (save-Covers (saves name) existing folder name file.content disk h)))
      ]

abbrev pub IsUploaded : Paths → String → Disk → Disk → Type 0
IsUploaded paths slug old new =
    Keeps old new
    × ((g n : String) (c : Bytes)
        → read g n new.files ≡ some c
        → (read g n old.files ≡ some c)
          ⊎ ((paths.locate slug ≡ some g)
              × (has_image_extension n ≡ true)
              × (length c ≤ max_image_size)))

pub add_folder_files : (folder : String) (disk : Disk) → (add_folder folder disk).files ≡ disk.files
add_folder_files folder disk =
    if-P (λ d. d.files ≡ disk.files) (has_folder folder disk) disk _ refl refl

add_folder-Extends : (folder f : String) (disk : Disk) → Extends folder disk (add_folder f disk)
add_folder-Extends folder f disk = (
  λ g n c h. ap (read g n) (add_folder_files f disk) ∙ h,
  λ g n c h. inl (sym (ap (read g n) (add_folder_files f disk)) ∙ h),
)

module _ (paths : Paths) (release_id : String) (preparation : Prepare) (saves : String → Save) where
  prepare_upload-Extends :
      (how : Prepare) (slug : String) (files : List Upload) (folder : String) (disk : Disk)
      → Extends folder disk (prepare_upload paths release_id how saves slug files folder disk).1
  unfolding prepare_upload
  prepare_upload-Extends not_made slug files folder disk = Extends-refl folder disk
  prepare_upload-Extends not_listed slug files folder disk = add_folder-Extends folder folder disk
  prepare_upload-Extends prepared slug files folder disk =
      Extends-trans folder disk (add_folder folder disk)
        (upload_all paths release_id saves slug folder (names folder disk.files) files
          (add_folder folder disk)).1
        (add_folder-Extends folder folder disk)
        (upload_all-Extends paths release_id saves slug folder (names folder disk.files) files
          (add_folder folder disk)
          (λ n h.
            ap (read folder n) (add_folder_files folder disk)
            ∙ names_complete folder n disk.files h))

  unchanged : (slug : String) (disk : Disk) → IsUploaded paths slug disk disk
  unchanged slug disk = (λ g n c h. h, λ g n c h. inl h)

  Extends-IsUploaded :
      (slug folder : String) (old new : Disk)
      → paths.locate slug ≡ some folder
      → Extends folder old new
      → IsUploaded paths slug old new
  Extends-IsUploaded slug folder old new at (k, l) = (
    k,
    λ g n c h. elim (l g n c h) [
      | inl before ↦ inl before
      | inr (same, ext, size) ↦ inr (at ∙ sym (ap some same), ext, size)
    ],
  )

  upload_to-IsUploaded :
      (slug : String) (files : List Upload) (disk : Disk) (m : Metadata)
      → IsUploaded paths slug disk
          (upload_to paths release_id preparation saves slug files disk m).1
  unfolding upload_to
  upload_to-IsUploaded slug files disk m =
      at_folder-P (IsUploaded paths slug disk) 400 (parent_of slug m) (paths.locate slug) disk
        (λ folder. prepare_upload paths release_id preparation saves slug files folder disk)
        (unchanged slug disk)
        (λ folder at.
          Extends-IsUploaded slug folder disk
            (prepare_upload paths release_id preparation saves slug files folder disk).1 at
            (prepare_upload-Extends preparation slug files folder disk))

  -- Whatever the answer to an upload, every file that was on the disk is there with the content
  -- that it had, and every other file that is there now is in the folder of the document, has an
  -- extension that is allowed and is not larger than the maximum.
  pub upload_image_keeps :
      (slug : String) (images : List Upload) (granted : Response Metadata) (disk : Disk)
      → IsUploaded paths slug disk
          (upload_image paths release_id preparation saves slug images granted disk).1
  unfolding upload_image
  upload_image_keeps slug images granted disk = elim (Bool-cases (slug == "")) [
    | inl missing ↦ rw (missing, upload_image) (unchanged slug disk)
    | inr present ↦ elim (Bool-cases (is_empty (named images))) [
      | inl no_files ↦ rw (present, no_files, upload_image) (unchanged slug disk)
      | inr files ↦
          rw (present, files, upload_image)
            (within-P (IsUploaded paths slug disk) granted disk
              (upload_to paths release_id preparation saves slug (named images) disk)
              (unchanged slug disk) (λ m _. upload_to-IsUploaded slug (named images) disk m))
    ]
  ]
