-- ===== src/Release/Images.antt =====
-- The request handlers for the images of a release's documents
-- (cernopendata/modules/releases/views.py): upload, list, delete and rename.
-- A disk holds files by folder and name; a folder is the resolved directory of a document, and
-- folders within it, symbolic links and other processes are left out. What the operating system
-- answers to a call is an argument, and so are werkzeug's `secure_filename` and the resolution of
-- paths.
pub mod Files
pub mod Change
pub mod Cases
pub mod Uploaded
pub mod Saved
pub mod Renamed
pub mod Listed
pub mod Deleted
use cernopendata_portal.Base.{
  ℕ, String, Bool, true, false, not, ◌&&◌, ◌||◌, Option, none, some, List, [], ◌∷◌, ◌++◌, ◌==◌,
  string_eq, contains, is_empty, is_some, keep_if, find_first, take, if◌then◌else◌, length, ltb,
  ◌*◌, ◌<>◌,
}
use cernopendata_portal.Base.Text.{split_at, last_part, lower}
use cernopendata_portal.Json.{Value, Fields, text, obj, field, end, truthy}
use cernopendata_portal.Json.Dict.{lookup}
use cernopendata_portal.Release.Model.{Metadata}
use cernopendata_portal.Release.Views.{Response, done, abort, crash, Row, get_release}
use cernopendata_portal.Release.Images.Files.{
  Bytes, Disk, names, read, write, remove, has_folder, add_folder, drop_folder, sort, StoredImage,
}

-- An image of the request, by the name that the client gave it.
pub record Upload : Type 0 where
  pub filename : String
  pub content : Bytes

-- An entry of the answer: the file's name and its URL.
pub record Link : Type 0 where
  pub filename : String
  pub parent_slug : String
  pub url : String

-- `mkdir` and `iterdir` before an upload.
pub data Prepare : Type 0 where
  prepared not_made not_listed : Prepare

-- `file.save`: an interrupted write leaves the bytes up to some point.
pub data Save : Type 0 where
  complete refused : Save
  cut_off : ℕ → Save

-- `locate slug` is the directory of a slug if it lies in the directory of the release, and
-- `stays name` says whether a name in such a directory resolves to a path within it.
pub record Paths : Type 0 where
  pub secure_filename : String → String
  pub locate : String → Option String
  pub stays : String → Bool

abbrev pub allowed_image_extensions : List String
allowed_image_extensions = ".png" ∷ ".jpg" ∷ ".jpeg" ∷ ".gif" ∷ []

abbrev pub max_image_size : ℕ
max_image_size = 5 * 1024 * 1024

-- `Path(name).suffix`, on the parts between the dots.
unfoldable pub path_suffix : List String → String
path_suffix [] = ""
path_suffix (p ∷ []) = ""
path_suffix (p ∷ q ∷ []) = if p == "" || q == "" then "" else "." <> q
path_suffix (p ∷ q ∷ r ∷ rest) =
    let extension = last_part (q ∷ r ∷ rest) in if extension == "" then "" else "." <> extension

unfoldable pub has_image_extension : String → Bool
unfolding path_suffix
has_image_extension name =
    contains (lower (path_suffix (split_at b'.' name))) allowed_image_extensions

-- What a handler answers, and the disk after it.
abbrev pub Answer : Type 0 → Type 0
Answer A = Response A × Disk

-- A handler that goes on with its release.
abbrev pub within : {A : Type 0} → Response Metadata → Disk → (Metadata → Answer A) → Answer A
within (done m) disk body = body m
within (abort code) disk body = (abort code, disk)
within (crash e) disk body = (crash e, disk)

-- `next((doc for doc in release.documents if doc.get("slug") == parent_slug), None)`
abbrev has_slug : String → Option Value → Bool
has_slug slug (some (text s)) = s == slug
has_slug slug _ = false

unfoldable pub parent_of : String → Metadata → Option Fields
parent_of slug m = find_first (λ d. has_slug slug (lookup "slug" d)) m.documents

-- The answer of a handler that goes on with the document's folder.
abbrev pub at_folder :
    {A : Type 0} → ℕ → Option Fields → Option String → Disk → (String → Answer A) → Answer A
at_folder missing none folder disk body = (abort missing, disk)
at_folder missing (some parent) none disk body = (abort 400, disk)
at_folder missing (some parent) (some folder) disk body = body folder

-- A step that is refused with a code, or taken.
abbrev pub unless : {A : Type 0} → Option ℕ → Disk → Answer A → Answer A
unless none disk next = next
unless (some code) disk next = (abort code, disk)

unfoldable pub link_to : String → String → String → Link
link_to release_id slug name = record {
  filename = name;
  parent_slug = slug;
  url = "/static/upload/" <> release_id <> "/" <> slug <> "/" <> name;
}

-- `file.save`: whether it returns, and the disk after it.
unfoldable pub save : Save → String → String → Bytes → Disk → Bool × Disk
save complete folder name content disk =
    (true, record disk { files = write folder name content disk.files })
save (cut_off n) folder name content disk =
    (false, record disk { files = write folder name (take n content) disk.files })
save refused folder name content disk = (false, disk)

module _ (paths : Paths) where
  -- The name under which an image is stored.
  abbrev pub safe_name : String → String
  safe_name filename = lower (paths.secure_filename filename)

  -- The checks of one image in the loop of `upload_image`.
  unfoldable pub refusal : List String → String → Bytes → Option ℕ
  refusal already_existing name content =
      if name == ""
      then some 400
      else if not (has_image_extension name)
      then some 400
      else if ltb max_image_size (length content)
      then some 400
      else if not (paths.stays name)
      then some 400
      else if contains name already_existing
      then some 409
      else none

abbrev pub add_link : Link → Answer (List Link) → Answer (List Link)
add_link image (done images, disk) = (done (image ∷ images), disk)
add_link image (abort code, disk) = (abort code, disk)
add_link image (crash e, disk) = (crash e, disk)

abbrev pub after_save : Bool × Disk → Link → Answer (List Link) → Answer (List Link)
after_save (true, disk) image rest = add_link image rest
after_save (false, disk) image rest = (abort 500, disk)

-- `request.files.getlist("images")` holds files without a name too.
abbrev pub named : List Upload → List Upload
named files = keep_if (λ file. not (file.filename == "")) files

module _ (paths : Paths) (release_id : String) where
  -- The loop of `upload_image`; `saves` answers the write under a name.
  unfoldable pub upload_all :
      (String → Save) → String → String → List String → List Upload → Disk → Answer (List Link)
  unfolding refusal save
  upload_all saves slug folder already_existing [] disk = (done [], disk)
  upload_all saves slug folder already_existing (file ∷ files) disk =
      let name = safe_name paths file.filename in
      let saved = save (saves name) folder name file.content disk in
      let rest = upload_all saves slug folder (name ∷ already_existing) files saved.1 in
      unless (refusal paths already_existing name file.content) disk
        (after_save saved (link_to release_id slug name) rest)

  unfoldable pub prepare_upload :
      Prepare → (String → Save) → String → List Upload → String → Disk → Answer (List Link)
  unfolding upload_all names
  prepare_upload not_made saves slug files folder disk = (abort 500, disk)
  prepare_upload not_listed saves slug files folder disk = (abort 500, add_folder folder disk)
  prepare_upload prepared saves slug files folder disk =
      upload_all saves slug folder (names folder disk.files) files (add_folder folder disk)

  unfoldable pub upload_to :
      Prepare → (String → Save) → String → List Upload → Disk → Metadata → Answer (List Link)
  unfolding prepare_upload parent_of
  upload_to preparation saves slug files disk m =
      at_folder 400 (parent_of slug m) (paths.locate slug) disk
        (λ folder. prepare_upload preparation saves slug files folder disk)

  -- The handlers on the release that they were given: `granted` is what `_get_release` gives.
  -- A slug that is missing from the form is the empty text.
  unfoldable pub upload_image :
      Prepare
      → (String → Save)
      → String
      → List Upload
      → Response Metadata
      → Disk
      → Answer (List Link)
  unfolding upload_to
  upload_image preparation saves slug images granted disk =
      if slug == ""
      then (abort 400, disk)
      else if is_empty (named images)
      then (abort 400, disk)
      else within granted disk (upload_to preparation saves slug (named images) disk)
