-- ===== src/Release/Images/Deleted.antt =====
-- `Release.delete` with `_delete_release_images` (cernopendata/modules/releases/api.py), and the
-- handler `delete_release` (cernopendata/modules/releases/views.py), on the disk of the images.
pub mod Cleaned
use cernopendata_portal.Base.{
  ℕ, String, ◌≡◌, ◌≢◌, refl, sym, Bool, true, false, not, ◌&&◌, ◌||◌, none, some, List, [], ◌∷◌,
  ◌++◌, ◌==◌, string_eq, if◌then◌else◌, keep_if, Bool-cases, inl, inr, arith,
}
use cernopendata_portal.Base.Text.{split_at}
use cernopendata_portal.Base.Result.{Exn, Result, ok, raise, runtime_error, ◌>>=◌}
use cernopendata_portal.Release.Model.{draft, ready, Metadata}
use cernopendata_portal.Release.Edit.{delete, is_status}
use cernopendata_portal.Release.Views.{
  Response, done, abort, crash, Row, get_release, with_release, delete_view,
}
use cernopendata_portal.Release.Images.Files.{Disk, StoredImage, read}

-- `shutil.rmtree`: when it raises, some of the files and folders are gone.
pub data Rmtree : Type 0 where
  cleared : Rmtree
  stopped : (StoredImage → Bool) → (String → Bool) → Rmtree

-- Whether a path begins with the parts of another.
unfoldable pub has_parts : List String → List String → Bool
has_parts [] parts = true
has_parts (p ∷ ps) [] = false
has_parts (p ∷ ps) (q ∷ qs) = let rest = has_parts ps qs in if p == q then rest else false

-- Whether a folder is the directory of a release or lies in it; `root` are the parts of the
-- directory of the images.
abbrev pub is_in : List String → String → String → Bool
is_in root id folder = has_parts (root ++ (id ∷ [])) (split_at b'/' folder)

-- `is_dir`: a directory is there if it has a file or a folder, or is empty.
abbrev any_folder : (String → Bool) → List String → Bool
any_folder p [] = false
any_folder p (f ∷ fs) = p f || any_folder p fs

abbrev pub any_file : (String → Bool) → List StoredImage → Bool
any_file p [] = false
any_file p (f ∷ fs) = p f.folder || any_file p fs

abbrev pub is_dir : List String → String → Disk → Bool
is_dir root id disk = any_folder (is_in root id) disk.folders || any_file (is_in root id) disk.files

unfoldable pub rmtree : Rmtree → (String → Bool) → Disk → Disk
rmtree cleared inside disk = record disk {
  folders = keep_if (λ f. not (inside f)) disk.folders;
  files = keep_if (λ f. not (inside f.folder)) disk.files;
}
rmtree (stopped file_gone folder_gone) inside disk = record disk {
  folders = keep_if (λ f. not (inside f && folder_gone f)) disk.folders;
  files = keep_if (λ f. not (inside f.folder && file_gone f)) disk.files;
}

module _ (root : List String) (removal : Rmtree) where
  -- `_delete_release_images`
  unfoldable pub delete_release_images : String → Disk → Disk
  unfolding rmtree has_parts
  delete_release_images id disk =
      if is_dir root id disk then rmtree removal (is_in root id) disk else disk

-- The handler catches a `RuntimeError`.
abbrev pub caught_error : Exn → Response (Unit {0})
caught_error (runtime_error _) = done tt
caught_error e = crash e

module _ (root : List String) (removal : Rmtree) (commit : Result (Unit {0})) where
  -- `Release.delete`, once its guard has answered: the images go before the row does. `commit` is
  -- how `db.session.delete` and `db.session.commit` end; if they raise, the row stays.
  unfoldable pub after_guard : Metadata → Disk → Result Row → Result Row × Disk
  unfolding delete_release_images
  after_guard m disk (ok row) =
      ((commit >>= λ done. ok row), delete_release_images root removal m.id disk)
  after_guard m disk (raise e) = (raise e, disk)

  abbrev pub reply_after : Metadata → Result Row × Disk → (Response (Unit {0}) × Row) × Disk
  reply_after m (ok row, disk) = ((done tt, row), disk)
  reply_after m (raise e, disk) = ((caught_error e, some m), disk)

  -- The handler `delete_release`, on what `_get_release` gives it.
  unfoldable pub delete_release :
      Response Metadata × Row → Disk → (Response (Unit {0}) × Row) × Disk
  unfolding after_guard
  delete_release (done m, row) disk = reply_after m (after_guard m disk (delete m))
  delete_release (abort code, row) disk = ((abort code, row), disk)
  delete_release (crash e, row) disk = ((crash e, row), disk)
