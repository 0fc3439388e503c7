-- ===== src/Release/Images/Deleted/Cleaned.antt =====
-- What becomes of the images when a release is deleted (cernopendata/modules/releases/api.py and
-- views.py).
use cernopendata_portal.Base.{
  String, ◌≡◌, ◌≢◌, ◌⊎◌, refl, sym, subst, Bool, true, false, not, ◌&&◌, none, some, List, [], ◌∷◌,
  ◌++◌, string_eq, if◌then◌else◌, keep_if, Bool-cases, inl, inr, arith,
}
use cernopendata_portal.Base.Text.{split_at}
use cernopendata_portal.Base.Result.{Exn, Result, ok, raise, raise-ne-ok}
use cernopendata_portal.Release.Model.{draft, ready, Metadata}
use cernopendata_portal.Release.Edit.{delete, is_status}
use cernopendata_portal.Release.Views.{done, Row}
use cernopendata_portal.Release.Images.Files.{Disk, StoredImage, read}
use cernopendata_portal.Release.Images.Deleted.{
  Rmtree, cleared, stopped, has_parts, is_in, is_dir, any_file, rmtree, delete_release_images,
  after_guard, reply_after, delete_release,
}

has_parts_self :
    (root : List String) (i : String) (rest : List String)
    → has_parts (root ++ (i ∷ [])) (root ++ (i ∷ rest)) ≡ true
unfolding has_parts
has_parts_self [] i rest = ground arith
has_parts_self (p ∷ root) i rest = ground (arith, has_parts_self root i rest)

has_parts_other :
    (root : List String) (i j : String) (rest : List String)
    → i ≢ j
    → has_parts (root ++ (i ∷ [])) (root ++ (j ∷ rest)) ≡ false
unfolding has_parts
has_parts_other [] i j rest ne = ground (arith, ne)
has_parts_other (p ∷ root) i j rest ne = ground (arith, has_parts_other root i j rest ne)

module _ (inside : String → Bool) (folder name : String) where
  read-keep_if :
      (gone : StoredImage → Bool) (fs : List StoredImage)
      → inside folder ≡ false
      → read folder name (keep_if (λ f. not (inside f.folder && gone f)) fs) ≡ read folder name fs
  unfolding read
  read-keep_if gone [] h = refl
  read-keep_if gone (f ∷ fs) h = ground (arith, h, read-keep_if gone fs h)

  read-cleared :
      (fs : List StoredImage)
      → read folder name (keep_if (λ f. not (inside f.folder)) fs)
        ≡ (if inside folder then none else read folder name fs)
  unfolding read
  read-cleared [] = ground arith
  read-cleared (f ∷ fs) = ground (arith, read-cleared fs)

  read-outside :
      (fs : List StoredImage)
      → any_file inside fs ≡ false
      → inside folder ≡ true
      → read folder name fs ≡ none
  unfolding read
  read-outside [] h k = refl
  read-outside (f ∷ fs) h k = ground (arith, h, k, read-outside fs)

  read-rmtree :
      (removal : Rmtree) (disk : Disk)
      → inside folder ≡ false
      → read folder name (rmtree removal inside disk).files ≡ read folder name disk.files
  unfolding rmtree
  read-rmtree cleared disk h = ground (arith, h, read-cleared disk.files)
  read-rmtree (stopped gone folder_gone) disk h = read-keep_if gone disk.files h

-- A folder is in the directory of the images of a release.
abbrev pub IsOf : List String → String → String → Type 0
IsOf root id folder = (rest : List String) × (split_at b'/' folder ≡ root ++ (id ∷ rest))

module _ (root : List String) (removal : Rmtree) (m : Metadata) (disk : Disk) where
  images_kept :
      (j folder name : String)
      → m.id ≢ j
      → IsOf root j folder
      → read folder name (delete_release_images root removal m.id disk).files
        ≡ read folder name disk.files
  unfolding delete_release_images
  images_kept j folder name ne (rest, e) =
      let out : is_in root m.id folder ≡ false = rw e (has_parts_other root m.id j rest ne) in
      elim (Bool-cases (is_dir root m.id disk)) [
        | inl there ↦ rw there (read-rmtree (is_in root m.id) folder name removal disk out)
        | inr missing ↦ rw missing refl
      ]

images_gone :
    (root : List String) (m : Metadata) (disk : Disk) (folder name : String)
    → IsOf root m.id folder
    → read folder name (delete_release_images root cleared m.id disk).files ≡ none
unfolding delete_release_images rmtree
images_gone root m disk folder name (rest, e) =
    let inside : is_in root m.id folder ≡ true = rw e (has_parts_self root m.id rest) in
    elim (Bool-cases (is_dir root m.id disk)) [
      | inl there ↦
          rw there (ground (arith, inside, read-cleared (is_in root m.id) folder name disk.files))
      | inr missing ↦
          rw missing
            (read-outside (is_in root m.id) folder name disk.files (ground (arith, missing)) inside)
    ]

-- A release of this status can be deleted.
abbrev pub IsDeletable : Metadata → Type 0
IsDeletable m = (m.status ≡ draft) ⊎ (m.status ≡ ready)

delete-cases :
    (m : Metadata)
    → (IsDeletable m × (delete m ≡ ok none))
      ⊎ ((¬ IsDeletable m) × (e : Exn) × (delete m ≡ raise e))
unfolding delete is_status
delete-cases m = ground arith

-- The row that is left if the deletion and its commit end like this.
abbrev pub left_by : Result (Unit {0}) → Metadata → Row
left_by (ok _) m = none
left_by (raise e) m = some m

abbrev pub IsCleanedUp :
    List String → Rmtree → Result (Unit {0}) → Metadata → Disk → Row × Disk → Type 0
IsCleanedUp root removal commit m disk (row, disk') =
    ((j folder name : String)
      → m.id ≢ j
      → IsOf root j folder
      → read folder name disk'.files ≡ read folder name disk.files)
    × (¬ IsDeletable m → (row ≡ some m) × (disk' ≡ disk))
    × (IsDeletable m → row ≡ left_by commit m)
    × (IsDeletable m
        → removal ≡ cleared
        → (folder name : String) → IsOf root m.id folder
        → read folder name disk'.files ≡ none)

module _ (root : List String) (removal : Rmtree) (m : Metadata) (disk : Disk) where
  cleaned :
      (commit : Result (Unit {0}))
      → IsDeletable m
      → let (reply, disk') =
          reply_after root removal commit m (after_guard root removal commit m disk (ok none)) in
        IsCleanedUp root removal commit m disk (reply.1, disk')
  unfolding after_guard
  cleaned (ok _) can = (
    images_kept root removal m disk,
    λ cannot. absurd (cannot can),
    λ can'. refl,
    λ can' ended folder name own. rw ended (images_gone root m disk folder name own),
  )
  cleaned (raise e) can = (
    images_kept root removal m disk,
    λ cannot. absurd (cannot can),
    λ can'. refl,
    λ can' ended folder name own. rw ended (images_gone root m disk folder name own),
  )

  refused :
      (commit : Result (Unit {0})) (answer : Result Row) (e : Exn)
      → ¬ IsDeletable m
      → answer ≡ raise e
      → let (reply, disk') =
          reply_after root removal commit m (after_guard root removal commit m disk answer) in
        IsCleanedUp root removal commit m disk (reply.1, disk')
  unfolding after_guard
  refused commit (ok row) e cannot h = absurd (raise-ne-ok (sym h))
  refused commit (raise x) e cannot h = (
    λ j folder name ne own. refl,
    λ cannot'. (refl, refl),
    λ can. absurd (cannot can),
    λ can. absurd (cannot can),
  )

-- When a curator's request to delete a release is handled, the images of every other release stay
-- as they were. A release that is neither in DRAFT nor in READY stays, with its images. Any other
-- is gone if the deletion of its row and the commit succeed, and stays if they raise; in both
-- cases its images are removed before, and if the removal of their directory ended, none of them
-- is left.
pub delete_release_cleans :
    (root : List String) (removal : Rmtree) (commit : Result (Unit {0})) (m : Metadata) (row : Row)
    (disk : Disk)
    → let (reply, disk') = delete_release root removal commit (done m, row) disk in
      IsCleanedUp root removal commit m disk (reply.1, disk')
unfolding delete_release
delete_release_cleans root removal commit m row disk = elim (delete-cases m) [
  | inl (can, e) ↦
      subst
        (λ answer. IsCleanedUp root removal commit m disk (
          (reply_after root removal commit m (after_guard root removal commit m disk answer)).0.1,
          (reply_after root removal commit m (after_guard root removal commit m disk answer)).1,
        ))
        (sym e) (cleaned root removal m disk commit can)
  | inr (cannot, x, e) ↦ refused root removal m disk commit (delete m) x cannot e
]
