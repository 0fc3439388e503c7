-- ===== src/Release/Images/Files.antt =====
-- The files that the handlers for images read and write, by folder and name, and `sorted` on names.
use Prim.Native.String.{String}
use Prim.Native.Char.{code}
use cernopendata_portal.Base.{
  ℕ, Bool, true, false, not, ◌&&◌, Option, none, some, List, [], ◌∷◌, ◌==◌, string_eq, nat_eq, ◌≡◌,
  refl, arith, contains, keep_if, if◌then◌else◌, ltb,
}

abbrev pub Bytes : Type 0
Bytes = List ℕ

pub record StoredImage : Type 0 where
  pub folder : String
  pub name : String
  pub content : Bytes

pub record Disk : Type 0 where
  pub folders : List String
  pub files : List StoredImage

abbrev pub is_at : String → String → StoredImage → Bool
is_at folder name file = file.folder == folder && file.name == name

unfoldable pub read : String → String → List StoredImage → Option Bytes
read folder name [] = none
read folder name (f ∷ fs) = if is_at folder name f then some f.content else read folder name fs

-- Opening a file to write truncates what it held.
unfoldable pub write : String → String → Bytes → List StoredImage → List StoredImage
write folder name content [] = (record { folder = folder; name = name; content = content }) ∷ []
write folder name content (f ∷ fs) =
    let rest = write folder name content fs in
    if is_at folder name f then record f { content = content } ∷ fs else f ∷ rest

unfoldable pub remove : String → String → List StoredImage → List StoredImage
remove folder name [] = []
remove folder name (f ∷ fs) =
    let rest = remove folder name fs in if is_at folder name f then rest else f ∷ rest

-- The names in a folder: `iterdir`.
unfoldable pub names : String → List StoredImage → List String
names folder [] = []
names folder (f ∷ fs) =
    let rest = names folder fs in if f.folder == folder then f.name ∷ rest else rest

abbrev pub has_folder : String → Disk → Bool
has_folder folder disk = contains folder disk.folders

-- `mkdir(parents=True, exist_ok=True)`
abbrev pub add_folder : String → Disk → Disk
add_folder folder disk =
    if has_folder folder disk then disk else record disk { folders = folder ∷ disk.folders }

-- `rmdir`
abbrev pub drop_folder : String → Disk → Disk
drop_folder folder disk = record disk {
  folders = keep_if (λ other. not (other == folder)) disk.folders;
}

-- The order of Python's texts.
unfoldable pub text_ltb : String → String → Bool
text_ltb String.[] String.[] = false
text_ltb String.[] (String.◌∷◌ d t) = true
text_ltb (String.◌∷◌ c s) String.[] = false
text_ltb (String.◌∷◌ c s) (String.◌∷◌ d t) =
    let rest = text_ltb s t in if code c == code d then rest else ltb (code c) (code d)

unfoldable pub place : String → List String → List String
place s [] = s ∷ []
place s (t ∷ ts) = let rest = place s ts in if text_ltb s t then s ∷ t ∷ ts else t ∷ rest

-- `sorted`
unfoldable pub sort : List String → List String
sort [] = []
sort (s ∷ ss) = place s (sort ss)

pub read-write :
    (g n f m : String) (c : Bytes) (fs : List StoredImage)
    → read g n (write f m c fs) ≡ (if g == f && n == m then some c else read g n fs)
unfolding read write
read-write g n f m c [] = ground arith
read-write g n f m c (x ∷ fs) = ground (arith, read-write g n f m c fs)

pub read-remove :
    (g n f m : String) (fs : List StoredImage)
    → read g n (remove f m fs) ≡ (if g == f && n == m then none else read g n fs)
unfolding read remove
read-remove g n f m [] = ground arith
read-remove g n f m (x ∷ fs) = ground (arith, read-remove g n f m fs)

-- A name that is not in the folder is no file of it.
pub names_complete :
    (f n : String) (fs : List StoredImage) → contains n (names f fs) ≡ false → read f n fs ≡ none
unfolding read names
names_complete f n [] h = refl
names_complete f n (x ∷ fs) h = ground (arith, names_complete f n fs)
