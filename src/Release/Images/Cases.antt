-- ===== src/Release/Images/Cases.antt =====
-- The handlers for images (cernopendata/modules/releases/views.py) by cases.
use cernopendata_portal.Base.{
  ℕ, String, ◌≡◌, refl, Bool, true, false, Option, none, some, if◌then◌else◌,
}
use cernopendata_portal.Json.{Fields}
use cernopendata_portal.Release.Model.{Metadata}
use cernopendata_portal.Release.Views.{Response, done, abort, crash}
use cernopendata_portal.Release.Images.Files.{Disk}
use cernopendata_portal.Release.Images.{Answer, within, at_folder}

-- A property of a handler's answer that holds where the disk stays as it is.
pub within-P :
    {A : Type 0} (P : Disk → Type 0) (granted : Response Metadata) (disk : Disk)
    (body : Metadata → Answer A)
    → P disk
    → ((m : Metadata) → granted ≡ done m → P (body m).1)
    → P (within granted disk body).1
within-P P (done m) disk body h k = k m refl
within-P P (abort code) disk body h k = h
within-P P (crash e) disk body h k = h

pub at_folder-P :
    {A : Type 0} (P : Disk → Type 0) (missing : ℕ) (parent : Option Fields) (place : Option String)
    (disk : Disk) (body : String → Answer A)
    → P disk
    → ((folder : String) → place ≡ some folder → P (body folder).1)
    → P (at_folder missing parent place disk body).1
at_folder-P P missing none place disk body h k = h
at_folder-P P missing (some parent) none disk body h k = h
at_folder-P P missing (some parent) (some folder) disk body h k = k folder refl

pub if-P : {A : Type 0} (P : A → Type 0) (b : Bool) (x y : A) → P x → P y → P (if b then x else y)
if-P P true x y h k = h
if-P P false x y h k = k
