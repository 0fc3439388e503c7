-- ===== src/Release/Images/Saved.antt =====
-- What an upload that succeeds has saved.
use cernopendata_portal.Base.{
  ℕ, String, ◌≡◌, refl, sym, ap, subst, ◌∙◌, inl, inr, Bool, true, false, Option, none, some, List,
  [], ◌∷◌, string_eq, map, All, Option-cases, ◌==◌, arith, is_empty,
}
use cernopendata_portal.Base.Result.{branch}
use cernopendata_portal.Json.{Fields}
use cernopendata_portal.Release.Model.{Metadata}
use cernopendata_portal.Release.Views.{Response, done, abort, crash}
use cernopendata_portal.Release.Images.Files.{
  Bytes, Disk, names, read, add_folder, read-write, names_complete,
}
use cernopendata_portal.Release.Images.{
  Upload, Link, Prepare, prepared, not_made, not_listed, Save, complete, refused, cut_off, Paths,
  Answer, within, at_folder, unless, parent_of, link_to, safe_name, refusal, save, after_save,
  upload_all, prepare_upload, named, upload_to, upload_image,
}
use cernopendata_portal.Release.Images.Uploaded.{
  Covers, save-Covers, upload_all-Extends, add_folder_files,
}

-- The inversions of an answer that is no error.
after_save-done :
    (saved : Bool × Disk) (image : Link) (rest : Answer (List Link)) {links : List Link} {d : Disk}
    → after_save saved image rest ≡ (done links, d)
    → (saved.0 ≡ true) × ((more : List Link) × (rest ≡ (done more, d)) × (image ∷ more ≡ links))
after_save-done (false, d₀) image rest h = cc
after_save-done (true, d₀) image (done more, d') h = (refl, (more, cc, cc))
after_save-done (true, d₀) image (abort code, d') h = cc
after_save-done (true, d₀) image (crash e, d') h = cc

save-true :
    (s : Save) (folder name : String) (c : Bytes) (disk : Disk)
    → (save s folder name c disk).0 ≡ true
    → read folder name (save s folder name c disk).1.files ≡ some c
unfolding save
save-true complete folder name c disk h =
    ground (arith, read-write folder name folder name c disk.files)
save-true refused folder name c disk h = cc
save-true (cut_off n) folder name c disk h = cc

pub abort-ne-done :
    {A : Type 0} {code : ℕ} {a : A} {d d' : Disk}
    → ¬ (◌≡◌ {A = Answer A} (abort code, d) (done a, d'))
abort-ne-done h = cc

module _ (paths : Paths) (release_id : String) (saves : String → Save) (slug : String) where
  -- Every image is on the disk under its safe name, and the answer links to them in order.
  abbrev pub AreSaved : String → List Upload → List Link → Disk → Type 0
  AreSaved folder files links disk =
      All (λ f. read folder (safe_name paths f.filename) disk.files ≡ some f.content) files
      × (links ≡ map (λ f. link_to release_id slug (safe_name paths f.filename)) files)

  upload_all-AreSaved :
      (folder : String) (existing : List String) (files : List Upload) (disk : Disk)
      {links : List Link} {after : Disk}
      → Covers existing folder disk
      → upload_all paths release_id saves slug folder existing files disk ≡ (done links, after)
      → AreSaved folder files links after
  unfolding upload_all
  upload_all-AreSaved folder existing [] disk h e = (tt, cc)
  upload_all-AreSaved folder existing (file ∷ files) disk {links} {after} h e =
      let name = safe_name paths file.filename in
      let saved = save (saves name) folder name file.content disk in
      let covers = save-Covers (saves name) existing folder name file.content disk h in
      elim (Option-cases (refusal paths existing name file.content)) [
        | inr (code, stops) ↦ absurd (abort-ne-done (rw (stops, unless) at e))
        | inl fine ↦
            let (good, (more, e', shown)) =
              after_save-done saved (link_to release_id slug name) _ (rw (fine, unless) at e) in
            let (all, links_eq) =
              upload_all-AreSaved folder (name ∷ existing) files saved.1 covers e' in
            let kept =
              (upload_all-Extends paths release_id saves slug folder (name ∷ existing) files saved.1
                  covers).0
                folder name file.content
                (save-true (saves name) folder name file.content disk good) in
            (
              (
                subst (λ (a : Answer (List Link)). read folder name a.1.files ≡ some file.content)
                    e' kept,
                all,
              ),
              sym shown ∙ ap (λ rest. link_to release_id slug name ∷ rest) links_eq,
            )
      ]

-- An answer that is no error is the answer of the handler's body.
pub within-done :
    {A : Type 0} (granted : Response Metadata) (disk : Disk) (body : Metadata → Answer A) {a : A}
    {d : Disk}
    → within granted disk body ≡ (done a, d)
    → (m : Metadata) × (granted ≡ done m) × (body m ≡ (done a, d))
within-done (done m) disk body h = (m, refl, h)
within-done (abort code) disk body h = cc
within-done (crash e) disk body h = cc

pub at_folder-done :
    {A : Type 0} (missing : ℕ) (parent : Option Fields) (place : Option String) (disk : Disk)
    (body : String → Answer A) {a : A} {d : Disk}
    → at_folder missing parent place disk body ≡ (done a, d)
    → (folder : String) × (place ≡ some folder) × (body folder ≡ (done a, d))
at_folder-done missing none place disk body h = cc
at_folder-done missing (some parent) none disk body h = cc
at_folder-done missing (some parent) (some folder) disk body h = (folder, refl, h)

module _ (paths : Paths) (release_id : String) (saves : String → Save) where
  prepare_upload-AreSaved :
      (how : Prepare) (slug : String) (files : List Upload) (folder : String) (disk : Disk)
      {links : List Link} {after : Disk}
      → prepare_upload paths release_id how saves slug files folder disk ≡ (done links, after)
      → AreSaved paths release_id saves slug folder files links after
  unfolding prepare_upload
  prepare_upload-AreSaved not_made slug files folder disk h = cc
  prepare_upload-AreSaved not_listed slug files folder disk h = cc
  prepare_upload-AreSaved prepared slug files folder disk h =
      upload_all-AreSaved paths release_id saves slug folder (names folder disk.files) files
        (add_folder folder disk)
        (λ n k.
          ap (read folder n) (add_folder_files folder disk) ∙ names_complete folder n disk.files k)
        h

  -- After an upload that succeeds, the folder of the document holds every image of the request
  -- that has a name, under its safe name and with its content, and the answer links to them in
  -- their order.
  pub upload_image_saves :
      (preparation : Prepare) (slug : String) (images : List Upload) (granted : Response Metadata)
      (disk : Disk) (links : List Link) (after : Disk)
      → upload_image paths release_id preparation saves slug images granted disk
        ≡ (done links, after)
      → (folder : String) × (paths.locate slug ≡ some folder)
        × AreSaved paths release_id saves slug folder (named images) links after
  unfolding upload_image upload_to
  upload_image_saves preparation slug images granted disk links after h =
      branch {A = Answer (List Link)} (slug == "") _ _ h (λ p k. absurd (abort-ne-done k))
        (λ p k.
          branch {A = Answer (List Link)} (is_empty (named images)) _ _ k
            (λ q l. absurd (abort-ne-done l))
            (λ q l.
              let (m, _, e) =
                within-done granted disk
                  (upload_to paths release_id preparation saves slug (named images) disk) l in
              let (folder, at, e') =
                at_folder-done 400 (parent_of slug m) (paths.locate slug) disk
                  (λ folder.
                    prepare_upload paths release_id preparation saves slug (named images) folder
                      disk)
                  e in
              (folder, at, prepare_upload-AreSaved preparation slug (named images) folder disk e')))
