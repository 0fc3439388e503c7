-- ===== src/Validation/Files/Complete.antt =====
-- When the check of the files of a release passes.
use mathlib.Core.List.{cons≢nil}
use mathlib.Core.Option.{some-injective}
use cernopendata_portal.Base.{
  ℕ, suc, String, ◌≡◌, refl, sym, ◌∙◌, ◌↔◌, ◌⊎◌, inl, inr, Bool, true, false, none, some, List, [],
  ◌∷◌, ◌++◌, All, if◌then◌else◌, Option-cases,
}
use cernopendata_portal.Base.Result.{Result, ok, ◌>>=◌, >>=-eq-ok, ok-injective, branch}
use cernopendata_portal.Json.{Value, Fields}
use cernopendata_portal.Json.Dict.{lookup}
use cernopendata_portal.Json.Python.{iterate, member, get_item}
use cernopendata_portal.Release.Model.{Message, missing_size}
use cernopendata_portal.Validation.Files.{has_checksum_prefix, check_file, check_entry, check_files}

append-eq-nil : {A : Type 0} (xs ys : List A) → xs ++ ys ≡ [] → (xs ≡ []) × (ys ≡ [])
append-eq-nil [] ys h = (refl, h)
append-eq-nil (x ∷ xs) ys h = absurd (cons≢nil h)

passed : (b : Bool) (e : Message) → (if b then [] else e ∷ []) ≡ [] → b ≡ true
passed true e h = refl
passed false e h = absurd (cons≢nil h)

-- Two lists of errors are joined to none exactly if both calls return none.
joined_nil :
    (x y : Result (List Message))
    → ((x >>= λ es. y >>= λ rest. ok (es ++ rest)) ≡ ok []) ↔ ((x ≡ ok []) × (y ≡ ok []))
joined_nil x y = (
  λ h.
      let (es, e, q) = >>=-eq-ok x _ h in
      let (rest, e', q') = >>=-eq-ok y _ q in
      let (none_here, none_there) = append-eq-nil es rest (ok-injective q') in
      (rw none_here at e, rw none_there at e'),
  λ h. rw (h.0, h.1) refl,
)

module _ (str : Value → String) where
  -- The file has a size, and a checksum of the form `algorithm:value`.
  abbrev pub IsComplete : Value → Type 0
  IsComplete file =
      (member "size" file ≡ ok true)
      × (member "checksum" file ≡ ok true)
      × ((c : Value) × (get_item "checksum" file ≡ ok c) × (has_checksum_prefix str c ≡ true))

  -- The record has no files, or a sequence of complete ones.
  abbrev pub HasComplete : Fields → Type 0
  HasComplete r =
      (lookup "files" r ≡ none)
      ⊎ ((files : Value) × (fs : List Value) × (lookup "files" r ≡ some files)
          × (iterate files ≡ ok fs)
          × All IsComplete fs)

  check_file_passes : (i j : ℕ) (file : Value) → (check_file str i j file ≡ ok []) ↔ IsComplete file
  unfolding check_file
  check_file_passes i j file = (
    λ h.
        let (sized, e, q) = >>=-eq-ok (member "size" file) _ h in
        let (summed, e', q') = >>=-eq-ok (member "checksum" file) _ q in
        let size_error : List Message = if sized then [] else missing_size (suc i) (suc j) ∷ [] in
        branch summed _ _ q'
          (λ yes_summed k.
            let (c, found, z) = >>=-eq-ok (get_item "checksum" file) _ k in
            let (no_first, no_second) = append-eq-nil size_error _ (ok-injective z) in
            (
              rw (passed sized _ no_first) at e,
              rw yes_summed at e',
              (c, found, passed (has_checksum_prefix str c) _ no_second),
            ))
          (λ _ k. absurd (cons≢nil (append-eq-nil size_error _ (ok-injective k)).1)),
    λ h. rw (h.0, h.1, h.2.1, h.2.2) refl,
  )

  check_entry_passes :
      (i j : ℕ) (files : List Value) → (check_entry str i j files ≡ ok []) ↔ All IsComplete files
  unfolding check_entry
  check_entry_passes i j [] = ((λ _. tt), (λ _. refl))
  check_entry_passes i j (file ∷ files) =
      let both = joined_nil (check_file str i j file) (check_entry str i (suc j) files) in
      let here = check_file_passes i j file in
      let rest = check_entry_passes i (suc j) files in
      ((λ h. (here.0 (both.0 h).0, rest.0 (both.0 h).1)), (λ h. both.1 (here.1 h.0, rest.1 h.1)))

  -- The check of the files returns with no error exactly when every record has no files or a
  -- sequence of files each of which has a size and a checksum of the form algorithm:value.
  pub check_files_passes :
      (i : ℕ) (rs : List Fields) → (check_files str i rs ≡ ok []) ↔ All HasComplete rs
  unfolding check_files
  check_files_passes i [] = ((λ _. tt), (λ _. refl))
  check_files_passes i (r ∷ rs) = elim (Option-cases (lookup "files" r)) [
    | inl absent ↦
        let both = joined_nil (ok []) (check_files str (suc i) rs) in
        let rest = check_files_passes (suc i) rs in
        (
          (λ h. (inl absent, rest.0 (both.0 (rw (absent, check_files) at h)).1)),
          (λ h. rw absent (both.1 (refl, rest.1 h.1))),
        )
    | inr (files, found) ↦
        let both =
          joined_nil (iterate files >>= check_entry str i 0) (check_files str (suc i) rs) in
        let rest = check_files_passes (suc i) rs in
        (
          (λ h.
              let (here, there) = both.0 (rw (found, check_files) at h) in
              let (fs, e, q) = >>=-eq-ok (iterate files) _ here in
              (inr (files, fs, found, e, (check_entry_passes i 0 fs).0 q), rest.0 there)),
          (λ h. rw found (both.1 (entry_of files found h.0, rest.1 h.1))),
        )
  ]
    where
      entry_of :
          (files : Value)
          → lookup "files" r ≡ some files
          → HasComplete r
          → (iterate files >>= check_entry str i 0) ≡ ok []
      entry_of files found (inl absent) = cc
      entry_of files found (inr (files', fs, found', e, h)) =
          rw (some-injective files files' (sym found ∙ found'), e) ((check_entry_passes i 0 fs).1 h)
