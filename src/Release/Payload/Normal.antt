-- ===== src/Release/Payload/Normal.antt =====
-- Normalising records of a payload (modules/releases/views.py) that are normal already.
use cernopendata_portal.Base.{◌≡◌, refl, sym, ◌∙◌, subst, inl, inr, none, string_eq, Option-cases}
use cernopendata_portal.Base.Result.{ok, >>=-eq-ok, ok-injective}
use cernopendata_portal.Json.{Value, null, bool, num, text, arr, obj, Fields}
use cernopendata_portal.Json.Dict.{lookup, insert, erase, lookup-insert, lookup-erase}
use cernopendata_portal.Json.Python.{iterate}
use cernopendata_portal.Release.Edit.{get}
use cernopendata_portal.Release.Payload.{
  typed_indices, append_all, or_empty, merge_index_files, unwrapped, with_indices_merged,
  normalise_record,
}

-- A record with no `metadata` in which it is wrapped; other values stand for themselves.
abbrev pub IsUnwrapped : Value → Type 0
IsUnwrapped (obj d) = lookup "metadata" d ≡ none
IsUnwrapped _ = Unit

lookup-insert-erase :
    (files : Value) (d : Fields)
    → lookup "index_files" (insert "files" files (erase "index_files" d)) ≡ none
unfolding string_eq
lookup-insert-erase files d =
    lookup-insert "index_files" "files" files (erase "index_files" d)
    ∙ lookup-erase "index_files" "index_files" d

merge_index_files-lookup :
    (v : Value) (d : Fields) {e : Fields}
    → merge_index_files v d ≡ ok e
    → lookup "index_files" e ≡ none
unfolding merge_index_files
merge_index_files-lookup v d h =
    let (new, _, h₁) = >>=-eq-ok (iterate v) _ h in
    let (typed, _, h₂) = >>=-eq-ok (typed_indices new) _ h₁ in
    let (files, _, h₃) = >>=-eq-ok (append_all (or_empty (get "files" d)) typed) _ h₂ in
    subst (λ x. lookup "index_files" x ≡ none) (ok-injective h₃) (lookup-insert-erase files d)

with_indices_merged-lookup :
    (d : Fields) {e : Fields} → with_indices_merged d ≡ ok e → lookup "index_files" e ≡ none
unfolding with_indices_merged
with_indices_merged-lookup d {e} h = elim (Option-cases (lookup "index_files" d)) [
  | inl absent ↦
      subst (λ x. lookup "index_files" x ≡ none)
        (ok-injective (rw (absent, with_indices_merged) at h)) absent
  | inr (v, found) ↦ merge_index_files-lookup v d (rw (found, with_indices_merged) at h)
]

-- A dict with neither key is left as it is.
normalise_record_plain :
    (d : Fields)
    → lookup "metadata" d ≡ none
    → lookup "index_files" d ≡ none
    → normalise_record (obj d) ≡ ok (obj d)
unfolding normalise_record unwrapped with_indices_merged
normalise_record_plain d p q =
    let same : unwrapped d ≡ ok d = rw (unwrapped, p) refl in
    let kept : with_indices_merged d ≡ ok d = rw (with_indices_merged, q) refl in
    rw (same, kept) refl

-- Normalising a record of a payload again changes nothing, if it is not wrapped in the metadata of
-- another one.
pub normalise_record_twice :
    (v v' : Value) → normalise_record v ≡ ok v' → IsUnwrapped v' → normalise_record v' ≡ ok v'
unfolding normalise_record
normalise_record_twice (obj d) v' h u =
    let (e, _, h₁) = >>=-eq-ok (unwrapped d) _ h in
    let (r, merged, h₂) = >>=-eq-ok (with_indices_merged e) _ h₁ in
    let same : obj r ≡ v' = ok-injective h₂ in
    subst (λ x. normalise_record x ≡ ok x) same
      (normalise_record_plain r (subst IsUnwrapped (sym same) u)
        (with_indices_merged-lookup e merged))
normalise_record_twice null v' h u = rw (← ok-injective h) refl
normalise_record_twice (bool b) v' h u = rw (← ok-injective h) refl
normalise_record_twice (num n) v' h u = rw (← ok-injective h) refl
normalise_record_twice (text s) v' h u = rw (← ok-injective h) refl
normalise_record_twice (arr vs) v' h u = rw (← ok-injective h) refl
