-- ===== src/Validation/Doi/Lawful.antt =====
-- The validation of the DOIs (validations/doi.py) as a validation of a release.
use mathlib.Core.Option.{some-injective}
use cernopendata_portal.Base.{suc, String, ◌≡◌, refl, ap, Bool, List, [], ◌∷◌, length, ◌∙◌, subst}
use cernopendata_portal.Base.Result.{ok, >>=-eq-ok, ok-injective}
use cernopendata_portal.Json.{Fields}
use cernopendata_portal.Release.Model.{Message}
use cernopendata_portal.Release.Edit.{get}
use cernopendata_portal.Release.Lifecycle.{FixesInPlace}
use cernopendata_portal.Validation.Doi.{
  doi_of, all_suffixes, registered_suffixes, fix_doi, fix_dois, fix_all_dois, validate_dois,
  valid_doi,
}

module _ {S : Type 0} (prefix : String) (validate_prefix : Bool) (registered : List String) where
  length-fix_dois :
      (new_doi : S → String × S) (taken used : List String) (rs : List Fields) (source : S)
      → {r : List Fields × S} → fix_dois prefix validate_prefix new_doi taken used rs source ≡ ok r
      → length r.0 ≡ length rs
  unfolding fix_dois
  length-fix_dois new_doi taken used [] source h = rw (← ok-injective h) refl
  length-fix_dois new_doi taken used (x ∷ rs) source h =
      let (doi, _, h₁) = >>=-eq-ok (doi_of (get "doi" x)) _ h in
      let q = fix_doi prefix validate_prefix new_doi taken used x doi source in
      let (rest, e, h₂) =
        >>=-eq-ok (fix_dois prefix validate_prefix new_doi taken q.0.1 rs q.1) _ h₁ in
      subst (λ r. length r.0 ≡ suc (length rs)) (ok-injective h₂)
        (ap suc (length-fix_dois new_doi taken q.0.1 rs q.1 e))

  length-fix_all_dois :
      (new_doi : S → String × S) (rs : List Fields) (source : S)
      → {r : (List Fields × List Message) × S}
      → fix_all_dois prefix validate_prefix new_doi registered rs source ≡ ok r
      → length r.0.0 ≡ length rs
  unfolding fix_all_dois
  length-fix_all_dois new_doi rs source h =
      let (suffixes, _, h₁) = >>=-eq-ok (all_suffixes prefix validate_prefix rs) _ h in
      let taken = registered_suffixes prefix validate_prefix registered suffixes in
      let (fixed, e, h₂) =
        >>=-eq-ok (fix_dois prefix validate_prefix new_doi taken [] rs source) _ h₁ in
      let (errors, _, h₃) =
        >>=-eq-ok (validate_dois prefix validate_prefix registered fixed.0) _ h₂ in
      subst (λ r. length r.0.0 ≡ length rs) (ok-injective h₃)
        (length-fix_dois new_doi taken [] rs source e)

  -- The fix of the DOIs keeps status, history, counts and the number of entries.
  pub valid_doi-FixesInPlace :
      (new_doi : String → S → String × S) (source : S)
      → FixesInPlace (valid_doi prefix validate_prefix registered new_doi source)
  unfolding valid_doi
  valid_doi-FixesInPlace new_doi source f m m' errors p q =
      let run = ap (λ g. g m) (some-injective _ f p) ∙ q in
      let (r, e, q') =
        >>=-eq-ok
          (fix_all_dois prefix validate_prefix (new_doi m.experiment) registered m.records source) _
          run in
      subst
        (λ x.
          (x.0.status ≡ m.status)
          × (x.0.history ≡ m.history)
          × (x.0.num_records ≡ m.num_records)
          × (x.0.num_docs ≡ m.num_docs)
          × (length x.0.records ≡ length m.records)
          × (length x.0.documents ≡ length m.documents))
        (ok-injective q')
        (
          refl,
          refl,
          refl,
          refl,
          length-fix_all_dois (new_doi m.experiment) m.records source e,
          refl,
        )
