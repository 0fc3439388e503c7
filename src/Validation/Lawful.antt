-- ===== src/Validation/Lawful.antt =====
-- The validations of slugs and recids (validations/slug.py, recid.py) as validations of a release.
use mathlib.Core.Option.{some-injective}
use cernopendata_portal.Base.{
  ℕ, suc, String, ◌≡◌, refl, ap, Bool, List, [], ◌∷◌, length, if◌then◌else◌, ◌∙◌, subst,
}
use cernopendata_portal.Base.Result.{ok, >>=-eq-ok, ok-injective}
use cernopendata_portal.Json.{Value, Fields}
use cernopendata_portal.Release.Model.{Message}
use cernopendata_portal.Release.Validate.Outcome.{IsLocal}
use cernopendata_portal.Release.Lifecycle.{FixesInPlace}
use cernopendata_portal.Validation.Pid.{Pid}
use cernopendata_portal.Validation.Slug.{fix_slug, fix_slugs, valid_slug}
use cernopendata_portal.Validation.Recid.{fix_recid, fix_recids, valid_recid, validate_recids}

pub valid_slug-IsLocal : (table : List Pid) → IsLocal (valid_slug table)
unfolding valid_slug
valid_slug-IsLocal table m n same = rw (same.same_documents, same.same_status) refl

length-fix_slugs :
    (i : ℕ) (docs : List Fields) (r : List Fields × List Message)
    → fix_slugs i docs ≡ ok r
    → length r.0 ≡ length docs
unfolding fix_slugs
length-fix_slugs i [] r h = rw (← ok-injective h) refl
length-fix_slugs i (doc ∷ docs) r h =
    let (fixed, e, q) = >>=-eq-ok (fix_slug i doc) _ h in
    let (rest, e', q') = >>=-eq-ok (fix_slugs (suc i) docs) _ q in
    rw (← ok-injective q') (ap suc (length-fix_slugs (suc i) docs rest e'))

-- The fix of the slugs keeps status, history, counts and the number of entries.
pub valid_slug-FixesInPlace : (table : List Pid) → FixesInPlace (valid_slug table)
unfolding valid_slug
valid_slug-FixesInPlace table f m m' errors p q =
    let run = ap (λ g. g m) (some-injective _ f p) ∙ q in
    let (r, e, q') = >>=-eq-ok (fix_slugs 0 m.documents) _ run in
    subst
      (λ x.
        (x.0.status ≡ m.status)
        × (x.0.history ≡ m.history)
        × (x.0.num_records ≡ m.num_records)
        × (x.0.num_docs ≡ m.num_docs)
        × (length x.0.records ≡ length m.records)
        × (length x.0.documents ≡ length m.documents))
      (ok-injective q') (refl, refl, refl, refl, refl, length-fix_slugs 0 m.documents r e)

module _ (decimal digit : ℕ → Bool) (str : Value → String) (table : List Pid)
    (max_release max_registered max_numeric : ℕ) where
  pub valid_recid-IsLocal :
      IsLocal (valid_recid decimal digit str table max_release max_registered max_numeric)
  unfolding valid_recid validate_recids
  valid_recid-IsLocal m n same = rw (same.same_records, same.same_status, same.same_experiment) refl

  length-fix_recids :
      (experiment : String) (duplicates colliding : List Value) (counter max_recid : ℕ)
      → (rs : List Fields) (r : List Fields × ℕ)
      → fix_recids decimal digit str experiment duplicates colliding counter max_recid rs ≡ ok r
      → length r.0 ≡ length rs
  unfolding fix_recids
  length-fix_recids experiment duplicates colliding counter max_recid [] r h =
      rw (← ok-injective h) refl
  length-fix_recids experiment duplicates colliding counter max_recid (x ∷ xs) r h =
      let (fixed, e, q) =
        >>=-eq-ok (fix_recid decimal digit str experiment duplicates colliding counter x) _ h in
      let (rest, e', q') =
        >>=-eq-ok
          (fix_recids decimal digit str experiment duplicates colliding
            (if fixed.1 then suc counter else counter) (if fixed.1 then counter else max_recid) xs)
          _ q in
      rw (← ok-injective q') (
        ap suc (
          length-fix_recids experiment duplicates colliding
            (if fixed.1 then suc counter else counter) (if fixed.1 then counter else max_recid) xs
            rest e'))

  -- The fix of the recids keeps status, history, counts and the number of entries.
  pub valid_recid-FixesInPlace :
      FixesInPlace (valid_recid decimal digit str table max_release max_registered max_numeric)
  unfolding valid_recid
  valid_recid-FixesInPlace f m m' errors p q =
      let run = ap (λ g. g m) (some-injective _ f p) ∙ q in
      let (r, e, q') =
        >>=-eq-ok (fix_recids decimal digit str m.experiment _ _ _ m.max_recid m.records) _ run in
      subst
        (λ x.
          (x.0.status ≡ m.status)
          × (x.0.history ≡ m.history)
          × (x.0.num_records ≡ m.num_records)
          × (x.0.num_docs ≡ m.num_docs)
          × (length x.0.records ≡ length m.records)
          × (length x.0.documents ≡ length m.documents))
        (ok-injective q')
        (
          refl,
          refl,
          refl,
          refl,
          length-fix_recids m.experiment _ _ _ m.max_recid m.records r e,
          refl,
        )
