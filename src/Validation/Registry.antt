-- ===== src/Validation/Registry.antt =====
-- The validations of slugs, DOIs, recids and expected fields as a registry of a release.
use cernopendata_portal.Base.{ℕ, String, Bool, true, false, none, some, List, [], ◌∷◌, All}
use cernopendata_portal.Json.{Value}
use cernopendata_portal.Release.Model.{Validator}
use cernopendata_portal.Release.Lifecycle.{FixesInPlace}
use cernopendata_portal.Validation.Expected.{
  valid_metadata, cms, valid_experiment, metadata_fields, cms_fields, experiment_fields,
}
use cernopendata_portal.Validation.Expected.Lawful.{expected_fields_validator-FixesInPlace}
use cernopendata_portal.Validation.Cms2016.{cms_2016, cms_2016_fields}
use cernopendata_portal.Validation.Links.{valid_doc_links}
use cernopendata_portal.Validation.Links.Lawful.{valid_doc_links-FixesInPlace}
use cernopendata_portal.Validation.Pid.{Pid}
use cernopendata_portal.Validation.Doi.{valid_doi}
use cernopendata_portal.Validation.Doi.Lawful.{valid_doi-FixesInPlace}
use cernopendata_portal.Validation.Slug.{valid_slug}
use cernopendata_portal.Validation.Recid.{valid_recid}
use cernopendata_portal.Validation.Lawful.{valid_slug-FixesInPlace, valid_recid-FixesInPlace}

module _ (decimal digit : ℕ → Bool) (str : Value → String) (upper : String → String)
    (table : List Pid) (max_release max_registered max_numeric : ℕ) {S : Type 0} (prefix : String)
    (validate_prefix : Bool) (registered : List String) (new_doi : String → S → String × S)
    (source : S) (registered_docid : String → Bool) where
  abbrev pub entry_validations : List Validator
  entry_validations =
      valid_slug table
      ∷ valid_doi prefix validate_prefix registered new_doi source
      ∷ valid_recid decimal digit str table max_release max_registered max_numeric
      ∷ valid_metadata
      ∷ cms
      ∷ valid_experiment upper
      ∷ cms_2016
      ∷ valid_doc_links registered_docid
      ∷ []

  -- The fixes of the validations of slugs, DOIs, recids, expected fields and document links, where
  -- they return, leave the status, the history, the counts and the number of records and of
  -- documents of the release as they were.
  pub entry_validations-FixesInPlace : All FixesInPlace entry_validations
  unfolding valid_metadata cms valid_experiment cms_2016
  entry_validations-FixesInPlace = (
    valid_slug-FixesInPlace table,
    (
      valid_doi-FixesInPlace prefix validate_prefix registered new_doi source,
      (
        valid_recid-FixesInPlace decimal digit str table max_release max_registered max_numeric,
        (
          expected_fields_validator-FixesInPlace metadata_fields true false "Valid standard fields"
              none false,
          (
            expected_fields_validator-FixesInPlace cms_fields true false "CMS" (some "cms") false,
            (
              expected_fields_validator-FixesInPlace (experiment_fields upper) true true
                  "Valid experiment" none false,
              (
                expected_fields_validator-FixesInPlace cms_2016_fields true false
                    "CMS 2016 Simulated" (some "cms") true,
                (valid_doc_links-FixesInPlace registered_docid, tt),
              ),
            ),
          ),
        ),
      ),
    ),
  )
