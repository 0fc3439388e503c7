-- ===== src/Validation/Expected.antt =====
-- validations/expected_fields.py: fields with the values that they are supposed to have, and the
-- classes that list such fields (cms.py, metadata.py, experiment.py).
-- A path such as `license.attribution` is the list of its keys. An expected value is a function of
-- the release and the item, which ignores both where the source has a constant; `str.upper` is a
-- parameter.
pub mod Nested
pub mod Fixed
pub mod Total
pub mod Lawful
use cernopendata_portal.Base.{
  ℕ, suc, String, Bool, true, false, not, Option, none, some, List, [], ◌∷◌, ◌++◌, contains,
  string_eq, if◌then◌else◌,
}
use cernopendata_portal.Base.Result.{Exn, Result, ok, raise, attribute_error, type_error, ◌>>=◌}
use cernopendata_portal.Json.{
  Value, null, text, arr, obj, Fields, end, field, Items, nil, cons, truthy,
}
use cernopendata_portal.Json.Dict.{lookup, insert, set_default}
use cernopendata_portal.Json.Equal.{equal}
use cernopendata_portal.Json.Python.{get_attr}
use cernopendata_portal.Release.Model.{
  Message, no_expected_value, unexpected_value, Metadata, Validator,
}

pub record Expected : Type 0 where
  pub path : List String
  pub value : Metadata → Fields → Result Value

-- `get_nested`
unfoldable pub get_nested : List String → Value → Result Value
get_nested [] v = ok v
get_nested (k ∷ ks) null = ok null
get_nested (k ∷ ks) v = get_attr k v >>= get_nested ks

-- What a value that is no dict raises, by whether keys are left after the one to be set in it.
abbrev pub not_a_dict : List String → Exn
not_a_dict [] = type_error
not_a_dict (k ∷ ks) = attribute_error

-- The dict in which the rest of a path is set: what `setdefault(key, {})` gives.
unfoldable pub sub_dict : List String → Option Value → Result Fields
sub_dict ks none = ok end
sub_dict ks (some (obj e)) = ok e
sub_dict ks (some _) = raise (not_a_dict ks)

-- `set_nested`, on the dict that it is given; the last key is set, the others are looked up with
-- `setdefault(key, {})`. A path has at least one key.
unfoldable pub set_nested : List String → Value → Fields → Result Fields
set_nested [] v d = ok d
set_nested (k ∷ []) v d = ok (insert k v d)
set_nested (k ∷ k' ∷ ks) v d =
    sub_dict ks (lookup k d) >>= λ e. set_nested (k' ∷ ks) v e >>= λ sub. ok (insert k (obj sub) d)

-- `_check_field`: an error, if there is one.
unfoldable pub check_field : String → ℕ → Fields → List String → Value → Result (Option Message)
check_field label i item path expected =
    let compared : Result (Option Message) = get_nested path (obj item) >>= λ actual. ok (
      if equal actual expected
      then none
      else some (unexpected_value label (suc i) path expected actual)) in
    if not (truthy expected) then ok (some (no_expected_value label (suc i) path)) else compared

-- `_fix_field`: the item after it, and an error, if there is one.
unfoldable pub fix_field :
    String → ℕ → Fields → List String → Value → Result (Fields × Option Message)
fix_field label i item path expected =
    let fixed : Result (Fields × Option Message) =
      set_nested path expected item >>= λ item'. ok (item', none) in
    if not (truthy expected) then ok (item, some (no_expected_value label (suc i) path)) else fixed

abbrev pub add_error : Option Message → List Message → List Message
add_error none errors = errors
add_error (some e) errors = e ∷ errors

-- The inner loop of `validate` and of `fix`, over the items from number `i` on.
unfoldable pub check_items : Metadata → String → Expected → ℕ → List Fields → Result (List Message)
check_items m label e i [] = ok []
check_items m label e i (item ∷ items) = e.value m item >>= λ expected.
    check_field label i item e.path expected >>= λ error.
    check_items m label e (suc i) items >>= λ errors. ok (add_error error errors)

unfoldable pub fix_items :
    Metadata → String → Expected → ℕ → List Fields → Result (List Fields × List Message)
fix_items m label e i [] = ok ([], [])
fix_items m label e i (item ∷ items) = e.value m item >>= λ expected.
    fix_field label i item e.path expected >>= λ fixed.
    fix_items m label e (suc i) items >>= λ rest. ok (fixed.0 ∷ rest.0, add_error fixed.1 rest.1)

-- The loops over the fields.
unfoldable pub check_all : Metadata → String → List Expected → List Fields → Result (List Message)
check_all m label [] items = ok []
check_all m label (e ∷ es) items = check_items m label e 0 items >>= λ errors.
    check_all m label es items >>= λ rest. ok (errors ++ rest)

unfoldable pub fix_all :
    Metadata → String → List Expected → List Fields → Result (List Fields × List Message)
fix_all m label [] items = ok (items, [])
fix_all m label (e ∷ es) items = fix_items m label e 0 items >>= λ fixed.
    fix_all m label es fixed.0 >>= λ rest. ok (rest.0, fixed.1 ++ rest.1)

-- `validate` and `fix` of the class, over the kinds of entries that it applies to.
module _ (fields : List Expected) (on_records on_documents : Bool) where
  unfoldable pub validate : Metadata → Result (List Message)
  validate m = (if on_records then check_all m "Record" fields m.records else ok []) >>= λ errors.
      (if on_documents then check_all m "Document" fields m.documents else ok []) >>= λ more.
      ok (errors ++ more)

  unfoldable pub fix : Metadata → Result (Metadata × List Message)
  fix m = (if on_records then fix_all m "Record" fields m.records else ok (m.records, [])) >>= λ rs.
      let m₁ : Metadata = record m { records = rs.0 } in
      (if on_documents then fix_all m₁ "Document" fields m.documents else ok (m.documents, []))
      >>= λ ds. ok (record m₁ { documents = ds.0 }, rs.1 ++ ds.1)

  unfoldable pub expected_fields_validator : String → Option String → Bool → Validator
  expected_fields_validator name experiment optional = record {
    name = name;
    experiment = experiment;
    optional = optional;
    validate = validate;
    fix = some fix;
    fixable = λ _. ok true;
  }

abbrev pub constant : List String → Value → Expected
constant path v = record { path = path; value = λ _ _. ok v }

-- `class CMS`
unfoldable pub cms_fields : List Expected
cms_fields =
    constant ("collaboration" ∷ []) (obj (field "name" (text "CMS Collaboration") end))
    ∷ constant ("accelerator" ∷ []) (text "CERN-LHC")
    ∷ []

-- `class ValidMetadata`
unfoldable pub metadata_fields : List Expected
metadata_fields =
    constant ("license" ∷ "attribution" ∷ []) (text "CC0-1.0")
    ∷ constant ("publisher" ∷ []) (text "CERN Open Data Portal")
    ∷ []

-- `class ValidExperiment`
unfoldable pub experiment_fields : (String → String) → List Expected
experiment_fields upper =
    record {
      path = "experiment" ∷ [];
      value = λ m item. ok (arr (cons (text (upper m.experiment)) nil));
    }
    ∷ []

unfoldable pub cms : Validator
unfolding cms_fields expected_fields_validator
cms = expected_fields_validator cms_fields true false "CMS" (some "cms") false

unfoldable pub valid_metadata : Validator
unfolding metadata_fields expected_fields_validator
valid_metadata =
    expected_fields_validator metadata_fields true false "Valid standard fields" none false

unfoldable pub valid_experiment : (String → String) → Validator
unfolding experiment_fields expected_fields_validator
valid_experiment upper =
    expected_fields_validator (experiment_fields upper) true true "Valid experiment" none false
