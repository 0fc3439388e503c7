-- ===== src/Validation/Cms2016.antt =====
-- `class CMS_2016_Simulated` (cernopendata/modules/releases/validations/cms_2016.py): expected
-- fields that are computed from the title of a record and from the other records of the release.
-- While the class fixes a release, the functions read the records as they are by then. Here they
-- read those that the fix began with: the class sets neither a title nor a recid, which are all
-- that the functions read.
pub mod Texts
pub mod Paired
use cernopendata_portal.Base.{
  ℕ, String, Bool, true, false, not, ◌&&◌, Option, none, some, List, [], ◌∷◌, ◌++◌, ◌==◌, string_eq,
  keep_if, if◌then◌else◌, ◌<>◌,
}
use cernopendata_portal.Base.Text.{split_at, last_part}
use cernopendata_portal.Base.Result.{
  Result, ok, raise, attribute_error, index_error, or_key_error, ◌>>=◌,
}
use cernopendata_portal.Json.{Value, null, text, arr, obj, Fields, end, field, nil, cons}
use cernopendata_portal.Json.Dict.{lookup}
use cernopendata_portal.Json.Python.{member, get_item, get_default, get_attr}
use cernopendata_portal.Release.Model.{Metadata, Validator}
use cernopendata_portal.Validation.Expected.{Expected, constant, expected_fields_validator}
use cernopendata_portal.Validation.Cms2016.Texts.{
  mini_usage, nano_usage, mini_system_details, nano_system_details, collections,
  collision_information, date_created, methodology, pileup, run_period, dataset_type,
  validation_text,
}

pub data RecordType : Type 0 where
  mini nano : RecordType

-- `[p for p in title.split("/") if p]`
unfoldable pub title_parts : Value → Result (List String)
title_parts (text title) = ok (keep_if (λ p. not (p == "")) (split_at b'/' title))
title_parts _ = raise attribute_error

-- `parse_title`: the dataset and the tier.
abbrev ends_of : List String → Option String × Option String
ends_of [] = (none, none)
ends_of (p ∷ ps) = (some p, some (last_part (p ∷ ps)))

unfoldable pub parse_title : Value → Result (Option String × Option String)
unfolding title_parts
parse_title title = title_parts title >>= λ parts. ok (ends_of parts)

-- `record.get("title", "")`
abbrev pub title_of : Fields → Value
title_of r = elim (lookup "title" r) [ none ↦ text "" | some title ↦ title ]

abbrev describe : List String → Result Value
describe [] = raise index_error
describe (p ∷ ps) = ok (
    obj (
      field "description"
        (text (
          "<p>Simulated dataset "
          <> p
          <> " in "
          <> last_part (p ∷ ps)
          <> " format for 2016 collision data.</p>"
          <> "<p>See the description of the simulated dataset names in: "
          <> "<a href=\"/about/CMS-Simulated-Dataset-Names\">About CMS simulated dataset names</a>.</p>"
          <> "<p>These simulated datasets correspond to the collision data collected by the CMS "
          <> "experiment in 2016.</p>"))
        end))

unfoldable pub get_abstract : Fields → Result Value
unfolding title_parts get_item
get_abstract r = get_item "title" (obj r) >>= λ title. title_parts title >>= describe

unfoldable pub get_record_type : Fields → Result (Option RecordType)
unfolding member
get_record_type r = member "MINIAODSIM" (title_of r) >>= λ is_mini.
    member "NANOAODSIM" (title_of r) >>= λ is_nano.
    ok (if is_mini then some mini else if is_nano then some nano else none)

abbrev usage_of : Option RecordType → Value
usage_of (some mini) = mini_usage
usage_of (some nano) = nano_usage
usage_of none = null

unfoldable pub get_usage : Fields → Result Value
unfolding get_record_type
get_usage r = get_record_type r >>= λ t. ok (usage_of t)

abbrev system_details_of : Option RecordType → Value
system_details_of (some mini) = mini_system_details
system_details_of (some nano) = nano_system_details
system_details_of none = null

unfoldable pub get_system_details : Fields → Result Value
unfolding get_record_type
get_system_details r = get_record_type r >>= λ t. ok (system_details_of t)

-- `f"{record_type}aodsim"`
abbrev format_of : Option RecordType → String
format_of (some mini) = "miniaodsim"
format_of (some nano) = "nanoaodsim"
format_of none = "Noneaodsim"

unfoldable pub get_distribution_formats : Fields → Result Value
unfolding get_record_type
get_distribution_formats r =
    get_record_type r >>= λ t. ok (arr (cons (text (format_of t)) (cons (text "root") nil)))

-- A part of a title as a text prints it.
abbrev printed : Option String → String
printed none = "None"
printed (some s) = s

unfoldable pub get_title_aditional : Fields → Result Value
unfolding parse_title get_attr
get_title_aditional r = get_attr "title" (obj r) >>= parse_title >>= λ parts. ok (
    text (
      "Simulated dataset "
      <> printed parts.0
      <> " in "
      <> printed parts.1
      <> " format for 2016 collision data"))

-- `==` on pairs of texts or `None`.
abbrev pub same : Option String → Option String → Bool
same none none = true
same (some s) (some t) = s == t
same none (some t) = false
same (some s) none = false

-- The first record with this dataset and tier.
unfoldable pub find_dataset : Option String → Option String → List Fields → Result (Option Fields)
unfolding parse_title
find_dataset dataset tier [] = ok none
find_dataset dataset tier (r ∷ rs) =
    let rest = find_dataset dataset tier rs in
    parse_title (title_of r) >>= λ parts.
    (if same parts.0 dataset && same parts.1 tier then ok (some r) else rest)

abbrev pub relation : String → String → Value → Value
relation related rel_type recid = arr (
    cons
      (obj (
        field "description" (text ("The corresponding " <> related <> "AODSIM dataset:"))
          (field "recid" recid (field "type" (text rel_type) end))))
      nil)

-- The tier to look for, the name of it and the type of the relation, by a record's own tier.
abbrev pub counterpart : Option String → Option (String × String × String)
counterpart none = none
counterpart (some tier) =
    if tier == "MINIAODSIM"
    then some ("NANOAODSIM", "NANO", "isChildOf")
    else if tier == "NANOAODSIM"
    then some ("MINIAODSIM", "MINI", "isParentOf")
    else none

abbrev pub related_to : String → String → Option Fields → Result Value
related_to related rel_type none = ok null
related_to related rel_type (some r) =
    or_key_error "recid" (lookup "recid" r) >>= λ recid. ok (relation related rel_type recid)

abbrev pub relation_to :
    Option String → Option (String × String × String) → List Fields → Result Value
relation_to dataset none records = ok null
relation_to dataset (some (tier, related, rel_type)) records =
    find_dataset dataset (some tier) records >>= related_to related rel_type

unfoldable pub get_relations : List Fields → Fields → Result Value
unfolding find_dataset parse_title
get_relations records r =
    parse_title (title_of r) >>= λ parts. relation_to parts.0 (counterpart parts.1) records

abbrev computed : List String → (Fields → Result Value) → Expected
computed path value = record { path = path; value = λ m. value }

-- `expected_fields`
unfoldable pub cms_2016_fields : List Expected
unfolding get_abstract get_distribution_formats get_system_details get_relations get_title_aditional
    get_usage
cms_2016_fields =
    computed ("abstract" ∷ []) get_abstract
    ∷ constant ("collections" ∷ []) collections
    ∷ constant ("collision_information" ∷ []) collision_information
    ∷ constant ("date_created" ∷ []) date_created
    ∷ computed ("distribution" ∷ "formats" ∷ []) get_distribution_formats
    ∷ constant ("methodology" ∷ "description" ∷ []) methodology
    ∷ constant ("pileup" ∷ []) pileup
    ∷ constant ("run_period" ∷ []) run_period
    ∷ computed ("system_details" ∷ []) get_system_details
    ∷ constant ("type" ∷ []) dataset_type
    ∷ (record { path = "relations" ∷ []; value = λ m. get_relations m.records })
    ∷ computed ("title_additional" ∷ []) get_title_aditional
    ∷ computed ("usage" ∷ []) get_usage
    ∷ constant ("validation" ∷ []) validation_text
    ∷ []

unfoldable pub cms_2016 : Validator
unfolding cms_2016_fields expected_fields_validator
cms_2016 =
    expected_fields_validator cms_2016_fields true false "CMS 2016 Simulated" (some "cms") true
