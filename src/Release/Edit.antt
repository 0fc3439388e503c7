-- ===== src/Release/Edit.antt =====
-- The operations of `class Release` that create a release, change its content, and guard its status
-- (cernopendata/modules/releases/api.py). The two schema URLs are Flask's; `row_id` is the key that
-- the database gives to the row of a validation.
use cernopendata_portal.Base.{
  ℕ, String, Bool, true, false, not, Option, none, some, List, [], ◌∷◌, ◌++◌, map, ◌==◌, string_eq,
  nat_eq, ◌&&◌, ◌||◌, if◌then◌else◌, length, contains, find_first,
}
use cernopendata_portal.Base.Result.{Result, ok, raise, value_error, attribute_error, name_error}
use cernopendata_portal.Base.Result.{runtime_error, ◌>>=◌}
use cernopendata_portal.Json.{Value, null, text, Fields}
use cernopendata_portal.Json.Dict.{lookup, insert}
use cernopendata_portal.Json.Equal.{equal}
use cernopendata_portal.Release.Model.{Status, draft, ready, status_eq, Check, Metadata, Validator}
use cernopendata_portal.Release.Validate.{change_status, validate, validator_of}

-- `d.get(k)`
abbrev pub get : String → Fields → Value
get k d = elim (lookup k d) [ none ↦ null | some v ↦ v ]

-- `record["$schema"] = schema`, for each entry.
unfoldable pub with_schema : String → List Fields → List Fields
with_schema schema = map (insert "$schema" (text schema))

-- `Release.is_status`, of one status and of a list of them.
unfoldable pub is_status : Status → Metadata → Bool
is_status s m = m.status == s

unfoldable pub is_one_of : List Status → Metadata → Bool
is_one_of ss m = contains m.status ss

-- `Release.lock`; `acquired` says whether the database gave the row lock at once.
unfoldable pub lock : Bool → Option Status → Status → ℕ → Metadata → Bool × Metadata
unfolding is_status
lock acquired status lock_status user m =
    let refused : Bool = elim status [ none ↦ false | some s ↦ not (is_status s m) ] in
    if not acquired || refused then (false, m) else (true, change_status lock_status user m)

-- `Release.delete`: the row is gone, or the call raises.
unfoldable pub delete : Metadata → Result (Option Metadata)
unfolding is_status
delete m =
    if not (is_status draft m) && not (is_status ready m)
    then raise (runtime_error "Releases can be deleted only if they are in DRAFT or READY")
    else ok none

-- `Release.update_metadata` on the three fields that it allows; an absent key changes nothing.
abbrev given : Option (Option String) → Option String → Option String
given none old = old
given (some v) old = v

unfoldable pub update_metadata :
    Option (Option String) → Option (Option String) → Option (Option String) → Metadata → Metadata
update_metadata name url description m = record m {
  name = given name m.name;
  discussion_url = given url m.discussion_url;
  description = given description m.description;
}

-- The loop of `update_document`: the first document with the slug is replaced.
unfoldable pub replace_slug : String → Fields → List Fields → Option (List Fields)
replace_slug slug new [] = none
replace_slug slug new (doc ∷ docs) =
    let rest = replace_slug slug new docs in
    if equal (get "slug" doc) (text slug)
    then some (new ∷ docs)
    else (elim rest [ none ↦ none | some docs' ↦ some (doc ∷ docs') ])

-- `create_validations`
unfoldable pub checks_for : List Validator → String → (String → ℕ) → List Check
checks_for [] experiment row_id = []
checks_for (v ∷ vs) experiment row_id =
    let rest = checks_for vs experiment row_id in
    let c : Check = record {
      id = row_id v.name;
      name = v.name;
      status = false;
      enabled = not v.optional;
    } in
    elim v.experiment [
      | none ↦ c ∷ rest
      | some e ↦ if e == "" || e == experiment then c ∷ rest else rest
    ]

-- The row with a key among the validations of a release, and the rows with a new one in its place.
abbrev pub find_check : ℕ → List Check → Option Check
find_check i = find_first (λ c. c.id == i)

unfoldable pub set_enabled : ℕ → Bool → List Check → List Check
set_enabled i enabled = map (λ c. if c.id == i then record c { enabled = enabled } else c)

module _ (registry : List Validator) (record_schema document_schema : String) where
  -- `Release.create`; what it returns is what it commits.
  unfoldable pub create :
      String
      → String
      → (String → ℕ)
      → ℕ
      → List Fields
      → List Fields
      → Option String
      → Option String
      → Option String
      → Result Metadata
  create id experiment row_id user records documents name description discussion_url =
      validate registry user (record {
        status = draft;
        id = id;
        name = name;
        description = description;
        discussion_url = discussion_url;
        experiment = experiment;
        records = with_schema record_schema records;
        documents = with_schema document_schema documents;
        errors = [];
        num_records = 0;
        num_errors = 0;
        num_docs = length documents;
        num_files = 0;
        num_file_indices = 0;
        max_recid = 0;
        history = [];
        validations = checks_for registry experiment row_id;
      })

  unfoldable pub update_records : List Fields → ℕ → Metadata → Result Metadata
  update_records records user m =
      validate registry user (record m { records = with_schema record_schema records })

  unfoldable pub add_documents : List Fields → ℕ → Metadata → Result Metadata
  add_documents new user m =
      let current = m.documents ++ with_schema document_schema new in
      validate registry user (record m { documents = current; num_docs = length current })

  unfoldable pub add_records : List Fields → ℕ → Metadata → Result Metadata
  add_records new user m =
      validate registry user (record m { records = m.records ++ with_schema record_schema new })

  unfoldable pub update_document : String → Fields → ℕ → Metadata → Result Metadata
  update_document slug new user m =
      elim (replace_slug slug (insert "$schema" (text document_schema) new) m.documents) [
        | none ↦ raise value_error
        | some current ↦
            validate registry user (record m { documents = current; num_docs = length current })
      ]

  -- `Release.enable_validation`. The row is looked up by its key alone, so it may be one of another
  -- release: `elsewhere`. `RunTimeError` is no name of Python's. The rows of this release that the
  -- call commits are in the release; the row that it looked up is returned as well.
  unfoldable pub enable_validation :
      (ℕ → Option Check) → ℕ → Bool → ℕ → Metadata → Result (Metadata × Check)
  enable_validation elsewhere i enabled user m =
      let row : Option Check = elim (find_check i m.validations) [
        | some c ↦ some c
        | none ↦ elsewhere i
      ] in
      elim row [
        | none ↦ raise attribute_error
        | some c ↦ elim (validator_of registry c.name) [
          | none ↦ raise attribute_error
          | some v ↦
              let checked =
                validate registry user
                  (record m { validations = set_enabled i enabled m.validations }) in
              if not v.optional
              then raise name_error
              else checked >>= λ m'. ok (m', record c { enabled = enabled })
        ]
      ]
