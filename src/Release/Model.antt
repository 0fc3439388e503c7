-- ===== src/Release/Model.antt =====
-- cernopendata/modules/releases/models.py and the messages of the validations.
use cernopendata_portal.Base.{ℕ, String, Bool, Option, List, [], ◌∷◌, Eq}
use cernopendata_portal.Base.Result.{Exn, Result}
use cernopendata_portal.Json.{Value, Fields}

pub data Status : Type 0 where
  draft ready editing staged staging publishing published : Status

pub Status-discrete : Discrete Status
Status-discrete = hlevel

instance unfoldable pub status_eq : Eq Status
unfolding Status-discrete
status_eq = record { dec = Status-discrete }

-- The entries of the column `errors`. A constructor stands for the wording of a message, its
-- arguments for what the message is filled with; entries are counted from 1, as in the texts.
pub data Message : Type 0 where
  crashed : String → Message
  failed : String → Exn → Message
  datacite_failed : Value → Exn → Message
  missing_field : ℕ → String → Message
  duplicate_value : ℕ → String → Value → ℕ → Message
  already_registered : String → List Value → Message
  recid_format : ℕ → Value → Message
  recid_collides : ℕ → Value → Value → Message
  no_source_filename : ℕ → Message
  no_slug : ℕ → Value → Message
  missing_size : ℕ → ℕ → Message
  missing_checksum : ℕ → ℕ → Message
  invalid_checksum : ℕ → ℕ → Value → Message
  no_metadata : Value → Exn → Message
  no_files : ℕ → Value → Message
  unexpanded : ℕ → Message
  is_directory : Value → Message
  no_expected_value : String → ℕ → List String → Message
  unexpected_value : String → ℕ → List String → Value → Value → Message
  doi_malformed : ℕ → Message
  doi_prefix : ℕ → String → Message
  doi_duplicate : ℕ → String → ℕ → Message
  doi_registered : String → Message
  link_not_found link_bare link_unresolved : ℕ → String → Message

-- A row of `releases_validations`.
pub record Check : Type 0 where
  pub id : ℕ
  pub name : String
  pub status : Bool
  pub enabled : Bool

-- A row of `releases_history`; the list's order stands for the timestamps.
pub record Event : Type 0 where
  pub status : Status
  pub user_id : ℕ

-- A row of `releases_metadata` with its history and its validations. The id is kept as it is
-- printed, since the code only writes it into texts.
pub record Metadata : Type 0 where
  pub status : Status
  pub id : String
  pub name : Option String
  pub description : Option String
  pub discussion_url : Option String
  pub experiment : String
  pub records : List Fields
  pub documents : List Fields
  pub errors : List Message
  pub num_records : ℕ
  pub num_errors : ℕ
  pub num_docs : ℕ
  pub num_files : ℕ
  pub num_file_indices : ℕ
  pub max_recid : ℕ
  pub history : List Event
  pub validations : List Check

abbrev pub bulk_immutable_fields : List String
bulk_immutable_fields = "recid" ∷ "title" ∷ "DOI" ∷ []

-- `class Validation`: what a validation gives. `fix` is absent where a class keeps the base's,
-- and `fixable` asks about one release.
pub record Validator : Type 0 where
  pub name : String
  pub experiment : Option String
  pub optional : Bool
  pub validate : Metadata → Result (List Message)
  pub fix : Option (Metadata → Result (Metadata × List Message))
  pub fixable : Metadata → Result Bool
