-- ===== src/Cold/Model.antt =====
-- cernopendata/cold_storage/models.py and the enumerations of api.py. Times are dropped, but for
-- whether a transfer has finished.
use cernopendata_portal.Base.{ℕ, String, Bool, Option, List, string_eq, Eq}
use cernopendata_portal.Base.Result.{Result}

pub data Action : Type 0 where
  stage archive clear_hot : Action

pub Action-discrete : Discrete Action
Action-discrete = hlevel

instance unfoldable pub action_eq : Eq Action
unfolding Action-discrete
action_eq = record { dec = Action-discrete }

-- A file of a record as the index holds it, with its two tags.
pub record File : Type 0 where
  pub key : String
  pub file_id : String
  pub uri : String
  pub size : ℕ
  pub checksum : String
  pub uri_cold : Option String
  pub hot_deleted : Bool

-- An entry of `_file_indices`.
pub record FileIndex : Type 0 where
  pub key : String
  pub files : List File

-- A record, with its `_files` and `_file_indices`, if it has these keys.
pub record Entry : Type 0 where
  pub id : String
  pub files : Option (List File)
  pub file_indices : Option (List FileIndex)

pub data TransferStatus : Type 0 where
  unknown done failed : TransferStatus
  other : String → TransferStatus

-- `TransferMetadata`; the status is `unknown` until it is asked for.
pub record Transfer : Type 0 where
  pub action : Action
  pub new_filename : String
  pub record_uuid : String
  pub file_id : String
  pub method : String
  pub method_id : String
  pub finished : Bool
  pub status : TransferStatus
  pub reason : Option String
  pub size : ℕ

pub data RequestStatus : Type 0 where
  submitted started completed : RequestStatus

-- `RequestMetadata`
pub record Request : Type 0 where
  pub id : ℕ
  pub record_id : String
  pub action : Action
  pub status : RequestStatus
  pub num_transfers : ℕ
  pub size : ℕ
  pub file : Option String
  pub subscribers : List String
  pub num_hot_files : Option ℕ
  pub num_cold_files : Option ℕ
  pub num_record_files : Option ℕ
  pub record_size : Option ℕ
  pub num_failed_transfers : ℕ

pub record Location : Type 0 where
  pub cold_path : String
  pub hot_path : String
  pub manager_class : String

-- An object version with its two tags (`ObjectVersionTag`).
pub record Version : Type 0 where
  pub file_id : String
  pub uri_cold : Option String
  pub hot_deleted : Bool

-- The tables that cold storage uses, the queue of the catalog, and the rest of the world: records,
-- the search index and the storages.
pub record Store (W : Type 0) : Type 0 where
  pub transfers : List Transfer
  pub versions : List Version
  pub queue : List String
  pub outside : W

-- What the code calls of other libraries. `start` asks a transfer manager to copy a file, and
-- returns the id of the transfer, if there is one; `verify_file` and `remove` are storage
-- operations; `reindex` writes a record to the index.
pub record Site (W : Type 0) : Type 0 where
  pub locations : List Location
  pub get_record : String → W → Option Entry
  pub verify_file : String → ℕ → String → W → Result Bool
  pub start : Action → String → String → String → W → Result (Option String × W)
  pub transfer_status : String → String → W → Result (TransferStatus × Option String)
  pub remove : String → W → W
  pub reindex : String → List Version → W → Result W
