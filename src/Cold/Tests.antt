-- ===== src/Cold/Tests.antt =====
-- The theorems on cold storage at a record of two files.
use mathlib.Core.List.{Mem}
use cernopendata_portal.Base.{
  ◌<◌, ◌≤◌, String, ◌≡◌, refl, ◌⊎◌, true, false, none, some, List, [], ◌∷◌, ◌++◌, All, length,
  string_eq, nat_eq, ◌||◌,
}
use cernopendata_portal.Cold.Availability.{
  Counts, online, partial, requested, all_counts, is_requested, is_transferring, check_availability,
}
use cernopendata_portal.Cold.Availability.Mixed.{IsUniform, Has, IsMixed, check_availability_cases}
use cernopendata_portal.Base.Result.{Result, ok, raise}
use cernopendata_portal.Base.Text.{strip_prefix}
use cernopendata_portal.Cold.Model.{
  stage, archive, action_eq, File, Transfer, done, Request, submitted, started, Location, Store,
  Site,
}
use cernopendata_portal.Cold.Catalog.{
  get_files_from_record, indexed_files, limited, reindex_entries, reindex_from,
}
use cernopendata_portal.Cold.Storage.{
  prefix_of, text_length, is_under, like, find_location, find_url, replace, replace_from,
}
use cernopendata_portal.Cold.Storage.Longest.{NoneLonger, find_location-NoneLonger}
use cernopendata_portal.Cold.Manager.{
  is_qos, is_scheduled, issue, start_transfer, move_to, move_record_file, move_files, move_record,
}
use cernopendata_portal.Cold.Manager.Bounded.{move_record-Added}
use cernopendata_portal.Cold.Requests.{
  Mail, RecordCatalog, is_complete, failed_transfers_count, mark_as_completed, check_request,
  check_requests, check_running, process_requests,
}
use cernopendata_portal.Cold.Requests.Forward.{IsRound}
use cernopendata_portal.Cold.Requests.Round.{process_requests-IsRound}
use cernopendata_portal.Cold.Service.{
  check_submitted, threshold_of, count_active, taken_up, submit_requests, check_action,
}
use cernopendata_portal.Cold.Service.Budget.{check_action_bounded}

abbrev a_file : String → File
a_file name = record {
  key = name;
  file_id = name;
  uri = "/hot/cms/a.root";
  size = 10;
  checksum = "adler32:1";
  uri_cold = none;
  hot_deleted = false;
}

abbrev locations : List Location
locations =
    record { cold_path = "/cold/"; hot_path = "/hot/"; manager_class = "m" }
    ∷ record { cold_path = "/tape/cms/"; hot_path = "/hot/cms/"; manager_class = "m" }
    ∷ []

abbrev site : Site (List String)
site = record {
  locations = locations;
  get_record = λ uuid w.
      some (record { id = uuid; files = some (a_file "1" ∷ a_file "2" ∷ []); file_indices = none });
  verify_file = λ uri size checksum w. ok false;
  start = λ action manager source dest w. ok (some "7", source ∷ w);
  transfer_status = λ method id w. ok (done, none);
  remove = λ uri w. w;
  reindex = λ uuid versions w. ok w;
}

abbrev a_store : Store (List String)
a_store = record { transfers = []; versions = []; queue = []; outside = [] }

abbrev a_request : Request
a_request = record {
  id = 1;
  record_id = "r";
  action = archive;
  status = submitted;
  num_transfers = 0;
  size = 0;
  file = none;
  subscribers = "a@cern.ch" ∷ [];
  num_hot_files = none;
  num_cold_files = none;
  num_record_files = none;
  record_size = none;
  num_failed_transfers = 0;
}

abbrev or_else : {A : Type 0} → A → Result A → A
or_else a (ok b) = b
or_else a (raise e) = a

abbrev after_round : List Request × Store (List String)
after_round = or_else ([], a_store) (check_action site (some 1) archive (a_request ∷ []) a_store)

check_action_bounded_example :
    (after_round.1.transfers ≡ []) ⊎ (count_active archive after_round.1.transfers ≤ 1)
unfolding check_action submit_requests move_record move_files move_record_file move_to
    start_transfer issue is_qos is_scheduled find_url find_location like replace replace_from
    strip_prefix get_files_from_record indexed_files limited taken_up string_eq nat_eq action_eq
    reindex_entries reindex_from
check_action_bounded_example =
    check_action_bounded site 1 archive (a_request ∷ []) a_store after_round refl

abbrev moved : List Transfer × Store (List String)
moved = or_else ([], a_store) (move_record site "r" none archive true false false 1 none a_store)

move_record-Added_example : (moved.1.transfers ≡ [] ++ moved.0) × (0 < 1 → length moved.0 ≤ 1)
unfolding move_record move_files move_record_file move_to start_transfer issue is_qos is_scheduled
    find_url find_location like replace replace_from strip_prefix get_files_from_record
    indexed_files limited string_eq nat_eq action_eq reindex_entries reindex_from
move_record-Added_example =
    move_record-Added site "r" none archive true false false 1 none a_store moved refl

find_location-NoneLonger_example :
    ((find_location archive "/hot/cms/a.root" locations ≡ none)
      × All (λ l. is_under archive "/hot/cms/a.root" l ≡ false) locations)
    ⊎ ((l : Location) × (find_location archive "/hot/cms/a.root" locations ≡ some l)
        × Mem l locations
        × (is_under archive "/hot/cms/a.root" l ≡ true)
        × NoneLonger archive "/hot/cms/a.root" (text_length (prefix_of archive l)) locations)
find_location-NoneLonger_example = find_location-NoneLonger archive "/hot/cms/a.root" locations

abbrev hot_and_cold : List Counts
hot_and_cold = (("online", 2) ∷ ("on demand", 1) ∷ []) ∷ []

abbrev shown : String
shown = (check_availability "r" hot_and_cold [] [] []).1

check_availability_cases_example :
    (((is_requested "r" [] || is_transferring "r" []) ≡ true) × (shown ≡ requested))
    ⊎ (((is_requested "r" [] || is_transferring "r" []) ≡ false)
        × (((all_counts hot_and_cold [] ≡ []) × (shown ≡ online))
            ⊎ (((a : String) × IsUniform a (all_counts hot_and_cold [])
                  × Has a (all_counts hot_and_cold [])
                  × (shown ≡ a))
                ⊎ (IsMixed "r" hot_and_cold [] [] [] × (shown ≡ partial)))))
check_availability_cases_example = check_availability_cases "r" hot_and_cold [] [] []

-- A catalog in which every record is on disk, and none of its files on tape.
abbrev catalog : RecordCatalog (Store (List String))
catalog = record {
  availability = λ uuid s. ok "online";
  save_record_availability = λ uuid s. ok ("online", s);
  indexed_files = λ uuid s. ok (a_file "1" ∷ []);
}

abbrev staging_request : Request
staging_request = record a_request { id = 2; action = stage; status = started }

abbrev requests_before : List Request
requests_before = staging_request ∷ a_request ∷ []

abbrev requests_after : (List Request × List Mail) × Store (List String)
requests_after =
    or_else ((requests_before, []), a_store)
      (process_requests site catalog 1 1 requests_before a_store)

process_requests-IsRound_example : IsRound requests_before requests_after.0.0 requests_after.0.1
unfolding process_requests check_running check_requests check_request is_complete
    failed_transfers_count mark_as_completed check_submitted threshold_of check_action
    submit_requests move_record move_files move_record_file move_to start_transfer issue is_qos
    is_scheduled find_url find_location like replace replace_from strip_prefix get_files_from_record
    indexed_files limited taken_up string_eq nat_eq action_eq reindex_entries reindex_from
process_requests-IsRound_example =
    process_requests-IsRound site catalog 1 1 requests_before a_store {q = requests_after} refl

abbrev subscribed : List Request
subscribed = record a_request { subscribers = "a@cern.ch" ∷ "b@cern.ch" ∷ [] } ∷ []
