-- ===== src/Cold/Availability.antt =====
-- The availability of a record (`ColdRecord.check_availability` and `FileObjectCold.availability` of
-- cernopendata/cold_storage/api.py).
pub mod Mixed
use cernopendata_portal.Base.{
  ℕ, suc, ◌+◌, String, Bool, true, false, not, List, [], ◌∷◌, ◌++◌, ◌==◌, string_eq, nat_eq, ◌&&◌,
  ◌||◌, map, if◌then◌else◌,
}
use cernopendata_portal.Cold.Model.{
  Action, stage, action_eq, Transfer, Request, RequestStatus, submitted, File,
}

-- The values of `FileAvailability` and `RecordAvailability`.
abbrev pub online : String
online = "online"

abbrev pub on_demand : String
on_demand = "on demand"

abbrev pub partial : String
partial = "partial"

abbrev pub requested : String
requested = "requested"

-- `FileObjectCold.availability`
unfoldable pub file_availability : File → String
file_availability f = if f.hot_deleted then on_demand else online

-- A dict of counts, in the order of its keys; `avl[key] += n`, from 0.
abbrev pub Counts : Type 0
Counts = List (String × ℕ)

unfoldable pub add_count : String → ℕ → Counts → Counts
add_count key n [] = (key, n) ∷ []
add_count key n ((k, m) ∷ rest) =
    let later = add_count key n rest in if k == key then (k, m + n) ∷ rest else (k, m) ∷ later

unfoldable pub add_counts : Counts → Counts → Counts
unfolding add_count
add_counts [] total = total
add_counts ((key, n) ∷ rest) total = add_counts rest (add_count key n total)

-- The counts of the file indices, then one for each file.
unfoldable pub all_counts : List Counts → List String → Counts
all_counts [] files = map (λ a. (a, 1)) files
all_counts (index ∷ indices) files = index ++ all_counts indices files

-- `_availability_details`
unfoldable pub availability_details : List Counts → List String → Counts
unfolding add_counts all_counts
availability_details indices files = add_counts (all_counts indices files) []

unfoldable pub availability_of : Counts → String
availability_of [] = online
availability_of ((key, n) ∷ []) = key
availability_of (a ∷ b ∷ rest) = partial

abbrev is_submitted : RequestStatus → Bool
is_submitted submitted = true
is_submitted _ = false

-- Whether a request to stage the record waits, or a transfer of one of its files to disk goes on.
unfoldable pub is_requested : String → List Request → Bool
is_requested uuid [] = false
is_requested uuid (r ∷ rs) =
    (r.record_id == uuid && (is_submitted r.status && r.action == stage)) || is_requested uuid rs

unfoldable pub is_transferring : String → List Transfer → Bool
is_transferring uuid [] = false
is_transferring uuid (t ∷ ts) =
    (t.record_uuid == uuid && (not t.finished && t.action == stage)) || is_transferring uuid ts

-- `check_availability`: the details and the availability.
unfoldable pub check_availability :
    String → List Counts → List String → List Request → List Transfer → Counts × String
unfolding availability_details availability_of is_requested is_transferring
check_availability uuid indices files requests transfers =
    let details = availability_details indices files in
    (
      details,
      if is_requested uuid requests || is_transferring uuid transfers
          then requested
          else availability_of details,
    )
