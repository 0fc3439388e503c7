-- ===== src/Cold/Service.antt =====
-- cernopendata/cold_storage/service.py: the requests that are taken up, up to the number of active
-- transfers that the configuration allows, and the transfers that are checked.
pub mod Budget
use cernopendata_portal.Base.{
  ℕ, zero, suc, ◌+◌, ◌-◌, String, Bool, true, false, not, Option, none, some, List, [], ◌∷◌, ◌++◌,
  ◌==◌, string_eq, nat_eq, ◌&&◌, if◌then◌else◌, length, keep_if, ltb,
}
use cernopendata_portal.Base.Result.{Result, ok, raise, ◌>>=◌}
use cernopendata_portal.Cold.Model.{
  Action, stage, archive, clear_hot, action_eq, Transfer, TransferStatus, unknown, done, failed,
  other, Request, RequestStatus, submitted, started, completed, Store, Site,
}
use cernopendata_portal.Cold.Catalog.{add_copy, reindex_entries}
use cernopendata_portal.Cold.Manager.{move_record}

-- The query for the active transfers of an action.
abbrev pub is_active : Action → Transfer → Bool
is_active action t = not t.finished && t.action == action

abbrev pub count_active : Action → List Transfer → ℕ
count_active action ts = length (keep_if (is_active action) ts)

-- `Transfer.get_active_transfers_threshold`, on the two thresholds of the configuration.
unfoldable pub threshold_of : ℕ → ℕ → Action → Option ℕ
threshold_of staging archiving stage = some staging
threshold_of staging archiving archive = some archiving
threshold_of staging archiving clear_hot = none

abbrev pub is_submitted : RequestStatus → Bool
is_submitted submitted = true
is_submitted _ = false

abbrev total_size : List Transfer → ℕ
total_size [] = 0
total_size (t ∷ ts) = t.size + total_size ts

-- The request after a call of the manager on its record: it has started, unless the maximum was
-- reached.
unfoldable pub taken_up : Request → List Transfer → Bool → Request
taken_up r info full = record r {
  num_transfers = r.num_transfers + length info;
  size = r.size + total_size info;
  status = if full then r.status else started;
}

module _ {W : Type 0} (site : Site W) where
  -- The loop over the requests of an action, on the number of transfers submitted so far.
  unfoldable pub submit_requests :
      Action → ℕ → ℕ → List Request → Store W → Result (ℕ × List Request × Store W)
  unfolding move_record taken_up
  submit_requests action most count [] s = ok (count, [], s)
  submit_requests action most count (r ∷ rs) s =
      if not (is_submitted r.status && r.action == action)
      then (submit_requests action most count rs s >>= λ rest. ok (rest.0, r ∷ rest.1, rest.2))
      else (move_record site r.record_id none action true false false (most - count) r.file s
          >>= λ moved.
              let count' = count + length moved.0 in
              let r' = taken_up r moved.0 (most == count') in
              if most - count' == 0
              then ok (count', r' ∷ rs, moved.1)
              else (submit_requests action most count' rs moved.1 >>= λ rest.
                  ok (rest.0, r' ∷ rest.1, rest.2)))

  -- The body of the loop over the actions in `check_submitted`.
  unfoldable pub check_action :
      Option ℕ → Action → List Request → Store W → Result (List Request × Store W)
  unfolding submit_requests
  check_action none action requests s = ok (requests, s)
  check_action (some threshold) action requests s =
      let most = threshold - count_active action s.transfers in
      if most == 0
      then ok (requests, s)
      else (submit_requests action most 0 requests s >>= λ r. ok (r.1, r.2))

  -- `check_submitted`
  unfoldable pub check_submitted : ℕ → ℕ → List Request → Store W → Result (List Request × Store W)
  unfolding check_action threshold_of
  check_submitted staging archiving requests s =
      check_action (threshold_of staging archiving stage) stage requests s >>= λ r.
      check_action (threshold_of staging archiving archive) archive r.0 r.1 >>= λ r'.
      check_action (threshold_of staging archiving clear_hot) clear_hot r'.0 r'.1

  -- A transfer after the answer of its manager.
  unfoldable pub settled_transfer : Transfer → TransferStatus × Option String → Transfer
  settled_transfer t (done, e) = record t { status = done; finished = true }
  settled_transfer t (failed, e) = record t { status = failed; reason = e; finished = true }
  settled_transfer t (unknown, e) = record t { status = unknown; reason = e; finished = true }
  settled_transfer t (other x, e) = record t { status = other x }

  -- The copy that a finished transfer made is added to the catalog.
  unfoldable pub registered_copy : Transfer → TransferStatus → Store W → Result (Store W)
  unfolding add_copy
  registered_copy t done s =
      add_copy t.record_uuid t.file_id t.action t.new_filename s >>= λ r. ok r.1
  registered_copy t _ s = ok s

  -- The loop of `process_transfers` over the table; a finished transfer is left as it is.
  unfoldable pub check_transfers : List Transfer → Store W → Result (List Transfer × Store W)
  unfolding settled_transfer registered_copy
  check_transfers [] s = ok ([], s)
  check_transfers (t ∷ ts) s =
      if t.finished
      then (check_transfers ts s >>= λ rest. ok (t ∷ rest.0, rest.1))
      else (site.transfer_status t.method t.method_id s.outside >>= λ answer.
          registered_copy t answer.0 s >>= λ s'.
          check_transfers ts s' >>= λ rest. ok (settled_transfer t answer ∷ rest.0, rest.1))

  -- `process_transfers`
  unfoldable pub process_transfers : Store W → Result (Store W)
  unfolding check_transfers reindex_entries
  process_transfers s =
      check_transfers s.transfers s >>= λ r. reindex_entries site (record r.1 { transfers = r.0 })
