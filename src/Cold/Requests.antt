-- ===== src/Cold/Requests.antt =====
-- The life of a request: `class Request` of cernopendata/cold_storage/api.py, and `check_running` and
-- `process_requests` of service.py.
pub mod Forward
pub mod Round
pub mod Subscribed
use cernopendata_portal.Base.{
  ℕ, suc, ◌+◌, String, Bool, true, false, not, Option, none, some, List, [], ◌∷◌, ◌++◌, ◌==◌,
  string_eq, nat_eq, ◌&&◌, if◌then◌else◌, length, keep_if, is_some, contains,
}
use cernopendata_portal.Base.Result.{Result, ok, raise, value_error, attribute_error, ◌>>=◌}
use cernopendata_portal.Cold.Model.{
  Action, stage, archive, clear_hot, action_eq, File, Transfer, TransferStatus, failed, Request,
  RequestStatus, submitted, started, completed, Store, Site,
}
use cernopendata_portal.Cold.Availability.{Counts, online, on_demand, requested}
use cernopendata_portal.Cold.Service.{check_submitted}

abbrev count_of : String → Counts → Option ℕ
count_of key [] = none
count_of key ((k, n) ∷ rest) = if k == key then some n else count_of key rest

-- `validate_email_address`; `email_of` is the library's check, with the normalised address.
unfoldable pub validate_email_address : (String → Option String) → String → Result String
validate_email_address email_of email =
    if email == ""
    then raise value_error
    else elim (email_of email) [ none ↦ raise value_error | some address ↦ ok address ]

unfoldable pub validate_emails : (String → Option String) → List String → Result (List String)
unfolding validate_email_address
validate_emails email_of [] = ok []
validate_emails email_of (e ∷ es) = do
  address ← validate_email_address email_of e
  rest ← validate_emails email_of es
  ok (address ∷ rest)

-- `Request.create`, with the number that the database gives to the row; the distribution of a record
-- is its number of files and its size.
unfoldable pub create_request :
    (String → Option String)
    → ℕ
    → String
    → List String
    → Option String
    → Counts
    → Option (ℕ × ℕ)
    → Result Request
unfolding validate_emails
create_request email_of id record_id subscribers file availability distribution =
    validate_emails email_of subscribers >>= λ valid. ok (record {
      id = id;
      record_id = record_id;
      action = stage;
      status = submitted;
      num_transfers = 0;
      size = 0;
      file = file;
      subscribers = valid;
      num_hot_files = count_of online availability;
      num_cold_files = count_of on_demand availability;
      num_record_files = (elim distribution [ none ↦ none | some d ↦ some d.0 ]);
      record_size = (elim distribution [ none ↦ none | some d ↦ some d.1 ]);
      num_failed_transfers = 0;
    })

-- `Request.subscribe`: the first request with the id, and whether the address was new to it.
unfoldable pub subscribe_address : ℕ → String → List Request → Result (Bool × List Request)
subscribe_address id address [] = raise attribute_error
subscribe_address id address (r ∷ rs) =
    let rest = subscribe_address id address rs in
    if r.id == id
    then (if contains address r.subscribers
        then ok (false, r ∷ rs)
        else ok (true, record r { subscribers = r.subscribers ++ (address ∷ []) } ∷ rs))
    else (rest >>= λ found. ok (found.0, r ∷ found.1))

unfoldable pub subscribe :
    (String → Option String) → ℕ → String → List Request → Result (Bool × List Request)
unfolding validate_email_address subscribe_address
subscribe email_of id email rs = validate_email_address email_of email >>= λ address.
    if address == "" then ok (false, rs) else subscribe_address id address rs

-- `Request.mark_as_started`
unfoldable pub mark_as_started : Request → ℕ → ℕ → Request
mark_as_started r n size = record r { status = started; num_transfers = n; size = size }

-- A mail: the number of the request, and to whom it goes.
abbrev pub Mail : Type 0
Mail = ℕ × List String

-- `Request.mark_as_completed`, with the mails that it sends.
abbrev pub mail_for : ℕ → List String → List Mail
mail_for id [] = []
mail_for id (s ∷ ss) = (id, s ∷ ss) ∷ []

unfoldable pub mark_as_completed : Request → Request × List Mail
mark_as_completed r = (record r { status = completed }, mail_for r.id r.subscribers)

-- `get_failed_transfers_count`
abbrev is_failed : TransferStatus → Bool
is_failed failed = true
is_failed _ = false

unfoldable pub failed_transfers_count : String → List Transfer → ℕ
failed_transfers_count uuid ts =
    length (keep_if (λ t. t.record_uuid == uuid && is_failed t.status) ts)

-- What `check_running` asks of a record: its availability as it is stored, `save_record_availability`
-- with the availability that this computes and stores, and the files of its indices.
pub record RecordCatalog (W : Type 0) : Type 0 where
  pub availability : String → W → Result String
  pub save_record_availability : String → W → Result (String × W)
  pub indexed_files : String → W → Result (List File)

abbrev all_on_tape : List File → Bool
all_on_tape [] = true
all_on_tape (f ∷ fs) = is_some f.uri_cold && all_on_tape fs

abbrev pub is_started : RequestStatus → Bool
is_started started = true
is_started _ = false

module _ {W : Type 0} (catalog : RecordCatalog W) where
  -- Whether a request that has started is complete.
  unfoldable pub is_complete : Action → String → W → Result (Bool × W)
  is_complete stage uuid w = do
    stored ← catalog.availability uuid w
    if stored == online then ok (true, w) else (do
      computed ← catalog.save_record_availability uuid w
      ok (not (computed.0 == requested), computed.1))
  is_complete archive uuid w = do
    stored ← catalog.availability uuid w
    files ← catalog.indexed_files uuid w
    ok (all_on_tape files, w)
  is_complete clear_hot uuid w = catalog.availability uuid w >>= λ stored. ok (true, w)

  -- The body of the loop over the requests of an action, for one that has started.
  unfoldable pub check_request :
      Action → List Transfer → Request → W → Result ((Request × List Mail) × W)
  unfolding is_complete failed_transfers_count mark_as_completed
  check_request action transfers r w =
      let r' = record r { num_failed_transfers = failed_transfers_count r.record_id transfers } in
      is_complete action r.record_id w >>= λ answer.
      ok ((if answer.0 then mark_as_completed r' else (r', [])), answer.1)

  unfoldable pub check_requests :
      Action → List Transfer → List Request → W → Result ((List Request × List Mail) × W)
  unfolding check_request
  check_requests action transfers [] w = ok (([], []), w)
  check_requests action transfers (r ∷ rs) w =
      if is_started r.status && r.action == action
      then (do
        now ← check_request action transfers r w
        rest ← check_requests action transfers rs now.1
        ok ((now.0.0 ∷ rest.0.0, now.0.1 ++ rest.0.1), rest.1))
      else (check_requests action transfers rs w >>= λ rest. ok ((r ∷ rest.0.0, rest.0.1), rest.1))

  -- `check_running`
  unfoldable pub check_running :
      List Transfer → List Request → W → Result ((List Request × List Mail) × W)
  unfolding check_requests
  check_running transfers rs w = do
    staged ← check_requests stage transfers rs w
    archived ← check_requests archive transfers staged.0.0 staged.1
    cleared ← check_requests clear_hot transfers archived.0.0 archived.1
    ok ((cleared.0.0, staged.0.1 ++ (archived.0.1 ++ cleared.0.1)), cleared.1)

-- `process_requests`, with the thresholds of the configuration.
unfoldable pub process_requests :
    {W : Type 0}
    → Site W
    → RecordCatalog (Store W)
    → ℕ
    → ℕ
    → List Request
    → Store W
    → Result ((List Request × List Mail) × Store W)
unfolding check_submitted check_running
process_requests site catalog staging archiving rs s =
    check_submitted site staging archiving rs s >>= λ taken.
    check_running catalog taken.1.transfers taken.0 taken.1
