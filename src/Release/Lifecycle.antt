-- ===== src/Release/Lifecycle.antt =====
-- The life of a release: the handlers of views.py and the tasks of tasks.py as steps from one
-- committed state of a row to the next, in any order and by any users.
pub mod Trace
pub mod Preserved
pub mod Operations
pub mod Settled
pub mod Documented
pub mod Reached
pub mod Published
use cernopendata_portal.Base.{ℕ, String, ◌≡◌, Bool, Option, some, none, List, [], ◌∷◌, length}
use cernopendata_portal.Base.Result.{Result, ok}
use cernopendata_portal.Json.{Value, Fields}
use cernopendata_portal.Release.Model.{
  Status, draft, ready, editing, staged, staging, publishing, published, Event, Check, Message,
  Metadata, Validator,
}
use cernopendata_portal.Release.Edit.{create}
use cernopendata_portal.Release.Bulk.{Updates}
use cernopendata_portal.Release.Publish.{Portal}
use cernopendata_portal.Release.Publish.Task.{stage_release, publish_release}
use cernopendata_portal.Release.Views.{
  stage_view, publish_view, update_records_view, add_records_view, bulk_update_view,
  fix_checks_view, enable_validation_view, rollback_view,
}
use cernopendata_portal.Release.Views.Documents.{
  update_release_view, generate_doi_view, add_documents_view, update_document_view,
}

-- From which status a release may go into which: PUBLISHED only from PUBLISHING, that only from
-- STAGED, and STAGING only from READY.
abbrev pub Allowed : Status → Status → Type 0
Allowed old published = old ≡ publishing
Allowed old publishing = old ≡ staged
Allowed old staging = old ≡ ready
Allowed old _ = Unit

-- A history that begins in a status goes on by allowed changes only.
abbrev pub Follows : Status → List Event → Type 0
Follows s [] = Unit
Follows s (e ∷ es) = Allowed s e.status × Follows e.status es

abbrev pub last_status : Status → List Event → Status
last_status s [] = s
last_status s (e ∷ es) = last_status e.status es

-- The row agrees with its history and counts its entries.
pub record IsSound (m : Metadata) : Type 0 where
  pub follows : Follows draft m.history
  pub latest : last_status draft m.history ≡ m.status
  pub records_counted : m.num_records ≡ length m.records
  pub documents_counted : m.num_docs ≡ length m.documents

-- A fix rewrites entries in place: it adds and removes none, and leaves status and history.
abbrev pub FixesInPlace : Validator → Type 0
FixesInPlace v =
    (f : Metadata → Result (Metadata × List Message)) (m m' : Metadata) (errors : List Message)
    → v.fix ≡ some f
    → f m ≡ ok (m', errors)
    → (m'.status ≡ m.status)
      × (m'.history ≡ m.history)
      × (m'.num_records ≡ m.num_records)
      × (m'.num_docs ≡ m.num_docs)
      × (length m'.records ≡ length m.records)
      × (length m'.documents ≡ length m.documents)

module _ {D X : Type 0} (portal : Portal D X) (registry : List Validator)
    (record_schema document_schema : String) where
  -- What one request or one task makes of a row. `curated`, `acquired` and `experiment` are those
  -- of the request. New DOIs are drawn from a list of texts, by any function.
  pub data Step (m : Metadata) (m' : Metadata) : Type 0 where
    stage_request :
        (curated : List String) (acquired : Bool) (experiment : String) (user : ℕ)
        → (stage_view curated acquired experiment user (some m)).1 ≡ some m'
        → Step m m'
    stage_task :
        (user : ℕ) (w : D × X)
        → (stage_release portal record_schema document_schema user m w).0 ≡ m'
        → Step m m'
    publish_request :
        (curated : List String) (acquired : Bool) (experiment : String) (user : ℕ)
        → (publish_view curated acquired experiment user (some m)).1 ≡ some m'
        → Step m m'
    publish_task : (user : ℕ) (w : D × X) → (publish_release portal user m w).0 ≡ m' → Step m m'
    rollback_request :
        (curated : List String) (acquired : Bool) (experiment : String) (user : ℕ) (w : D × X)
        → (rollback_view curated acquired experiment user portal w (some m)).1 ≡ some m'
        → Step m m'
    update_records_request :
        (curated : List String) (acquired : Bool) (experiment : String) (user : ℕ)
        → (records : List Fields)
        → (update_records_view curated acquired experiment user registry record_schema
            document_schema records
            (some m)).1
          ≡ some m'
        → Step m m'
    bulk_update_request :
        (curated : List String) (acquired : Bool) (experiment : String) (user : ℕ)
        → (updates : Option Updates)
        → (bulk_update_view curated acquired experiment user registry record_schema document_schema
            updates
            (some m)).1
          ≡ some m'
        → Step m m'
    fix_checks_request :
        (curated : List String) (acquired : Bool) (experiment : String) (user : ℕ)
        → (fix_checks_view curated acquired experiment user registry record_schema document_schema
            (some m)).1
          ≡ some m'
        → Step m m'
    enable_validation_request :
        (curated : List String) (acquired : Bool) (experiment : String) (user : ℕ)
        → (elsewhere : ℕ → Option Check) (i : ℕ) (enabled : Bool)
        → (enable_validation_view curated acquired experiment user registry record_schema
            document_schema elsewhere i enabled
            (some m)).1
          ≡ some m'
        → Step m m'
    add_records_request :
        (curated : List String) (acquired : Bool) (experiment : String) (user : ℕ)
        → (records : List Fields)
        → (add_records_view curated acquired experiment user registry record_schema document_schema
            records
            (some m)).1
          ≡ some m'
        → Step m m'
    add_documents_request :
        (curated : List String) (acquired : Bool) (experiment : String) (user : ℕ)
        → (fetch : String → Option Value) (body : Value)
        → (add_documents_view curated acquired experiment user registry document_schema fetch body
            (some m)).1
          ≡ some m'
        → Step m m'
    update_document_request :
        (curated : List String) (acquired : Bool) (experiment : String) (user : ℕ)
        → (slug : String) (body : Value)
        → (update_document_view curated acquired experiment user registry document_schema slug body
            (some m)).1
          ≡ some m'
        → Step m m'
    update_release_request :
        (curated : List String) (acquired : Bool) (experiment : String) (user : ℕ)
        → (body : Fields)
        → (update_release_view curated acquired experiment user body (some m)).1 ≡ some m'
        → Step m m'
    generate_doi_request :
        (curated : List String) (acquired : Bool) (experiment : String) (user : ℕ)
        → (mint : List String → String × List String)
        → (validate_datacite : Fields → Result (Unit {0})) → (source : List String)
        → (recids : List Value)
        → (generate_doi_view curated acquired experiment user mint validate_datacite source recids
            (some m)).1
          ≡ some m'
        → Step m m'

  -- The rows that a release can have, from its creation on.
  pub data Reachable : Metadata → Type 0 where
    created :
        (id experiment : String) (row_id : String → ℕ) (user : ℕ) (records documents : List Fields)
        → (name description discussion_url : Option String) {m : Metadata}
        → create registry record_schema document_schema id experiment row_id user records documents
            name description discussion_url
          ≡ ok m
        → Reachable m
    then_step : {m m' : Metadata} → Reachable m → Step m m' → Reachable m'
