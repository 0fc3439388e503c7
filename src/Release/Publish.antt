-- ===== src/Release/Publish.antt =====
-- Staging, publishing and rolling back a release (cernopendata/modules/releases/api.py), and the
-- background tasks that run the first two (tasks.py).
--
-- The portal's records live in a database of an unknown type. What the release calls of it (the
-- functions of modules/fixtures/cli.py, the search index and DataCite) is the interface `Portal`.
pub mod Task
pub mod Ends
use cernopendata_portal.Base.{
  ℕ, String, ◌<>◌, Bool, true, false, not, Option, none, some, List, [], ◌∷◌, ◌++◌, length, ◌==◌,
  nat_eq, is_empty, if◌then◌else◌,
}
use cernopendata_portal.Base.Result.{Exn, Result, ok, raise, runtime_error, or_key_error, ◌>>=◌}
use cernopendata_portal.Json.{Value, text, obj, Fields, end, field, truthy}
use cernopendata_portal.Json.Dict.{lookup, insert, erase, has_key, set_default}
use cernopendata_portal.Json.Python.{member, set_item}
use cernopendata_portal.Release.Model.{
  Status, draft, ready, staging, staged, publishing, published, Message, failed, datacite_failed,
  Metadata,
}
use cernopendata_portal.Release.Validate.{change_status}
use cernopendata_portal.Release.Edit.{get, is_status}

-- A call that changes a state, and may raise after it has changed it: what follows on its return.
abbrev pub on_ok {ℓ} :
    {A B : Type 0} {W : Type ℓ} → Result A × W → (A → W → Result B × W) → Result B × W
on_ok (ok a, w) next = next a w
on_ok (raise e, w) next = (raise e, w)

-- `D` is what the session of the database holds, changes that are not committed included, and `X`
-- the search index and DataCite, which no rollback of the session reaches. A pid is found by its
-- type and its value; `update_record` and `update_doc` return what they wrote, for the index.
pub record Portal (D : Type 0) (X : Type 0) : Type 0 where
  pub create_record : Fields → D × X → Result (Unit {0}) × (D × X)
  pub create_doc : Fields → D × X → Result (Unit {0}) × (D × X)
  pub get_pid : String → Value → D × X → Result ℕ
  pub update_record : ℕ → Fields → D × X → Result Fields × (D × X)
  pub update_doc : ℕ → Fields → D × X → Result Fields × (D × X)
  pub delete_record : ℕ → D × X → Result (Unit {0}) × (D × X)
  pub delete_doc : ℕ → D × X → Result (Unit {0}) × (D × X)
  pub register_doi : Fields → D × X → Result (Unit {0}) × (D × X)
  pub index : Fields → D × X → Result (Unit {0}) × (D × X)

-- How a call of the release ended: its result, the release and the database as they were last
-- committed, and the session with what is outside the database, as the call left them.
pub record Outcome (D : Type 0) (X : Type 0) : Type 0 where
  pub result : Result (List Message)
  pub saved : Metadata
  pub database : D
  pub live : D × X

-- A call that raises before it changes anything.
abbrev refused : {D X : Type 0} → String → Metadata → D × X → Outcome D X
refused why m w = record { result = raise (runtime_error why); saved = m; database = w.0; live = w }

-- The end of a call: it commits, or it raises with its changes still in the session.
abbrev pub ended :
    {D X : Type 0} {A : Type 0}
    → Metadata
    → D
    → (A → Metadata)
    → (A → List Message)
    → Result A × (D × X)
    → Outcome D X
ended m old saved errors (ok a, live) = record {
  result = ok (errors a);
  saved = saved a;
  database = live.0;
  live = live;
}
ended m old saved errors (raise e, live) = record {
  result = raise e;
  saved = m;
  database = old;
  live = live;
}

unfoldable pub prerelease : Metadata → Value
prerelease m = text (m.experiment <> "/" <> m.id)

-- What `stage` sets in a record before it is created.
unfoldable pub stage_fields : String → Metadata → Fields → Result Fields
stage_fields schema m r =
    let with_schema = set_default "$schema" (text schema) r in
    let empty = field "description" (text "") end in
    let with_abstract = set_default "abstract" (obj empty) with_schema in
    do
      abstract ← or_key_error "abstract" (lookup "abstract" with_abstract)
      described ← member "description" abstract
      abstract' ← (if described then ok abstract else set_item "description" (text "") abstract)
      ok (insert "prerelease" (prerelease m) (insert "abstract" abstract' with_abstract))

-- `stage` sets keys in the release's own records and documents, but does not flag these columns
-- as modified, so the rows that it commits keep them as they were.
module _ {D X : Type 0} (portal : Portal D X) (record_schema document_schema : String) where
  unfoldable pub stage_records : Metadata → List Fields → D × X → Result (Unit {0}) × (D × X)
  stage_records m [] w = (ok tt, w)
  stage_records m (r ∷ rs) w =
      on_ok (stage_fields record_schema m r, w)
        (λ prepared w₁. on_ok (portal.create_record prepared w₁) (λ done. stage_records m rs))

  unfoldable pub stage_document : Metadata → Fields → Fields
  stage_document m d =
      insert "prerelease" (prerelease m)
        (erase "_source_filename" (set_default "$schema" (text document_schema) d))

  unfoldable pub stage_documents : Metadata → List Fields → D × X → Result (Unit {0}) × (D × X)
  stage_documents m [] w = (ok tt, w)
  stage_documents m (d ∷ ds) w =
      on_ok (portal.create_doc (stage_document m d) w) (λ done. stage_documents m ds)

  unfoldable pub stage : ℕ → Metadata → D × X → Outcome D X
  stage user m w =
      let created = on_ok (stage_records m m.records w) (λ done. stage_documents m m.documents) in
      if not (is_status staging m)
      then refused "Release is not READY" m w
      else if not (m.num_errors == 0)
      then refused "Release has validation errors and cannot be staged" (change_status draft user m)
          w
      else ended m w.0 (λ done. change_status staged user m) (λ done. []) created

-- `_mark_failed`, and its two uses.
unfoldable pub mark_failed : String → Exn → Status → ℕ → Metadata → Metadata
mark_failed action e revert user m =
    change_status revert user (record m { errors = failed action e ∷ []; num_errors = 1 })

unfoldable pub mark_staging_failed : Exn → ℕ → Metadata → Metadata
mark_staging_failed e = mark_failed "Staging" e ready

unfoldable pub mark_publishing_failed : Exn → ℕ → Metadata → Metadata
mark_publishing_failed e = mark_failed "Publishing" e staged

-- The errors of DataCite so far, and after one more registration.
abbrev with_registration :
    {D X : Type 0}
    → List Message
    → Value
    → Result (Unit {0}) × (D × X)
    → Result (List Message) × (D × X)
with_registration errors recid (ok _, w) = (ok errors, w)
with_registration errors recid (raise e, w) = (ok (errors ++ (datacite_failed recid e ∷ [])), w)

module _ {D X : Type 0} (portal : Portal D X) where
  -- The body of the loop over the records, on the DataCite errors so far.
  unfoldable pub publish_record : Fields → List Message → D × X → Result (List Message) × (D × X)
  publish_record r errors w =
      on_ok (or_key_error "recid" (lookup "recid" r), w)
        (λ recid w₁.
          on_ok (portal.get_pid "recid" recid w₁, w₁)
            (λ pid w₂. on_ok (portal.update_record pid r w₂) (λ written w₃.
              on_ok (portal.index written w₃) (λ done w₄.
                if truthy (get "doi" r)
                then with_registration errors recid (portal.register_doi r w₄)
                else (ok errors, w₄)))))

  unfoldable pub publish_records :
      List Fields → List Message → D × X → Result (List Message) × (D × X)
  publish_records [] errors w = (ok errors, w)
  publish_records (r ∷ rs) errors w = on_ok (publish_record r errors w) (publish_records rs)

  unfoldable pub publish_document : Fields → Fields
  publish_document d = erase "prerelease" (erase "_source_filename" d)

  unfoldable pub publish_documents : List Fields → D × X → Result (Unit {0}) × (D × X)
  publish_documents [] w = (ok tt, w)
  publish_documents (d ∷ ds) w =
      let slug = get "slug" d in
      let written : Result (Unit {0}) × (D × X) =
        on_ok (portal.get_pid "docid" slug w, w)
          (λ pid w₁.
            on_ok (portal.update_doc pid (publish_document d) w₁)
              (λ doc w₂. portal.index doc w₂)) in
      let rest = on_ok written (λ done. publish_documents ds) in
      if truthy slug then rest else (raise (runtime_error "missing 'slug' at publish time"), w)

  unfoldable pub publish : ℕ → Metadata → D × X → Outcome D X
  publish user m w =
      let written =
        on_ok (publish_records m.records [] w)
          (λ errors w'. on_ok (publish_documents m.documents w') (λ done w''. (ok errors, w''))) in
      if not (is_status publishing m)
      then refused "Release is not PUBLISHING" m w
      else ended m w.0
          (λ errors.
            change_status published user (record m { errors = errors; num_errors = length errors }))
          (λ errors. errors) written

  unfoldable pub delete_records : List Fields → D × X → Result (Unit {0}) × (D × X)
  delete_records [] w = (ok tt, w)
  delete_records (r ∷ rs) w =
      on_ok (or_key_error "recid" (lookup "recid" r), w)
        (λ recid w₁.
          on_ok (portal.get_pid "recid" recid w₁, w₁)
            (λ pid w₂. on_ok (portal.delete_record pid w₂) (λ done. delete_records rs)))

  unfoldable pub delete_documents : List Fields → D × X → Result (Unit {0}) × (D × X)
  delete_documents [] w = (ok tt, w)
  delete_documents (d ∷ ds) w =
      let slug = get "slug" d in
      let deleted : Result (Unit {0}) × (D × X) =
        on_ok (portal.get_pid "docid" slug w, w) portal.delete_doc in
      on_ok (if truthy slug then deleted else (ok tt, w)) (λ done. delete_documents ds)

  unfoldable pub rollback : ℕ → Metadata → D × X → Outcome D X
  rollback user m w =
      let deleted = on_ok (delete_records m.records w) (λ done. delete_documents m.documents) in
      if not (is_status staged m)
      then refused "Release is not STAGED" m w
      else ended m w.0 (λ done. change_status ready user m) (λ done. []) deleted
