-- ===== src/Release/Publish/Task.antt =====
-- The background tasks (cernopendata/modules/releases/tasks.py), and how each of them ends.
use cernopendata_portal.Base.{ℕ, String, ◌≡◌, List, [], ◌∷◌, ◌++◌, map, nat_eq}
use cernopendata_portal.Base.Result.{Exn, Result, ok, raise}
use cernopendata_portal.Json.{Fields}
use cernopendata_portal.Release.Model.{Status, status_eq, Message, failed, Metadata}
use cernopendata_portal.Release.Publish.{
  Portal, Outcome, on_ok, stage_fields, stage_document, stage, mark_staging_failed,
  mark_publishing_failed, publish_records, publish_documents, publish,
}

-- `db.session.rollback()`: the session holds what was last committed, and what is outside the
-- database stays as the call left it.
unfoldable pub rollback_session : {D X : Type 0} → Outcome D X → D × X
rollback_session o = (o.database, o.live.1)

-- The `try` of a task: after an exception the session is rolled back, and the failure is recorded
-- and committed with what the session then holds.
unfoldable pub settled :
    {D X : Type 0} → (Exn → Metadata → Metadata) → Outcome D X → Metadata × (D × X)
unfolding rollback_session
settled mark o = elim o.result [
  | ok _ ↦ (o.saved, o.live)
  | raise e ↦ (mark e o.saved, rollback_session o)
]

-- Calls one after the other, up to the first that raises.
abbrev pub in_order : {W : Type 0} → List (W → Result (Unit {0}) × W) → W → Result (Unit {0}) × W
in_order [] w = (ok tt, w)
in_order (call ∷ calls) w = on_ok (call w) (λ done. in_order calls)

module _ {D X : Type 0} (portal : Portal D X) (record_schema document_schema : String) where
  unfoldable pub stage_release : ℕ → Metadata → D × X → Metadata × (D × X)
  unfolding settled
  stage_release user m w =
      settled (λ e. mark_staging_failed e user)
        (stage portal record_schema document_schema user m w)

  -- The creation of one record and of one document, as they are staged.
  abbrev pub create_staged : Metadata → Fields → D × X → Result (Unit {0}) × (D × X)
  create_staged m r w = on_ok (stage_fields record_schema m r, w) portal.create_record

  abbrev pub create_staged_doc : Metadata → Fields → D × X → Result (Unit {0}) × (D × X)
  create_staged_doc m d =
      portal.create_doc (stage_document portal record_schema document_schema m d)

  -- All records and then all documents of the release are created, each once and in their order.
  abbrev pub create_all : Metadata → D × X → Result (Unit {0}) × (D × X)
  create_all m = in_order (map (create_staged m) m.records ++ map (create_staged_doc m) m.documents)

module _ {D X : Type 0} (portal : Portal D X) where
  unfoldable pub publish_release : ℕ → Metadata → D × X → Metadata × (D × X)
  unfolding settled
  publish_release user m w = settled (λ e. mark_publishing_failed e user) (publish portal user m w)

  -- All records are written and then all documents; the result holds the DataCite errors.
  abbrev pub publish_all : Metadata → D × X → Result (List Message) × (D × X)
  publish_all m w =
      on_ok (publish_records portal m.records [] w) (λ errors w'.
        on_ok (publish_documents portal m.documents w') (λ done w''. (ok errors, w'')))

-- What a task leaves that fails with an exception: the failure as its one error, the status to which
-- it goes back, and the database as it was. What is outside the database is as the calls left it.
abbrev pub IsReverted :
    {D X : Type 0} → String → Status → Exn → D × X → X → Metadata × (D × X) → Type 0
IsReverted action status e w outside (m', w') =
    (m'.status ≡ status)
    × (m'.errors ≡ failed action e ∷ [])
    × (m'.num_errors ≡ 1)
    × (w'.0 ≡ w.0)
    × (w'.1 ≡ outside)
