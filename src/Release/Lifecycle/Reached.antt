-- ===== src/Release/Lifecycle/Reached.antt =====
-- The steps of the life of a release, and soundness of its row.
use mathlib.Core.Option.{some-injective}
use cernopendata_portal.Base.{
  ℕ, String, ◌≡◌, subst, inl, inr, none, some, List, [], ◌∷◌, All, arith, is_empty, Bool-cases,
}
use cernopendata_portal.Base.Result.{ok, raise}
use cernopendata_portal.Release.Model.{
  draft, ready, editing, staged, staging, publishing, status_eq, Metadata, Validator,
}
use cernopendata_portal.Release.Publish.{Portal, rollback}
use cernopendata_portal.Release.Views.{
  Reply, done, crash, stage_view, publish_view, update_records_view, add_records_view,
  bulk_update_view, fix_checks_view, enable_validation_view, rollback_view,
}
use cernopendata_portal.Json.{truthy}
use cernopendata_portal.Release.Views.Documents.{
  update_release_view, generate_doi_view, posted, requested_documents, add_documents_view,
}
use cernopendata_portal.Json.Dict.{lookup}
use cernopendata_portal.Release.Lifecycle.{
  IsSound, FixesInPlace, Step, Reachable, stage_request, stage_task, publish_request, publish_task,
  rollback_request, update_records_request, bulk_update_request, fix_checks_request,
  enable_validation_request, add_records_request, add_documents_request, update_document_request,
  update_release_request, generate_doi_request, created, then_step,
}
use cernopendata_portal.Release.Lifecycle.Preserved.{
  Keeps, kept, reply-Keeps, commits-Keeps, with_release-Keeps, with_release-Keeps_lock,
  with_release-Keeps_edit,
}
use cernopendata_portal.Release.Lifecycle.Operations.{
  create-IsSound, update_records-IsSound, add_records-IsSound, bulk_update-IsSound,
  enable_validation-IsSound, fix_checks-IsSound, update_metadata-IsSound, generate_doi-IsSound,
}
use cernopendata_portal.Release.Lifecycle.Documented.{
  add_documents_to-Keeps, update_document_view-Keeps,
}
use cernopendata_portal.Release.Lifecycle.Settled.{
  cleared-IsSound, ready-Allowed, staged-Allowed, rollback-IsSound, stage_release-IsSound,
  publish_release-IsSound,
}

rollback_body-Keeps :
    {D X : Type 0} (portal : Portal D X) (user : ℕ) (w : D × X)
    → Keeps (λ m.
      let o = rollback portal user m w in
      let reply : Reply = elim o.result [
        | ok _ ↦ (done tt, some o.saved)
        | raise e ↦ (crash e, some o.saved)
      ] in
      reply)
rollback_body-Keeps portal user w m m' h p =
    let o = rollback portal user m w in
    let q : some o.saved ≡ some m' = ground (arith, p) in
    subst IsSound (some-injective o.saved m' q) (rollback-IsSound portal "" "" user m w h)

module _ {D X : Type 0} (portal : Portal D X) (registry : List Validator)
    (record_schema document_schema : String) (fixes : All FixesInPlace registry) where
  -- One request or task keeps a sound row sound.
  Step-IsSound :
      {m m' : Metadata}
      → Step portal registry record_schema document_schema m m'
      → IsSound m
      → IsSound m'
  unfolding stage_view publish_view rollback_view update_records_view bulk_update_view
      fix_checks_view enable_validation_view add_records_view update_release_view generate_doi_view
      add_documents_view
  Step-IsSound {m} {m'} (stage_request curated acquired experiment user e) h =
      with_release-Keeps_lock curated acquired experiment user _ (λ x y g p. cleared-IsSound g p)
        (ready ∷ []) staging (λ x c. ready-Allowed x.status c) m m' h e
  Step-IsSound (stage_task user w e) h =
      rw (← e) (stage_release-IsSound portal record_schema document_schema user _ w h)
  Step-IsSound {m} {m'} (publish_request curated acquired experiment user e) h =
      with_release-Keeps_lock curated acquired experiment user _ (λ x y g p. cleared-IsSound g p)
        (staged ∷ []) publishing (λ x c. staged-Allowed x.status c) m m' h e
  Step-IsSound (publish_task user w e) h =
      rw (← e) (publish_release-IsSound portal record_schema document_schema user _ w h)
  Step-IsSound {m} {m'} (rollback_request curated acquired experiment user w e) h =
      with_release-Keeps curated acquired experiment user _ (rollback_body-Keeps portal user w)
        (some (staged ∷ [])) m m' h e
  Step-IsSound {m} {m'} (update_records_request curated acquired experiment user records e) h =
      elim (Bool-cases (is_empty records)) [
        | inl none_given ↦
            subst IsSound (some-injective m m' (rw (none_given, update_records_view) at e)) h
        | inr given ↦
            with_release-Keeps_edit curated acquired experiment user _
              (commits-Keeps (λ x. x) _
                (λ x a g p.
                  update_records-IsSound registry record_schema document_schema records user x a g
                    p))
              m m' h (rw (given, update_records_view) at e)
      ]
  Step-IsSound {m} {m'} (bulk_update_request curated acquired experiment user none e) h =
      subst IsSound (some-injective m m' e) h
  Step-IsSound {m} {m'} (bulk_update_request curated acquired experiment user (some updates) e) h =
      with_release-Keeps_edit curated acquired experiment user _
        (commits-Keeps (λ r. r.0) _
          (λ x r g p.
            bulk_update-IsSound registry record_schema document_schema updates user x r g p))
        m m' h e
  Step-IsSound {m} {m'} (fix_checks_request curated acquired experiment user e) h =
      with_release-Keeps_lock curated acquired experiment user _
        (commits-Keeps (λ x. x) _
          (λ x a g p. fix_checks-IsSound registry record_schema document_schema fixes user x a g p))
        (draft ∷ ready ∷ []) editing (λ x c. tt) m m' h e
  Step-IsSound {m} {m'}
        (enable_validation_request curated acquired experiment user elsewhere i enabled e) h =
      with_release-Keeps curated acquired experiment user _
        (commits-Keeps (λ r. r.0) _
          (λ x r g p.
            enable_validation-IsSound registry record_schema document_schema elsewhere i enabled
              user x r g p))
        (some (draft ∷ ready ∷ [])) m m' h e
  Step-IsSound {m} {m'} (add_records_request curated acquired experiment user records e) h =
      with_release-Keeps curated acquired experiment user _
        (commits-Keeps (λ x. x) _
          (λ x a g p.
            add_records-IsSound registry record_schema document_schema records user x a g p))
        none m m' h e
  Step-IsSound {m} {m'} (add_documents_request curated acquired experiment user fetch body e) h =
      elim (Bool-cases (truthy body)) [
        | inl given ↦
            with_release-Keeps curated acquired experiment user _
              (reply-Keeps (requested_documents fetch body) _
                (add_documents_to-Keeps registry document_schema user))
              none m m' h (rw (given, add_documents_view) at e)
        | inr empty ↦ kept m m' h (rw (empty, add_documents_view) at e)
      ]
  Step-IsSound {m} {m'} (update_document_request curated acquired experiment user slug body e) h =
      update_document_view-Keeps registry document_schema curated acquired experiment user slug body
        m m' h e
  Step-IsSound {m} {m'} (update_release_request curated acquired experiment user body e) h =
      with_release-Keeps curated acquired experiment user _
        (λ x y g p. subst IsSound (some-injective _ y p) (
          update_metadata-IsSound (posted (lookup "name" body))
            (posted (lookup "discussion_url" body)) (posted (lookup "description" body)) x g))
        none m m' h e
  Step-IsSound {m} {m'}
        (generate_doi_request curated acquired experiment user mint validate_datacite source recids
          e)
        h =
      with_release-Keeps curated acquired experiment user _
        (λ x y g p.
          subst IsSound (some-injective _ y p)
            (generate_doi-IsSound mint validate_datacite recids x source g))
        (some (staged ∷ [])) m m' h e

  -- In every row that a release can have, after any sequence of requests and tasks by any users,
  -- the status is the last one of the history, the history goes by allowed changes only (PUBLISHED
  -- only from PUBLISHING, that only from STAGED, STAGING only from READY), and the counts of
  -- records and documents are right; for registries whose fixes rewrite entries in place.
  pub Reachable-IsSound :
      {m : Metadata} → Reachable portal registry record_schema document_schema m → IsSound m
  Reachable-IsSound (created id experiment row_id user records documents name description url e) =
      create-IsSound registry record_schema document_schema id experiment row_id user records
        documents name description url e
  Reachable-IsSound (then_step r s) = Step-IsSound s (Reachable-IsSound r)
