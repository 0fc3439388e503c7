-- ===== src/Release/Lifecycle/Published.antt =====
-- The way of a release from READY to PUBLISHED through the handlers of
-- cernopendata/modules/releases/views.py and the tasks of tasks.py.
use cernopendata_portal.Base.{
  nat_eq, ℕ, String, ◌≡◌, refl, sym, ap, ◌∙◌, true, some, none, List, [], length, arith,
}
use cernopendata_portal.Base.Result.{ok}
use cernopendata_portal.Release.Model.{
  Status, ready, staged, staging, publishing, published, status_eq, Message, Metadata, Validator,
}
use cernopendata_portal.Release.Validate.{change_status}
use cernopendata_portal.Release.Edit.{is_status, is_one_of, lock}
use cernopendata_portal.Release.Publish.{
  Portal, prerelease, stage_fields, stage_document, stage, publish,
}
use cernopendata_portal.Release.Publish.Task.{
  settled, stage_release, create_all, publish_release, publish_all,
}
use cernopendata_portal.Release.Publish.Ends.{create_all-eq}
use cernopendata_portal.Release.Views.{
  check_experiment, get_release, with_release, stage_view, publish_view,
}
use cernopendata_portal.Release.Lifecycle.{
  Reachable, then_step, stage_request, stage_task, publish_request, publish_task,
}

module _ {D X : Type 0} (portal : Portal D X) (record_schema document_schema : String) where
  module _ (registry : List Validator) (curated : List String) (experiment : String)
      (user : ℕ) where
    -- The row after each of the four steps.
    abbrev cleared : Status → Metadata → Metadata
    cleared s m = record (change_status s user m) { errors = []; num_errors = 0 }

    abbrev pub when_staging : Metadata → Metadata
    when_staging = cleared staging

    abbrev pub when_staged : Metadata → Metadata
    when_staged m = change_status staged user (when_staging m)

    abbrev pub when_publishing : Metadata → Metadata
    when_publishing m = cleared publishing (when_staged m)

    stage_view-eq :
        (m : Metadata)
        → check_experiment curated experiment ≡ none
        → m.status ≡ ready
        → (stage_view curated true experiment user (some m)).1 ≡ some (when_staging m)
    unfolding stage_view with_release get_release lock is_one_of is_status
    stage_view-eq m allowed here = ground (arith, allowed, here)

    publish_view-eq :
        (m : Metadata)
        → check_experiment curated experiment ≡ none
        → m.status ≡ staged
        → (publish_view curated true experiment user (some m)).1 ≡ some (cleared publishing m)
    unfolding publish_view with_release get_release lock is_one_of is_status
    publish_view-eq m allowed here = ground (arith, allowed, here)

    -- Of the release, only its name in the portal enters what is created.
    create_all-staging :
        (m : Metadata) (w : D × X)
        → create_all portal record_schema document_schema (when_staging m) w
          ≡ create_all portal record_schema document_schema m w
    unfolding stage_fields stage_document prerelease change_status
    create_all-staging m w = refl

    stage_release-eq :
        (m : Metadata) (w w' : D × X)
        → create_all portal record_schema document_schema m w ≡ (ok tt, w')
        → stage_release portal record_schema document_schema user (when_staging m) w
          ≡ (when_staged m, w')
    unfolding stage_release settled stage change_status is_status prerelease status_eq nat_eq
    stage_release-eq m w w' made =
        let loops =
          sym (create_all-eq portal record_schema document_schema (when_staging m) w)
          ∙ create_all-staging m w
          ∙ made in
        rw loops refl

    publish_release-eq :
        (m : Metadata) (errors : List Message) (w w' : D × X)
        → publish_all portal m w ≡ (ok errors, w')
        → publish_release portal user (when_publishing m) w ≡ (
          change_status published user
              (record (when_publishing m) { errors = errors; num_errors = length errors }),
          w',
        )
    unfolding publish_release settled publish change_status is_status status_eq
    publish_release-eq m errors w w' written = rw written refl

    -- From every reachable row in READY, for a curator of a known experiment who gets the row
    -- locks, the request to stage, the staging task, the request to publish and the publishing
    -- task follow on each other and leave a reachable row in PUBLISHED with the same records and
    -- documents and the errors of DataCite, if all entries can be created in the database at the
    -- start and written in the one after that.
    pub ready_to_published :
        (m : Metadata) (errors : List Message) (w w₁ w₂ : D × X)
        → Reachable portal registry record_schema document_schema m
        → m.status ≡ ready
        → check_experiment curated experiment ≡ none
        → create_all portal record_schema document_schema m w ≡ (ok tt, w₁)
        → publish_all portal m w₁ ≡ (ok errors, w₂)
        → (m₁ : Metadata) × (m₂ : Metadata) × (m₃ : Metadata) × (m₄ : Metadata) × ((stage_view
              curated true experiment user
              (some m)).1
            ≡ some m₁)
          × (stage_release portal record_schema document_schema user m₁ w ≡ (m₂, w₁))
          × ((publish_view curated true experiment user (some m₂)).1 ≡ some m₃)
          × (publish_release portal user m₃ w₁ ≡ (m₄, w₂))
          × (m₄.status ≡ published)
          × (m₄.errors ≡ errors)
          × (m₄.records ≡ m.records)
          × (m₄.documents ≡ m.documents)
          × Reachable portal registry record_schema document_schema m₄
    unfolding change_status
    ready_to_published m errors w w₁ w₂ reached here allowed made written =
        let requested = stage_view-eq m allowed here in
        let staged = stage_release-eq m w w₁ made in
        let asked = publish_view-eq (when_staged m) allowed refl in
        let ended = publish_release-eq m errors w₁ w₂ written in
        let last = record (when_publishing m) { errors = errors; num_errors = length errors } in
        (
          when_staging m,
          when_staged m,
          when_publishing m,
          change_status published user last,
          requested,
          staged,
          asked,
          ended,
          refl,
          refl,
          refl,
          refl,
          then_step
              (then_step
                (then_step
                  (then_step reached (stage_request curated true experiment user requested))
                  (stage_task user w (ap (λ x. x.0) staged)))
                (publish_request curated true experiment user asked))
              (publish_task user w₁ (ap (λ x. x.0) ended)),
        )
