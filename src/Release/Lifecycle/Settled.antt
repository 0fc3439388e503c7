-- ===== src/Release/Lifecycle/Settled.antt =====
-- Staging, publishing and rolling back (modules/releases/api.py, tasks.py), and soundness of the row.
use mathlib.Core.Option.{some-injective}
use cernopendata_portal.Base.{
  ℕ, String, ◌≡◌, sym, subst, ◌⊎◌, inl, inr, true, some, List, [], ◌∷◌, arith, contains,
}
use cernopendata_portal.Base.Result.{Exn, Result-cases}
use cernopendata_portal.Release.Model.{
  Status, draft, ready, staged, staging, publishing, published, status_eq, Message, Metadata,
}
use cernopendata_portal.Release.Validate.{change_status}
use cernopendata_portal.Release.Edit.{is_status}
use cernopendata_portal.Release.Publish.{
  Portal, stage, publish, rollback, mark_failed, mark_staging_failed, mark_publishing_failed,
}
use cernopendata_portal.Release.Publish.Task.{stage_release, publish_release, settled}
use cernopendata_portal.Release.Lifecycle.{Allowed, IsSound}
use cernopendata_portal.Release.Lifecycle.Trace.{change_status-IsSound}

-- Errors and their number are no part of what a row must agree on.
with_errors-IsSound :
    (errors : List Message) (n : ℕ) {m : Metadata}
    → IsSound m
    → IsSound (record m { errors = errors; num_errors = n })
with_errors-IsSound errors n h = record {
  follows = h.follows;
  latest = h.latest;
  records_counted = h.records_counted;
  documents_counted = h.documents_counted;
}

mark_failed-IsSound :
    (action : String) (e : Exn) (revert : Status) (user : ℕ) (m : Metadata)
    → ((s : Status) → Allowed s revert)
    → IsSound m
    → IsSound (mark_failed action e revert user m)
unfolding mark_failed
mark_failed-IsSound action e revert user m allowed h =
    change_status-IsSound revert user _ (with_errors-IsSound _ 1 h) (allowed m.status)

pub cleared-IsSound :
    {m m' : Metadata}
    → IsSound m
    → some (record m { errors = []; num_errors = 0 }) ≡ some m'
    → IsSound m'
cleared-IsSound {m} {m'} h p =
    subst IsSound (some-injective (record m { errors = []; num_errors = 0 }) m' p)
      (with_errors-IsSound [] 0 h)

pub ready-Allowed : (s : Status) → contains s (ready ∷ []) ≡ true → Allowed s staging
ready-Allowed s h = ground arith

pub staged-Allowed : (s : Status) → contains s (staged ∷ []) ≡ true → Allowed s publishing
staged-Allowed s h = ground arith

module _ {D X : Type 0} (portal : Portal D X) (record_schema document_schema : String) (user : ℕ)
    (m : Metadata) (w : D × X) (h : IsSound m) where
  stage-cases :
      let saved = (stage portal record_schema document_schema user m w).saved in
      (saved ≡ m) ⊎ (saved ≡ change_status draft user m) ⊎ (saved ≡ change_status staged user m)
  unfolding stage
  stage-cases = ground arith

  stage-IsSound : IsSound (stage portal record_schema document_schema user m w).saved
  stage-IsSound = elim stage-cases [
    | inl e ↦ rw e h
    | inr (inl e) ↦ rw e (change_status-IsSound draft user m h tt)
    | inr (inr e) ↦ rw e (change_status-IsSound staged user m h tt)
  ]

  publish-cases :
      let saved = (publish portal user m w).saved in
      (saved ≡ m)
      ⊎ ((m.status ≡ publishing)
          × (saved
              ≡ change_status published user
                  (record m { errors = saved.errors; num_errors = saved.num_errors })))
  unfolding publish is_status change_status
  publish-cases = ground arith

  publish-IsSound : IsSound (publish portal user m w).saved
  publish-IsSound = elim publish-cases [
    | inl e ↦ rw e h
    | inr (p, e) ↦
        subst IsSound (sym e) (change_status-IsSound published user _ (with_errors-IsSound _ _ h) p)
  ]

  rollback-cases :
      let saved = (rollback portal user m w).saved in
      (saved ≡ m) ⊎ (saved ≡ change_status ready user m)
  unfolding rollback
  rollback-cases = ground arith

  pub rollback-IsSound : IsSound (rollback portal user m w).saved
  rollback-IsSound = elim rollback-cases [
    | inl e ↦ rw e h
    | inr e ↦ rw e (change_status-IsSound ready user m h tt)
  ]

  pub stage_release-IsSound :
      IsSound (stage_release portal record_schema document_schema user m w).0
  unfolding stage_release mark_staging_failed
  stage_release-IsSound =
      elim (Result-cases (stage portal record_schema document_schema user m w).result) [
        | inl (a, e) ↦ rw (e, settled) stage-IsSound
        | inr (x, e) ↦
            rw (e, settled) (mark_failed-IsSound "Staging" x ready user _ (λ s. tt) stage-IsSound)
      ]

  pub publish_release-IsSound : IsSound (publish_release portal user m w).0
  unfolding publish_release mark_publishing_failed
  publish_release-IsSound = elim (Result-cases (publish portal user m w).result) [
    | inl (a, e) ↦ rw (e, settled) publish-IsSound
    | inr (x, e) ↦
        rw (e, settled) (mark_failed-IsSound "Publishing" x staged user _ (λ s. tt) publish-IsSound)
  ]
