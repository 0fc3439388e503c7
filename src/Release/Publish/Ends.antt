-- ===== src/Release/Publish/Ends.antt =====
-- How the background tasks end (cernopendata/modules/releases/tasks.py).
use cernopendata_portal.Base.{
  ℕ, String, ◌≡◌, ◌≢◌, refl, sym, ap, ◌∙◌, ◌⊎◌, inl, inr, Bool-cases, List, [], ◌∷◌, ◌++◌, map,
  length, ◌==◌, nat_eq, arith,
}
use cernopendata_portal.Base.Result.{Exn, Result, ok, raise, runtime_error}
use cernopendata_portal.Json.{Fields}
use cernopendata_portal.Release.Model.{
  ready, staging, staged, publishing, published, status_eq, Metadata,
}
use cernopendata_portal.Release.Validate.{change_status}
use cernopendata_portal.Release.Edit.{is_status}
use cernopendata_portal.Release.Publish.{
  Portal, on_ok, stage_fields, stage_records, stage_documents, stage, mark_failed,
  mark_staging_failed,
}
use cernopendata_portal.Release.Publish.Task.{
  settled, rollback_session, in_order, stage_release, create_staged, create_staged_doc, create_all,
  publish_release, publish_all, IsReverted,
}

module _ {A B C W : Type 0} where
  on_ok-on_ok :
      (x : Result A × W) (f : A → W → Result B × W) (g : B → W → Result C × W)
      → on_ok (on_ok x f) g ≡ on_ok x (λ a w. on_ok (f a w) g)
  on_ok-on_ok (ok a, w) f g = refl
  on_ok-on_ok (raise e, w) f g = refl

call-cases :
    {A W : Type 0} (x : Result A × W)
    → ((a : A) × (w : W) × (x ≡ (ok a, w))) ⊎ ((e : Exn) × (w : W) × (x ≡ (raise e, w)))
call-cases (ok a, w) = inl (a, w, refl)
call-cases (raise e, w) = inr (e, w, refl)

module _ {A B W : Type 0} where
  on_ok-eq :
      (x : Result A × W) (f g : A → W → Result B × W)
      → ((a : A) (w : W) → f a w ≡ g a w)
      → on_ok x f ≡ on_ok x g
  on_ok-eq (ok a, w) f g h = h a w
  on_ok-eq (raise e, w) f g h = refl

module _ {D X : Type 0} (portal : Portal D X) (record_schema document_schema : String) where
  records_in_order :
      (m : Metadata) (rs : List Fields) (rest : List (D × X → Result (Unit {0}) × (D × X)))
      (w : D × X)
      → in_order (map (create_staged portal record_schema document_schema m) rs ++ rest) w
        ≡ on_ok (stage_records portal record_schema document_schema m rs w) (λ done. in_order rest)
  unfolding stage_records
  records_in_order m [] rest w = refl
  records_in_order m (r ∷ rs) rest w =
      let first = create_staged portal record_schema document_schema m r w in
      let others = λ (done : Unit {0}). stage_records portal record_schema document_schema m rs in
      on_ok-eq first _ _ (λ done w'. records_in_order m rs rest w')
      ∙ sym (on_ok-on_ok first others (λ done. in_order rest))
      ∙ ap (λ x. on_ok x (λ done. in_order rest))
          (on_ok-on_ok (stage_fields record_schema m r, w) portal.create_record others)

  documents_in_order :
      (m : Metadata) (ds : List Fields) (w : D × X)
      → in_order (map (create_staged_doc portal record_schema document_schema m) ds) w
        ≡ stage_documents portal record_schema document_schema m ds w
  unfolding stage_documents
  documents_in_order m [] w = refl
  documents_in_order m (d ∷ ds) w =
      on_ok-eq (create_staged_doc portal record_schema document_schema m d w) _ _
        (λ done w'. documents_in_order m ds w')

  pub create_all-eq :
      (m : Metadata) (w : D × X)
      → create_all portal record_schema document_schema m w
        ≡ on_ok
            (stage_records portal record_schema document_schema m m.records w)
            (λ done. stage_documents portal record_schema document_schema m m.documents)
  create_all-eq m w =
      records_in_order m m.records _ w
      ∙ on_ok-eq (stage_records portal record_schema document_schema m m.records w) _ _
          (λ done w'. documents_in_order m m.documents w')

  -- How the staging task may end: with all entries, with an exception of a call, or refused.
  abbrev pub StagingEnds : ℕ → Metadata → D × X → Type 0
  StagingEnds user m w =
      let made = create_all portal record_schema document_schema m w in
      let left = stage_release portal record_schema document_schema user m w in
      ((m.status ≡ staging)
        × (m.num_errors ≡ 0)
        × (made ≡ (ok tt, left.1))
        × (left.0.status ≡ staged)
        × (left.0.errors ≡ m.errors))
      ⊎ ((e : Exn) × (m.status ≡ staging)
          × (m.num_errors ≡ 0)
          × (made.0 ≡ raise e)
          × IsReverted "Staging" ready e w made.1.1 left)
      ⊎ ((why : String) × ¬ ((m.status ≡ staging) × (m.num_errors ≡ 0))
          × IsReverted "Staging" ready (runtime_error why) w w.1 left)

  -- The staging task either finds the release in STAGING with no errors and creates all its
  -- records and then all its documents, each once and in their order, and leaves it STAGED; or one
  -- of these calls raises; or the status or the errors refuse it, and none is made. In the last
  -- two cases the database is as it was, the release is READY, and its one error is the exception
  -- of that call, or the refusal; what is outside the database is as the calls left it.
  pub stage_release_ends : (user : ℕ) (m : Metadata) (w : D × X) → StagingEnds user m w
  unfolding stage_release stage settled rollback_session mark_failed mark_staging_failed
      change_status is_status
  stage_release_ends user m w = elim (Bool-cases (is_status staging m)) [
    | inr away ↦
        inr (inr ("Release is not READY", (λ h. ground (arith, away, h)), ground (arith, away)))
    | inl here ↦ elim (Bool-cases (m.num_errors == 0)) [
      | inr faulty ↦ inr (
          inr (
            "Release has validation errors and cannot be staged",
            (λ h. ground (arith, faulty, h)),
            ground (arith, here, faulty),
          ))
      | inl clean ↦
          let same = create_all-eq m w in
          elim (call-cases (create_all portal record_schema document_schema m w)) [
            | inl (done, w', e) ↦ let loops = sym same ∙ e in ground (arith, here, clean, e, loops)
            | inr (x, w', e) ↦ let loops = sym same ∙ e in ground (arith, here, clean, e, loops)
          ]
    ]
  ]

module _ {D X : Type 0} (portal : Portal D X) where
  -- How the publishing task may end: with all entries, with an exception of a call, or refused.
  abbrev pub PublishingEnds : ℕ → Metadata → D × X → Type 0
  PublishingEnds user m w =
      let written = publish_all portal m w in
      let left = publish_release portal user m w in
      ((m.status ≡ publishing)
        × (written ≡ (ok left.0.errors, left.1))
        × (left.0.status ≡ published)
        × (left.0.num_errors ≡ length left.0.errors))
      ⊎ ((e : Exn) × (m.status ≡ publishing)
          × (written.0 ≡ raise e)
          × IsReverted "Publishing" staged e w written.1.1 left)
      ⊎ ((why : String) × (m.status ≢ publishing)
          × IsReverted "Publishing" staged (runtime_error why) w w.1 left)
