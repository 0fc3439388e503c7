-- ===== src/Fixtures/Load/Written.antt =====
-- What creating, updating and deleting an entry (cernopendata/modules/fixtures/cli.py) writes.
use cernopendata_portal.Base.{
  String, ◌≡◌, refl, sym, ◌∙◌, Bool, true, Option, none, some, ◌==◌, string_eq, nat_eq, ℕ,
  if◌then◌else◌, arith, Option-cases, inl, inr,
}
use cernopendata_portal.Base.Result.{Result, ok}
use cernopendata_portal.Json.{Value, Fields}
use cernopendata_portal.Json.Dict.{lookup}
use cernopendata_portal.Fixtures.Store.{Store, IsStore, KeepsPids, KeepsRecords}
use cernopendata_portal.Fixtures.Entries.{mint_key, create_entry, delete_entry, unregister}
use cernopendata_portal.Fixtures.Load.{
  Statistics, LoadAction, count, Handlers, simple_handlers, done, settle, commit_entry,
}
use cernopendata_portal.Fixtures.Load.Catalog.{content_of, view, IsPaired, Puts, Together-Puts}

module _ {W : Type 0} (store : Store W) (valid : Fields → Bool) (laws : IsStore store valid)
    (pid_type : String) where
  -- Nothing that the catalog is read from has changed.
  pub Keeps-Puts :
      (k : String) (o : Option Fields) (w w₁ w₂ : W)
      → Puts store pid_type k o w w₁
      → KeepsPids store w₁ w₂
      → KeepsRecords store w₁ w₂
      → Puts store pid_type k o w w₂
  unfolding content_of
  Keeps-Puts k o w w₁ w₂ (shown, paired) pids recs = (
    (λ j. same j ∙ shown j),
    record {
      whole = λ j u e.
          let (d, found) = paired.whole j u (sym (pids pid_type j) ∙ e) in (d, recs u ∙ found);
      apart =
          λ i j u e e'. paired.apart i j u (sym (pids pid_type i) ∙ e) (sym (pids pid_type j) ∙ e');
    },
  )
    where
      same : (j : String) → view store pid_type w₂ j ≡ view store pid_type w₁ j
      same j = elim (Option-cases (store.get_pid pid_type j w₁)) [
        | inl free ↦ rw (pids pid_type j) (rw (free, content_of) refl)
        | inr (x, e) ↦ rw (pids pid_type j) (rw (e, content_of) (recs x))
      ]

  pub Puts-twice :
      (k : String) (o o' : Option Fields) (w w₁ w₂ : W)
      → Puts store pid_type k o w w₁
      → Puts store pid_type k o' w₁ w₂
      → Puts store pid_type k o' w w₂
  Puts-twice k o o' w w₁ w₂ (shown, _) (shown', paired) =
      ((λ j. ground (arith, shown j, shown' j)), paired)

  module _ (str : Value → String) (key schema : String)
      (load : Fields → Result (Fields × Value)) where
    abbrev pub handlers : Handlers W
    handlers = simple_handlers store str pid_type key load

    -- Committing what is pending under the identifier of its record.
    pub settle-Puts :
        (action : LoadAction) (k : String) (u : ℕ) (d : Fields) (s : Statistics) (w w₀ : W)
        → store.get_pid pid_type k w ≡ some u
        → valid d ≡ true
        → IsPaired store pid_type w
        → (w' : W) × (settle store str handlers schema (done action (some (u, d)) w) s w₀
            ≡ ok (true, count action s, w'))
          × Puts store pid_type k (some d) w w'
    unfolding settle commit_entry
    settle-Puts action k u d s w w₀ here fine paired =
        let (w₁, saved, pids, recs) = laws.saves u d w fine in
        let (w₂, committed, pids₂, recs₂) = laws.commits w₁ in
        let (w₃, indexed, pids₃, recs₃) = laws.indexes u d w₂ in
        let ended : commit_entry store str handlers schema (some (u, d)) w ≡ ok w₂ =
          rw saved committed in
        let written =
          Together-Puts store pid_type w w₁ k u paired (λ j e. paired.apart j k u e here) (some u)
            (some d) (λ j. ground (arith, pids pid_type j, here)) recs (inl (refl, (d, refl))) in
        (
          w₃,
          rw (ended, settle) (rw indexed refl),
          Keeps-Puts k (some d) w w₂ w₃ (Keeps-Puts k (some d) w w₁ w₂ written pids₂ recs₂) pids₃
              recs₃,
        )

    pub create_entry-Puts :
        (k : String) (v : Value) (d : Fields) (w : W)
        → lookup key d ≡ some v
        → str v ≡ k
        → store.get_pid pid_type k w ≡ none
        → valid d ≡ true
        → IsPaired store pid_type w
        → (w' : W) × (create_entry store str pid_type key d w ≡ ok ((store.new_uuid w, d), w'))
          × Puts store pid_type k (some d) w w'
          × (store.get_pid pid_type k w' ≡ some (store.new_uuid w))
    unfolding create_entry mint_key
    create_entry-Puts k v d w named shown free fine paired =
        let u = store.new_uuid w in
        let (w₁, minted, pids₁, recs₁) = laws.mints pid_type k u w free in
        let (w₂, created, pids₂, recs₂) = laws.creates u d w₁ fine in
        let pids : (j : String)
            → store.get_pid pid_type j w₂
              ≡ (if j == k then some u else store.get_pid pid_type j w) =
          λ j. pids₂ pid_type j ∙ (pids₁ pid_type j ∙ ground arith) in
        let recs : (x : ℕ)
            → store.get_record x w₂ ≡ (if x == u then some d else store.get_record x w) =
          λ x. ground (arith, recs₂ x, recs₁ x) in
        (
          w₂,
          rw (named, shown) (rw (minted) (rw created refl)),
          Together-Puts store pid_type w w₂ k u paired
              (λ j e. absurd (ground (arith, laws.fresh pid_type j u w e))) (some u) (some d) pids
              recs (inl (refl, (d, refl))),
          ground (arith, pids k),
        )

    pub delete_entry-Puts :
        (k : String) (u : ℕ) (w : W)
        → store.get_pid pid_type k w ≡ some u
        → IsPaired store pid_type w
        → (w' : W) × (delete_entry store str pid_type (record { pid_value = k; object_uuid = u }) w
            ≡ (ok tt, w'))
          × Puts store pid_type k none w w'
    unfolding delete_entry
    delete_entry-Puts k u w here paired =
        let (d, found) = paired.whole k u here in
        let (pids₁, recs₁) = laws.removes u w in
        let w₁ = store.remove u w in
        let (pids₂, recs₂) = laws.drops pid_type k w₁ in
        let still : store.get_pid pid_type k w₁ ≡ some u = pids₁ pid_type k ∙ here in
        (
          store.drop_pid pid_type k w₁,
          rw (found, delete_entry) (rw (still, unregister) refl),
          Together-Puts store pid_type w (store.drop_pid pid_type k w₁) k u paired
              (λ j e. paired.apart j k u e here) none none
              (λ j. pids₂ pid_type j ∙ ground (arith, pids₁ pid_type j)) (λ x. recs₂ x ∙ recs₁ x)
              (inr (refl, refl)),
        )
