-- ===== src/Fixtures/Load/Catalog.antt =====
-- What loading means for whoever looks entries up by their identifiers: the reference for
-- `_process_fixture_files` of cernopendata/modules/fixtures/cli.py.
use cernopendata_portal.Base.{
  ℕ, suc, String, ◌≡◌, refl, sym, ◌∙◌, Bool, true, false, Option, none, some, List, [], ◌∷◌, ◌==◌,
  string_eq, nat_eq, if◌then◌else◌, arith, Option-cases, Bool-cases, inl, inr, ◌⊎◌,
}
use cernopendata_portal.Json.{Fields}
use cernopendata_portal.Fixtures.Store.{Store, SetsRecord}
use cernopendata_portal.Fixtures.Load.{
  Mode, only_insert, replace, insert_or_skip, delete, delete_or_skip, Statistics, add_error,
}

-- The content under each identifier.
abbrev pub Catalog : Type 0
Catalog = String → Option Fields

abbrev pub put : String → Option Fields → Catalog → Catalog
put k o c = λ j. if j == k then o else c j

-- What one entry does: whether the load goes on, the statistics and the catalog.
unfoldable pub load_one :
    Mode → String → Fields → Option Fields → Statistics → Catalog → Bool × Statistics × Catalog
load_one only_insert k d (some _) s c = (false, add_error s, c)
load_one insert_or_skip k d (some _) s c = (true, record s { skipped = suc s.skipped }, c)
load_one delete k d (some _) s c = (true, record s { deleted = suc s.deleted }, put k none c)
load_one delete_or_skip k d (some _) s c =
    (true, record s { deleted = suc s.deleted }, put k none c)
load_one _ k d (some _) s c = (true, record s { updated = suc s.updated }, put k (some d) c)
load_one replace k d none s c = (false, add_error s, c)
load_one delete k d none s c = (false, add_error s, c)
load_one delete_or_skip k d none s c = (true, add_error s, c)
load_one _ k d none s c = (true, record s { inserted = suc s.inserted }, put k (some d) c)

unfoldable pub load_all :
    Mode → List (String × Fields) → Statistics → Catalog → Bool × Statistics × Catalog
unfolding load_one
load_all mode [] s c = (true, s, c)
load_all mode ((k, d) ∷ es) s c =
    let (go_on, s', c') = load_one mode k d (c k) s c in
    if go_on then load_all mode es s' c' else (false, s', c')

module _ {W : Type 0} (store : Store W) (pid_type : String) where
  unfoldable pub content_of : Option ℕ → W → Option Fields
  content_of none w = none
  content_of (some u) w = store.get_record u w

  -- The catalog that the tables of the database stand for.
  abbrev pub view : W → Catalog
  view w k = content_of (store.get_pid pid_type k w) w

  -- Each identifier stands for a record, and no two for the same one.
  pub record IsPaired (w : W) : Type 0 where
    pub whole :
        (k : String) (u : ℕ)
        → store.get_pid pid_type k w ≡ some u
        → (d : Fields) × (store.get_record u w ≡ some d)
    pub apart :
        (j k : String) (u : ℕ)
        → store.get_pid pid_type j w ≡ some u
        → store.get_pid pid_type k w ≡ some u
        → j ≡ k

  -- The database stands for the catalog with `o` under `k`, and is paired.
  abbrev pub Puts : String → Option Fields → W → W → Type 0
  Puts k o w w' = ((j : String) → view w' j ≡ put k o (view w) j) × IsPaired w'

  module _ (w w' : W) (k : String) (u : ℕ) (paired : IsPaired w)
      (only : (j : String) → store.get_pid pid_type j w ≡ some u → j ≡ k) where
    abbrev Pids : Option ℕ → Type 0
    Pids o =
        (j : String)
        → store.get_pid pid_type j w' ≡ (if j == k then o else store.get_pid pid_type j w)

    other :
        (o : Option Fields) (j : String) (x : ℕ)
        → SetsRecord store u o w w'
        → (j == k) ≡ false
        → store.get_pid pid_type j w ≡ some x
        → store.get_record x w' ≡ store.get_record x w
    other o j x recs differ e = elim (Bool-cases (x == u)) [
      | inl same ↦ absurd (ground (arith, differ, same, e, only j))
      | inr apart ↦ recs x ∙ (rw apart refl)
    ]

    -- The one identifier of `u` and its content are set, or taken away, together.
    abbrev Together : Option ℕ → Option Fields → Type 0
    Together p o = ((p ≡ some u) × ((d : Fields) × (o ≡ some d))) ⊎ ((p ≡ none) × (o ≡ none))

    content_of-Together :
        (p : Option ℕ) (o : Option Fields)
        → SetsRecord store u o w w'
        → Together p o
        → content_of p w' ≡ o
    unfolding content_of
    content_of-Together p o recs (inl (same, (d, e))) = rw same (recs u ∙ ground arith)
    content_of-Together p o recs (inr (gone, e)) = rw (gone, e) refl

    pid-cases :
        (p : Option ℕ) (j : String) (x : ℕ)
        → Pids p
        → store.get_pid pid_type j w' ≡ some x
        → ((j ≡ k) × (p ≡ some x)) ⊎ (((j == k) ≡ false) × (store.get_pid pid_type j w ≡ some x))
    pid-cases p j x pids e = elim (Bool-cases (j == k)) [
      | inl same ↦ inl (ground (arith, same), ground (arith, same, pids j, e))
      | inr differ ↦ inr (differ, ground (arith, differ, pids j, e))
    ]

    view-Together :
        (p : Option ℕ) (o : Option Fields)
        → Pids p
        → SetsRecord store u o w w'
        → Together p o
        → (j : String) → view w' j ≡ put k o (view w) j
    unfolding content_of
    view-Together p o pids recs together j = elim (Bool-cases (j == k)) [
      | inl same ↦
          let now : store.get_pid pid_type j w' ≡ p = ground (arith, same, pids j) in
          rw (now, same) (content_of-Together p o recs together)
      | inr differ ↦
          let now : store.get_pid pid_type j w' ≡ store.get_pid pid_type j w =
            ground (arith, differ, pids j) in
          rw (now, differ)
            (elim (Option-cases (store.get_pid pid_type j w)) [
              | inl free ↦ rw (free, content_of) refl
              | inr (x, e) ↦ rw (e, content_of) (other o j x recs differ e)
            ])
    ]

    pub Together-Puts :
        (p : Option ℕ) (o : Option Fields)
        → Pids p
        → SetsRecord store u o w w'
        → Together p o
        → Puts k o w w'
    Together-Puts p o pids recs together = (
      view-Together p o pids recs together,
      record {
        whole = λ j x e. elim (pid-cases p j x pids e) [
          | inl (same, now) ↦ whole_at p o j x recs together now
          | inr (differ, old) ↦
              let (d, found) = paired.whole j x old in (d, other o j x recs differ old ∙ found)
        ];
        apart = λ j j' x e e'. elim (pid-cases p j x pids e) [
          | inl (same, now) ↦ elim (pid-cases p j' x pids e') [
            | inl (same', now') ↦ same ∙ sym same'
            | inr (differ', old') ↦ same ∙ sym (only j' (is_u p o j' x together now old'))
          ]
          | inr (differ, old) ↦ elim (pid-cases p j' x pids e') [
            | inl (same', now') ↦ only j (is_u p o j x together now' old) ∙ sym same'
            | inr (differ', old') ↦ paired.apart j j' x old old'
          ]
        ];
      },
    )
      where
        is_u :
            (p : Option ℕ) (o : Option Fields) (j : String) (x : ℕ)
            → Together p o
            → p ≡ some x
            → store.get_pid pid_type j w ≡ some x
            → store.get_pid pid_type j w ≡ some u
        is_u p o j x (inl (same, _)) e old = ground (arith, same, e, old)
        is_u p o j x (inr (gone, _)) e old = absurd (ground (arith, gone, e))

        whole_at :
            (p : Option ℕ) (o : Option Fields) (j : String) (x : ℕ)
            → SetsRecord store u o w w'
            → Together p o
            → p ≡ some x
            → (d : Fields) × (store.get_record x w' ≡ some d)
        whole_at p o j x recs (inl (same, (d, e))) now = (d, ground (arith, same, now, e, recs x))
        whole_at p o j x recs (inr (gone, _)) now = absurd (ground (arith, gone, now))
