-- ===== src/Fixtures/Load/Refines.antt =====
-- Loading documents and glossary terms (cernopendata/modules/fixtures/cli.py) against the reference
-- of Load/Catalog.
use mathlib.Core.Path.{fun_ext}
use cernopendata_portal.Base.{
  String, ◌≡◌, refl, Bool, true, none, some, List, [], ◌∷◌, string_eq, nat_eq, ℕ, Option-cases,
  Bool-cases, inl, inr,
}
use cernopendata_portal.Base.Result.{Result, ok, ◌>>=◌}
use cernopendata_portal.Json.{Value, text, Fields, truthy}
use cernopendata_portal.Json.Dict.{lookup, insert}
use cernopendata_portal.Fixtures.Store.{Store, IsStore}
use cernopendata_portal.Fixtures.Entries.{or_raise, create_entry, update_entry}
use cernopendata_portal.Fixtures.Load.{
  Mode, only_insert, replace, insert_or_replace, insert_or_skip, delete, delete_or_skip, Statistics,
  was_inserted, was_updated, was_deleted, count, Handlers, simple_handlers, done, settle,
  commit_entry, when_missing, when_present, attempt_of, after_update, after_delete, process_entry,
  process_entries,
}
use cernopendata_portal.Fixtures.Load.Catalog.{
  Catalog, put, load_one, load_all, content_of, view, IsPaired, Puts,
}
use cernopendata_portal.Fixtures.Load.Written.{
  Keeps-Puts, Puts-twice, settle-Puts, create_entry-Puts, delete_entry-Puts,
}

module _ {W : Type 0} (store : Store W) (valid : Fields → Bool) (laws : IsStore store valid)
    (pid_type : String) where
  module _ (str : Value → String) (key schema : String)
      (load : Fields → Result (Fields × Value)) where
    abbrev handlers : Handlers W
    handlers = simple_handlers store str pid_type key load

    -- What an entry of a file is loaded as: the content that is written, under its identifier.
    abbrev pub IsLoaded : Fields → String × Fields → Type 0
    IsLoaded raw (k, d) =
        (content : Fields) × (v : Value) × (load raw ≡ ok (content, v))
        × (truthy v ≡ true)
        × (str v ≡ k)
        × (insert "$schema" (text schema) content ≡ d)
        × (lookup key d ≡ some v)
        × (valid d ≡ true)

    -- A load that returned with the statistics and the catalog of a reference.
    abbrev pub Answers : Bool × Statistics × Catalog → Result (Bool × Statistics × W) → Type 0
    Answers r q =
        (w' : W) × (q ≡ ok (r.0, r.1, w'))
        × (view store pid_type w' ≡ r.2)
        × IsPaired store pid_type w'

    inserting :
        (k : String) (v : Value) (d : Fields) (s : Statistics) (w : W)
        → lookup key d ≡ some v
        → str v ≡ k
        → store.get_pid pid_type k w ≡ none
        → valid d ≡ true
        → IsPaired store pid_type w
        → Answers
            (true, count was_inserted s, put k (some d) (view store pid_type w))
            ((create_entry store str pid_type key d w >>= λ made.
                ok (done was_inserted (some made.0) made.1))
              >>= λ a. settle store str handlers schema a s w)
    inserting k v d s w named shown free fine paired =
        let (w₁, created, put₁, here) =
          create_entry-Puts store valid laws pid_type str key schema load k v d w named shown free
            fine paired in
        let (w₂, settled, put₂) =
          settle-Puts store valid laws pid_type str key schema load was_inserted k
            (store.new_uuid w) d s w₁ w here fine put₁.1 in
        let (shown', paired') =
          Puts-twice store valid laws pid_type k (some d) (some d) w w₁ w₂ put₁ put₂ in
        (w₂, rw created settled, fun_ext shown', paired')

    updating :
        (k : String) (u : ℕ) (d : Fields) (s : Statistics) (w : W)
        → store.get_pid pid_type k w ≡ some u
        → valid d ≡ true
        → IsPaired store pid_type w
        → Answers
            (true, count was_updated s, put k (some d) (view store pid_type w))
            (settle store str handlers schema (done was_updated (some (u, d)) w) s w)
    updating k u d s w here fine paired =
        let (w₂, settled, (shown, paired')) =
          settle-Puts store valid laws pid_type str key schema load was_updated k u d s w w here
            fine paired in
        (w₂, settled, fun_ext shown, paired')

    deleting :
        (k : String) (u : ℕ) (s : Statistics) (w w₁ : W)
        → Puts store pid_type k none w w₁
        → Answers
            (true, count was_deleted s, put k none (view store pid_type w))
            (settle store str handlers schema (done was_deleted none w₁) s w)
    unfolding settle commit_entry
    deleting k u s w w₁ gone =
        let (w₂, committed, pids₂, recs₂) = laws.commits w₁ in
        let (shown, paired') =
          Keeps-Puts store valid laws pid_type k none w w₁ w₂ gone pids₂ recs₂ in
        (w₂, rw (committed, settle, commit_entry) refl, fun_ext shown, paired')

    missing-Answers :
        (mode : Mode) (k : String) (v : Value) (d : Fields) (s : Statistics) (w : W)
        → lookup key d ≡ some v
        → str v ≡ k
        → store.get_pid pid_type k w ≡ none
        → valid d ≡ true
        → IsPaired store pid_type w
        → Answers (load_one mode k d none s (view store pid_type w)) (
            when_missing store str handlers schema mode d w >>= λ a.
            settle store str handlers schema a s w)
    unfolding load_one when_missing settle count simple_handlers
    missing-Answers only_insert k v d s w named shown free fine paired =
        inserting k v d s w named shown free fine paired
    missing-Answers insert_or_replace k v d s w named shown free fine paired =
        inserting k v d s w named shown free fine paired
    missing-Answers insert_or_skip k v d s w named shown free fine paired =
        inserting k v d s w named shown free fine paired
    missing-Answers replace k v d s w named shown free fine paired = (w, refl, refl, paired)
    missing-Answers delete k v d s w named shown free fine paired = (w, refl, refl, paired)
    missing-Answers delete_or_skip k v d s w named shown free fine paired = (w, refl, refl, paired)

    update_entry-eq :
        (k : String) (u : ℕ) (d old : Fields) (w : W)
        → store.get_record u w ≡ some old
        → update_entry store str (record { pid_value = k; object_uuid = u }) d w ≡ ok ((u, d), w)
    unfolding update_entry
    update_entry-eq k u d old w found = rw (found, or_raise) refl

    present-Answers :
        (mode : Mode) (k : String) (u : ℕ) (d old : Fields) (s : Statistics) (w : W)
        → store.get_pid pid_type k w ≡ some u
        → store.get_record u w ≡ some old
        → valid d ≡ true
        → IsPaired store pid_type w
        → Answers (load_one mode k d (some old) s (view store pid_type w)) (
            when_present store str handlers schema mode d
              (record { pid_value = k; object_uuid = u })
              w
            >>= λ a. settle store str handlers schema a s w)
    unfolding load_one when_present settle count simple_handlers
    present-Answers only_insert k u d old s w here found fine paired = (w, refl, refl, paired)
    present-Answers insert_or_skip k u d old s w here found fine paired = (w, refl, refl, paired)
    present-Answers replace k u d old s w here found fine paired =
        rw (update_entry-eq k u d old w found, after_update) (updating k u d s w here fine paired)
    present-Answers insert_or_replace k u d old s w here found fine paired =
        rw (update_entry-eq k u d old w found, after_update) (updating k u d s w here fine paired)
    present-Answers delete k u d old s w here found fine paired =
        let (w₁, gone, puts) =
          delete_entry-Puts store valid laws pid_type str key schema load k u w here paired in
        rw (gone, after_delete) (deleting k u s w w₁ puts)
    present-Answers delete_or_skip k u d old s w here found fine paired =
        let (w₁, gone, puts) =
          delete_entry-Puts store valid laws pid_type str key schema load k u w here paired in
        rw (gone, after_delete) (deleting k u s w w₁ puts)

    process_entry-Answers :
        (mode : Mode) (raw : Fields) (k : String) (d : Fields) (s : Statistics) (w : W)
        → IsLoaded raw (k, d)
        → IsPaired store pid_type w
        → Answers
            (load_one mode k d (view store pid_type w k) s (view store pid_type w))
            (process_entry store str handlers schema mode raw s w)
    unfolding process_entry content_of simple_handlers
    process_entry-Answers mode raw k d s w (content, v, loads, real, shown, dressed, named, fine)
          paired =
        rw (loads) (
          rw (real, shown, dressed)
            (elim (Option-cases (store.get_pid pid_type k w)) [
              | inl free ↦
                  rw (free, attempt_of, content_of)
                    (missing-Answers mode k v d s w named shown free fine paired)
              | inr (u, here) ↦
                  let (old, found) = paired.whole k u here in
                  rw (here, attempt_of, content_of)
                    (rw found (present-Answers mode k u d old s w here found fine paired))
            ]))

    abbrev AllLoaded : List Fields → List (String × Fields) → Type 0
    AllLoaded [] [] = Unit
    AllLoaded (raw ∷ raws) (e ∷ es) = IsLoaded raw e × AllLoaded raws es
    AllLoaded _ _ = ⊥

    -- Loading documents or glossary terms in any mode, where the calls of the database do as
    -- documented and each entry loads and is valid, returns with the statistics of the reference
    -- on a catalog from identifiers to contents, stops where the reference stops, and leaves
    -- tables that stand for its catalog, in which each identifier still stands for a record of its
    -- own.
    pub process_entries-load_all :
        (mode : Mode) (raws : List Fields) (entries : List (String × Fields)) (s : Statistics)
        (w : W)
        → AllLoaded raws entries
        → IsPaired store pid_type w
        → Answers
            (load_all mode entries s (view store pid_type w))
            (process_entries store str handlers schema mode raws s w)
    unfolding process_entries load_all
    process_entries-load_all mode [] [] s w loaded paired = (w, refl, refl, paired)
    process_entries-load_all mode [] (_ ∷ es) s w loaded paired = elim loaded [ ]
    process_entries-load_all mode (raw ∷ raws) [] s w loaded paired = elim loaded [ ]
    process_entries-load_all mode (raw ∷ raws) ((k, d) ∷ es) s w (first, loaded) paired =
        let next = load_one mode k d (view store pid_type w k) s (view store pid_type w) in
        let (w₁, did, shown, paired₁) = process_entry-Answers mode raw k d s w first paired in
        rw (did, ← shown)
          (elim (Bool-cases next.0) [
            | inl on ↦ rw on (process_entries-load_all mode raws es next.1 w₁ loaded paired₁)
            | inr off ↦ rw off (w₁, refl, refl, paired₁)
          ])
