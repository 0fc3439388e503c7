-- ===== src/Fixtures/Load.antt =====
-- Loading the entries of files in one of the modes (`_process_fixture_files` of
-- cernopendata/modules/fixtures/cli.py).
pub mod Catalog
pub mod Written
pub mod Refines
use cernopendata_portal.Base.{
  ℕ, suc, ◌+◌, String, Bool, true, false, not, Option, none, some, List, [], ◌∷◌, ◌==◌, string_eq,
  if◌then◌else◌,
}
use cernopendata_portal.Base.Result.{Exn, foreign, Result, ok, raise, ◌>>=◌, or_key_error}
use cernopendata_portal.Json.{Value, bool, text, Fields, end, field, truthy}
use cernopendata_portal.Json.Dict.{lookup, insert}
use cernopendata_portal.Fixtures.Store.{Store, Pid}
use cernopendata_portal.Fixtures.Entries.{Pending, create_entry, update_entry, delete_entry}

pub data Mode : Type 0 where
  only_insert replace insert_or_replace insert_or_skip delete delete_or_skip : Mode

-- `MODE_OPTIONS`
unfoldable pub mode_of : String → Option Mode
mode_of s =
    if s == "insert"
    then some only_insert
    else if s == "replace"
    then some replace
    else if s == "insert-or-replace"
    then some insert_or_replace
    else if s == "insert-or-skip"
    then some insert_or_skip
    else if s == "delete"
    then some delete
    else if s == "delete-or-skip"
    then some delete_or_skip
    else none

pub record Statistics : Type 0 where
  pub inserted : ℕ
  pub updated : ℕ
  pub error : ℕ
  pub skipped : ℕ
  pub deleted : ℕ

abbrev pub no_statistics : Statistics
no_statistics = record { inserted = 0; updated = 0; error = 0; skipped = 0; deleted = 0 }

abbrev pub add_error : Statistics → Statistics
add_error s = record s { error = suc s.error }

pub data LoadAction : Type 0 where
  was_inserted was_updated was_deleted : LoadAction

unfoldable pub count : LoadAction → Statistics → Statistics
count was_inserted s = record s { inserted = suc s.inserted }
count was_updated s = record s { updated = suc s.updated }
count was_deleted s = record s { deleted = suc s.deleted }

-- The functions that a command gives for its type of entry.
pub record Handlers (W : Type 0) : Type 0 where
  pub pid_field : String
  pub load_entry : Fields → Result (Fields × Value)
  pub create : Fields → W → Result (Pending × W)
  pub update : Pid → Fields → W → Result (Pending × W)
  pub delete_object : Pid → W → Result (Unit {0}) × W

-- How the look at an entry ended: what is to be committed, or an end with the next entry or with the
-- whole load.
pub data Attempt (W : Type 0) : Type 0 where
  done : LoadAction → Option Pending → W → Attempt W
  skip : Attempt W
  go_on_error stop_error : W → Attempt W

abbrev is_pid_missing : Exn → Bool
is_pid_missing (foreign s) = s == "PIDDoesNotExistError"
is_pid_missing _ = false

module _ {W : Type 0} (store : Store W) (str : Value → String) (handlers : Handlers W)
    (schema : String) where
  -- The handler of `PIDDoesNotExistError`.
  unfoldable pub when_missing : Mode → Fields → W → Result (Attempt W)
  when_missing replace content w = ok (stop_error w)
  when_missing delete content w = ok (stop_error w)
  when_missing delete_or_skip content w = ok (go_on_error w)
  when_missing _ content w =
      handlers.create content w >>= λ made. ok (done was_inserted (some made.0) made.1)

  abbrev pub after_delete : Mode → Fields → Result (Unit {0}) × W → Result (Attempt W)
  after_delete mode content (ok _, w) = ok (done was_deleted none w)
  after_delete mode content (raise e, w) =
      if is_pid_missing e then when_missing mode content w else raise e

  abbrev pub after_update : Mode → Fields → W → Result (Pending × W) → Result (Attempt W)
  after_update mode content w (ok made) = ok (done was_updated (some made.0) made.1)
  after_update mode content w (raise e) =
      if is_pid_missing e then when_missing mode content w else raise e

  -- The body of the `try`, for an identifier that exists.
  unfoldable pub when_present : Mode → Fields → Pid → W → Result (Attempt W)
  unfolding when_missing
  when_present only_insert content pid w = ok (stop_error w)
  when_present insert_or_skip content pid w = ok skip
  when_present delete content pid w = after_delete delete content (handlers.delete_object pid w)
  when_present delete_or_skip content pid w =
      after_delete delete_or_skip content (handlers.delete_object pid w)
  when_present mode content pid w = after_update mode content w (handlers.update pid content w)

  -- `record.commit()` and `db.session.commit()`.
  unfoldable pub commit_entry : Option Pending → W → Result W
  commit_entry none w = store.commit w
  commit_entry (some (u, d)) w = store.save u d w >>= store.commit

  abbrev index_entry : Option Pending → W → Result W
  index_entry none w = ok w
  index_entry (some (u, d)) w = store.index u d w

  -- What becomes of an attempt: whether to go on, the statistics and the database.
  unfoldable pub settle : Attempt W → Statistics → W → Result (Bool × Statistics × W)
  unfolding commit_entry count
  settle skip s w = ok (true, record s { skipped = suc s.skipped }, w)
  settle (go_on_error w') s w = ok (true, add_error s, w')
  settle (stop_error w') s w = ok (false, add_error s, w')
  settle (done action pending w') s w = elim (commit_entry pending w') [
    | raise e ↦ ok (false, add_error s, w')
    | ok w₂ ↦ index_entry pending w₂ >>= λ w₃. ok (true, count action s, w₃)
  ]

  abbrev pub attempt_of : Mode → Fields → String → Option ℕ → W → Result (Attempt W)
  attempt_of mode content value none w = when_missing mode content w
  attempt_of mode content value (some u) w =
      when_present mode content (record { pid_value = value; object_uuid = u }) w

  unfoldable pub process_entry : Mode → Fields → Statistics → W → Result (Bool × Statistics × W)
  unfolding when_present when_missing settle
  process_entry mode raw s w = do
    loaded ← handlers.load_entry raw
    let content = insert "$schema" (text schema) loaded.0 in
        let value = str loaded.1 in
        let attempt = attempt_of mode content value (store.get_pid handlers.pid_field value w) w in
        if truthy loaded.1 then (attempt >>= λ a. settle a s w) else ok (true, s, w)

  unfoldable pub process_entries :
      Mode → List Fields → Statistics → W → Result (Bool × Statistics × W)
  unfolding process_entry
  process_entries mode [] s w = ok (true, s, w)
  process_entries mode (e ∷ es) s w = process_entry mode e s w >>= λ next.
      let (go_on, s', w') = next in
      if go_on then process_entries mode es s' w' else ok (false, s', w')

  -- `_process_fixture_files`, on the entries of each file.
  unfoldable pub process_files :
      Mode → List (List Fields) → Statistics → W → Result (Statistics × W)
  unfolding process_entries
  process_files mode [] s w = ok (s, w)
  process_files mode (file ∷ files) s w = process_entries mode file s w >>= λ next.
      let (go_on, s', w') = next in if go_on then process_files mode files s' w' else ok (s', w')

  unfoldable pub process_fixture_files :
      String → List (List Fields) → W → Result (Option Statistics × W)
  unfolding mode_of process_files
  process_fixture_files mode files w = elim (mode_of mode) [
    | none ↦ ok (none, w)
    | some m ↦ process_files m files no_statistics w >>= λ r. ok (some r.0, r.1)
  ]

-- The handlers of the glossary and of documents, which differ in the type of the identifier, its
-- key, and what loading an entry does.
unfoldable pub simple_handlers :
    {W : Type 0}
    → Store W
    → (Value → String)
    → String
    → String
    → (Fields → Result (Fields × Value))
    → Handlers W
unfolding create_entry update_entry delete_entry
simple_handlers store str pid_type key load = record {
  pid_field = pid_type;
  load_entry = load;
  create = create_entry store str pid_type key;
  update = update_entry store str;
  delete_object = delete_entry store str pid_type;
}

-- `load_record_data` and `load_glossary_data`
unfoldable pub load_record_data : Fields → Result (Fields × Value)
load_record_data end = ok (end, bool false)
load_record_data (field k v d) =
    or_key_error "recid" (lookup "recid" (field k v d)) >>= λ r. ok (field k v d, r)

unfoldable pub load_glossary_data : Fields → Result (Fields × Value)
load_glossary_data content =
    or_key_error "anchor" (lookup "anchor" content) >>= λ a. ok (content, a)
