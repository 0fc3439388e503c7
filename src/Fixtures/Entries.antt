-- ===== src/Fixtures/Entries.antt =====
-- Creating, updating and deleting one entry (cernopendata/modules/fixtures/cli.py) and the minters
-- that it calls (cernopendata/modules/records/minters).
use cernopendata_portal.Base.{
  ℕ, String, ◌<>◌, Bool, Option, none, some, [], ◌∷◌, string_eq, contains, ◌&&◌, if◌then◌else◌,
}
use cernopendata_portal.Base.Result.{Exn, Result, ok, raise, attribute_error, ◌>>=◌, or_key_error}
use cernopendata_portal.Json.{Value, text, obj, Fields, end, field}
use cernopendata_portal.Json.Dict.{lookup, insert, has_key}
use cernopendata_portal.Fixtures.Store.{Store, Pid, pid_missing, no_result}

-- A record as it is in memory: its UUID and its content.
abbrev pub Pending : Type 0
Pending = ℕ × Fields

abbrev pub or_raise : {A : Type 0} → Exn → Option A → Result A
or_raise e none = raise e
or_raise e (some a) = ok a

-- `d.update(new)`
unfoldable pub updated : Fields → Fields → Fields
updated d end = d
updated d (field k v new) = updated (insert k v d) new

-- The keys of a record that an update keeps.
unfoldable pub retained : Bool → Fields → Fields
retained skip_files end = end
retained skip_files (field k v d) =
    let rest = retained skip_files d in
    let files = contains k ("files" ∷ "_files" ∷ "file_indices" ∷ "_file_indices" ∷ []) in
    if contains k ("_bucket" ∷ "pids" ∷ [])
    then field k v rest
    else if skip_files && files
    then field k v rest
    else rest

-- `str`, of a value that stands for an identifier, is a parameter.
module _ {W : Type 0} (store : Store W) (str : Value → String) where
  -- `cernopendata_docid_minter` and `cernopendata_termid_minter`: the type and the key differ.
  unfoldable pub mint_key : String → String → ℕ → Fields → W → Result W
  mint_key pid_type key uuid content w = do
    value ← or_key_error key (lookup key content)
    store.mint pid_type (str value) uuid w

  -- `create_doc` and `create_glossary_term`
  unfoldable pub create_entry : String → String → Fields → W → Result (Pending × W)
  unfolding mint_key
  create_entry pid_type key content w = do
    w₁ ← mint_key pid_type key (store.new_uuid w) content w
    w₂ ← store.create (store.new_uuid w) content w₁
    ok ((store.new_uuid w, content), w₂)

  -- `update_doc_or_glossary`: all keys are deleted before those of the data are set.
  unfoldable pub update_entry : Pid → Fields → W → Result (Pending × W)
  update_entry pid content w = do
    old ← or_raise no_result (store.get_record pid.object_uuid w)
    ok ((pid.object_uuid, content), w)

  -- `PersistentIdentifier.get` and `db.session.delete`, in a call that may raise after a change.
  abbrev pub unregister : String → String → W → Result (Unit {0}) × W
  unregister pid_type value w = elim (store.get_pid pid_type value w) [
    | none ↦ (raise pid_missing, w)
    | some u ↦ (ok tt, store.drop_pid pid_type value w)
  ]

  -- `delete_doc_or_glossary`
  unfoldable pub delete_entry : String → Pid → W → Result (Unit {0}) × W
  delete_entry pid_type pid w = elim (store.get_record pid.object_uuid w) [
    | none ↦ (raise no_result, w)
    | some old ↦ unregister pid_type pid.pid_value (store.remove pid.object_uuid w)
  ]

  abbrev pub oai_id : String → String
  oai_id recid = "oai:cernopendata.cern:" <> recid

  -- `cernopendata_recid_minter`: the data with its `pids`.
  unfoldable pub mint_recid : ℕ → Fields → W → Result (Fields × W)
  mint_recid uuid content w =
      let recid =
        if has_key "id" content
        then or_key_error "id" (lookup "id" content)
        else or_key_error "recid" (lookup "recid" content) in
      do
        value ← recid
        w₁ ← store.mint "recid" (str value) uuid w
        w₂ ← store.mint "oai" (oai_id (str value)) uuid w₁
        let oai = field "oai" (obj (field "id" (text (oai_id (str value))) end)) end in
            ok (insert "pids" (obj oai) content, w₂)

  -- `_handle_record_files` on the record and the data, and the removal of the files of a record
  -- with its file indices.
  module _ (handle_files : ℕ → Fields → Fields → W → Result ((Fields × Fields) × W))
      (remove_files : ℕ → W → W) where
    -- `create_record`
    unfoldable pub create_record : Bool → Fields → W → Result (Pending × W)
    unfolding mint_recid
    create_record skip_files content w = do
      minted ← mint_recid (store.new_uuid w) content w
      w₂ ← store.create (store.new_uuid w) minted.0 minted.1
      if skip_files
          then ok ((store.new_uuid w, minted.0), w₂)
          else (handle_files (store.new_uuid w) minted.0 minted.0 w₂ >>= λ done.
              ok ((store.new_uuid w, done.0.0), done.1))

    -- `update_record`
    unfoldable pub update_record : Bool → Pid → Fields → W → Result (Pending × W)
    unfolding retained updated
    update_record skip_files pid content w = do
      old ← or_raise no_result (store.get_record pid.object_uuid w)
      let new = updated (retained skip_files old) content in
          if skip_files
          then ok ((pid.object_uuid, new), w)
          else (handle_files pid.object_uuid new content (remove_files pid.object_uuid w)
              >>= λ done. store.commit done.1 >>= λ w'.
                  ok ((pid.object_uuid, updated done.0.0 done.0.1), w'))

    -- `delete_record`. For a missing record it logs an error, to a logger that no caller gives it.
    unfoldable pub delete_record : String → Pid → W → Result (Unit {0}) × W
    delete_record pid_type pid w = elim (store.get_record pid.object_uuid w) [
      | none ↦ (raise attribute_error, w)
      | some old ↦
          let (first, w₁) =
            unregister pid_type pid.pid_value
              (store.remove pid.object_uuid (remove_files pid.object_uuid w)) in
          elim first [ raise e ↦ (raise e, w₁) | ok _ ↦ unregister "oai" (oai_id pid.pid_value) w₁ ]
    ]
