-- ===== src/Cold/Manager.antt =====
-- cernopendata/cold_storage/manager.py, and the two functions of storage.py and the queries of api.py
-- that it calls.
pub mod Bounded
use cernopendata_portal.Base.{
  ℕ, zero, suc, String, Bool, true, false, not, Option, none, some, List, [], ◌∷◌, ◌++◌, ◌==◌,
  string_eq, nat_eq, ◌&&◌, ◌||◌, if◌then◌else◌, is_some, leb, length,
}
use cernopendata_portal.Base.Result.{
  Result, ok, raise, key_error, attribute_error, or_key_error, ◌>>=◌,
}
use cernopendata_portal.Cold.Model.{
  Action, stage, archive, clear_hot, action_eq, File, Entry, Transfer, unknown, Store, Site,
}
use cernopendata_portal.Cold.Catalog.{
  Limit, get_files_from_record, add_copy, mark_hot_deleted, reindex_entries,
}
use cernopendata_portal.Cold.Storage.{find_url}

-- `_is_qos`
unfoldable pub is_qos : File → Action → Bool
is_qos file archive = is_some file.uri_cold
is_qos file _ = not file.hot_deleted

-- `Transfer.is_scheduled`
unfoldable pub is_scheduled : String → Action → List Transfer → Bool
is_scheduled file_id action [] = false
is_scheduled file_id action (t ∷ ts) =
    (t.action == action && (t.file_id == file_id && not t.finished))
    || is_scheduled file_id action ts

-- What becomes of a file.
pub data Moved : Type 0 where
  already scheduled error registered to_register dry_run : Moved
  created : Transfer → Moved

-- What a file is copied from.
abbrev source_of : Action → File → Result String
source_of stage file = or_key_error "uri_cold" file.uri_cold
source_of _ file = ok file.uri

abbrev pub new_transfer : Moved → List Transfer
new_transfer (created t) = t ∷ []
new_transfer _ = []

abbrev pub is_registered : Moved → Bool
is_registered registered = true
is_registered _ = false

module _ {W : Type 0} (site : Site W) where
  -- `Transfer.create`, if the transfer manager gave an id.
  unfoldable pub issue :
      String → File → Action → String → String → Store W → Option String × W → Moved × Store W
  issue uuid file action dest manager s (none, w) = (error, record s { outside = w })
  issue uuid file action dest manager s (some id, w) =
      let t : Transfer = record {
        action = action;
        new_filename = dest;
        record_uuid = uuid;
        file_id = file.file_id;
        method = manager;
        method_id = id;
        finished = false;
        status = unknown;
        reason = none;
        size = file.size;
      } in
      (created t, record s { transfers = s.transfers ++ (t ∷ []); outside = w })

  -- `Storage.archive` and `Storage.stage`: they look the URL up again, which gives the same.
  unfoldable pub start_transfer :
      String → File → Action → String → String → String → Store W → Result (Moved × Store W)
  unfolding issue
  start_transfer uuid file action source dest manager s =
      site.start action manager source dest s.outside >>= λ answer.
      ok (issue uuid file action dest manager s answer)

  -- `_move_record_file` from the URL of the copy on.
  unfoldable pub move_to :
      String
      → File
      → Action
      → Bool
      → Bool
      → Bool
      → String
      → Store W
      → Option (String × String)
      → Result (Moved × Store W)
  unfolding start_transfer
  move_to uuid file action register force dry source s none = ok (error, s)
  move_to uuid file action register force dry source s (some (dest, manager)) =
      if dest == ""
      then ok (error, s)
      else ((if force then ok false else site.verify_file dest file.size file.checksum s.outside)
          >>= λ exists.
              if exists
              then (if register
                  then (add_copy uuid file.file_id action dest s >>= λ r. ok (registered, r.1))
                  else ok (to_register, s))
              else if dry
              then ok (dry_run, s)
              else start_transfer uuid file action source dest manager s)

  unfoldable pub move_record_file :
      String → File → Action → Bool → Bool → Bool → Store W → Result (Moved × Store W)
  unfolding is_qos is_scheduled find_url move_to
  move_record_file uuid file action register force dry s =
      if is_qos file action
      then ok (already, s)
      else if is_scheduled file.file_id action s.transfers
      then ok (scheduled, s)
      else (source_of action file >>= λ source.
          move_to uuid file action register force dry source s
            (find_url site.locations action source))

  -- The loop of `_move_record`: the transfers so far, and whether a copy was registered. A maximum
  -- of zero is none.
  unfoldable pub move_files :
      String
      → Action
      → Bool
      → Bool
      → Bool
      → ℕ
      → List File
      → List Transfer × Bool
      → Store W
      → Result (List Transfer × Bool × Store W)
  move_files uuid action register force dry max_transfers [] (ts, any) s = ok (ts, any, s)
  move_files uuid action register force dry max_transfers (f ∷ fs) (ts, any) s =
      move_record_file uuid f action register force dry s >>= λ moved.
      let ts' = ts ++ new_transfer moved.0 in
      let any' = any || is_registered moved.0 in
      if not (max_transfers == 0) && leb max_transfers (length ts')
      then ok (ts', any', moved.1)
      else move_files uuid action register force dry max_transfers fs (ts', any') moved.1

  -- `_move_record`
  unfoldable pub move_record :
      String
      → Option Limit
      → Action
      → Bool
      → Bool
      → Bool
      → ℕ
      → Option String
      → Store W
      → Result (List Transfer × Store W)
  unfolding get_files_from_record reindex_entries
  move_record uuid limit action register force dry max_transfers file s =
      elim (site.get_record uuid s.outside) [
        | none ↦ ok ([], s)
        | some r ↦
            move_files r.id action register force dry max_transfers
              (get_files_from_record r limit file) ([], false) s
            >>= λ moved. (if moved.1 then reindex_entries site moved.2 else ok moved.2) >>= λ s'.
                ok (moved.0, s')
      ]

  -- The loop of `clear_hot`: the last answer of the catalog, or `none` where the loop was left
  -- because a file could not be cleared.
  unfoldable pub clear_files :
      Entry → Bool → Bool → List File → Bool → Store W → Result (Option Bool × Store W)
  unfolding is_qos mark_hot_deleted
  clear_files r force dry [] cleared s = ok (some cleared, s)
  clear_files r force dry (f ∷ fs) cleared s =
      let s₁ : Store W = if dry then s else record s { outside = site.remove f.uri s.outside } in
      if not (is_qos f archive) || not (is_qos f stage)
      then clear_files r force dry fs cleared s
      else (mark_hot_deleted r.id f.file_id force s₁ >>= λ answer.
          if answer.0 then clear_files r force dry fs true answer.1 else ok (none, answer.1))

  -- `clear_hot`: whether a file was cleared.
  unfoldable pub clear_hot_files :
      String → Option Limit → Bool → Bool → Option String → Store W → Result (Bool × Store W)
  unfolding get_files_from_record clear_files reindex_entries
  clear_hot_files uuid limit force dry file s = elim (site.get_record uuid s.outside) [
    | none ↦ ok (false, s)
    | some r ↦ clear_files r force dry (get_files_from_record r limit file) false s >>= λ answer.
        elim answer.0 [
          | none ↦ ok (false, answer.1)
          | some cleared ↦
              if cleared
              then (reindex_entries site answer.1 >>= λ s'. ok (true, s'))
              else ok (false, answer.1)
        ]
  ]
