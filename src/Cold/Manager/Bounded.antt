-- ===== src/Cold/Manager/Bounded.antt =====
-- The transfers of a call of ColdStorageManager._move_record (cold_storage/manager.py).
use mathlib.Core.List.{append-nil, append_assoc}
use cernopendata_portal.Base.{
  ℕ, ◌≤◌, ◌<◌, String, ◌≡◌, refl, sym, ◌∙◌, ap, subst, Bool, false, not, Option, none, some, List,
  [], ◌∷◌, ◌++◌, arith, length, length-append, leb, ◌==◌, nat_eq, ◌&&◌, ◌||◌, if◌then◌else◌,
  string_eq,
}
use cernopendata_portal.Base.Result.{ok, ◌>>=◌, >>=-eq-ok, ok-injective, branch}
use cernopendata_portal.Cold.Model.{Action, File, Transfer, Store, Site, Entry}
use cernopendata_portal.Cold.Catalog.{
  Limit, update_file, add_copy, reindex_from, reindex_entries, get_files_from_record,
}
use cernopendata_portal.Cold.Storage.{find_url}
use cernopendata_portal.Cold.Manager.{
  Moved, is_qos, is_scheduled, new_transfer, is_registered, source_of, issue, start_transfer,
  move_to, move_record_file, move_files, move_record,
}

module _ {W : Type 0} where
  add_copy-transfers :
      (uuid file_id : String) (action : Action) (name : String) (s : Store W) (r : Bool × Store W)
      → add_copy uuid file_id action name s ≡ ok r
      → r.1.transfers ≡ s.transfers
  unfolding add_copy update_file
  add_copy-transfers uuid file_id action name s r h = ground (arith, h)

  reindex_from-transfers :
      (site : Site W) (uuids : List String) (s s' : Store W)
      → reindex_from site uuids s ≡ ok s'
      → s'.transfers ≡ s.transfers
  unfolding reindex_from
  reindex_from-transfers site [] s s' h = rw (← ok-injective h) refl
  reindex_from-transfers site (uuid ∷ uuids) s s' h =
      let (w, e, q) = >>=-eq-ok (site.reindex uuid s.versions s.outside) _ h in
      reindex_from-transfers site uuids (record s { outside = w }) s' q

module _ {W : Type 0} (site : Site W) where
  -- What a step records is what it reports.
  abbrev Records : Store W → Moved × Store W → Type 0
  Records s r = r.1.transfers ≡ s.transfers ++ new_transfer r.0

  issue-Records :
      (uuid : String) (file : File) (action : Action) (dest manager : String) (s : Store W)
      → (answer : Option String × W) → Records s (issue site uuid file action dest manager s answer)
  unfolding issue
  issue-Records uuid file action dest manager s (none, w) = sym (append-nil s.transfers)
  issue-Records uuid file action dest manager s (some id, w) = refl

  start_transfer-Records :
      (uuid : String) (file : File) (action : Action) (source dest manager : String) (s : Store W)
      → (r : Moved × Store W) → start_transfer site uuid file action source dest manager s ≡ ok r
      → Records s r
  unfolding start_transfer
  start_transfer-Records uuid file action source dest manager s r h =
      let (answer, e, q) = >>=-eq-ok (site.start action manager source dest s.outside) _ h in
      subst (Records s) (ok-injective q) (issue-Records uuid file action dest manager s answer)

  move_to-Records :
      (uuid : String) (file : File) (action : Action) (register force dry : Bool) (source : String)
      → (s : Store W) (found : Option (String × String)) (r : Moved × Store W)
      → move_to site uuid file action register force dry source s found ≡ ok r
      → Records s r
  unfolding move_to
  move_to-Records uuid file action register force dry source s none r h =
      subst (Records s) (ok-injective h) (sym (append-nil s.transfers))
  move_to-Records uuid file action register force dry source s (some (dest, manager)) r h =
      branch (dest == "") _ _ h
        (λ _ k. subst (Records s) (ok-injective k) (sym (append-nil s.transfers)))
        (λ _ k.
          let (exists, _, q) =
            >>=-eq-ok
              (if force then ok false else site.verify_file dest file.size file.checksum s.outside)
              _ k in
          branch exists _ _ q
            (λ _ q'.
              branch register _ _ q'
                (λ _ q''.
                  let (a, e, p) = >>=-eq-ok (add_copy uuid file.file_id action dest s) _ q'' in
                  subst (Records s) (ok-injective p) (
                    add_copy-transfers uuid file.file_id action dest s a e
                    ∙ sym (append-nil s.transfers)))
                (λ _ q''. subst (Records s) (ok-injective q'') (sym (append-nil s.transfers))))
            (λ _ q'.
              branch dry _ _ q'
                (λ _ q''. subst (Records s) (ok-injective q'') (sym (append-nil s.transfers)))
                (λ _ q''. start_transfer-Records uuid file action source dest manager s r q'')))

  move_record_file-Records :
      (uuid : String) (file : File) (action : Action) (register force dry : Bool)
      → (s : Store W) (r : Moved × Store W)
      → move_record_file site uuid file action register force dry s ≡ ok r
      → Records s r
  unfolding move_record_file
  move_record_file-Records uuid file action register force dry s r h =
      branch (is_qos file action) _ _ h
        (λ _ q. subst (Records s) (ok-injective q) (sym (append-nil s.transfers)))
        (λ _ q.
          branch (is_scheduled file.file_id action s.transfers) _ _ q
            (λ _ q'. subst (Records s) (ok-injective q') (sym (append-nil s.transfers)))
            (λ _ q'.
              let (source, e, p) = >>=-eq-ok (source_of action file) _ q' in
              move_to-Records uuid file action register force dry source s
                (find_url site.locations action source) r p))

  -- The transfers that a run of the loop adds, and their number, given what was issued before.
  abbrev Added : ℕ → List Transfer → Store W → List Transfer × Bool × Store W → Type 0
  Added most ts s r =
      (new : List Transfer) × (r.0 ≡ ts ++ new)
      × (r.2.transfers ≡ s.transfers ++ new)
      × (length ts < most → length r.0 ≤ most)

  length-new_transfer : (m : Moved) → length (new_transfer m) ≤ 1
  length-new_transfer m = ground arith

  move_files-Added :
      (uuid : String) (action : Action) (register force dry : Bool) (most : ℕ) (fs : List File)
      → (ts : List Transfer) (any : Bool) (s : Store W) (r : List Transfer × Bool × Store W)
      → move_files site uuid action register force dry most fs (ts, any) s ≡ ok r
      → Added most ts s r
  unfolding move_files
  move_files-Added uuid action register force dry most [] ts any s r h =
      subst (Added most ts s) (ok-injective h)
        ([], sym (append-nil ts), sym (append-nil s.transfers), λ l. omega (arith, l))
  move_files-Added uuid action register force dry most (f ∷ fs) ts any s r h =
      let (moved, e, q) =
        >>=-eq-ok (move_record_file site uuid f action register force dry s) _ h in
      let ts' = ts ++ new_transfer moved.0 in
      let any' = any || is_registered moved.0 in
      let recorded = move_record_file-Records uuid f action register force dry s moved e in
      let longer = length-append ts (new_transfer moved.0) in
      branch (not (most == 0) && leb most (length ts')) _ _ q
        (λ _ q'. subst (Added most ts s) (ok-injective q') (
          new_transfer moved.0,
          refl,
          recorded,
          λ l. omega (arith, l, longer, length-new_transfer moved.0),
        ))
        (λ more q'.
          let (new, whole, table, bound) =
            move_files-Added uuid action register force dry most fs ts' any' moved.1 r q' in
          (
            new_transfer moved.0 ++ new,
            whole ∙ append_assoc ts (new_transfer moved.0) new,
            table
                ∙ (ap (λ xs. xs ++ new) recorded
                    ∙ append_assoc s.transfers (new_transfer moved.0) new),
            λ l. bound (ground (arith, more, l)),
          ))

  -- A call of the manager on a record that returns adds to the table exactly the transfers that it
  -- returns, and no more than the maximum, if that is not zero.
  pub move_record-Added :
      (uuid : String) (limit : Option Limit) (action : Action) (register force dry : Bool)
      (most : ℕ)
      → (file : Option String) (s : Store W) (r : List Transfer × Store W)
      → move_record site uuid limit action register force dry most file s ≡ ok r
      → (r.1.transfers ≡ s.transfers ++ r.0) × (0 < most → length r.0 ≤ most)
  unfolding move_record reindex_entries
  move_record-Added uuid limit action register force dry most file s r h =
      go (site.get_record uuid s.outside) refl
    where
      found :
          (e : Entry) (r' : List Transfer × Bool × Store W)
          → move_files site e.id action register force dry most
              (get_files_from_record e limit file)
              ([], false)
              s
            ≡ ok r'
          → ((if r'.1 then reindex_entries site r'.2 else ok r'.2) >>= λ s'. ok (r'.0, s')) ≡ ok r
          → (r.1.transfers ≡ s.transfers ++ r.0) × (0 < most → length r.0 ≤ most)
      found e r' p q =
          let (new, whole, table, bound) =
            move_files-Added e.id action register force dry most
              (get_files_from_record e limit file) [] false s r' p in
          let (s', e', q') = >>=-eq-ok (if r'.1 then reindex_entries site r'.2 else ok r'.2) _ q in
          let kept : s'.transfers ≡ r'.2.transfers =
            branch r'.1 _ _ e' (λ _ k. reindex_from-transfers site r'.2.queue r'.2 s' k)
              (λ _ k. ap (λ x. x.transfers) (sym (ok-injective k))) in
          subst (λ x. (x.1.transfers ≡ s.transfers ++ x.0) × (0 < most → length x.0 ≤ most))
            (ok-injective q') ((kept ∙ table) ∙ ap (λ xs. s.transfers ++ xs) (sym whole), bound)

      go :
          (e : Option Entry)
          → site.get_record uuid s.outside ≡ e
          → (r.1.transfers ≡ s.transfers ++ r.0) × (0 < most → length r.0 ≤ most)
      go none e =
          subst (λ x. (x.1.transfers ≡ s.transfers ++ x.0) × (0 < most → length x.0 ≤ most))
            (ok-injective (rw (e, move_record) at h))
            (sym (append-nil s.transfers), λ _. omega arith)
      go (some x) e =
          let (r', p, q) =
            >>=-eq-ok
              (move_files site x.id action register force dry most
                (get_files_from_record x limit file) ([], false) s)
              _ (rw (e, move_record) at h) in
          found x r' p q
