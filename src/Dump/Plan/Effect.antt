-- ===== src/Dump/Plan/Effect.antt =====
-- What a batch leaves in the two indices (cernopendata/tasks.py, `_process_batch`).
use cernopendata_portal.Base.{
  ℕ, String, ◌≡◌, refl, ap, Bool, true, false, not, Option, none, some, List, [], ◌∷◌, ◌++◌, ◌==◌,
  string_eq, map, is_some, if◌then◌else◌, ◌&&◌, ◌||◌, contains, All, arith, Bool-cases, inl, inr,
  ◌⊎◌,
}
use cernopendata_portal.Dump.Entry.{
  DumpEntry, Known, normalize_dump_path, normalize_dump_path-injective, transform_from_db,
  transform_dark_file,
}
use cernopendata_portal.Dump.Plan.{
  Info, Database, Change, index_mapping, delete_dark, index_dark, Hit, put_entry, dump_mapping,
  needs_db_check, changes_of, all_changes, plan_batch,
}

-- The files that are in the index of known files, and those in the index of dark files.
pub record Contents : Type 0 where
  pub known : String → Bool
  pub dark : String → Bool

unfoldable pub apply : Change → Contents → Contents
apply (index_mapping id doc) c = record c { known = λ q. q == doc.uri || c.known q }
apply (delete_dark id path) c = record c { dark = λ q. if q == path then false else c.dark q }
apply (index_dark id doc) c = record c { dark = λ q. q == doc.uri || c.dark q }

unfoldable pub apply_all : List Change → Contents → Contents
unfolding apply
apply_all [] c = c
apply_all (change ∷ changes) c = apply_all changes (apply change c)

apply_all-append :
    (xs ys : List Change) (c : Contents) → apply_all (xs ++ ys) c ≡ apply_all ys (apply_all xs c)
unfolding apply_all
apply_all-append [] ys c = refl
apply_all-append (x ∷ xs) ys c = apply_all-append xs ys (apply x c)

abbrev pub paths : List DumpEntry → List String
paths = map (λ e. e.path)

abbrev has : String → List (String × DumpEntry) → Bool
has q l = contains q (map (λ x. x.1.path) l)

-- Each entry stands under the full URI of its path.
abbrev IsKeyed : List (String × DumpEntry) → Type 0
IsKeyed = All (λ x. x.0 ≡ normalize_dump_path x.1.path)

put_entry-IsKeyed :
    (e : DumpEntry) (l : List (String × DumpEntry))
    → IsKeyed l
    → IsKeyed (put_entry (normalize_dump_path e.path) e l)
unfolding put_entry
put_entry-IsKeyed e [] h = (refl, tt)
put_entry-IsKeyed e ((u, old) ∷ l) h = elim (Bool-cases (u == normalize_dump_path e.path)) [
  | inl same ↦ rw same (refl, h.1)
  | inr differ ↦ rw differ (h.0, put_entry-IsKeyed e l h.1)
]

has-put_entry :
    (q : String) (e : DumpEntry) (l : List (String × DumpEntry))
    → IsKeyed l
    → has q (put_entry (normalize_dump_path e.path) e l) ≡ (q == e.path || has q l)
unfolding put_entry
has-put_entry q e [] h = refl
has-put_entry q e ((u, old) ∷ l) h =
    ground (arith, has-put_entry q e l h.1, h.0, normalize_dump_path-injective old.path e.path)

has-dump_mapping :
    (q : String) (es : List DumpEntry) (found : List (String × DumpEntry))
    → IsKeyed found
    → (has q (dump_mapping es found) ≡ (contains q (paths es) || has q found))
      × IsKeyed (dump_mapping es found)
unfolding dump_mapping
has-dump_mapping q [] found h = (refl, h)
has-dump_mapping q (e ∷ es) found h =
    let next = put_entry (normalize_dump_path e.path) e found in
    let (p, k) = has-dump_mapping q es next (put_entry-IsKeyed e found h) in
    (ground (arith, p, has-put_entry q e found h), k)

contains-needs_db_check :
    (q : String) (known : Info) (es : List DumpEntry)
    → contains q (paths (needs_db_check known es))
      ≡ (contains q (paths es) && not (is_some (known q)))
unfolding needs_db_check
contains-needs_db_check q known [] = refl
contains-needs_db_check q known (e ∷ es) = ground (arith, contains-needs_db_check q known es)

module _ (iso : ℕ → String) (path_to_id : String → String) where
  -- One entry puts its file in one of the indices and takes it out of the other.
  apply-changes_of :
      (q : String) (e : DumpEntry) (k : Option Known) (d : Option Hit) (c : Contents)
      → (c.dark e.path ≡ is_some d) ⊎ (c.dark e.path ≡ not (is_some k))
      → let c' = apply_all (changes_of iso path_to_id e k d) c in
        (c'.known q ≡ ((q == e.path && is_some k) || c.known q))
        × (c'.dark q ≡ (if q == e.path then not (is_some k) else c.dark q))
  unfolding changes_of apply_all apply transform_from_db transform_dark_file
  apply-changes_of q e none none c h = (ground (arith, h), ground (arith, h))
  apply-changes_of q e none (some hit) c h = (ground (arith, h), ground (arith, h))
  apply-changes_of q e (some k) none c h = (ground (arith, h), ground (arith, h))
  apply-changes_of q e (some k) (some hit) c h = (ground (arith, h), ground (arith, h))

  module _ (database : Database) (dark : Info) where
    abbrev pub in_database : String → Bool
    in_database q = is_some (database (normalize_dump_path q))

    -- For each file, the index of dark files has it as at the start of the batch, or as the batch
    -- leaves it.
    abbrev IsBetween : Contents → Type 0
    IsBetween c = (q : String) → (c.dark q ≡ is_some (dark q)) ⊎ (c.dark q ≡ not (in_database q))

    apply-all_changes :
        (l : List (String × DumpEntry)) (c : Contents)
        → IsKeyed l
        → IsBetween c
        → (q : String)
        → let c' = apply_all (all_changes iso path_to_id database dark l) c in
          (c'.known q ≡ ((has q l && in_database q) || c.known q))
          × (c'.dark q ≡ (if has q l then not (in_database q) else c.dark q))
    unfolding all_changes apply_all
    apply-all_changes [] c h between q = (refl, refl)
    apply-all_changes ((uri, e) ∷ l) c h between q =
        let now = changes_of iso path_to_id e (database uri) (dark e.path) in
        let k = database uri in
        let same : is_some (database uri) ≡ in_database e.path =
          ap (λ u. is_some (database u)) h.0 in
        let start : (c.dark e.path ≡ is_some (dark e.path)) ⊎ (c.dark e.path ≡ not (is_some k)) =
          ground (arith, between e.path, same) in
        let c₁ = apply_all now c in
        let (known₁, dark₁) = apply-changes_of q e (database uri) (dark e.path) c start in
        let next : IsBetween c₁ = λ p.
          ground (
            arith,
            (apply-changes_of p e (database uri) (dark e.path) c start).1,
            between p,
            same,
          ) in
        let (known₂, dark₂) = apply-all_changes l c₁ h.1 next q in
        rw (apply_all-append now (all_changes iso path_to_id database dark l) c)
          (ground (arith, known₁, known₂, same), ground (arith, dark₁, dark₂, same))

    module _ (known : Info) where
      abbrev at_start : Contents
      at_start = record { known = λ q. is_some (known q); dark = λ q. is_some (dark q) }

      -- The batch has the file, and the index of known files has not.
      abbrev pub is_wanted : List DumpEntry → String → Bool
      is_wanted entries q = contains q (paths entries) && not (is_some (known q))

      abbrev pub after : List DumpEntry → Contents
      after entries =
          apply_all (plan_batch iso path_to_id known database dark entries).changes at_start

      -- After the actions of a batch, the index of known files has exactly the files that it had
      -- and those of the batch whose record the database holds; a file of the batch that was not
      -- known is in the index of dark files exactly if the database has no record of it, and for
      -- every other file that index is as before.
      pub plan_batch_effect :
          (entries : List DumpEntry) (q : String)
          → ((after entries).known q
              ≡ ((is_wanted entries q && in_database q) || is_some (known q)))
            × ((after entries).dark q
                ≡ (if is_wanted entries q then not (in_database q) else is_some (dark q)))
      unfolding plan_batch
      plan_batch_effect entries q =
          let wanted = needs_db_check known entries in
          let (found, keyed) = has-dump_mapping q wanted [] tt in
          let (k, d) =
            apply-all_changes (dump_mapping wanted []) at_start keyed (λ p. inl refl) q in
          (
            ground (arith, k, found, contains-needs_db_check q known entries),
            ground (arith, d, found, contains-needs_db_check q known entries),
          )

      -- A file of the batch that was not in both indices before is afterwards in exactly one of
      -- them.
      pub plan_batch_settles :
          (entries : List DumpEntry) (q : String)
          → contains q (paths entries) ≡ true
          → (is_some (known q) ≡ true → is_some (dark q) ≡ false)
          → (after entries).dark q ≡ not ((after entries).known q)
      plan_batch_settles entries q here apart =
          let (k, d) = plan_batch_effect entries q in ground (arith, k, d, here, apart)
