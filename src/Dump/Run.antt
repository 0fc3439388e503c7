-- ===== src/Dump/Run.antt =====
-- The task over a whole dump (cernopendata/tasks.py, `process_eos_dump` and `_process_batch`).
pub mod Batches
use cernopendata_portal.Base.{
  ℕ, zero, suc, ◌+◌, String, Bool, true, false, not, Option, none, some, List, [], ◌∷◌, ◌++◌,
  length, leb, is_empty, map, if◌then◌else◌,
}
use cernopendata_portal.Base.Result.{Result, ok, raise}
use cernopendata_portal.Dump.Entry.{DumpEntry, batch_size, is_ignored, normalize_dump_path}
use cernopendata_portal.Dump.Plan.{Info, Database, Hit, Change, needs_db_check, plan_batch}

-- A call that may raise after it has changed the world.
abbrev pub Call : Type 0 → Type 0 → Type 0
Call A W = W → Result A × W

unfoldable pub followed_by : {A B W : Type 0} → Result A × W → (A → Call B W) → Result B × W
followed_by (ok a, w) f = f a w
followed_by (raise e, w) f = (raise e, w)

-- The queries and updates of the search index and the query of the database. An index that is
-- missing has no hits.
pub record Search (W : Type 0) : Type 0 where
  pub known_info : List String → Call Info W
  pub dark_info : List String → Call Info W
  pub records_by_paths : List String → Call Database W
  pub update_known : List DumpEntry → Call (Unit {0}) W
  pub update_dark : List DumpEntry → Call (Unit {0}) W
  pub bulk : List Change → Call (Unit {0}) W

abbrev if_any : {A W : Type 0} → (List A → Call (Unit {0}) W) → List A → Call (Unit {0}) W
if_any call [] w = (ok tt, w)
if_any call (x ∷ xs) w = call (x ∷ xs) w

-- `_process_batch`
unfoldable pub process_batch :
    {W : Type 0} → (ℕ → String) → (String → String) → Search W → List DumpEntry → Call (Unit {0}) W
unfolding followed_by needs_db_check plan_batch normalize_dump_path
process_batch iso path_to_id search entries w =
    followed_by (search.known_info (map (λ e. e.path) entries) w) λ known w₁.
      let needed = needs_db_check known entries in
      let known_updates =
        (plan_batch iso path_to_id known (λ u. none) (λ p. none) entries).known_updates in
      followed_by (if_any search.update_known known_updates w₁) λ _ w₂.
        if is_empty needed
        then (ok tt, w₂)
        else followed_by (search.records_by_paths (map (λ e. normalize_dump_path e.path) needed) w₂)
            λ database w₃. followed_by (search.dark_info (map (λ e. e.path) needed) w₃) λ dark w₄.
              let plan = plan_batch iso path_to_id known database dark entries in
              followed_by (if_any search.update_dark plan.dark_updates w₄)
                λ _ w₅. if_any search.bulk plan.changes w₅

pub record Totals : Type 0 where
  pub batches : ℕ
  pub processed : ℕ
  pub skipped : ℕ
  pub failed : ℕ

abbrev pub no_totals : Totals
no_totals = record { batches = 0; processed = 0; skipped = 0; failed = 0 }

-- The counts after a full batch.
unfoldable pub count_batch : {A : Type 0} → Result A → ℕ → Totals → Totals
count_batch (ok _) n t = record t { batches = suc t.batches; processed = t.processed + n }
count_batch (raise _) n t = record t { batches = suc t.batches; failed = t.failed + n }

-- `process_eos_dump`, with `process` for `_process_batch`: the current batch, the totals, and what
-- is left of the dump. The last batch is processed and not counted.
unfoldable pub process_eos_dump :
    {W : Type 0}
    → (List DumpEntry → Call (Unit {0}) W)
    → List DumpEntry
    → Totals
    → List DumpEntry
    → W
    → Totals × W
unfolding is_ignored count_batch
process_eos_dump process current t [] w = elim (is_empty current) [
  | true ↦ (t, w)
  | false ↦ (record t { batches = suc t.batches }, (process current w).1)
]
process_eos_dump process current t (e ∷ es) w = elim (is_ignored e) [
  | true ↦ process_eos_dump process current (record t { skipped = suc t.skipped }) es w
  | false ↦ elim (leb batch_size (length (current ++ (e ∷ [])))) [
    | true ↦
        let (result, w') = process (current ++ (e ∷ [])) w in
        process_eos_dump process [] (count_batch result (length (current ++ (e ∷ []))) t) es w'
    | false ↦ process_eos_dump process (current ++ (e ∷ [])) t es w
  ]
]
