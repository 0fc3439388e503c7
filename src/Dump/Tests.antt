-- ===== src/Dump/Tests.antt =====
-- The theorems on the dump of EOS at three entries.
use mathlib.Core.Bool.{false≢true}
use cernopendata_portal.Base.{
  ℕ, ◌+◌, ◌<◌, String, ◌≡◌, refl, not, none, some, List, [], ◌∷◌, All, length, is_some,
  if◌then◌else◌, ◌&&◌, ◌||◌, string_eq, ◌==◌,
}
use cernopendata_portal.Base.Result.{raise, value_error}
use cernopendata_portal.Dump.Entry.{DumpEntry, batch_size}
use cernopendata_portal.Dump.Plan.{Info, Database}
use cernopendata_portal.Dump.Plan.Effect.{
  Contents, after, is_wanted, in_database, plan_batch_effect, plan_batch_settles,
}
use cernopendata_portal.Dump.Run.{no_totals, process_eos_dump}
use cernopendata_portal.Dump.Run.Batches.{
  IsBatch, concat, counted, kept, written, process_eos_dump_batches,
}

abbrev entry : String → DumpEntry
entry path = record { path = path; size = 10; adler32 = none; mtime = 3; atime = 4 }

abbrev dump : List DumpEntry
dump = entry "/eos/a" ∷ entry "/eos/upload/b" ∷ entry "/eos/c" ∷ []

abbrev iso : ℕ → String
iso n = "1970"

abbrev known : Info
known path = if path == "/eos/c" then some (record { id = "1"; last_accessed = none }) else none

abbrev dark : Info
dark path = if path == "/eos/a" then some (record { id = "2"; last_accessed = none }) else none

abbrev database : Database
database uri =
    if uri == "root://eospublic.cern.ch//eos/a"
    then some (record { title = none; recid = some "1"; date_published = none })
    else none

abbrev result : Contents
result = after iso (λ p. p) database dark known dump

plan_batch_effect_example :
    (result.known "/eos/a" ≡ (
      (is_wanted iso (λ p. p) database dark known dump "/eos/a"
        && in_database iso (λ p. p) database dark "/eos/a")
      || is_some (known "/eos/a")))
    × (result.dark "/eos/a" ≡ (
        if is_wanted iso (λ p. p) database dark known dump "/eos/a"
        then not (in_database iso (λ p. p) database dark "/eos/a")
        else is_some (dark "/eos/a")))
plan_batch_effect_example = plan_batch_effect iso (λ p. p) database dark known dump "/eos/a"

plan_batch_settles_example : result.dark "/eos/a" ≡ not (result.known "/eos/a")
unfolding string_eq
plan_batch_settles_example =
    plan_batch_settles iso (λ p. p) database dark known dump "/eos/a" refl
      (λ e. absurd (false≢true e))

process_eos_dump_batches_example :
    let (t, bs) = process_eos_dump (written (λ b. raise value_error)) [] no_totals dump [] in
    (concat bs ≡ kept dump)
    × All IsBatch bs
    × (t.batches ≡ length bs)
    × ((left : ℕ) × (left < batch_size) × (counted t + left ≡ length dump))
process_eos_dump_batches_example = process_eos_dump_batches (λ b. raise value_error) dump
