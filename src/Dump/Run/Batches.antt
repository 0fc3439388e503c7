-- ===== src/Dump/Run/Batches.antt =====
-- How `process_eos_dump` (cernopendata/tasks.py) cuts the dump into batches, and what it counts.
use mathlib.Core.List.{append-nil, append_assoc}
use cernopendata_portal.Base.{
  ℕ, suc, ◌+◌, ◌≤◌, ◌<◌, ◌≡◌, refl, sym, ◌∙◌, ap, not, List, [], ◌∷◌, ◌++◌, length, length-append,
  leb, keep_if, All, arith, Bool-cases, inl, inr,
}
use cernopendata_portal.Base.Result.{Result, ok, raise}
use cernopendata_portal.Dump.Entry.{DumpEntry, batch_size, is_ignored}
use cernopendata_portal.Dump.Run.{Call, Totals, no_totals, count_batch, process_eos_dump}

abbrev pub concat : List (List DumpEntry) → List DumpEntry
concat [] = []
concat (b ∷ bs) = b ++ concat bs

concat-append :
    (bs : List (List DumpEntry)) (b : List DumpEntry) → concat (bs ++ (b ∷ [])) ≡ concat bs ++ b
concat-append [] b = append-nil b
concat-append (c ∷ bs) b =
    ap (λ xs. c ++ xs) (concat-append bs b) ∙ sym (append_assoc c (concat bs) b)

-- The entries that are not passed over.
abbrev pub kept : List DumpEntry → List DumpEntry
kept = keep_if (λ e. not (is_ignored e))

abbrev pub IsBatch : List DumpEntry → Type 0
IsBatch b = (0 < length b) × (length b ≤ batch_size)

All-append :
    (bs : List (List DumpEntry)) (b : List DumpEntry)
    → All IsBatch bs
    → IsBatch b
    → All IsBatch (bs ++ (b ∷ []))
All-append [] b h k = (k, tt)
All-append (c ∷ bs) b h k = (h.0, All-append bs b h.1 k)

abbrev pub counted : Totals → ℕ
counted t = t.processed + t.skipped + t.failed

counted-count_batch :
    {A : Type 0} (r : Result A) (n : ℕ) (t : Totals)
    → (counted (count_batch r n t) ≡ counted t + n) × ((count_batch r n t).batches ≡ suc t.batches)
unfolding count_batch
counted-count_batch (ok _) n t = (omega arith, refl)
counted-count_batch (raise _) n t = (omega arith, refl)

-- A run in which each batch is written down, and answered in any way.
module _ (answer : List DumpEntry → Result (Unit {0})) where
  abbrev pub written : List DumpEntry → Call (Unit {0}) (List (List DumpEntry))
  written b bs = (answer b, bs ++ (b ∷ []))

  abbrev Cut :
      List DumpEntry
      → Totals
      → List DumpEntry
      → List (List DumpEntry)
      → Totals × List (List DumpEntry)
      → Type 0
  Cut current t es bs r =
      (concat r.1 ≡ concat bs ++ (current ++ kept es))
      × All IsBatch r.1
      × (length r.1 + t.batches ≡ r.0.batches + length bs)
      × ((left : ℕ) × (left < batch_size)
          × (counted r.0 + left ≡ counted t + length current + length es))

  process_eos_dump-Cut :
      (current : List DumpEntry) (t : Totals) (es : List DumpEntry) (bs : List (List DumpEntry))
      → length current < batch_size
      → All IsBatch bs
      → Cut current t es bs (process_eos_dump written current t es bs)
  unfolding process_eos_dump
  process_eos_dump-Cut [] t [] bs l h =
      (sym (append-nil (concat bs)), h, omega arith, (0, omega arith, omega arith))
  process_eos_dump-Cut (c ∷ cs) t [] bs l h = (
    concat-append bs (c ∷ cs) ∙ ap (λ xs. concat bs ++ xs) (sym (append-nil (c ∷ cs))),
    All-append bs (c ∷ cs) h (omega arith, omega (arith, l)),
    omega (arith, length-append bs ((c ∷ cs) ∷ [])),
    (length (c ∷ cs), l, omega arith),
  )
  process_eos_dump-Cut current t (e ∷ es) bs l h =
      let grown = current ++ (e ∷ []) in
      let longer = length-append current (e ∷ []) in
      elim (Bool-cases (is_ignored e)) [
        | inl ignored ↦
            let next = record t { skipped = suc t.skipped } in
            let (whole, sized, numbered, (left, small, total)) =
              process_eos_dump-Cut current next es bs l h in
            rw (ignored, process_eos_dump)
              (whole, sized, numbered, (left, small, omega (arith, total)))
        | inr taken ↦ elim (Bool-cases (leb batch_size (length grown))) [
          | inl full ↦
              let t' = count_batch (answer grown) (length grown) t in
              let bs' = bs ++ (grown ∷ []) in
              let (sum, number) = counted-count_batch (answer grown) (length grown) t in
              let (whole, sized, numbered, (left, small, total)) =
                process_eos_dump-Cut [] t' es bs' (omega arith)
                  (All-append bs grown h (omega (arith, longer), omega (arith, longer, l))) in
              rw (taken, full, process_eos_dump)
                (
                  whole
                      ∙ (ap (λ xs. xs ++ kept es) (concat-append bs grown)
                          ∙ (append_assoc (concat bs) grown (kept es)
                              ∙ ap (λ xs. concat bs ++ xs)
                                  (append_assoc current (e ∷ []) (kept es)))),
                  sized,
                  omega (arith, numbered, number, length-append bs (grown ∷ [])),
                  (left, small, omega (arith, total, sum, longer)),
                )
          | inr room ↦
              let (whole, sized, numbered, (left, small, total)) =
                process_eos_dump-Cut grown t es bs (ground (arith, room)) h in
              rw (taken, room, process_eos_dump)
                (
                  whole ∙ ap (λ xs. concat bs ++ xs) (append_assoc current (e ∷ []) (kept es)),
                  sized,
                  numbered,
                  (left, small, omega (arith, total, longer)),
                )
        ]
      ]

  -- However the batches end, the task hands all entries of the dump that are not ignored to the
  -- batches, in their order and each once; every batch has between one entry and the size of a
  -- batch; it numbers the batches; and its three counts sum up to the entries of the dump less a
  -- rest smaller than a batch.
  pub process_eos_dump_batches :
      (es : List DumpEntry)
      → let (t, bs) = process_eos_dump written [] no_totals es [] in
        (concat bs ≡ kept es)
        × All IsBatch bs
        × (t.batches ≡ length bs)
        × ((left : ℕ) × (left < batch_size) × (counted t + left ≡ length es))
  process_eos_dump_batches es =
      let (whole, sized, numbered, (left, small, total)) =
        process_eos_dump-Cut [] no_totals es [] (omega arith) tt in
      (whole, sized, omega (arith, numbered), (left, small, omega (arith, total)))
