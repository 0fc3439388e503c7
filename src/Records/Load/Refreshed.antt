-- ===== src/Records/Load/Refreshed.antt =====
-- That a refresh of a loaded record (cernopendata/modules/fixtures/cli.py) reads back its file indices
-- (cernopendata/api.py), up to the dicts of their files.
use cernopendata_portal.Base.{
  String, ◌≡◌, refl, map, sym, ap, Bool-cases, inl, inr, ◌∙◌, false, some, Option, not, subst, List,
  [], ◌∷◌, ◌++◌, ◌==◌, string_eq, if◌then◌else◌, All, arith,
}
use mathlib.Core.List.{append-nil}
use cernopendata_portal.Base.Result.{Result, ok, >>=-eq-ok, ok-injective, branch, raise-ne-ok}
use cernopendata_portal.Json.{Fields}
use cernopendata_portal.Json.Dict.{lookup}
use cernopendata_portal.Cold.Model.{Request, Transfer}
use cernopendata_portal.Cold.Availability.{Counts, check_availability}
use cernopendata_portal.Records.Index.{IndexMetadata, create_index}
use cernopendata_portal.Records.Index.Reread.{summary, IsPlain, get_index-create_index}
use cernopendata_portal.Records.Flush.{
  Bucket, put_index, put_indices, file_indices, index_of, indices_of, check_indices, flush_indices,
  delete_by_record,
}
use cernopendata_portal.Records.Flush.Names.{file_indices_twice}
use cernopendata_portal.Records.Load.{
  ObjectVersion, Progress, has_files, handle_index, handle_file, handle_files, handle_record_files,
  add_index, bucket_of, has_required, uri_of, is_type, description_of, filename_of,
}

indices_of-append :
    (v : String) (bs : List Bucket) (b : Bucket)
    → indices_of v (bs ++ (b ∷ []))
      ≡ indices_of v bs ++ (if b.record_id == v then index_of b ∷ [] else [])
unfolding indices_of
indices_of-append v [] b = ground arith
indices_of-append v (c ∷ bs) b = ground (arith, indices_of-append v bs b)

indices_of-delete_self :
    (uuid : String) (bs : List Bucket) → indices_of uuid (delete_by_record uuid bs) ≡ []
unfolding indices_of delete_by_record
indices_of-delete_self uuid [] = refl
indices_of-delete_self uuid (b ∷ bs) = ground (arith, indices_of-delete_self uuid bs)

indices_of-delete_other :
    (v uuid : String) (bs : List Bucket)
    → (uuid == v) ≡ false
    → indices_of v (delete_by_record uuid bs) ≡ indices_of v bs
unfolding indices_of delete_by_record
indices_of-delete_other v uuid [] h = refl
indices_of-delete_other v uuid (b ∷ bs) h = ground (arith, h, indices_of-delete_other v uuid bs)

summary-put_index :
    (new : IndexMetadata) (dict : List IndexMetadata)
    → map summary (put_index new dict) ≡ put_index (summary new) (map summary dict)
unfolding put_index
summary-put_index new [] = refl
summary-put_index new (x ∷ dict) = elim (Bool-cases (x.name == new.name)) [
  | inl same ↦ rw same refl
  | inr other ↦ rw other (ap (λ rest. summary x ∷ rest) (summary-put_index new dict))
]

summary-put_indices :
    (new dict : List IndexMetadata)
    → map summary (put_indices new dict) ≡ put_indices (map summary new) (map summary dict)
unfolding put_indices
summary-put_indices [] dict = refl
summary-put_indices (x ∷ new) dict =
    summary-put_indices new (put_index x dict)
    ∙ ap (put_indices (map summary new)) (summary-put_index x dict)

summary-file_indices :
    (indices : List IndexMetadata)
    → map summary (file_indices indices) ≡ file_indices (map summary indices)
unfolding file_indices
summary-file_indices indices = summary-put_indices indices []

map_availability :
    (indices : List IndexMetadata)
    → map (λ (i : IndexMetadata). i.availability) indices
      ≡ map (λ (i : IndexMetadata). i.availability) (map summary indices)
map_availability [] = refl
map_availability (i ∷ indices) = ap (λ rest. i.availability ∷ rest) (map_availability indices)

-- The details and the availability of a record go by the summaries of its indices.
check_indices-summary :
    (uuid : String) (indices : List IndexMetadata) (files : List String) (requests : List Request)
    (transfers : List Transfer)
    → check_indices uuid indices files requests transfers
      ≡ check_indices uuid (map summary indices) files requests transfers
unfolding check_indices
check_indices-summary uuid indices files requests transfers =
    ap (λ counts. check_availability uuid counts files requests transfers)
      (map_availability (file_indices indices)
        ∙ ap (map (λ (i : IndexMetadata). i.availability)) (summary-file_indices indices))

map_append :
    (xs : List IndexMetadata) (x : IndexMetadata)
    → map summary (xs ++ (x ∷ [])) ≡ map summary xs ++ (summary x ∷ [])
map_append [] x = refl
map_append (y ∷ xs) x = ap (λ rest. summary y ∷ rest) (map_append xs x)

check_indices_twice :
    (uuid : String) (indices : List IndexMetadata) (files : List String) (requests : List Request)
    (transfers : List Transfer)
    → check_indices uuid (file_indices indices) files requests transfers
      ≡ check_indices uuid indices files requests transfers
unfolding check_indices
check_indices_twice uuid indices files requests transfers = rw (file_indices_twice indices) refl

-- The buckets of the record are those of the indices made so far, but for the dicts of their files; those of others are as they were.
record IsKept (uuid : String) (old : List Bucket) (p : Progress) : Type 0 where
  own : map summary (indices_of uuid p.buckets) ≡ map summary p.indices
  others : (v : String) → (uuid == v) ≡ false → indices_of v p.buckets ≡ indices_of v old

add_index-IsKept :
    (uuid uri description : String) (old : List Bucket) (p : Progress) (made : IndexMetadata)
    (content : List Fields)
    → All IsPlain content
    → create_index uri description content ≡ ok made
    → IsKept uuid old p
    → IsKept uuid old (add_index uuid uri description p made)
add_index-IsKept uuid uri description old p made content plain e k = record {
  own =
      let b = bucket_of uuid uri description made in
      let read_back = get_index-create_index uri description content made plain e in
      let added : indices_of uuid (p.buckets ++ (b ∷ []))
          ≡ indices_of uuid p.buckets ++ (index_of b ∷ []) =
        ground (arith, indices_of-append uuid p.buckets b) in
      ap (map summary) added
      ∙ map_append (indices_of uuid p.buckets) (index_of b)
      ∙ ap (λ front. front ++ (summary (index_of b) ∷ [])) k.own
      ∙ ap (λ last. map summary p.indices ++ (last ∷ [])) read_back
      ∙ sym (map_append p.indices made);
  others = λ v differ.
      indices_of-append v p.buckets (bucket_of uuid uri description made)
      ∙ rw differ (append-nil (indices_of v p.buckets))
      ∙ k.others v differ;
}

module _ (read : String → Result (List Fields))
    (create_version : String → Fields → Option ObjectVersion)
    (availabilities : List Fields → List String)
    (plain : (uri : String) (content : List Fields)
      → read uri ≡ ok content
      → All IsPlain content) where
  handle_index-IsKept :
      (uuid uri : String) (file : Fields) (old : List Bucket) (p : Progress) {p' : Progress}
      → IsKept uuid old p
      → handle_index read create_version availabilities uuid uri file p ≡ ok p'
      → IsKept uuid old p'
  unfolding handle_index
  handle_index-IsKept uuid uri file old p k e =
      let (content, r, e₁) = >>=-eq-ok (read uri) _ e in
      let (description, _, e₂) =
        >>=-eq-ok (description_of (filename_of uri) (lookup "description" file)) _ e₁ in
      let (made, c, e₃) = >>=-eq-ok (create_index uri description content) _ e₂ in
      subst (IsKept uuid old) (ok-injective e₃)
        (add_index-IsKept uuid uri description old p made content (plain uri content r) c k)

  handle_file-IsKept :
      (uuid : String) (file : Fields) (old : List Bucket) (p : Progress) {p' : Progress}
      → IsKept uuid old p
      → handle_file read create_version availabilities uuid file p ≡ ok p'
      → IsKept uuid old p'
  unfolding handle_file
  handle_file-IsKept uuid file old p k e =
      branch (not (has_required file)) _ _ e (λ _ r. absurd (raise-ne-ok r))
        (λ _ e₁.
          let (uri, _, e₂) = >>=-eq-ok (uri_of (lookup "uri" file)) _ e₁ in
          branch (is_type "index.json" (lookup "type" file)) _ _ e₂
            (λ _ e₃. handle_index-IsKept uuid uri file old p k e₃)
            (λ _ e₃.
              branch (is_type "index.txt" (lookup "type" file)) _ _ e₃
                (λ _ e₄. subst (IsKept uuid old) (ok-injective e₄) k)
                (λ _ e₄.
                  subst (IsKept uuid old) (ok-injective e₄)
                    (record { own = k.own; others = k.others }))))

  handle_files-IsKept :
      (uuid : String) (files : List Fields) (old : List Bucket) (p : Progress) {p' : Progress}
      → IsKept uuid old p
      → handle_files read create_version availabilities uuid files p ≡ ok p'
      → IsKept uuid old p'
  unfolding handle_files
  handle_files-IsKept uuid [] old p k e = subst (IsKept uuid old) (ok-injective e) k
  handle_files-IsKept uuid (file ∷ files) old p k e =
      let (p₁, e₁, e₂) =
        >>=-eq-ok (handle_file read create_version availabilities uuid file p) _ e in
      handle_files-IsKept uuid files old p₁ (handle_file-IsKept uuid file old p k e₁) e₂

  -- Where no index file names availabilities, and a record is loaded after its old indices were
  -- deleted: a refresh of its indices from the database finds the same indices, details and
  -- availability, and the indices of every other record are as they were before.
  pub flush_indices-handle_record_files :
      (uuid : String) (content : Fields) (files : List Fields) (requests : List Request)
      (transfers : List Transfer) (old buckets : List Bucket) (indices : List IndexMetadata)
      (direct : List Fields) (found : Counts × String)
      → handle_record_files read create_version availabilities uuid content
          (some files)
          requests
          transfers
          (delete_by_record uuid old)
        ≡ ok (has_files indices direct found, buckets)
      → let flushed = flush_indices uuid buckets (availabilities direct) requests transfers in
        (map summary (file_indices flushed.0) ≡ map summary indices)
        × (flushed.1 ≡ found)
        × ((v : String) → (uuid == v) ≡ false → indices_of v buckets ≡ indices_of v old)
  unfolding handle_record_files flush_indices
  flush_indices-handle_record_files uuid content files requests transfers old buckets indices direct
        found e =
      let (p, e₁, e₂) =
        >>=-eq-ok
          (handle_files read create_version availabilities uuid files
            (record { indices = []; real_files = []; buckets = delete_by_record uuid old }))
          _ e in
      let start : IsKept uuid old
          (record { indices = []; real_files = []; buckets = delete_by_record uuid old }) =
        record {
          own = ap (map summary) (indices_of-delete_self uuid old);
          others = λ v h. indices_of-delete_other v uuid old h;
        } in
      let kept : IsKept uuid old p = handle_files-IsKept uuid files old _ start e₁ in
      let at_buckets : p.buckets ≡ buckets = cc in
      let own : map summary (indices_of uuid buckets) ≡ map summary p.indices =
        subst (λ b. map summary (indices_of uuid b) ≡ map summary p.indices) at_buckets kept.own in
      let check : List IndexMetadata → List Fields → Counts × String =
        λ is ds. check_indices uuid is (availabilities ds) requests transfers in
      let twice =
        check_indices_twice uuid p.indices (availabilities p.real_files) requests transfers in
      let by_summary = λ (is : List IndexMetadata).
        check_indices-summary uuid is (availabilities p.real_files) requests transfers in
      let shown : file_indices p.indices ≡ indices = cc in
      let answer : check (file_indices p.indices) p.real_files ≡ found = cc in
      let direct_ones : p.real_files ≡ direct = cc in
      (
        summary-file_indices (indices_of uuid buckets)
            ∙ ap file_indices own
            ∙ sym (summary-file_indices p.indices)
            ∙ ap (map summary) shown,
        ap (check (indices_of uuid buckets)) (sym direct_ones)
            ∙ by_summary (indices_of uuid buckets)
            ∙ ap (λ is. check is p.real_files) own
            ∙ sym (by_summary p.indices)
            ∙ sym twice
            ∙ answer,
        λ v h. subst (λ b. indices_of v b ≡ indices_of v old) at_buckets (kept.others v h),
      )
