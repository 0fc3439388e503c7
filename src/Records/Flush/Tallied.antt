-- ===== src/Records/Flush/Tallied.antt =====
-- What is counted in a record whose file indices are read back from the database
-- (cernopendata/api.py and cernopendata/cold_storage/api.py).
use cernopendata_portal.Base.{
  ℕ, ◌+◌, String, ◌≡◌, refl, none, some, List, [], ◌∷◌, ◌++◌, ◌==◌, string_eq, if◌then◌else◌, map,
  keep_if, length, arith,
}
use cernopendata_portal.Base.Members.{IsDistinct}
use cernopendata_portal.Cold.Model.{Request, Transfer}
use cernopendata_portal.Cold.Availability.{
  Counts, add_count, add_counts, all_counts, availability_details, check_availability,
}
use cernopendata_portal.Records.Index.{
  IndexedFile, IndexMetadata, tag_availability, add_file, empty_index, file_of, get_files,
  get_index,
}
use cernopendata_portal.Records.Flush.{Bucket, index_of, indices_of, check_indices, flush_indices}
use cernopendata_portal.Records.Flush.Names.{index_names, file_indices_distinct}

-- `details.get(a, 0)`
abbrev pub count_at : String → Counts → ℕ
count_at a [] = 0
count_at a ((k, n) ∷ rest) = if k == a then n else count_at a rest

abbrev only_at : String → String → ℕ → ℕ
only_at a k n = if k == a then n else 0

abbrev sum_at : String → Counts → ℕ
sum_at a [] = 0
sum_at a ((k, n) ∷ rest) = only_at a k n + sum_at a rest

count_at-add_count :
    (a k : String) (n : ℕ) (c : Counts)
    → count_at a (add_count k n c) ≡ only_at a k n + count_at a c
unfolding add_count
count_at-add_count a k n [] = ground arith
count_at-add_count a k n ((j, m) ∷ c) = ground (arith, count_at-add_count a k n c)

count_at-add_counts :
    (a : String) (new total : Counts)
    → count_at a (add_counts new total) ≡ sum_at a new + count_at a total
unfolding add_counts
count_at-add_counts a [] total = omega arith
count_at-add_counts a ((k, n) ∷ new) total =
    omega (arith, count_at-add_counts a new (add_count k n total), count_at-add_count a k n total)

sum_at-add_count :
    (a k : String) (n : ℕ) (c : Counts) → sum_at a (add_count k n c) ≡ only_at a k n + sum_at a c
unfolding add_count
sum_at-add_count a k n [] = omega arith
sum_at-add_count a k n ((j, m) ∷ c) = ground (arith, sum_at-add_count a k n c)

sum_at-append : (a : String) (c d : Counts) → sum_at a (c ++ d) ≡ sum_at a c + sum_at a d
sum_at-append a [] d = omega arith
sum_at-append a ((k, n) ∷ c) d = omega (arith, sum_at-append a c d)

-- How many of the availabilities are `a`, and how many of the rows have it.
abbrev pub occurrences : String → List String → ℕ
occurrences a files = length (keep_if (λ b. b == a) files)

abbrev pub number_of : String → List IndexedFile → ℕ
number_of a files = length (keep_if (λ f. tag_availability f == a) files)

abbrev sum_all : String → List Counts → ℕ
sum_all a [] = 0
sum_all a (c ∷ cs) = sum_at a c + sum_all a cs

sum_at-all_counts :
    (a : String) (cs : List Counts) (files : List String)
    → sum_at a (all_counts cs files) ≡ sum_all a cs + occurrences a files
unfolding all_counts
sum_at-all_counts a [] [] = omega arith
sum_at-all_counts a [] (f ∷ files) = ground (arith, sum_at-all_counts a [] files)
sum_at-all_counts a (c ∷ cs) files =
    omega (arith, sum_at-append a c (all_counts cs files), sum_at-all_counts a cs files)

sum_at-get_files :
    (a : String) (files : List IndexedFile) (index : IndexMetadata)
    → sum_at a (get_files files index).availability
      ≡ number_of a files + sum_at a index.availability
unfolding get_files add_file
sum_at-get_files a [] index = omega arith
sum_at-get_files a (f ∷ files) index = ground (
  arith,
  sum_at-get_files a files (add_file (file_of f) (tag_availability f) index),
  sum_at-add_count a (tag_availability f) 1 index.availability,
)

-- The files in the buckets that have the record for a tag.
abbrev files_in : List Bucket → List IndexedFile
files_in [] = []
files_in (b ∷ bs) = b.files ++ files_in bs

abbrev pub files_of : String → List Bucket → List IndexedFile
files_of uuid buckets = files_in (keep_if (λ b. b.record_id == uuid) buckets)

number_of-append :
    (a : String) (fs gs : List IndexedFile)
    → number_of a (fs ++ gs) ≡ number_of a fs + number_of a gs
number_of-append a [] gs = omega arith
number_of-append a (f ∷ fs) gs = ground (arith, number_of-append a fs gs)

abbrev described : Bucket → String
described b = elim b.description [ none ↦ b.index_name | some given ↦ given ]

sum_at-index_of :
    (a : String) (b : Bucket) → sum_at a (index_of b).availability ≡ number_of a b.files
unfolding get_index
sum_at-index_of a b =
    omega (arith, sum_at-get_files a b.files (empty_index b.index_name (described b)))

sum_all-index_of :
    (a : String) (bs : List Bucket)
    → sum_all a (map (λ index. index.availability) (map index_of bs)) ≡ number_of a (files_in bs)
sum_all-index_of a [] = refl
sum_all-index_of a (b ∷ bs) =
    omega
      (arith, sum_at-index_of a b, sum_all-index_of a bs, number_of-append a b.files (files_in bs))

-- Where no two indices of a record have the same name, its details after a refresh give for each
-- availability the number of the files with it: those in the buckets of the record, by their tags,
-- and those that are in no index.
pub flush_indices_tallies :
    (uuid a : String) (buckets : List Bucket) (files : List String) (requests : List Request)
    (transfers : List Transfer)
    → IsDistinct (index_names (indices_of uuid buckets))
    → count_at a (flush_indices uuid buckets files requests transfers).1.0
      ≡ number_of a (files_of uuid buckets) + occurrences a files
unfolding flush_indices check_indices check_availability availability_details indices_of
flush_indices_tallies uuid a buckets files requests transfers h =
    let own = keep_if (λ (b : Bucket). b.record_id == uuid) buckets in
    let cs = map (λ (index : IndexMetadata). index.availability) (map index_of own) in
    rw (file_indices_distinct (map index_of own) h) (
      omega (
        arith,
        count_at-add_counts a (all_counts cs files) [],
        sum_at-all_counts a cs files,
        sum_all-index_of a own,
      ))
