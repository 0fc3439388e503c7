-- ===== src/Records/Index/Counted.antt =====
-- The counts of a file index (cernopendata/api.py).
use cernopendata_portal.Base.{
  ℕ, ◌+◌, String, ◌≡◌, refl, subst, List, [], ◌∷◌, ◌++◌, string_eq, length, length-append, arith,
}
use cernopendata_portal.Base.Text.{split_at, last_part}
use cernopendata_portal.Base.Result.{ok, >>=-eq-ok, ok-injective}
use cernopendata_portal.Json.{Fields}
use cernopendata_portal.Json.Dict.{lookup}
use cernopendata_portal.Cold.Availability.{Counts, add_count}
use cernopendata_portal.Records.Index.{
  IndexedFile, IndexMetadata, add_file, empty_index, indexed_file, given_availability, create_files,
  create_index,
}

abbrev pub counted : Counts → ℕ
counted [] = 0
counted ((k, n) ∷ rest) = n + counted rest

abbrev pub total_size : List IndexedFile → ℕ
total_size [] = 0
total_size (f ∷ fs) = f.size + total_size fs

abbrev pub IsCounted : IndexMetadata → Type 0
IsCounted index =
    (counted index.availability ≡ index.number_files)
    × (index.number_files ≡ length index.files)
    × (index.size ≡ total_size index.files)

counted-add_count :
    (k : String) (n : ℕ) (avl : Counts) → counted (add_count k n avl) ≡ n + counted avl
unfolding add_count
counted-add_count k n [] = omega arith
counted-add_count k n ((j, m) ∷ rest) = ground (arith, counted-add_count k n rest)

total_size-append :
    (fs gs : List IndexedFile) → total_size (fs ++ gs) ≡ total_size fs + total_size gs
total_size-append [] gs = omega arith
total_size-append (f ∷ fs) gs = omega (arith, total_size-append fs gs)

add_file-IsCounted :
    (f : IndexedFile) (a : String) (index : IndexMetadata)
    → IsCounted index
    → IsCounted (add_file f a index)
unfolding add_file
add_file-IsCounted f a index (avl, number, size) = (
  omega (arith, counted-add_count a 1 index.availability, avl),
  omega (arith, length-append index.files (f ∷ []), number),
  omega (arith, total_size-append index.files (f ∷ []), size),
)

create_files-IsCounted :
    (entries : List Fields) (index : IndexMetadata) {made : IndexMetadata}
    → IsCounted index
    → create_files entries index ≡ ok made
    → IsCounted made
unfolding create_files
create_files-IsCounted [] index h e = subst IsCounted (ok-injective e) h
create_files-IsCounted (entry ∷ entries) index h e =
    let (f, _, k) = >>=-eq-ok (indexed_file index.name index.number_files entry) _ e in
    let (a, _, l) = >>=-eq-ok (given_availability f (lookup "availability" entry)) _ k in
    create_files-IsCounted entries (add_file f a index) (add_file-IsCounted f a index h) l

-- In the file index that is made of an index file, the counts by availability add up to the number
-- of files, which is the length of the list of files, and the size is the sum of their sizes.
pub create_index-IsCounted :
    (uri description : String) (entries : List Fields) (made : IndexMetadata)
    → create_index uri description entries ≡ ok made
    → IsCounted made
unfolding create_index
create_index-IsCounted uri description entries made e =
    create_files-IsCounted entries (empty_index (last_part (split_at b'/' uri)) description)
      (refl, refl, refl) e
