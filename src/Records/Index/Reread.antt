-- ===== src/Records/Index/Reread.antt =====
-- What a file index that is read back from the database has of the one that was made
-- (cernopendata/api.py): all but the dicts of its files, which are made anew and come by their keys.
use cernopendata_portal.Base.{
  ℕ, suc, ◌+◌, String, ◌≡◌, refl, sym, ap, subst, ◌∙◌, false, none, some, List, [], ◌∷◌, ◌++◌,
  string_eq, All, Bool-cases, inl, inr, arith,
}
use cernopendata_portal.Base.Text.{split_at, last_part}
use cernopendata_portal.Base.Result.{ok, or_key_error, >>=-eq-ok, ok-injective}
use cernopendata_portal.Json.{Fields}
use cernopendata_portal.Json.Dict.{lookup}
use cernopendata_portal.Cold.Availability.{add_count}
use cernopendata_portal.Release.Images.Files.{text_ltb}
use cernopendata_portal.Records.Index.{
  IndexedFile, IndexMetadata, tag_availability, add_file, empty_index, indexed_file,
  given_availability, create_files, create_index, file_of, get_files, get_index, place_row, by_key,
  size_of,
}

-- An index without the dicts of its files.
abbrev pub summary : IndexMetadata → IndexMetadata
summary index = record index { files = [] }

abbrev counted_in : ℕ → IndexMetadata → IndexMetadata
counted_in size index = record index {
  availability = add_count "online" 1 index.availability;
  number_files = suc index.number_files;
  size = index.size + size;
}

abbrev all_counted : List IndexedFile → IndexMetadata → IndexMetadata
all_counted [] index = index
all_counted (f ∷ fs) index = all_counted fs (counted_in f.size index)

abbrev IsNew : IndexedFile → Type 0
IsNew f = f.hot_deleted ≡ false

-- An entry of an index file that names no availability.
abbrev pub IsPlain : Fields → Type 0
IsPlain entry = lookup "availability" entry ≡ none

counted_in_comm :
    (a b : ℕ) (index : IndexMetadata)
    → counted_in a (counted_in b index) ≡ counted_in b (counted_in a index)
counted_in_comm a b index =
    let sizes : (index.size + b) + a ≡ (index.size + a) + b = omega arith in
    ap (λ n. record (counted_in a (counted_in b index)) { size = n }) sizes

all_counted-place_row :
    (f : IndexedFile) (gs : List IndexedFile) (index : IndexMetadata)
    → all_counted (place_row f gs) index ≡ all_counted gs (counted_in f.size index)
unfolding place_row
all_counted-place_row f [] index = refl
all_counted-place_row f (g ∷ gs) index = elim (Bool-cases (text_ltb f.key g.key)) [
  | inl first ↦ rw first refl
  | inr later ↦ rw later (
      all_counted-place_row f gs (counted_in g.size index)
      ∙ ap (all_counted gs) (counted_in_comm f.size g.size index))
]

all_counted-by_key :
    (fs : List IndexedFile) (index : IndexMetadata)
    → all_counted (by_key fs) index ≡ all_counted fs index
unfolding by_key
all_counted-by_key [] index = refl
all_counted-by_key (f ∷ fs) index =
    all_counted-place_row f (by_key fs) index ∙ all_counted-by_key fs (counted_in f.size index)

place_row-IsNew :
    (f : IndexedFile) (gs : List IndexedFile) → IsNew f → All IsNew gs → All IsNew (place_row f gs)
unfolding place_row
place_row-IsNew f [] h k = (h, tt)
place_row-IsNew f (g ∷ gs) h k = elim (Bool-cases (text_ltb f.key g.key)) [
  | inl first ↦ rw first (h, k)
  | inr later ↦ rw later (k.0, place_row-IsNew f gs h k.1)
]

by_key-IsNew : (fs : List IndexedFile) → All IsNew fs → All IsNew (by_key fs)
unfolding by_key
by_key-IsNew [] h = tt
by_key-IsNew (f ∷ fs) h = place_row-IsNew f (by_key fs) h.0 (by_key-IsNew fs h.1)

summary-get_files :
    (fs : List IndexedFile) (index : IndexMetadata)
    → All IsNew fs
    → summary (get_files fs index) ≡ all_counted fs (summary index)
unfolding get_files file_of tag_availability add_file
summary-get_files [] index h = refl
summary-get_files (f ∷ fs) index h = summary-get_files fs _ h.1 ∙ rw (h.0) refl

all_counted-append :
    (fs : List IndexedFile) (f : IndexedFile) (index : IndexMetadata)
    → all_counted (fs ++ (f ∷ [])) index ≡ counted_in f.size (all_counted fs index)
all_counted-append [] f index = refl
all_counted-append (g ∷ fs) f index = all_counted-append fs f (counted_in g.size index)

IsNew-append :
    (fs : List IndexedFile) (f : IndexedFile) → All IsNew fs → IsNew f → All IsNew (fs ++ (f ∷ []))
IsNew-append [] f h k = (k, tt)
IsNew-append (g ∷ fs) f h k = (h.0, IsNew-append fs f h.1 k)

-- An index whose files are new, with the counts of its files.
record IsMade (start index : IndexMetadata) : Type 0 where
  new : All IsNew index.files
  counts : summary index ≡ all_counted index.files start

add_file-IsMade :
    (start index : IndexMetadata) (f : IndexedFile)
    → IsMade start index
    → IsNew f
    → IsMade start (add_file f (tag_availability f) index)
unfolding add_file tag_availability
add_file-IsMade start index f h k = record {
  new = IsNew-append index.files f h.new k;
  counts = rw k (ap (counted_in f.size) h.counts) ∙ sym (all_counted-append index.files f start);
}

indexed_file-IsNew :
    (name : String) (n : ℕ) (entry : Fields) (f : IndexedFile)
    → indexed_file name n entry ≡ ok f
    → IsNew f
unfolding indexed_file
indexed_file-IsNew name n entry f e =
    let (uri, _, e₁) = >>=-eq-ok (or_key_error "uri" (lookup "uri" entry)) _ e in
    let (size, _, e₂) = >>=-eq-ok (or_key_error "size" (lookup "size" entry)) _ e₁ in
    let (checksum, _, e₃) = >>=-eq-ok (or_key_error "checksum" (lookup "checksum" entry)) _ e₂ in
    let (bytes, _, e₄) = >>=-eq-ok (size_of size) _ e₃ in
    sym (ap (λ (x : IndexedFile). x.hot_deleted) (ok-injective e₄))

create_files-IsMade :
    (entries : List Fields) (start index : IndexMetadata) {made : IndexMetadata}
    → All IsPlain entries
    → IsMade start index
    → create_files entries index ≡ ok made
    → IsMade start made
unfolding create_files
create_files-IsMade [] start index plain h e = subst (IsMade start) (ok-injective e) h
create_files-IsMade (entry ∷ entries) start index plain h e =
    let (f, named, k) = >>=-eq-ok (indexed_file index.name index.number_files entry) _ e in
    let new = indexed_file-IsNew index.name index.number_files entry f named in
    let l = rw (plain.0, given_availability) at k in
    create_files-IsMade entries start (add_file f (tag_availability f) index) plain.1
      (add_file-IsMade start index f h new) l

-- Where no entry of an index file names an availability, the file index that is read back from the
-- rows of its files, which come by their keys, has the name, the description, the availability, the
-- number of files and the size of the one that was made.
pub get_index-create_index :
    (uri description : String) (entries : List Fields) (made : IndexMetadata)
    → All IsPlain entries
    → create_index uri description entries ≡ ok made
    → summary (get_index (last_part (split_at b'/' uri)) (some description) (by_key made.files))
      ≡ summary made
unfolding create_index get_index
get_index-create_index uri description entries made plain e =
    let start = empty_index (last_part (split_at b'/' uri)) description in
    let made' =
      create_files-IsMade entries start start plain (record { new = tt; counts = refl }) e in
    summary-get_files (by_key made.files) start (by_key-IsNew made.files made'.new)
    ∙ all_counted-by_key made.files start
    ∙ sym made'.counts
