-- ===== src/Records/Flush/Names.antt =====
-- The dict of file indices by their names (`class FileIndexIterator` of cernopendata/api.py).
use cernopendata_portal.Base.{
  String, ◌≡◌, refl, sym, ap, ◌∙◌, false, ◌||◌, List, [], ◌∷◌, ◌++◌, ◌==◌, string_eq, map, contains,
  arith,
}
use mathlib.Core.List.{append-nil}
use cernopendata_portal.Base.Members.{IsDistinct}
use cernopendata_portal.Records.Index.{IndexMetadata}
use cernopendata_portal.Records.Flush.{put_index, put_indices, file_indices}

abbrev pub index_names : List IndexMetadata → List String
index_names = map (λ index. index.name)

-- An index of a new name is added at the end.
put_index-new :
    (new : IndexMetadata) (dict : List IndexMetadata)
    → contains new.name (index_names dict) ≡ false
    → put_index new dict ≡ dict ++ (new ∷ [])
unfolding put_index
put_index-new new [] h = refl
put_index-new new (x ∷ dict) h = ground (arith, h, put_index-new new dict)

-- The names in the dict after a list is put into it.
contains-put_index :
    (n : String) (new : IndexMetadata) (dict : List IndexMetadata)
    → contains n (index_names (put_index new dict))
      ≡ (n == new.name || contains n (index_names dict))
unfolding put_index
contains-put_index n new [] = refl
contains-put_index n new (x ∷ dict) = ground (arith, contains-put_index n new dict)

put_index-IsDistinct :
    (new : IndexMetadata) (dict : List IndexMetadata)
    → IsDistinct (index_names dict)
    → IsDistinct (index_names (put_index new dict))
unfolding put_index
put_index-IsDistinct new [] h = (refl, tt)
put_index-IsDistinct new (x ∷ dict) h =
    ground (arith, h, put_index-IsDistinct new dict, contains-put_index x.name new dict)

put_indices-IsDistinct :
    (new dict : List IndexMetadata)
    → IsDistinct (index_names dict)
    → IsDistinct (index_names (put_indices new dict))
unfolding put_indices
put_indices-IsDistinct [] dict h = h
put_indices-IsDistinct (x ∷ new) dict h =
    put_indices-IsDistinct new (put_index x dict) (put_index-IsDistinct x dict h)

-- None of the indices has a name of the dict.
abbrev AreNew : List IndexMetadata → List IndexMetadata → Type 0
AreNew dict [] = Unit
AreNew dict (x ∷ new) = (contains x.name (index_names dict) ≡ false) × AreNew dict new

contains-names_append :
    (n : String) (x : IndexMetadata) (dict : List IndexMetadata)
    → contains n (index_names (dict ++ (x ∷ []))) ≡ (contains n (index_names dict) || n == x.name)
contains-names_append n x [] = ground arith
contains-names_append n x (y ∷ dict) = ground (arith, contains-names_append n x dict)

AreNew-snoc :
    (x : IndexMetadata) (dict new : List IndexMetadata)
    → contains x.name (index_names new) ≡ false
    → AreNew dict new
    → AreNew (dict ++ (x ∷ [])) new
AreNew-snoc x dict [] h k = tt
AreNew-snoc x dict (y ∷ new) h k = (
  ground (arith, h, k.0, contains-names_append y.name x dict),
  AreNew-snoc x dict new (ground (arith, h)) k.1,
)

append-snoc :
    (xs : List IndexMetadata) (x : IndexMetadata) (ys : List IndexMetadata)
    → (xs ++ (x ∷ [])) ++ ys ≡ xs ++ (x ∷ ys)
append-snoc [] x ys = refl
append-snoc (y ∷ xs) x ys = ap (λ rest. y ∷ rest) (append-snoc xs x ys)

put_indices-new :
    (new dict : List IndexMetadata)
    → IsDistinct (index_names new)
    → AreNew dict new
    → put_indices new dict ≡ dict ++ new
unfolding put_indices
put_indices-new [] dict h k = sym (append-nil dict)
put_indices-new (x ∷ new) dict h k =
    ap (put_indices new) (put_index-new x dict k.0)
    ∙ put_indices-new new (dict ++ (x ∷ [])) h.1 (AreNew-snoc x dict new h.0 k.1)
    ∙ append-snoc dict x new

AreNew-nil : (new : List IndexMetadata) → AreNew [] new
AreNew-nil [] = tt
AreNew-nil (x ∷ new) = (refl, AreNew-nil new)

-- Indices with different names are kept as they are.
pub file_indices_distinct :
    (indices : List IndexMetadata)
    → IsDistinct (index_names indices)
    → file_indices indices ≡ indices
unfolding file_indices
file_indices_distinct indices h = put_indices-new indices [] h (AreNew-nil indices)

pub file_indices_twice :
    (indices : List IndexMetadata) → file_indices (file_indices indices) ≡ file_indices indices
unfolding file_indices
file_indices_twice indices =
    file_indices_distinct (put_indices indices []) (put_indices-IsDistinct indices [] tt)
