-- ===== src/Base/Members.antt =====
-- Laws of `in` on lists of texts, and lists in which no text is twice.
use cernopendata_portal.Base.{
  String, ◌≡◌, refl, Bool, false, ◌&&◌, ◌||◌, List, [], ◌∷◌, ◌++◌, string_eq, contains, keep_if,
  arith,
}

abbrev pub IsDistinct : List String → Type 0
IsDistinct [] = Unit
IsDistinct (x ∷ xs) = (contains x xs ≡ false) × IsDistinct xs

pub contains-keep_if :
    (n : String) (p : String → Bool) (ss : List String)
    → contains n (keep_if p ss) ≡ (p n && contains n ss)
contains-keep_if n p [] = ground arith
contains-keep_if n p (s ∷ ss) = ground (arith, contains-keep_if n p ss)

pub contains-append :
    (s : String) (xs ys : List String) → contains s (xs ++ ys) ≡ (contains s xs || contains s ys)
contains-append s [] ys = refl
contains-append s (x ∷ xs) ys = ground (arith, contains-append s xs ys)
