-- ===== src/Records/Pages.antt =====
-- `get_paged_files` and `record_file_page` (cernopendata/modules/records/utils.py).
-- A page and a number of items per page are natural here; Python's slice for page 0 ends at 0.
use cernopendata_portal.Base.{
  ℕ, zero, suc, ◌+◌, ◌*◌, ◌≤◌, ◌≡◌, refl, sym, ap, ◌∙◌, Bool, Option, none, some, List, [], ◌∷◌,
  ◌++◌, length, take, drop, if◌then◌else◌, arith,
}

-- `(page - 1) * items_per_page`
abbrev start_of : ℕ → ℕ → ℕ
start_of p items = p * items

unfoldable pub get_paged_files {ℓ} : {A : Type ℓ} → List A → ℕ → ℕ → List A
get_paged_files files zero items = []
get_paged_files files (suc p) items = take items (drop (start_of p items) files)

-- The answer: the first files of both kinds, or one page of one kind, each with its total.
pub data FilePage {ℓ} (A : Type ℓ) : Type ℓ where
  grouped : ℕ → List A → ℕ → List A → FilePage A
  paged : ℕ → List A → FilePage A

-- `perPage` is what `int` gives for the argument, if it gives something.
abbrev pub items_of : Option ℕ → ℕ
items_of none = 5
items_of (some n) = n

unfoldable pub record_file_page {ℓ} :
    {A : Type ℓ} → Option ℕ → Bool → Bool → ℕ → List A → List A → FilePage A
unfolding get_paged_files
record_file_page per_page group of_indices page files index_files =
    let items = items_of per_page in
    let chosen = if of_indices then index_files else files in
    if group
    then grouped (length index_files) (take items index_files) (length files) (take items files)
    else paged (length chosen) (get_paged_files chosen page items)

-- The first pages, one after the other.
unfoldable pub first_pages {ℓ} : {A : Type ℓ} → List A → ℕ → ℕ → List A
unfolding get_paged_files
first_pages files zero items = []
first_pages files (suc p) items = first_pages files p items ++ get_paged_files files (suc p) items

product : (p items : ℕ) → p * items + items ≡ suc p * items
product p items = omega arith

module _ {ℓ} {A : Type ℓ} where
  take-eq : (m n : ℕ) (xs : List A) → m ≡ n → take m xs ≡ take n xs
  take-eq m n xs e = ap (λ k. take k xs) e

  take-add : (a b : ℕ) (xs : List A) → take (a + b) xs ≡ take a xs ++ take b (drop a xs)
  take-add zero b xs = take-eq (zero + b) b xs (omega arith)
  take-add (suc a) zero [] = take-eq (suc a + zero) (suc a) [] (omega arith)
  take-add (suc a) (suc b) [] = take-eq (suc a + suc b) (suc (a + suc b)) [] (omega arith)
  take-add (suc a) b (x ∷ xs) =
      take-eq (suc a + b) (suc (a + b)) (x ∷ xs) (omega arith)
      ∙ ap (λ rest. x ∷ rest) (take-add a b xs)

  take_all : (n : ℕ) (xs : List A) → length xs ≤ n → take n xs ≡ xs
  take_all zero [] h = refl
  take_all zero (x ∷ xs) h = absurd (omega (arith, h))
  take_all (suc n) [] h = refl
  take_all (suc n) (x ∷ xs) h = ap (λ rest. x ∷ rest) (take_all n xs (omega (arith, h)))

  first_pages-take :
      (files : List A) (p items : ℕ) → first_pages files p items ≡ take (p * items) files
  unfolding first_pages get_paged_files
  first_pages-take files zero items = take-eq 0 (zero * items) files (omega arith)
  first_pages-take files (suc p) items =
      ap (λ front. front ++ take items (drop (p * items) files)) (first_pages-take files p items)
      ∙ sym (take-add (p * items) items files)
      ∙ take-eq (p * items + items) (suc p * items) files (product p items)

  -- The first pages, where they have room for all files, are all files in their order.
  pub first_pages_all :
      (files : List A) (p items : ℕ) → length files ≤ p * items → first_pages files p items ≡ files
  first_pages_all files p items h = first_pages-take files p items ∙ take_all (p * items) files h
