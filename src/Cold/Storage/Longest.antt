-- ===== src/Cold/Storage/Longest.antt =====
-- The location that a file belongs to.
use mathlib.Core.List.{Mem, mem-cons_self, mem-cons_of_mem}
use mathlib.Core.Bool.{false≢true}
use cernopendata_portal.Base.{
  Bool-cases, sym, ◌∙◌, refl, ◌⊎◌, inl, inr, ℕ, ◌≤◌, String, ◌≡◌, true, false, none, some, List, [],
  ◌∷◌, All, arith, ltb,
}
use cernopendata_portal.Cold.Model.{Action, Location}
use cernopendata_portal.Cold.Storage.{text_length, prefix_of, is_under, find_location}

-- No location of the list that the file is under has a longer path.
abbrev pub NoneLonger : Action → String → ℕ → List Location → Type 0
NoneLonger action file n =
    All (λ l. is_under action file l ≡ true → text_length (prefix_of action l) ≤ n)

NoneLonger-mono :
    (action : Action) (file : String) (m n : ℕ) (ls : List Location)
    → m ≤ n
    → NoneLonger action file m ls
    → NoneLonger action file n ls
NoneLonger-mono action file m n [] le h = tt
NoneLonger-mono action file m n (l ∷ ls) le h =
    ((λ p. omega (arith, h.0 p, le)), NoneLonger-mono action file m n ls le h.1)

None-NoneLonger :
    (action : Action) (file : String) (n : ℕ) (ls : List Location)
    → All (λ l. is_under action file l ≡ false) ls
    → NoneLonger action file n ls
None-NoneLonger action file n [] h = tt
None-NoneLonger action file n (l ∷ ls) h =
    ((λ p. absurd (false≢true (sym h.0 ∙ p))), None-NoneLonger action file n ls h.1)

-- A location is found exactly if the file matches the path of one of them with % behind, as an SQL
-- LIKE pattern; the one found is in the list, the file matches it, and no location of the list
-- that it matches has a longer path.
pub find_location-NoneLonger :
    (action : Action) (file : String) (ls : List Location)
    → ((find_location action file ls ≡ none) × All (λ l. is_under action file l ≡ false) ls)
      ⊎ ((l : Location) × (find_location action file ls ≡ some l)
          × Mem l ls
          × (is_under action file l ≡ true)
          × NoneLonger action file (text_length (prefix_of action l)) ls)
unfolding find_location
find_location-NoneLonger action file [] = inl (refl, tt)
find_location-NoneLonger action file (l ∷ ls) = elim (Bool-cases (is_under action file l)) [
  | inr away ↦ elim (find_location-NoneLonger action file ls) [
    | inl (e, h) ↦ inl (rw away e, (away, h))
    | inr (best, e, m, under, h) ↦ inr (
      best,
      rw away e,
      mem-cons_of_mem l m,
      under,
      ((λ p. absurd (false≢true (sym away ∙ p))), h),
    )
  ]
  | inl under_l ↦ elim (find_location-NoneLonger action file ls) [
    | inl (e, h) ↦ inr (
      l,
      rw (under_l, e) refl,
      mem-cons_self,
      under_l,
      ((λ p. omega arith), None-NoneLonger action file _ ls h),
    )
    | inr (best, e, m, under, h) ↦
        let n = text_length (prefix_of action l) in
        let k = text_length (prefix_of action best) in
        elim (Bool-cases (ltb n k)) [
          | inl less ↦ inr (
            best,
            rw (under_l, e, less) refl,
            mem-cons_of_mem l m,
            under,
            ((λ p. ground (arith, less)), h),
          )
          | inr more ↦ inr (
            l,
            rw (under_l, e, more) refl,
            mem-cons_self,
            under_l,
            ((λ p. omega arith), NoneLonger-mono action file k n ls (ground (arith, more)) h),
          )
        ]
  ]
]
