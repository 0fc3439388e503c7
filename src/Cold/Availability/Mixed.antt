-- ===== src/Cold/Availability/Mixed.antt =====
-- The availability of a record (cernopendata/cold_storage/api.py) by those of its files.
use cernopendata_portal.Base.{
  ℕ, ◌+◌, String, ◌≡◌, refl, ◌∙◌, ap, ◌≢◌, ◌⊎◌, inl, inr, true, false, List, [], ◌∷◌, map, ◌==◌,
  string_eq, ◌||◌, contains, All, Bool-cases, arith,
}
use cernopendata_portal.Cold.Model.{Request, Transfer}
use cernopendata_portal.Cold.Availability.{
  Counts, online, partial, requested, add_count, add_counts, all_counts, availability_details,
  availability_of, is_requested, is_transferring, check_availability,
}

abbrev pub kinds : Counts → List String
kinds = map (λ x. x.0)

contains-add_count :
    (a key : String) (n : ℕ) (c : Counts)
    → contains a (kinds (add_count key n c)) ≡ (a == key || contains a (kinds c))
unfolding add_count
contains-add_count a key n [] = refl
contains-add_count a key n ((k, m) ∷ c) = ground (arith, contains-add_count a key n c)

-- The dict has the keys that were counted, and no others.
contains-add_counts :
    (a : String) (new total : Counts)
    → contains a (kinds (add_counts new total))
      ≡ (contains a (kinds new) || contains a (kinds total))
unfolding add_counts
contains-add_counts a [] total = refl
contains-add_counts a ((key, n) ∷ new) total =
    ground
      (arith, contains-add_counts a new (add_count key n total), contains-add_count a key n total)

-- Counting one key again and again leaves one entry.
add_counts_uniform :
    (a : String) (n : ℕ) (new : Counts)
    → All (λ x. x.0 ≡ a) new
    → (m : ℕ) × (add_counts new ((a, n) ∷ []) ≡ (a, m) ∷ [])
unfolding add_counts add_count
add_counts_uniform a n [] h = (n, refl)
add_counts_uniform a n ((key, k) ∷ new) h =
    let step : add_count key k ((a, n) ∷ []) ≡ (a, n + k) ∷ [] = ground (arith, h.0) in
    let (m, e) = add_counts_uniform a (n + k) new h.1 in (m, ap (add_counts new) step ∙ e)

availability_of-partial :
    (a b : String) (c : Counts)
    → contains a (kinds c) ≡ true
    → contains b (kinds c) ≡ true
    → a ≢ b
    → availability_of c ≡ partial
unfolding availability_of
availability_of-partial a b [] h k ne = absurd (ground (arith, h))
availability_of-partial a b ((key, n) ∷ []) h k ne = absurd (ground (arith, h, k, ne))
availability_of-partial a b (x ∷ y ∷ c) h k ne = refl

abbrev pub IsUniform : String → Counts → Type 0
IsUniform a = All (λ x. x.0 ≡ a)

abbrev pub Has : String → Counts → Type 0
Has a c = contains a (kinds c) ≡ true

-- Two availabilities are counted, or only that of the first entry.
kinds-cases : (a : String) (c : Counts) → IsUniform a c ⊎ ((b : String) × Has b c × (a ≢ b))
kinds-cases a [] = inl tt
kinds-cases a ((key, n) ∷ c) = elim (Bool-cases (key == a)) [
  | inr differ ↦ inr (key, ground arith, ground (arith, differ))
  | inl same ↦ elim (kinds-cases a c) [
    | inl h ↦ inl (ground (arith, same), h)
    | inr (b, k, ne) ↦ inr (b, ground (arith, k), ne)
  ]
]

availability_of-uniform :
    (a : String) (n : ℕ) (c : Counts)
    → IsUniform a c
    → availability_of (add_counts ((a, n) ∷ c) []) ≡ a
unfolding availability_of add_counts add_count
availability_of-uniform a n c h = let (m, e) = add_counts_uniform a n c h in ap availability_of e

-- What is counted in a record: the entries of its indices and its files.
module _ (uuid : String) (indices : List Counts) (files : List String) (requests : List Request)
    (transfers : List Transfer) where
  abbrev result : String
  result = (check_availability uuid indices files requests transfers).1

  abbrev counted : Counts
  counted = all_counts indices files

  abbrev pub IsMixed : Type 0
  IsMixed = (a : String) × (b : String) × Has a counted × Has b counted × (a ≢ b)

  -- A record with a submitted request to stage it, or an unfinished transfer of it to disk, is
  -- requested; else it is online if nothing is counted in it, has the one availability that all
  -- that is counted in it has, or is partial where two are counted, and one of the three cases
  -- holds.
  pub check_availability_cases :
      (((is_requested uuid requests || is_transferring uuid transfers) ≡ true)
        × (result ≡ requested))
      ⊎ (((is_requested uuid requests || is_transferring uuid transfers) ≡ false)
          × (((counted ≡ []) × (result ≡ online))
              ⊎ (((a : String) × IsUniform a counted × Has a counted × (result ≡ a))
                  ⊎ (IsMixed × (result ≡ partial)))))
  unfolding check_availability availability_details
  check_availability_cases =
      elim (Bool-cases (is_requested uuid requests || is_transferring uuid transfers)) [
        | inl waits ↦ inl (waits, rw waits refl)
        | inr free ↦ inr (free, rw free (of_counts counted))
      ]
    where
      of_counts :
          (c : Counts)
          → ((c ≡ []) × (availability_of (add_counts c []) ≡ online))
            ⊎ (((a : String) × IsUniform a c × Has a c × (availability_of (add_counts c []) ≡ a))
                ⊎ (((a : String) × (b : String) × Has a c × Has b c × (a ≢ b))
                    × (availability_of (add_counts c []) ≡ partial)))
      of_counts [] = inl (refl, refl)
      of_counts ((a, n) ∷ c) = elim (kinds-cases a c) [
        | inl h ↦ inr (inl (a, (refl, h), ground arith, availability_of-uniform a n c h))
        | inr (b, k, ne) ↦ inr (
            inr (
              (a, b, ground arith, ground (arith, k), ne),
              availability_of-partial a b (add_counts ((a, n) ∷ c) [])
                  (ground (arith, contains-add_counts a ((a, n) ∷ c) []))
                  (ground (arith, contains-add_counts b ((a, n) ∷ c) [], k)) ne,
            ))
      ]
