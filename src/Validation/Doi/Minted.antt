-- ===== src/Validation/Doi/Minted.antt =====
-- That enough draws give a DOI (`generate_doi` of cernopendata/modules/datacite/utils.py).
use cernopendata_portal.Base.{
  suc, ◌<◌, String, ◌≡◌, refl, sym, ◌∙◌, inl, inr, true, false, Option, some, List, [], ◌∷◌, ◌==◌,
  string_eq, if◌then◌else◌, contains, length, map, arith, Bool-cases,
}
use cernopendata_portal.Base.Members.{IsDistinct}
use cernopendata_portal.Validation.Doi.{random_doi, generate_doi}

abbrev without : String → List String → List String
without a [] = []
without a (x ∷ xs) = let rest = without a xs in if a == x then xs else x ∷ rest

length-without :
    (a : String) (xs : List String) → contains a xs ≡ true → suc (length (without a xs)) ≡ length xs
length-without a [] h = absurd (ground (arith, h))
length-without a (x ∷ xs) h = ground (arith, h, length-without a xs)

contains-without :
    (a b : String) (xs : List String) → (a == b) ≡ false → contains b (without a xs) ≡ contains b xs
contains-without a b [] h = refl
contains-without a b (x ∷ xs) h = ground (arith, h, contains-without a b xs h)

-- Of more texts than are registered, one is not.
unregistered :
    (xs registered : List String)
    → IsDistinct xs
    → length registered < length xs
    → (x : String) × (contains x xs ≡ true) × (contains x registered ≡ false)
unregistered [] registered h l = absurd (omega (arith, l))
unregistered (x ∷ xs) registered h l = elim (Bool-cases (contains x registered)) [
  | inr free ↦ (x, ground arith, free)
  | inl taken ↦
      let (y, among, free) =
        unregistered xs (without x registered) h.1
          (omega (arith, l, length-without x registered taken)) in
      let differ : (x == y) ≡ false = ground (arith, h.0, among) in
      (y, ground (arith, among), sym (contains-without x y registered differ) ∙ free)
]

module _ (upper : String → String) (prefix : String) (experiment : Option String) where
  abbrev pub candidates : List (String × String) → List String
  candidates = map (random_doi upper prefix experiment)

  -- A draw that is not registered ends the loop.
  generate_doi-returns :
      (registered : List String) (draws : List (String × String)) (x : String)
      → contains x (candidates draws) ≡ true
      → contains x registered ≡ false
      → (doi : String) × (rest : List (String × String)) × (generate_doi upper prefix experiment
            (λ d. contains d registered)
            draws
          ≡ some (doi, rest))
        × (contains doi registered ≡ false)
        × (contains doi (candidates draws) ≡ true)
  unfolding generate_doi
  generate_doi-returns registered [] x among free = absurd (ground (arith, among))
  generate_doi-returns registered (draw ∷ draws) x among free =
      elim (Bool-cases (contains (random_doi upper prefix experiment draw) registered)) [
        | inr new ↦ (random_doi upper prefix experiment draw, draws, rw new refl, new, ground arith)
        | inl taken ↦
            let (doi, rest, e, new, drawn) =
              generate_doi-returns registered draws x (ground (arith, among, free, taken)) free in
            (doi, rest, rw taken e, new, ground (arith, drawn))
      ]

  -- Among draws that give different DOIs and are more than the registered DOIs, the loop of
  -- generate_doi ends with one of their DOIs that is not registered.
  pub generate_doi_ends :
      (registered : List String) (draws : List (String × String))
      → IsDistinct (candidates draws)
      → length registered < length (candidates draws)
      → (doi : String) × (rest : List (String × String)) × (generate_doi upper prefix experiment
            (λ d. contains d registered)
            draws
          ≡ some (doi, rest))
        × (contains doi registered ≡ false)
        × (contains doi (candidates draws) ≡ true)
  generate_doi_ends registered draws distinct few =
      let (x, among, free) = unregistered (candidates draws) registered distinct few in
      generate_doi-returns registered draws x among free
