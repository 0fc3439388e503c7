-- ===== src/Validation/Tests/Dois.antt =====
-- The theorems on DOIs at two draws.
use cernopendata_portal.Base.{
  String, ◌≡◌, refl, true, false, some, List, [], ◌∷◌, string_eq, nat_eq, contains, arith,
}
use cernopendata_portal.Validation.Doi.{random_doi, generate_doi}
use cernopendata_portal.Validation.Doi.Minted.{candidates, generate_doi_ends}

abbrev draws : List (String × String)
draws = ("AB12", "CD34") ∷ ("EF56", "GH78") ∷ []

abbrev minted : List String
minted = "10.5072/OPENDATA.CMS.AB12.CD34" ∷ []

generate_doi_ends_example :
    (doi : String) × (rest : List (String × String)) × (generate_doi
        (λ s. s)
        "10.5072"
        (some "CMS")
        (λ d. contains d minted)
        draws
      ≡ some (doi, rest))
    × (contains doi minted ≡ false)
    × (contains doi (candidates (λ s. s) "10.5072" (some "CMS") draws) ≡ true)
unfolding random_doi string_eq
generate_doi_ends_example =
    generate_doi_ends (λ s. s) "10.5072" (some "CMS") minted draws (refl, (refl, tt)) (omega arith)
