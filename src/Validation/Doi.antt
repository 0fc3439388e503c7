-- ===== src/Validation/Doi.antt =====
-- validations/doi.py: the prefixes and suffixes of DOIs; and the random DOIs of
-- cernopendata/modules/datacite/utils.py. `upper` is Python's; the random texts are drawn from a list.
pub mod Minted
pub mod Lawful
use cernopendata_portal.Base.{
  ℕ, suc, String, ◌<>◌, Bool, true, false, not, Option, none, some, List, [], ◌∷◌, ◌++◌, map, ◌==◌,
  string_eq, nat_eq, ◌&&◌, ◌||◌, if◌then◌else◌, contains, find_first,
}
use cernopendata_portal.Base.Result.{Result, ok, raise, attribute_error, ◌>>=◌}
use cernopendata_portal.Base.Text.{span}
use cernopendata_portal.Json.{Value, text, Fields, truthy}
use cernopendata_portal.Json.Dict.{insert}
use cernopendata_portal.Json.Python.{member}
use cernopendata_portal.Release.Model.{
  Message, doi_malformed, doi_prefix, doi_duplicate, doi_registered, Metadata, Validator,
}
use cernopendata_portal.Release.Edit.{get}

-- `random_doi`, on two random texts of four characters.
unfoldable pub random_doi : (String → String) → String → Option String → String × String → String
random_doi upper prefix experiment (a, b) =
    let base : String = elim experiment [
      | none ↦ prefix <> "/OPENDATA"
      | some e ↦ if e == "" then prefix <> "/OPENDATA" else prefix <> "/OPENDATA." <> e
    ] in
    upper (base <> "." <> a <> "." <> b)

-- `generate_doi`, with the draws that are left; `none` where they do not suffice.
unfoldable pub generate_doi :
    (String → String)
    → String
    → Option String
    → (String → Bool)
    → List (String × String)
    → Option (String × List (String × String))
unfolding random_doi
generate_doi upper prefix experiment is_registered [] = none
generate_doi upper prefix experiment is_registered (draw ∷ draws) =
    let rest = generate_doi upper prefix experiment is_registered draws in
    let doi = random_doi upper prefix experiment draw in
    if is_registered doi then rest else some (doi, draws)

-- `s.partition("/")`, with `none` where there is no separator.
abbrev after_first : String × String → Option (String × String)
after_first (front, String.[]) = none
after_first (front, String.◌∷◌ c rest) = some (front, rest)

unfoldable pub partition : String → Option (String × String)
partition s = after_first (span (λ c. not (c == 0x2f)) s)

-- What `validate` and `fix` tell apart: no DOI, one with no separator or suffix, and the two parts.
pub data Doi : Type 0 where
  absent malformed : Doi
  parts : String → String → Doi

abbrev pub of_parts : Option (String × String) → Doi
of_parts none = malformed
of_parts (some (prefix, suffix)) = if suffix == "" then malformed else parts prefix suffix

unfoldable pub doi_of : Value → Result Doi
unfolding partition
doi_of (text String.[]) = ok absent
doi_of (text (String.◌∷◌ c s)) = ok (of_parts (partition (String.◌∷◌ c s)))
doi_of v = if truthy v then raise attribute_error else ok absent

-- `doi.partition("/")[2]`
abbrev pub suffix_of : String → String
suffix_of s = elim (partition s) [ none ↦ "" | some p ↦ p.1 ]

abbrev pub suffixes_in : Option (String × String) → List String
suffixes_in none = []
suffixes_in (some (front, suffix)) = suffix ∷ []

-- What `all_suffixes` of `fix` has of one DOI; a text has a "/" where it can be partitioned.
unfoldable pub suffix_in : Value → Result (List String)
unfolding partition
suffix_in (text s) = ok (suffixes_in (partition s))
suffix_in v =
    if truthy v
    then (member "/" v >>= λ has. if has then raise attribute_error else ok [])
    else ok []

module _ (prefix : String) (validate_prefix : Bool) where
  -- The loop of `validate`: the errors, and the suffixes in the order of `used_suffixes`, each with
  -- the entry that uses it first.
  abbrev prefix_errors : ℕ → String → List Message
  prefix_errors i p = if validate_prefix && not (p == prefix) then doi_prefix (suc i) p ∷ [] else []

  abbrev first_use : String → List (String × ℕ) → Option ℕ
  first_use suffix [] = none
  first_use suffix ((s, i) ∷ used) = if suffix == s then some i else first_use suffix used

  unfoldable pub check_doi : ℕ → Doi → List (String × ℕ) → List Message × List (String × ℕ)
  check_doi i absent used = ([], used)
  check_doi i malformed used = (doi_malformed (suc i) ∷ [], used)
  check_doi i (parts p suffix) used = elim (first_use suffix used) [
    | some j ↦ (prefix_errors i p ++ (doi_duplicate (suc i) suffix (suc j) ∷ []), used)
    | none ↦ (prefix_errors i p, used ++ ((suffix, i) ∷ []))
  ]

  unfoldable pub check_dois :
      ℕ → List Fields → List (String × ℕ) → Result (List Message × List (String × ℕ))
  unfolding check_doi
  check_dois i [] used = ok ([], used)
  check_dois i (r ∷ rs) used = doi_of (get "doi" r) >>= λ doi.
      let (errors, used') = check_doi i doi used in
      check_dois (suc i) rs used' >>= λ rest. ok (errors ++ rest.0, rest.1)

  -- `_registered_suffixes`, with the DOIs that are registered in the order of the query.
  unfoldable pub registered_suffixes : List String → List String → List String
  registered_suffixes [] suffixes = []
  registered_suffixes (doi ∷ dois) suffixes =
      let rest = registered_suffixes dois suffixes in
      elim (find_first (λ s. prefix <> "/" <> s == doi) suffixes) [
        | none ↦ rest
        | some suffix ↦ suffix ∷ rest
      ]

  -- `ValidDoi.validate`
  unfoldable pub validate_dois : List String → List Fields → Result (List Message)
  unfolding check_dois registered_suffixes
  validate_dois registered records = check_dois 0 records [] >>= λ r.
      ok (r.0 ++ map doi_registered (registered_suffixes registered (map (λ u. u.0) r.1)))

  -- `all_suffixes` of `fix`; a DOI with a separator counts, whatever its suffix.
  unfoldable pub all_suffixes : List Fields → Result (List String)
  unfolding suffix_in
  all_suffixes [] = ok []
  all_suffixes (r ∷ rs) =
      suffix_in (get "doi" r) >>= λ first. all_suffixes rs >>= λ rest. ok (first ++ rest)

  -- The loop of `fix`; `new_doi` is `generate_doi` on a source of random texts.
  module _ {S : Type 0} (new_doi : S → String × S) where
    abbrev minted : Fields → S → (Fields × String) × S
    minted r source =
        let (doi, source') = new_doi source in ((insert "doi" (text doi) r, suffix_of doi), source')

    -- A record with its DOI, the suffixes used, and what is left of the source.
    unfoldable pub fix_doi :
        List String → List String → Fields → Doi → S → (Fields × List String) × S
    fix_doi taken used r absent source = ((r, used), source)
    fix_doi taken used r malformed source =
        let ((r', suffix), source') = minted r source in ((r', suffix ∷ used), source')
    fix_doi taken used r (parts p suffix) source =
        let ((minted_r, new), source') = minted r source in
        if contains suffix used || contains suffix taken
        then ((minted_r, new ∷ used), source')
        else if validate_prefix && not (p == prefix)
        then ((insert "doi" (text (prefix <> "/" <> suffix)) r, suffix ∷ used), source)
        else ((r, suffix ∷ used), source)

    unfoldable pub fix_dois : List String → List String → List Fields → S → Result (List Fields × S)
    unfolding fix_doi
    fix_dois taken used [] source = ok ([], source)
    fix_dois taken used (r ∷ rs) source = doi_of (get "doi" r) >>= λ doi.
        let ((r', used'), source') = fix_doi taken used r doi source in
        fix_dois taken used' rs source' >>= λ rest. ok (r' ∷ rest.0, rest.1)

    -- `ValidDoi.fix`: the records, and what `validate` finds in them.
    unfoldable pub fix_all_dois :
        List String → List Fields → S → Result ((List Fields × List Message) × S)
    unfolding all_suffixes registered_suffixes fix_dois validate_dois
    fix_all_dois registered records source = all_suffixes records >>= λ suffixes.
        fix_dois (registered_suffixes registered suffixes) [] records source >>= λ fixed.
        validate_dois registered fixed.0 >>= λ errors. ok ((fixed.0, errors), fixed.1)

-- `class ValidDoi`, with the registered DOIs, `generate_doi` for an experiment, and its source.
unfoldable pub valid_doi :
    {S : Type 0} → String → Bool → List String → (String → S → String × S) → S → Validator
unfolding validate_dois fix_all_dois
valid_doi prefix validate_prefix registered new_doi source = record {
  name = "Valid DOI";
  experiment = none;
  optional = false;
  validate = λ m. validate_dois prefix validate_prefix registered m.records;
  fix = some (λ m.
      fix_all_dois prefix validate_prefix (new_doi m.experiment) registered m.records source
      >>= λ r. ok (record m { records = r.0.0 }, r.0.1));
  fixable = λ _. ok true;
}
