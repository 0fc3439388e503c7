-- ===== src/Validation/Tests.antt =====
-- The theorems on validations at concrete entries.
pub mod Dois
pub mod Links
pub mod Simulated
use cernopendata_portal.Base.{
  ℕ, suc, String, ◌≡◌, refl, ◌↔◌, inl, inr, Bool, true, List, [], ◌∷◌, map, All, string_eq, nat_eq,
  ◌==◌, leb, ◌&&◌, ◌≤◌, arith,
}
use cernopendata_portal.Base.Result.{Result, ok, raise}
use cernopendata_portal.Base.Text.{split_at, all_chars}
use cernopendata_portal.Json.{Value, text, obj, Fields, end, field, truthy, nil, cons}
use cernopendata_portal.Json.Dict.{lookup}
use cernopendata_portal.Json.Equal.{equal}
use cernopendata_portal.Release.Model.{draft, status_eq, Message}
use cernopendata_portal.Release.Tests.{release_in}
use cernopendata_portal.Validation.Expected.{get_nested, set_nested, sub_dict, fix_all, check_all}
use cernopendata_portal.Validation.Expected.Nested.{get_nested-set_nested, lookup-set_nested}
use cernopendata_portal.Validation.Expected.Fixed.{Constant, to_expected}
use cernopendata_portal.Validation.Expected.Total.{fix_all_completes}
use cernopendata_portal.Validation.Pid.{Pid, hashable}
use cernopendata_portal.Validation.Pid.Distinct.{Distinct}
use cernopendata_portal.Validation.Files.{check_files, check_entry, check_file, has_checksum_prefix}
use cernopendata_portal.Validation.Files.Complete.{HasComplete, check_files_passes}
use cernopendata_portal.Json.{num, arr}
use cernopendata_portal.Json.Python.{iterate, member, get_item}
use cernopendata_portal.Validation.Slug.{fix_slugs}
use cernopendata_portal.Validation.Slug.Laws.{HasSlug, fix_slugs-HasSlug}
use cernopendata_portal.Release.Lifecycle.{FixesInPlace}
use cernopendata_portal.Validation.Registry.{entry_validations, entry_validations-FixesInPlace}
use cernopendata_portal.Validation.Recid.{fix_recids, check_forms, is_digits}
use cernopendata_portal.Validation.Recid.Format.{fix_recids-check_forms}

abbrev publisher : Constant
publisher = record { key = "publisher"; keys = []; value = text "CERN Open Data Portal" }

abbrev license : Constant
license = record { key = "license"; keys = "attribution" ∷ []; value = text "CC0" }

abbrev plain_record : Fields
plain_record = field "recid" (text "42") (field "publisher" (text "CERN") end)

abbrev constants : List Constant
constants = publisher ∷ license ∷ []

abbrev fixed_to : {A : Type 0} → A → Result A → A
fixed_to a (ok b) = b
fixed_to a (raise e) = a

fix_all_completes_example :
    (r : List Fields × List Message) × (fix_all
        (release_in draft)
        "Record"
        (map to_expected constants)
        (plain_record ∷ [])
      ≡ ok r)
    × (r.1 ≡ [])
    × (check_all (release_in draft) "Record" (map to_expected constants) r.0 ≡ ok [])
unfolding set_nested sub_dict truthy lookup equal string_eq
fix_all_completes_example =
    fix_all_completes (release_in draft) "Record" (release_in draft) constants (plain_record ∷ [])
      ((refl, refl), ((refl, refl), tt)) (((λ e. cc), tt), (tt, tt))
      (((_, refl), tt), (((_, refl), tt), tt))

abbrev licensed : Fields
licensed = fixed_to end (set_nested ("license" ∷ "attribution" ∷ []) (text "CC0") plain_record)

abbrev known_pids : List Pid
known_pids = record { pid_type = "recid"; pid_value = "42"; registered = true } ∷ []

abbrev uploaded : List Fields
uploaded =
    field "_source_filename" (text "docs/about-cms.json") end
    ∷ field "title" (text "No file") end
    ∷ []

fix_slugs-HasSlug_example :
    (r : List Fields × List Message) × (fix_slugs 0 uploaded ≡ ok r) × (r.1 ≡ [] ↔ All HasSlug r.0)
unfolding lookup string_eq
fix_slugs-HasSlug_example =
    fix_slugs-HasSlug 0 uploaded (inr ("docs/about-cms.json", refl), (inl refl, tt))

-- The digits of ASCII, and a `str` that is exact on texts.
abbrev ascii_digit : ℕ → Bool
ascii_digit c = leb 48 c && leb c 57

abbrev text_of : Value → String
text_of (text s) = s
text_of _ = "?"

ascii_digit_holds : (c : ℕ) → 48 ≤ c → c ≤ 57 → ascii_digit c ≡ true
ascii_digit_holds c h k = ground arith

fix_recids-check_forms_example :
    (r : List Fields × ℕ) × (fix_recids ascii_digit ascii_digit text_of "cms" [] [] 100 0
        (plain_record ∷ uploaded)
      ≡ ok r)
    × (check_forms ascii_digit ascii_digit text_of "cms" 0 r.0 ≡ [])
unfolding hashable lookup string_eq truthy all_chars is_digits
fix_recids-check_forms_example =
    fix_recids-check_forms ascii_digit ascii_digit text_of ascii_digit_holds (λ s. refl) "cms" [] []
      100 0 (plain_record ∷ uploaded) (refl, (refl, (refl, tt)))
      ((λ e. refl), ((λ e. refl), ((λ e. refl), tt)))

abbrev with_file : Fields
with_file =
    field "files"
      (arr (cons (obj (field "size" (num 3) (field "checksum" (text "adler32:1a") end))) nil)) end

check_files_passes_example :
    (check_files text_of 0 (with_file ∷ plain_record ∷ []) ≡ ok [])
    ↔ All (HasComplete text_of) (with_file ∷ plain_record ∷ [])
check_files_passes_example = check_files_passes text_of 0 (with_file ∷ plain_record ∷ [])

-- The check finds nothing in these two records.
checked_files : check_files text_of 0 (with_file ∷ plain_record ∷ []) ≡ ok []
unfolding check_files check_entry check_file has_checksum_prefix split_at iterate member get_item
    lookup string_eq nat_eq
checked_files = refl

abbrev counted_doi : String → ℕ → String × ℕ
counted_doi experiment n = ("10.5072/AB", suc n)

entry_validations-FixesInPlace_example : All FixesInPlace (
    entry_validations ascii_digit ascii_digit text_of
      (λ s. s)
      known_pids
      3
      5
      7
      "10.5072"
      true
      []
      counted_doi
      0
      (λ slug. slug == "about-cms"))
entry_validations-FixesInPlace_example =
    entry_validations-FixesInPlace ascii_digit ascii_digit text_of (λ s. s) known_pids 3 5 7
      "10.5072" true [] counted_doi 0 (λ slug. slug == "about-cms")
