-- ===== src/Validation/Tests/Simulated.antt =====
-- The theorem on the relations of simulated datasets at a dataset in both tiers.
use mathlib.Core.List.{Memᴰ}
use cernopendata_portal.Base.{
  String, ◌≡◌, refl, ap, Bool, true, false, ◌==◌, Option, none, some, List, [], ◌∷◌, string_eq,
  nat_eq,
}
use cernopendata_portal.Base.Text.{split_at}
use cernopendata_portal.Base.Result.{ok, ok-injective}
use cernopendata_portal.Json.{text, Fields, end, field}
use cernopendata_portal.Json.Dict.{lookup}
use cernopendata_portal.Validation.Cms2016.{
  mini, title_parts, parse_title, title_of, relation, get_relations,
}
use cernopendata_portal.Validation.Cms2016.Paired.{get_relations_paired}

abbrev dataset_in : String → String → Fields
dataset_in title recid = field "title" (text title) (field "recid" (text recid) end)

abbrev mini_record : Fields
mini_record = dataset_in "/TTJets/Summer20/MINIAODSIM" "67801"

abbrev nano_record : Fields
nano_record = dataset_in "/TTJets/Summer20/NANOAODSIM" "35671"

abbrev datasets : List Fields
datasets = mini_record ∷ nano_record ∷ []

abbrev is_mini : Option String × Option String → Bool
is_mini (dataset, none) = false
is_mini (dataset, some tier) = tier == "MINIAODSIM"

true-ne-false : ¬ (true ≡ false)
true-ne-false h = cc

titles_differ : ¬ (parse_title (title_of mini_record) ≡ parse_title (title_of nano_record))
unfolding parse_title title_parts split_at lookup string_eq nat_eq
titles_differ h = true-ne-false (ap is_mini (ok-injective h))

get_relations_paired_example :
    (get_relations datasets mini_record ≡ ok (relation "NANO" "isChildOf" (text "35671")))
    × (get_relations datasets nano_record ≡ ok (relation "MINI" "isParentOf" (text "67801")))
unfolding parse_title title_parts split_at lookup string_eq nat_eq
get_relations_paired_example =
    get_relations_paired mini (some "TTJets") datasets mini_record nano_record (text "67801")
      (text "35671") ((_, refl), ((_, refl), tt)) ((titles_differ, tt), (tt, tt)) (Memᴰ.head refl)
      (Memᴰ.tail (Memᴰ.head refl)) refl refl refl refl
