-- ===== src/Records/Tests.antt =====
-- The theorems on file indices and pages at two files.
mod Loading
use cernopendata_portal.Base.{ℕ, ◌≡◌, refl, false, some, List, [], ◌∷◌, string_eq, nat_eq}
use cernopendata_portal.Base.Text.{split_at, last_part, show, show_on}
use cernopendata_portal.Json.{num, text, Fields, end, field}
use cernopendata_portal.Json.Dict.{lookup}
use cernopendata_portal.Cold.Availability.{add_count}
use cernopendata_portal.Records.Index.{
  IndexMetadata, tag_availability, add_file, indexed_file, given_availability, create_files,
  create_index, get_index,
}
use cernopendata_portal.Records.Index.Counted.{IsCounted, create_index-IsCounted}

abbrev pub entry : Fields
entry = field "uri" (text "root://a") (field "size" (num 3) (field "checksum" (text "b") end))

abbrev pub made : IndexMetadata
made = record {
  name = "list.json";
  description = "Muons";
  availability = ("online", 2) ∷ [];
  number_files = 2;
  size = 6;
  files =
      (record {
        key = "list.json_0";
        uri = text "root://a";
        size = 3;
        checksum = text "b";
        hot_deleted = false;
        content = entry;
      })
      ∷ (record {
        key = "list.json_1";
        uri = text "root://a";
        size = 3;
        checksum = text "b";
        hot_deleted = false;
        content = entry;
      })
      ∷ [];
}

create_index-IsCounted_example : IsCounted made
unfolding create_index create_files indexed_file given_availability tag_availability add_file
    add_count lookup show show_on split_at string_eq nat_eq
create_index-IsCounted_example =
    create_index-IsCounted "/eos/list.json" "Muons" (entry ∷ entry ∷ []) made refl

abbrev keys : List ℕ
keys = 4 ∷ 7 ∷ 9 ∷ []
