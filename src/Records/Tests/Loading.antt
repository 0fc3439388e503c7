-- ===== src/Records/Tests/Loading.antt =====
-- The theorems on loading and refreshing file indices at one record.
use cernopendata_portal.Base.{
  ◌+◌, String, ◌≡◌, refl, subst, Option, some, List, [], ◌∷◌, string_eq, nat_eq, All, map,
}
use cernopendata_portal.Base.Text.{split_at}
use cernopendata_portal.Base.Result.{Result, ok, ok-injective}
use cernopendata_portal.Json.{num, text, Fields, end, field}
use cernopendata_portal.Json.Dict.{lookup}
use cernopendata_portal.Records.Index.{IndexedFile}
use cernopendata_portal.Records.Index.Reread.{IsPlain}
use cernopendata_portal.Records.Flush.{Bucket, indices_of, flush_indices}
use cernopendata_portal.Records.Flush.Tallied.{
  count_at, number_of, occurrences, files_of, flush_indices_tallies,
}
use cernopendata_portal.Records.Load.{ObjectVersion}
use cernopendata_portal.Records.Load.Complete.{
  IsEntry, IsLoadable, IsRefreshed, handle_record_files_refreshes,
}
use cernopendata_portal.Records.Tests.{entry, made}

abbrev listing_of : String → Result (List Fields)
listing_of uri = ok (entry ∷ entry ∷ [])

listing_of-IsPlain :
    (uri : String) (content : List Fields) → listing_of uri ≡ ok content → All IsPlain content
unfolding lookup string_eq
listing_of-IsPlain uri content e = subst (All IsPlain) (ok-injective e) (refl, (refl, tt))

abbrev version : ObjectVersion
version = record { bucket_id = "b1"; checksum = text "c"; key = "data.root"; version_id = "v1" }

abbrev create_version : String → Fields → Option ObjectVersion
create_version name file = some version

abbrev online_each : List Fields → List String
online_each = map (λ file. "online")

abbrev listing : String → String → Fields
listing uri kind = field "uri" (text uri) (
    field "size" (num 9) (
      field "checksum" (text "d")
        (field "type" (text kind) (field "description" (text "Muons") end))))

abbrev loose : Fields
loose = field "uri" (text "/eos/data.root") (field "size" (num 5) (field "checksum" (text "c") end))

abbrev bucket : String → List IndexedFile → Bucket
bucket uuid files = record {
  record_id = uuid;
  index_name = "list.json";
  description = some "Muons";
  files = files;
}

abbrev old : List Bucket
old = bucket "r1" [] ∷ bucket "r2" [] ∷ []

abbrev new : List Bucket
new = bucket "r2" [] ∷ bucket "r1" made.files ∷ []

abbrev files : List Fields
files = listing "/eos/list.json" "index.json" ∷ listing "/eos/list.txt" "index.txt" ∷ loose ∷ []

is_entry : IsEntry entry
unfolding lookup string_eq
is_entry = (text "root://a", 3, text "b", refl, refl, refl)

listing-IsLoadable : (uri kind : String) → IsLoadable listing_of (listing uri kind)
unfolding lookup string_eq
listing-IsLoadable uri kind = (
  uri,
  num 9,
  text "d",
  "Muons",
  refl,
  refl,
  refl,
  refl,
  λ h. (entry ∷ entry ∷ [], refl, (is_entry, (is_entry, tt))),
)

loose-IsLoadable : IsLoadable listing_of loose
unfolding lookup string_eq split_at nat_eq
loose-IsLoadable = (
  "/eos/data.root",
  num 5,
  text "c",
  "data.root",
  refl,
  refl,
  refl,
  refl,
  λ h. (entry ∷ entry ∷ [], refl, (is_entry, (is_entry, tt))),
)

handle_record_files_refreshes_example :
    IsRefreshed listing_of listing_of-IsPlain create_version online_each "r1" end files [] [] old
handle_record_files_refreshes_example =
    handle_record_files_refreshes listing_of listing_of-IsPlain create_version online_each "r1" end
      files [] [] old
      (
        listing-IsLoadable "/eos/list.json" "index.json",
        (listing-IsLoadable "/eos/list.txt" "index.txt", (loose-IsLoadable, tt)),
      )

flush_indices_tallies_example :
    count_at "online" (flush_indices "r1" new ("online" ∷ "on demand" ∷ []) [] []).1.0
    ≡ number_of "online" (files_of "r1" new) + occurrences "online" ("online" ∷ "on demand" ∷ [])
unfolding indices_of string_eq
flush_indices_tallies_example =
    flush_indices_tallies "r1" "online" new ("online" ∷ "on demand" ∷ []) [] [] (refl, tt)
