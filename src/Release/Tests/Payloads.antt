-- ===== src/Release/Tests/Payloads.antt =====
-- The theorems on payloads at the sample release.
use cernopendata_portal.Base.{◌≡◌, some, string_eq}
use cernopendata_portal.Json.{Value, text, arr, obj, nil, end, field}
use cernopendata_portal.Release.Model.{draft, Metadata}
use cernopendata_portal.Release.Edit.{create}
use cernopendata_portal.Release.Payload.{release_body, name_or, upload}
use cernopendata_portal.Release.Payload.RoundTrip.{with_source, upload-release_body}
use cernopendata_portal.Release.Tests.{registry, release_in}

abbrev downloaded : Metadata
downloaded = release_in draft

upload-release_body_example :
    upload registry "record.json" "document.json" "7" "CMS"
      (λ id. 7)
      3
      "cms.json"
      (release_body downloaded)
    ≡ create registry "record.json" "document.json" "7" "CMS"
        (λ id. 7)
        3
        downloaded.records
        (with_source "cms.json" downloaded.documents)
        (some (name_or "cms.json" downloaded.name))
        downloaded.description
        downloaded.discussion_url
upload-release_body_example =
    upload-release_body registry "record.json" "document.json" "7" "CMS" (λ id. 7) 3 "cms.json"
      downloaded

-- A wrapped record with no files in its index.
abbrev wrapped : Value
wrapped =
    obj
      (field "metadata" (obj (field "title" (text "Jets") (field "index_files" (arr nil) end))) end)

abbrev normal : Value
normal = obj (field "title" (text "Jets") (field "files" (arr nil) end))
