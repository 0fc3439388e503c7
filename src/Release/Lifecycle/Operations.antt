-- ===== src/Release/Lifecycle/Operations.antt =====
-- The operations of `class Release` (modules/releases/api.py) and soundness of the row.
use cernopendata_portal.Base.{
  ℕ, suc, String, ◌≡◌, refl, sym, ap, ◌∙◌, ◌⊎◌, inl, inr, Bool, not, Option, List, [], ◌∷◌, length,
  All, arith, is_empty, Option-cases, Bool-cases, ◌&&◌, find_first, find_first-All, ◌==◌, string_eq,
}
use cernopendata_portal.Base.Result.{Result, ok, Result-cases, >>=-eq-ok, ok-injective}
use cernopendata_portal.Json.{Value, Fields, text}
use cernopendata_portal.Json.Dict.{insert}
use cernopendata_portal.Release.Model.{draft, status_eq, Check, Message, Metadata, Validator}
use cernopendata_portal.Release.Validate.{change_status, validate, validator_of}
use cernopendata_portal.Release.Edit.{
  with_schema, create, update_records, add_records, add_documents, replace_slug, update_document,
  enable_validation, set_enabled, update_metadata,
}
use cernopendata_portal.Release.Bulk.{Updates, bulk_update}
use cernopendata_portal.Release.Fix.{
  fixable, fix, fix_one, fix_all, after_fix, fix_checks, mint_record, mint_all, generate_doi,
}
use cernopendata_portal.Release.Lifecycle.{IsSound, FixesInPlace}
use cernopendata_portal.Release.Lifecycle.Trace.{change_status-IsSound, validate-IsSound}

length-with_schema : (s : String) (rs : List Fields) → length (with_schema s rs) ≡ length rs
unfolding with_schema
length-with_schema s [] = refl
length-with_schema s (r ∷ rs) = omega (arith, length-with_schema s rs)

module _ (registry : List Validator) (record_schema document_schema : String) where
  pub create-IsSound :
      (id experiment : String) (row_id : String → ℕ) (user : ℕ) (records documents : List Fields)
      → (name description url : Option String) {m : Metadata}
      → create registry record_schema document_schema id experiment row_id user records documents
          name description url
        ≡ ok m
      → IsSound m
  unfolding create
  create-IsSound id experiment row_id user records documents name description url h =
      validate-IsSound registry user _ tt refl (sym (length-with_schema document_schema documents))
        h

  pub update_records-IsSound :
      (records : List Fields) (user : ℕ) (m m' : Metadata)
      → IsSound m
      → update_records registry record_schema document_schema records user m ≡ ok m'
      → IsSound m'
  unfolding update_records
  update_records-IsSound records user m m' h p =
      validate-IsSound registry user _ h.follows h.latest h.documents_counted p

  pub add_records-IsSound :
      (records : List Fields) (user : ℕ) (m m' : Metadata)
      → IsSound m
      → add_records registry record_schema document_schema records user m ≡ ok m'
      → IsSound m'
  unfolding add_records
  add_records-IsSound records user m m' h p =
      validate-IsSound registry user _ h.follows h.latest h.documents_counted p

  pub add_documents-IsSound :
      (documents : List Fields) (user : ℕ) (m m' : Metadata)
      → IsSound m
      → add_documents registry record_schema document_schema documents user m ≡ ok m'
      → IsSound m'
  unfolding add_documents
  add_documents-IsSound documents user m m' h p =
      validate-IsSound registry user _ h.follows h.latest refl p

  pub update_document-IsSound :
      (slug : String) (document : Fields) (user : ℕ) (m m' : Metadata)
      → IsSound m
      → update_document registry record_schema document_schema slug document user m ≡ ok m'
      → IsSound m'
  unfolding update_document
  update_document-IsSound slug document user m m' h p =
      let new = insert "$schema" (text document_schema) document in
      elim (Option-cases (replace_slug slug new m.documents)) [
        | inl e ↦ absurd (ground (arith, e))
        | inr (current, e) ↦
            validate-IsSound registry user _ h.follows h.latest refl (rw (e, update_document) at p)
      ]

  pub bulk_update-IsSound :
      (updates : Updates) (user : ℕ) (m : Metadata) (result : Metadata × ℕ)
      → IsSound m
      → bulk_update registry updates user m ≡ ok result
      → IsSound result.0
  unfolding bulk_update
  bulk_update-IsSound updates user m result h p =
      let (m', done, e) = >>=-eq-ok (validate registry user _) _ p in
      rw (← ok-injective e)
        (validate-IsSound registry user _ h.follows h.latest h.documents_counted done)

  pub enable_validation-IsSound :
      (elsewhere : ℕ → Option Check) (i : ℕ) (enabled : Bool) (user : ℕ) (m : Metadata)
      → (result : Metadata × Check) → IsSound m
      → enable_validation registry record_schema document_schema elsewhere i enabled user m
        ≡ ok result
      → IsSound result.0
  unfolding enable_validation
  enable_validation-IsSound elsewhere i enabled user m result h p =
      let changed : Metadata = record m { validations = set_enabled i enabled m.validations } in
      elim (Result-cases (validate registry user changed)) [
        | inl (m', done) ↦
            let same : result.0 ≡ m' = ground (arith, done) in
            rw same
              (validate-IsSound registry user changed h.follows h.latest h.documents_counted done)
        | inr (x, e) ↦ absurd (ground (arith, e))
      ]

  -- What the loop of `fix_checks` does with one validation: nothing, or its fix.
  fix_one-cases :
      (c : Check) (m : Metadata) (errors : List Message) (next : Metadata × List Message)
      → fix_one registry c (m, errors) ≡ ok next
      → (next.0 ≡ m) ⊎ ((es : List Message) × (fix registry c.name m ≡ ok (next.0, es)))
  unfolding fix_one
  fix_one-cases c m errors next p = elim (Bool-cases (not c.status && c.enabled)) [
    | inr idle ↦ inl (ground (arith, idle))
    | inl due ↦ elim (Result-cases (fixable registry c.name m)) [
      | inr (x, q) ↦ absurd (ground (arith, due, q))
      | inl (b, q) ↦ elim (Bool-cases b) [
        | inr n ↦ inl (ground (arith, due, q, n))
        | inl y ↦ elim (Result-cases (fix registry c.name m)) [
          | inl (fixed, e) ↦ inr (fixed.1, ground (arith, due, q, y, e))
          | inr (x, e) ↦ absurd (ground (arith, due, q, y, e))
        ]
      ]
    ]
  ]

  fix-in_place :
      All FixesInPlace registry
      → (name : String) (m m' : Metadata) (errors : List Message)
      → fix registry name m ≡ ok (m', errors)
      → IsSound m
      → IsSound m'
  unfolding fix validator_of
  fix-in_place fixes name m m' errors p h =
      elim (Option-cases (find_first (λ v. v.name == name) registry)) [
        | inl e ↦ absurd (ground (arith, e))
        | inr (v, e) ↦ elim (Option-cases v.fix) [
          | inl no_fix ↦ absurd (ground (arith, e, no_fix))
          | inr (f, g) ↦
              let call : f m ≡ ok (m', errors) = ground (arith, e, g) in
              let (status, history, num_records, num_docs, records, documents) =
                find_first-All FixesInPlace _ registry fixes e f m m' errors g call in
              record {
                follows = rw history h.follows;
                latest = rw (history, status) h.latest;
                records_counted = num_records ∙ h.records_counted ∙ sym records;
                documents_counted = num_docs ∙ h.documents_counted ∙ sym documents;
              }
        ]
      ]

  fix_one-IsSound :
      All FixesInPlace registry
      → (c : Check) (m : Metadata) (errors : List Message) (next : Metadata × List Message)
      → IsSound m
      → fix_one registry c (m, errors) ≡ ok next
      → IsSound next.0
  fix_one-IsSound fixes c m errors next h p = elim (fix_one-cases c m errors next p) [
    | inl same ↦ rw same h
    | inr (es, e) ↦ fix-in_place fixes c.name m next.0 es e h
  ]

  fix_all-IsSound :
      All FixesInPlace registry
      → (cs : List Check) (m : Metadata) (errors : List Message) (next : Metadata × List Message)
      → IsSound m
      → fix_all registry cs (m, errors) ≡ ok next
      → IsSound next.0
  unfolding fix_all
  fix_all-IsSound fixes [] m errors next h p = rw (← ok-injective p) h
  fix_all-IsSound fixes (c ∷ cs) m errors next h p =
      let (mid, e, rest) = >>=-eq-ok (fix_one registry c (m, errors)) _ p in
      fix_all-IsSound fixes cs mid.0 mid.1 next (fix_one-IsSound fixes c m errors mid h e) rest

  pub fix_checks-IsSound :
      All FixesInPlace registry
      → (user : ℕ) (m m' : Metadata) → IsSound m
      → fix_checks registry user m ≡ ok m'
      → IsSound m'
  unfolding fix_checks after_fix
  fix_checks-IsSound fixes user m m' h p =
      let (next, e, rest) = >>=-eq-ok (fix_all registry m.validations (m, [])) _ p in
      let fixed = fix_all-IsSound fixes m.validations m [] next h e in
      elim (Bool-cases (is_empty next.1)) [
        | inl clean ↦
            validate-IsSound registry user next.0 fixed.follows fixed.latest fixed.documents_counted
              (rw clean at rest)
        | inr failed ↦
            let same : m' ≡ change_status draft user (record next.0 { errors = next.1 }) =
              sym (ok-injective (rw failed at rest)) in
            let kept : IsSound (record next.0 { errors = next.1 }) = record {
              follows = fixed.follows;
              latest = fixed.latest;
              records_counted = fixed.records_counted;
              documents_counted = fixed.documents_counted;
            } in
            rw same (change_status-IsSound draft user _ kept tt)
      ]

-- `generate_doi` rewrites the records in place, and the changes of texts leave all that counts.
pub update_metadata-IsSound :
    (name url description : Option (Option String)) (m : Metadata)
    → IsSound m
    → IsSound (update_metadata name url description m)
unfolding update_metadata
update_metadata-IsSound name url description m h = record {
  follows = h.follows;
  latest = h.latest;
  records_counted = h.records_counted;
  documents_counted = h.documents_counted;
}

module _ {W : Type 0} (mint : W → String × W) (validate_datacite : Fields → Result (Unit {0}))
    (recids : List Value) where
  length-mint_all :
      (rs : List Fields) (w : W)
      → length (mint_all mint validate_datacite recids rs w).0 ≡ length rs
  unfolding mint_all
  length-mint_all [] w = refl
  length-mint_all (r ∷ rs) w =
      ap (λ n. suc n) (length-mint_all rs (mint_record mint validate_datacite recids r w).2)

  pub generate_doi-IsSound :
      (m : Metadata) (w : W)
      → IsSound m
      → IsSound (generate_doi mint validate_datacite recids m w).0
  unfolding generate_doi
  generate_doi-IsSound m w h = record {
    follows = h.follows;
    latest = h.latest;
    records_counted = h.records_counted ∙ sym (length-mint_all m.records w);
    documents_counted = h.documents_counted;
  }
