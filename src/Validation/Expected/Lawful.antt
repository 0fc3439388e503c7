-- ===== src/Validation/Expected/Lawful.antt =====
-- The fixes of classes of expected fields (validations/expected_fields.py) as fixes of a release.
use mathlib.Core.Option.{some-injective}
use cernopendata_portal.Base.{
  ℕ, suc, String, ◌≡◌, refl, ap, ◌∙◌, subst, Bool, true, false, Option, List, [], ◌∷◌, length,
  if◌then◌else◌,
}
use cernopendata_portal.Base.Result.{ok, >>=-eq-ok, ok-injective}
use cernopendata_portal.Json.{Fields}
use cernopendata_portal.Release.Model.{Message, Metadata}
use cernopendata_portal.Release.Lifecycle.{FixesInPlace}
use cernopendata_portal.Validation.Expected.{
  Expected, fix_field, fix_items, fix_all, fix, expected_fields_validator,
}

length-fix_items :
    (m : Metadata) (label : String) (e : Expected) (i : ℕ) (items : List Fields)
    → (r : List Fields × List Message) → fix_items m label e i items ≡ ok r
    → length r.0 ≡ length items
unfolding fix_items
length-fix_items m label e i [] r h = rw (← ok-injective h) refl
length-fix_items m label e i (item ∷ items) r h =
    let (expected, _, k) = >>=-eq-ok (e.value m item) _ h in
    let (fixed, p, q) = >>=-eq-ok (fix_field label i item e.path expected) _ k in
    let (rest, p', q') = >>=-eq-ok (fix_items m label e (suc i) items) _ q in
    rw (← ok-injective q') (ap suc (length-fix_items m label e (suc i) items rest p'))

length-fix_all :
    (m : Metadata) (label : String) (es : List Expected) (items : List Fields)
    → (r : List Fields × List Message) → fix_all m label es items ≡ ok r
    → length r.0 ≡ length items
unfolding fix_all
length-fix_all m label [] items r h = rw (← ok-injective h) refl
length-fix_all m label (e ∷ es) items r h =
    let (fixed, p, q) = >>=-eq-ok (fix_items m label e 0 items) _ h in
    let (rest, p', q') = >>=-eq-ok (fix_all m label es fixed.0) _ q in
    rw (← ok-injective q')
      (length-fix_all m label es fixed.0 rest p' ∙ length-fix_items m label e 0 items fixed p)

length-if_fix_all :
    (b : Bool) (m : Metadata) (label : String) (es : List Expected) (items : List Fields)
    → (r : List Fields × List Message)
    → (if b then fix_all m label es items else ok (items, [])) ≡ ok r
    → length r.0 ≡ length items
length-if_fix_all true m label es items r h = length-fix_all m label es items r h
length-if_fix_all false m label es items r h = rw (← ok-injective h) refl

-- Every class of expected fields: status, history, counts and the number of entries stay.
pub expected_fields_validator-FixesInPlace :
    (fields : List Expected) (on_records on_documents : Bool)
    → (name : String) (experiment : Option String) (optional : Bool)
    → FixesInPlace
        (expected_fields_validator fields on_records on_documents name experiment optional)
unfolding expected_fields_validator fix
expected_fields_validator-FixesInPlace fields on_records on_documents name experiment optional f m
      m' errors p q =
    let run = ap (λ g. g m) (some-injective _ f p) ∙ q in
    let (rs, e, rest) =
      >>=-eq-ok (if on_records then fix_all m "Record" fields m.records else ok (m.records, [])) _
        run in
    let m₁ : Metadata = record m { records = rs.0 } in
    let (ds, e', last) =
      >>=-eq-ok
        (if on_documents then fix_all m₁ "Document" fields m.documents else ok (m.documents, [])) _
        rest in
    let records_kept = length-if_fix_all on_records m "Record" fields m.records rs e in
    let documents_kept = length-if_fix_all on_documents m₁ "Document" fields m.documents ds e' in
    subst
      (λ x.
        (x.0.status ≡ m.status)
        × (x.0.history ≡ m.history)
        × (x.0.num_records ≡ m.num_records)
        × (x.0.num_docs ≡ m.num_docs)
        × (length x.0.records ≡ length m.records)
        × (length x.0.documents ≡ length m.documents))
      (ok-injective last) (refl, refl, refl, refl, records_kept, documents_kept)
