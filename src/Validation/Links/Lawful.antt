-- ===== src/Validation/Links/Lawful.antt =====
-- The fix of the document links as a fix of a release (validations/doc_links.py).
use mathlib.Core.Option.{some-injective}
use cernopendata_portal.Base.{
  suc, String, ◌≡◌, refl, sym, ap, ◌∙◌, subst, Bool, List, [], ◌∷◌, length,
}
use cernopendata_portal.Base.Result.{ok, >>=-eq-ok, ok-injective}
use cernopendata_portal.Json.{Value, Fields}
use cernopendata_portal.Release.Lifecycle.{FixesInPlace}
use cernopendata_portal.Validation.Links.{
  release_slugs, get_content, fix_documents, fix_links, valid_doc_links,
}

length-fix_documents :
    (registered : String → Bool) (slugs : List Value) (docs docs' : List Fields)
    → fix_documents registered slugs docs ≡ ok docs'
    → length docs' ≡ length docs
unfolding fix_documents
length-fix_documents registered slugs [] docs' h = ap length (sym (ok-injective h))
length-fix_documents registered slugs (doc ∷ docs) docs' h =
    let (content, e, k) = >>=-eq-ok (get_content doc) _ h in
    let (rest, e', k') = >>=-eq-ok (fix_documents registered slugs docs) _ k in
    ap length (sym (ok-injective k')) ∙ ap suc (length-fix_documents registered slugs docs rest e')

pub valid_doc_links-FixesInPlace :
    (registered : String → Bool) → FixesInPlace (valid_doc_links registered)
unfolding valid_doc_links fix_links
valid_doc_links-FixesInPlace registered f m m' errors p q =
    let run = ap (λ g. g m) (some-injective _ f p) ∙ q in
    let (slugs, e, k) = >>=-eq-ok (release_slugs m.documents) _ run in
    let (docs, e', k') = >>=-eq-ok (fix_documents registered slugs m.documents) _ k in
    subst
      (λ x.
        (x.0.status ≡ m.status)
        × (x.0.history ≡ m.history)
        × (x.0.num_records ≡ m.num_records)
        × (x.0.num_docs ≡ m.num_docs)
        × (length x.0.records ≡ length m.records)
        × (length x.0.documents ≡ length m.documents))
      (ok-injective k')
      (refl, refl, refl, refl, refl, length-fix_documents registered slugs m.documents docs e')
