-- ===== src/Release/Lifecycle/Documented.antt =====
-- The handlers of views.py that add or change documents, and soundness of the row.
use cernopendata_portal.Base.{
  ℕ, String, ◌≡◌, inl, inr, Bool, not, if◌then◌else◌, none, some, List, arith, Bool-cases,
}
use cernopendata_portal.Release.Model.{status_eq, Metadata, Validator}
use cernopendata_portal.Release.Views.{Reply, abort, with_release}
use cernopendata_portal.Json.{Value, null, bool, num, text, arr, obj, truthy}
use cernopendata_portal.Json.Python.{get_attr}
use cernopendata_portal.Release.Views.Documents.{
  uncaught, check_inline, reply, add_documents_to, update_document_to, update_document_view,
}
use cernopendata_portal.Release.Lifecycle.Preserved.{
  Keeps, kept, reply-Keeps, commits-Keeps, commits_document-Keeps, with_release-Keeps,
}
use cernopendata_portal.Release.Lifecycle.Operations.{
  add_documents-IsSound, update_document-IsSound,
}

module _ (registry : List Validator) (document_schema : String) where
  pub add_documents_to-Keeps :
      (user : ℕ) (docs : List Value) → Keeps (add_documents_to user registry document_schema docs)
  unfolding add_documents_to
  add_documents_to-Keeps user docs = reply-Keeps (check_inline docs) _ (λ checked.
      commits-Keeps (λ x. x) _
        (λ x a g p. add_documents-IsSound registry "" document_schema checked user x a g p))

  update_document_to-Keeps :
      (user : ℕ) (slug : String) (doc : Value)
      → Keeps (update_document_to user registry document_schema slug doc)
  unfolding update_document_to
  update_document_to-Keeps user slug (obj doc) m m' h p =
      commits_document-Keeps _
        (λ x a g p. update_document-IsSound registry "" document_schema slug doc user x a g p) m m'
        h p
  update_document_to-Keeps user slug null m m' h p = kept m m' h (ground (arith, p))
  update_document_to-Keeps user slug (bool b) m m' h p = kept m m' h (ground (arith, p))
  update_document_to-Keeps user slug (num n) m m' h p = kept m m' h (ground (arith, p))
  update_document_to-Keeps user slug (text s) m m' h p = kept m m' h (ground (arith, p))
  update_document_to-Keeps user slug (arr vs) m m' h p = kept m m' h (ground (arith, p))

  pub update_document_view-Keeps :
      (curated : List String) (acquired : Bool) (experiment : String) (user : ℕ) (slug : String)
      (body : Value)
      → Keeps (λ m.
        update_document_view curated acquired experiment user registry document_schema slug body
          (some m))
  unfolding update_document_view
  update_document_view-Keeps curated acquired experiment user slug body m m' h p =
      let onto : Value → Metadata → Reply = λ doc x.
        if not (truthy doc)
        then (abort 400, some x)
        else with_release curated acquired experiment user none none
            (update_document_to user registry document_schema slug doc) (some x) in
      elim (Bool-cases (truthy body)) [
        | inr empty ↦ kept m m' h (rw (empty, update_document_view) at p)
        | inl given ↦
            let q : (reply (uncaught (get_attr "document" body)) (some m) (λ doc. onto doc m)).1
                ≡ some m' =
              rw (given, update_document_view) at p in
            reply-Keeps (uncaught (get_attr "document" body)) onto
              (λ doc x x' g r. elim (Bool-cases (truthy doc)) [
                | inr absent ↦ kept x x' g (rw absent at r)
                | inl present ↦
                    with_release-Keeps curated acquired experiment user _
                      (update_document_to-Keeps user slug doc) none x x' g (rw present at r)
              ])
              m m' h q
      ]
