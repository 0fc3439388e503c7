-- ===== src/Release/Views/Documents/Stored.antt =====
-- What the requests that change a release's documents store.
use cernopendata_portal.Base.{
  ℕ, String, ◌≡◌, refl, sym, ap, subst, ◌∙◌, Bool, false, not, Option, none, some, List, [], ◌∷◌,
  ◌++◌, All, length, string_eq, inl, inr, Option-cases,
}
use cernopendata_portal.Base.Result.{Exn, Result, ok, raise, branch}
use cernopendata_portal.Json.{Value, null, bool, num, text, arr, obj, Fields, truthy}
use cernopendata_portal.Release.Model.{Metadata, Validator}
use cernopendata_portal.Release.Edit.{with_schema, add_documents}
use cernopendata_portal.Release.Validate.Outcome.{validate_keeps}
use cernopendata_portal.Release.Views.{
  Response, done, abort, crash, Row, Reply, commits, check_experiment, get_release, with_release,
}
use cernopendata_portal.Release.Views.Documents.{
  and_then, uncaught, content_of, is_pointer, check_inline, reply, requested_documents,
  add_documents_to, add_documents_view, add_nowhere,
}

-- A document that holds its text.
abbrev pub IsInline : Fields → Type 0
IsInline d = (c : Value) × (content_of (obj d) ≡ ok c) × (is_pointer c ≡ false)

done-injective : {A : Type 0} {a b : A} → done a ≡ done b → a ≡ b
done-injective h = cc

abort-ne-done : {A : Type 0} {code : ℕ} {a : A} → ¬ (abort code ≡ done a)
abort-ne-done h = cc

abort-ne-done_row :
    {code : ℕ} {row row' : Row} → ¬ (◌≡◌ {A = Reply} (abort code, row) (done tt, row'))
abort-ne-done_row h = cc

crash-ne-done : {e : Exn} {row row' : Row} → ¬ (◌≡◌ {A = Reply} (crash e, row) (done tt, row'))
crash-ne-done h = cc

and_then-done :
    {A : Type 0} {B : Type 0} (r : Response A) (f : A → Response B) {b : B}
    → and_then r f ≡ done b
    → (a : A) × (r ≡ done a) × (f a ≡ done b)
and_then-done (done a) f h = (a, refl, h)
and_then-done (abort code) f h = cc
and_then-done (crash e) f h = cc

uncaught-done : {A : Type 0} (r : Result A) {a : A} → uncaught r ≡ done a → r ≡ ok a
uncaught-done (ok a) h = cc
uncaught-done (raise e) h = cc

check_inline-IsInline :
    (docs : List Value) {ds : List Fields} → check_inline docs ≡ done ds → All IsInline ds
unfolding check_inline
check_inline-IsInline [] h = subst (All IsInline) (done-injective h) tt
check_inline-IsInline (obj d ∷ docs) h =
    let (c, e, k) = and_then-done (uncaught (content_of (obj d))) _ h in
    branch {A = Response (List Fields)} (is_pointer c) _ _ k (λ _ l. absurd (abort-ne-done l))
      (λ inline l.
        let (more, e', shown) = and_then-done (check_inline docs) (λ more. done (d ∷ more)) l in
        subst (All IsInline) (done-injective shown)
          ((c, uncaught-done (content_of (obj d)) e, inline), check_inline-IsInline docs e'))
check_inline-IsInline (null ∷ docs) h = cc
check_inline-IsInline (bool b ∷ docs) h = cc
check_inline-IsInline (num n ∷ docs) h = cc
check_inline-IsInline (text s ∷ docs) h = cc
check_inline-IsInline (arr vs ∷ docs) h = cc

-- The inversions of a reply that is no error, and of one that is a refusal.
reply-done :
    {A : Type 0} (r : Response A) (row : Row) (f : A → Reply) {row' : Row}
    → reply r row f ≡ (done tt, row')
    → (a : A) × (r ≡ done a) × (f a ≡ (done tt, row'))
reply-done (done a) row f h = (a, refl, h)
reply-done (abort code) row f h = cc
reply-done (crash e) row f h = cc

commits-done :
    (m : Metadata) (r : Result Metadata) {row' : Row}
    → commits (λ m'. m') m r ≡ (done tt, row')
    → (m' : Metadata) × (r ≡ ok m') × (row' ≡ some m')
commits-done m (ok m') h = (m', refl, sym (ap (λ (x : Reply). x.1) h))
commits-done m (raise e) h = cc

-- The row after documents have been added to a release.
abbrev pub AreStored : String → List Fields → Metadata → Metadata → Type 0
AreStored document_schema docs m m' =
    (m'.documents ≡ m.documents ++ with_schema document_schema docs)
    × (m'.num_docs ≡ length m'.documents)
    × (m'.records ≡ m.records)

add_documents-AreStored :
    (user : ℕ) (registry : List Validator) (document_schema : String) (docs : List Fields)
    (m : Metadata) {m' : Metadata}
    → add_documents registry "" document_schema docs user m ≡ ok m'
    → AreStored document_schema docs m m'
unfolding add_documents
add_documents-AreStored user registry document_schema docs m h =
    let current = m.documents ++ with_schema document_schema docs in
    let (records, documents, _, _, count, _, _) =
      validate_keeps user registry (record m { documents = current; num_docs = length current })
        h in
    (documents, count ∙ sym (ap length documents), records)

module _ (curated : List String) (acquired : Bool) (experiment : String) (user : ℕ) where
  with_release-done :
      (body : Metadata → Reply) (row row' : Row)
      → with_release curated acquired experiment user none none body row ≡ (done tt, row')
      → (m : Metadata) × (row ≡ some m) × (body m ≡ (done tt, row'))
  unfolding with_release get_release
  with_release-done body none row' h = elim (Option-cases (check_experiment curated experiment)) [
    | inl known ↦ absurd (crash-ne-done (rw (known, with_release, get_release) at h))
    | inr (code, stops) ↦ absurd (abort-ne-done_row (rw (stops, with_release, get_release) at h))
  ]
  with_release-done body (some m) row' h =
      elim (Option-cases (check_experiment curated experiment)) [
        | inl known ↦ (m, refl, rw (known, with_release, get_release) at h)
        | inr (code, stops) ↦
            absurd (abort-ne-done_row (rw (stops, with_release, get_release) at h))
      ]

  module _ (registry : List Validator) (document_schema : String) where
    -- A request to add documents that succeeds has found the release, and has appended documents
    -- to those that it had, each with the schema set; none of the appended documents has the name
    -- of a markdown file for its content, the count of documents is their number, and the records
    -- are as they were.
    pub add_documents_view_stores :
        (fetch : String → Option Value) (body : Value) (row row' : Row)
        → add_documents_view curated acquired experiment user registry document_schema fetch body
            row
          ≡ (done tt, row')
        → (m : Metadata) × (m' : Metadata) × (docs : List Fields) × (row ≡ some m)
          × (row' ≡ some m')
          × All IsInline docs
          × AreStored document_schema docs m m'
    unfolding add_documents_view add_documents_to
    add_documents_view_stores fetch body none row' h =
        branch {A = Reply} (not (truthy body)) _ _ h (λ _ k. absurd (abort-ne-done_row k))
          (λ _ k. elim (Option-cases (check_experiment curated experiment)) [
            | inl known ↦
                let (docs, _, e) =
                  reply-done (requested_documents fetch body) none add_nowhere (rw known at k) in
                let (checked, _, e') = reply-done (check_inline docs) none _ e in
                absurd (crash-ne-done e')
            | inr (code, stops) ↦ absurd (abort-ne-done_row (rw stops at k))
          ])
    add_documents_view_stores fetch body (some found) row' h =
        branch {A = Reply} (not (truthy body)) _ _ h (λ _ k. absurd (abort-ne-done_row k))
          (λ _ k.
            let (m, here, e) =
              with_release-done
                (λ m.
                  reply (requested_documents fetch body) (some m)
                    (λ docs. add_documents_to user registry document_schema docs m))
                (some found) row' k in
            let (docs, _, e') = reply-done (requested_documents fetch body) (some m) _ e in
            let (checked, fine, e'') = reply-done (check_inline docs) (some m) _ e' in
            let (m', added, saved) =
              commits-done m (add_documents registry "" document_schema checked user m) e'' in
            (
              m,
              m',
              checked,
              here,
              saved,
              check_inline-IsInline docs fine,
              add_documents-AreStored user registry document_schema checked m added,
            ))
