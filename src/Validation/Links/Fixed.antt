-- ===== src/Validation/Links/Fixed.antt =====
-- The documents of a release after the fix of their links (validations/doc_links.py).
use cernopendata_portal.Base.{
  String, ◌≡◌, refl, sym, ap, subst, ◌∙◌, Bool, true, false, Option, none, some, List, [], ◌∷◌,
  ◌++◌, ◌==◌, string_eq, is_empty, keep_if, if◌then◌else◌, inl, inr, Bool-cases,
}
use cernopendata_portal.Base.Result.{ok, ◌>>=◌, >>=-eq-ok, ok-injective, branch}
use cernopendata_portal.Json.{Value, null, bool, num, text, arr, obj, Fields, end, field, truthy}
use cernopendata_portal.Json.Dict.{lookup, insert, lookup-insert, lookup-insert_self}
use cernopendata_portal.Release.Model.{Metadata, Message}
use cernopendata_portal.Release.Edit.{get}
use cernopendata_portal.Validation.Links.Bare.{rewrite-settles}
use cernopendata_portal.Validation.Links.{
  extract_bare_slugs, rewrite_bare_slugs, slug_in, release_slugs, body_of, content_in, get_content,
  is_known, known_bare, any_fixable, fixable_links, rewritten, fix_documents, fix_links,
  set_content, with_content, is_md, non_empty,
}

true-ne-false : ¬ (true ≡ false)
true-ne-false h = cc

obj-injective : {a b : Fields} → obj a ≡ obj b → a ≡ b
obj-injective h = cc

-- A body that a text has been read from.
content_in-some :
    (v : Value) {c : String}
    → content_in v ≡ ok (some c)
    → (body : Fields) × (v ≡ obj body) × (is_md (get "format" body) ≡ true)
unfolding content_in
content_in-some (obj body) h =
    branch (is_md (get "format" body)) _ _ (ok-injective h) (λ md _. (body, refl, md)) (λ _ k. cc)
content_in-some null h = cc
content_in-some (bool b) h = cc
content_in-some (num n) h = cc
content_in-some (text s) h = cc
content_in-some (arr vs) h = cc

body_of-obj :
    (v : Value) (body : Fields)
    → body_of v ≡ obj body
    → is_md (get "format" body) ≡ true
    → v ≡ obj body
unfolding lookup
body_of-obj v body h md =
    branch (truthy v) _ _ h (λ _ k. k)
      (λ _ k.
        absurd (true-ne-false (sym md ∙ ap (λ x. is_md (get "format" x)) (sym (obj-injective k)))))

truthy-insert : (k : String) (v : Value) (d : Fields) → truthy (obj (insert k v d)) ≡ true
unfolding truthy insert
truthy-insert k v end = refl
truthy-insert k v (field j w d) = elim (Bool-cases (k == j)) [
  | inl same ↦ rw same refl
  | inr differ ↦ rw differ refl
]

get-insert_self : (k : String) (v : Value) (d : Fields) → get k (insert k v d) ≡ v
get-insert_self k v d = rw (get, lookup-insert_self k v d) refl

get-insert_other :
    (j k : String) (v : Value) (d : Fields) → (j == k) ≡ false → get j (insert k v d) ≡ get j d
get-insert_other j k v d h = rw (get, lookup-insert j k v d, h) refl

body_of-truthy : (v : Value) → truthy v ≡ true → body_of v ≡ v
body_of-truthy v h = rw (h, body_of) refl

-- The content that has been set is read.
get_content-set_content :
    (doc : Fields) (new : String) {content : String}
    → get_content doc ≡ ok (some content)
    → get_content (set_content new doc) ≡ ok (non_empty (text new))
unfolding get_content content_in string_eq
get_content-set_content doc new h =
    let (body, e, md) = content_in-some (body_of (get "body" doc)) h in
    let whole = body_of-obj (get "body" doc) body e md in
    let body' = insert "content" (text new) body in
    ap (λ v. content_in (body_of v))
      (get-insert_self "body" (with_content new (get "body" doc)) doc)
    ∙ ap (λ v. content_in (body_of (with_content new v))) whole
    ∙ ap content_in (body_of-truthy (obj body') (truthy-insert "content" (text new) body))
    ∙ ap (λ b. ok (if b then non_empty (get "content" body') else none))
        (ap is_md (get-insert_other "format" "content" (text new) body refl) ∙ md)
    ∙ ap (λ v. ok (non_empty v)) (get-insert_self "content" (text new) body)

slug-rewritten :
    (known : List String) (content : Option String) (doc : Fields)
    → get "slug" (rewritten known content doc) ≡ get "slug" doc
unfolding string_eq
slug-rewritten known none doc = refl
slug-rewritten known (some content) doc = elim (Bool-cases (is_empty known)) [
  | inl nothing ↦ rw (nothing, rewritten) refl
  | inr links ↦ rw (links, rewritten) (get-insert_other "slug" "body" _ doc refl)
]

is_empty-true : (ss : List String) → is_empty ss ≡ true → ss ≡ []
is_empty-true [] h = refl
is_empty-true (s ∷ ss) h = cc

module _ (registered : String → Bool) (slugs : List Value) where
  -- The documents after the fix have the slugs that they had.
  release_slugs-fix_documents :
      (docs docs' : List Fields)
      → fix_documents registered slugs docs ≡ ok docs'
      → release_slugs docs' ≡ release_slugs docs
  unfolding fix_documents release_slugs
  release_slugs-fix_documents [] docs' h = ap release_slugs (sym (ok-injective h))
  release_slugs-fix_documents (doc ∷ docs) docs' h =
      let (content, e, k) = >>=-eq-ok (get_content doc) _ h in
      let (rest, e', k') = >>=-eq-ok (fix_documents registered slugs docs) _ k in
      let new = rewritten (known_bare registered slugs content) content doc in
      ap release_slugs (sym (ok-injective k'))
      ∙ ap (λ v. slug_in v >>= λ first. release_slugs rest >>= λ more. ok (first ++ more))
          (slug-rewritten (known_bare registered slugs content) content doc)
      ∙ ap (λ r. slug_in (get "slug" doc) >>= λ first. r >>= λ more. ok (first ++ more))
          (release_slugs-fix_documents docs rest e')

  known_bare-non_empty :
      (new : String)
      → keep_if (is_known registered slugs) (extract_bare_slugs new) ≡ []
      → known_bare registered slugs (non_empty (text new)) ≡ []
  unfolding known_bare
  known_bare-non_empty String.[] h = refl
  known_bare-non_empty (String.◌∷◌ c s) h = h

  -- A document after the fix can be read, and has no known bare slug.
  document_settled :
      (doc : Fields) (content : Option String)
      → get_content doc ≡ ok content
      → (content' : Option String) × (get_content
            (rewritten (known_bare registered slugs content) content doc)
          ≡ ok content')
        × (known_bare registered slugs content' ≡ [])
  unfolding known_bare
  document_settled doc none e = (none, e, refl)
  document_settled doc (some c) e =
      let known = known_bare registered slugs (some c) in
      elim (Bool-cases (is_empty known)) [
        | inl nothing ↦ (some c, rw (nothing, rewritten) e, is_empty-true known nothing)
        | inr links ↦ (
          non_empty (text (rewrite_bare_slugs known c)),
          rw (links, rewritten) (get_content-set_content doc (rewrite_bare_slugs known c) e),
          known_bare-non_empty (rewrite_bare_slugs known c)
              (rewrite-settles (is_known registered slugs) c),
        )
      ]

  any_fixable-fix_documents :
      (docs docs' : List Fields)
      → fix_documents registered slugs docs ≡ ok docs'
      → any_fixable registered slugs docs' ≡ ok false
  unfolding fix_documents any_fixable
  any_fixable-fix_documents [] docs' h = ap (any_fixable registered slugs) (sym (ok-injective h))
  any_fixable-fix_documents (doc ∷ docs) docs' h =
      let (content, e, k) = >>=-eq-ok (get_content doc) _ h in
      let (rest, e', k') = >>=-eq-ok (fix_documents registered slugs docs) _ k in
      let (content', read, settled) = document_settled doc content e in
      ap (any_fixable registered slugs) (sym (ok-injective k'))
      ∙ rw (read, settled) (any_fixable-fix_documents docs rest e')

-- Where the fix of the document links returns, it reports no error, and the validation has nothing
-- more that it could fix.
pub fix_links_settles :
    (registered : String → Bool) (m : Metadata) (r : Metadata × List Message)
    → fix_links registered m ≡ ok r
    → (fixable_links registered r.0 ≡ ok false) × (r.1 ≡ [])
unfolding fix_links fixable_links
fix_links_settles registered m r h =
    let (slugs, e, k) = >>=-eq-ok (release_slugs m.documents) _ h in
    let (docs, e', k') = >>=-eq-ok (fix_documents registered slugs m.documents) _ k in
    subst (λ x. (fixable_links registered x.0 ≡ ok false) × (x.1 ≡ [])) (ok-injective k')
      (
        rw (release_slugs-fix_documents registered slugs m.documents docs e', e)
            (any_fixable-fix_documents registered slugs m.documents docs e'),
        refl,
      )
