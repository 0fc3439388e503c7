-- ===== src/Validation/Slug/Laws.antt =====
-- What the fix of the slugs does to the documents.
use mathlib.Core.Bool.{false≢true}
use mathlib.Core.List.{cons≢nil}
use cernopendata_portal.Base.{
  ℕ, suc, String, ◌≡◌, refl, ◌↔◌, ◌⊎◌, inl, inr, Bool, true, false, Option, none, some, List, [],
  ◌∷◌, ◌==◌, string_eq, All, ◌∙◌, sym, if◌then◌else◌, Bool-cases,
}
use cernopendata_portal.Base.Result.{ok}
use cernopendata_portal.Json.{Value, null, text, Fields, truthy}
use cernopendata_portal.Json.Dict.{insert, lookup-insert_self}
use cernopendata_portal.Release.Model.{Message, no_source_filename, no_slug}
use cernopendata_portal.Release.Edit.{get}
use cernopendata_portal.Validation.Slug.{slug_of, fix_slug, fix_slugs}

-- The upload set a text as the document's file name, or set none.
abbrev pub HasName : Fields → Type 0
HasName doc =
    (get "_source_filename" doc ≡ null) ⊎ ((s : String) × (get "_source_filename" doc ≡ text s))

abbrev pub HasSlug : Fields → Type 0
HasSlug doc = truthy (get "slug" doc) ≡ true

-- What the fix of one document gives: a slug and no error, or an error and no slug.
abbrev Settles : Fields × Option Message → Type 0
Settles r =
    ((r.1 ≡ none) × HasSlug r.0)
    ⊎ ((e : Message) × (r.1 ≡ some e) × (truthy (get "slug" r.0) ≡ false))

truthy-text : (s : String) → (s == "") ≡ false → truthy (text s) ≡ true
unfolding truthy
truthy-text s h = rw h refl

get-insert : (k : String) (v : Value) (r : Fields) → get k (insert k v r) ≡ v
get-insert k v r = rw (get, lookup-insert_self k v r) refl

named-Settles :
    (i : ℕ) (doc : Fields) (slug : String) (e : Message) (b : Bool)
    → (slug == "") ≡ b
    → truthy (get "slug" doc) ≡ false
    → Settles (if b then (doc, some e) else (insert "slug" (text slug) doc, none))
named-Settles i doc slug e true h none_yet = inr (e, refl, none_yet)
named-Settles i doc slug e false h none_yet =
    inl (refl, rw (get-insert "slug" (text slug) doc) (truthy-text slug h))

fix_slug-Settles :
    (i : ℕ) (doc : Fields)
    → HasName doc
    → (r : Fields × Option Message) × (fix_slug i doc ≡ ok r) × Settles r
unfolding fix_slug truthy
fix_slug-Settles i doc h = elim (Bool-cases (truthy (get "slug" doc))) [
  | inl e ↦ ((doc, none), rw e refl, inl (refl, e))
  | inr e ↦ elim h [
    | inl absent ↦ ((doc, some (no_source_filename (suc i))), rw (e, absent) refl, inr (_, refl, e))
    | inr (s, named) ↦ elim (Bool-cases (s == "")) [
      | inl blank ↦
          ((doc, some (no_source_filename (suc i))), rw (e, named, blank) refl, inr (_, refl, e))
      | inr full ↦ (
        if slug_of s == ""
            then (doc, some (no_slug (suc i) (text s)))
            else (insert "slug" (text (slug_of s)) doc, none),
        rw (e, named, full) refl,
        named-Settles i doc (slug_of s) _ _ refl e,
      )
    ]
  ]
]

-- If every document names its source file by a text or not at all, then the fix of the slugs
-- returns, and it reports no error exactly if every document has a slug afterwards.
pub fix_slugs-HasSlug :
    (i : ℕ) (docs : List Fields)
    → All HasName docs
    → (r : List Fields × List Message) × (fix_slugs i docs ≡ ok r) × (r.1 ≡ [] ↔ All HasSlug r.0)
unfolding fix_slugs
fix_slugs-HasSlug i [] h = (([], []), refl, ((λ _. tt), (λ _. refl)))
fix_slugs-HasSlug i (doc ∷ docs) h =
    let (fixed, e, settled) = fix_slug-Settles i doc h.0 in
    let (rest, e', (here, back)) = fix_slugs-HasSlug (suc i) docs h.1 in
    elim settled [
      | inl (none_left, slug) ↦ (
        (fixed.0 ∷ rest.0, rest.1),
        rw (e, e', none_left) refl,
        ((λ p. (slug, here p)), (λ p. back p.1)),
      )
      | inr (m, some_left, bare) ↦ (
        (fixed.0 ∷ rest.0, m ∷ rest.1),
        rw (e, e', some_left) refl,
        ((λ p. absurd (cons≢nil p)), (λ p. absurd (false≢true (sym bare ∙ p.0)))),
      )
    ]
