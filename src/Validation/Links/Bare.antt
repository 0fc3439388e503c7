-- ===== src/Validation/Links/Bare.antt =====
-- The bare slugs of a text, before and after its links are rewritten (validations/doc_links.py).
use cernopendata_portal.Base.{
  String, ◌≡◌, refl, sym, ap, subst, ◌∙◌, Bool, true, false, ◌&&◌, List, [], ◌∷◌, ◌++◌, string_eq,
  contains, keep_if, All, map, if◌then◌else◌, arith, inl, inr, Bool-cases,
}
use cernopendata_portal.Base.Members.{contains-keep_if, contains-append}
use cernopendata_portal.Validation.Links.Markdown.{Piece, plain, link, pieces_of, targets, retarget}
use cernopendata_portal.Validation.Links.Unique.{pieces_of-retarget}
use cernopendata_portal.Validation.Links.Targets.{
  new_target-IsTarget, new_target-settled, new_target-same,
}
use cernopendata_portal.Validation.Links.{
  is_slug, slug_part, add_new, bare_from, extract_bare_slugs, new_target, rewrite_bare_slugs,
}

targets-retarget :
    (f : String → String) (ps : List Piece) → targets (retarget f ps) ≡ map f (targets ps)
unfolding targets retarget
targets-retarget f [] = refl
targets-retarget f (plain c ∷ ps) = targets-retarget f ps
targets-retarget f (link t u ∷ ps) = ap (λ x. f u ∷ x) (targets-retarget f ps)

contains-add_new :
    (s t : String) (ss : List String) → contains s ss ≡ true → contains s (add_new t ss) ≡ true
contains-add_new s t ss h = ground (arith, h, contains-append s ss (t ∷ []))

contains-add_new_self : (t : String) (ss : List String) → contains t (add_new t ss) ≡ true
contains-add_new_self t ss = ground (arith, contains-append t ss (t ∷ []))

contains-bare_from :
    (s : String) (slugs ts : List String)
    → contains s slugs ≡ true
    → contains s (bare_from slugs ts) ≡ true
unfolding bare_from
contains-bare_from s slugs [] h = h
contains-bare_from s slugs (t ∷ ts) h = elim (Bool-cases (is_slug (slug_part t))) [
  | inl slug ↦ rw slug (
      contains-bare_from s (add_new (slug_part t) slugs) ts
        (contains-add_new s (slug_part t) slugs h))
  | inr other ↦ rw other (contains-bare_from s slugs ts h)
]

-- The bare slugs of the targets are all there.
bare_from_complete :
    (slugs ts : List String)
    → All
        (λ t. is_slug (slug_part t) ≡ true → contains (slug_part t) (bare_from slugs ts) ≡ true)
        ts
unfolding bare_from
bare_from_complete slugs [] = tt
bare_from_complete slugs (t ∷ ts) = (
  λ slug. rw slug (
      contains-bare_from (slug_part t) (add_new (slug_part t) slugs) ts
        (contains-add_new_self (slug_part t) slugs)),
  bare_from_complete (if is_slug (slug_part t) then add_new (slug_part t) slugs else slugs) ts,
)

All-snoc :
    (P : String → Type 0) (s : String) (ss : List String) → All P ss → P s → All P (ss ++ (s ∷ []))
All-snoc P s [] h p = (p, tt)
All-snoc P s (t ∷ ts) h p = (h.0, All-snoc P s ts h.1 p)

All-add_new :
    (P : String → Type 0) (s : String) (ss : List String) → All P ss → P s → All P (add_new s ss)
All-add_new P s ss h p = elim (Bool-cases (contains s ss)) [
  | inl present ↦ rw (present, add_new) h
  | inr absent ↦ rw (absent, add_new) (All-snoc P s ss h p)
]

-- A property of all bare slugs.
All-bare_from :
    (P : String → Type 0) (slugs ts : List String)
    → All P slugs
    → All (λ t. is_slug (slug_part t) ≡ true → P (slug_part t)) ts
    → All P (bare_from slugs ts)
unfolding bare_from
All-bare_from P slugs [] h k = h
All-bare_from P slugs (t ∷ ts) h k = elim (Bool-cases (is_slug (slug_part t))) [
  | inl slug ↦ rw slug (
      All-bare_from P (add_new (slug_part t) slugs) ts
        (All-add_new P (slug_part t) slugs h (k.0 slug)) k.1)
  | inr other ↦ rw other (All-bare_from P slugs ts h k.1)
]

All-map :
    {A : Type 0} {B : Type 0} (P : A → Type 0) (Q : B → Type 0) (f : A → B) (xs : List A)
    → ((x : A) → P x → Q (f x))
    → All P xs
    → All Q (map f xs)
All-map P Q f [] g h = tt
All-map P Q f (x ∷ xs) g h = (g x h.0, All-map P Q f xs g h.1)

keep_if-none :
    (p : String → Bool) (ss : List String) → All (λ s. p s ≡ false) ss → keep_if p ss ≡ []
keep_if-none p [] h = refl
keep_if-none p (s ∷ ss) h = rw h.0 (keep_if-none p ss h.1)

extract-rewrite :
    (known : List String) (content : String)
    → extract_bare_slugs (rewrite_bare_slugs known content)
      ≡ bare_from [] (map (new_target known) (targets (pieces_of content)))
unfolding extract_bare_slugs rewrite_bare_slugs
extract-rewrite known content =
    ap (λ ps. bare_from [] (targets ps))
      (pieces_of-retarget (new_target known) content (new_target-IsTarget known))
    ∙ ap (bare_from []) (targets-retarget (new_target known) (pieces_of content))

and-false_left : (k c : Bool) → (k && c) ≡ false → c ≡ true → k ≡ false
and-false_left true c h t = absurd (ground (arith, h, t))
and-false_left false c h t = refl

and-false_right : (k c : Bool) → (k && c) ≡ false → k ≡ true → c ≡ false
and-false_right true c h t = h
and-false_right false c h t = cc

-- Rewriting the known bare slugs of a text leaves no known bare slug in it.
pub rewrite-settles :
    (p : String → Bool) (content : String)
    → keep_if p
        (extract_bare_slugs (rewrite_bare_slugs (keep_if p (extract_bare_slugs content)) content))
      ≡ []
unfolding extract_bare_slugs
rewrite-settles p content =
    let ts = targets (pieces_of content) in
    let known = keep_if p (extract_bare_slugs content) in
    ap (keep_if p) (extract-rewrite known content)
    ∙ keep_if-none p (bare_from [] (map (new_target known) ts)) (
        All-bare_from (λ s. p s ≡ false) [] (map (new_target known) ts) tt
          (All-map
            (λ t. is_slug (slug_part t) ≡ true → contains (slug_part t) (bare_from [] ts) ≡ true)
            (λ t. is_slug (slug_part t) ≡ true → p (slug_part t) ≡ false) (new_target known) ts
            (λ t complete slug.
              let same = new_target-same known t slug in
              let there =
                subst (λ x. contains (slug_part x) (bare_from [] ts) ≡ true) (sym same)
                  (complete (subst (λ x. is_slug (slug_part x) ≡ true) same slug)) in
              let s = slug_part (new_target known t) in
              and-false_left (p s) (contains s (extract_bare_slugs content))
                (sym (contains-keep_if s p (extract_bare_slugs content))
                  ∙ and-false_right (is_slug s) (contains s known) (new_target-settled known t)
                      slug)
                there)
            (bare_from_complete [] ts)))
