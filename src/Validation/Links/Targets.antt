-- ===== src/Validation/Links/Targets.antt =====
-- The new targets of links (validations/doc_links.py).
use text.Mathlib.TextLemmas.{cons-append, cons≢nil, cons-eq-cons}
use Prim.Native.Char.{Char, code}
use cernopendata_portal.Base.{
  ℕ, String, ◌≡◌, refl, ◌≢◌, sym, ap, ◌∙◌, Bool, true, false, not, ◌&&◌, ◌||◌, Option, none, some,
  List, [], ◌∷◌, ◌==◌, nat_eq, string_eq, contains, ◌<>◌, arith, inl, inr, Bool-cases,
}
use cernopendata_portal.Base.Text.{
  split_at, with_first, first_part, all_chars, all_chars-append, append-ne-empty_left, with_char,
  strip_suffix,
}
use cernopendata_portal.Validation.Links.Markdown.{
  not_char, drop_while, drop_last, drop_as, strip_spaces, is_space, is_slug_char,
}
use cernopendata_portal.Validation.Links.Scan.{IsTarget}
use cernopendata_portal.Validation.Links.{
  all_slug_chars, without_feed, is_slug, clean, slug_part, new_target,
}

module _ (p : ℕ → Bool) where
  all_chars-drop_while :
      (q : ℕ → Bool) (s : String) → all_chars p s ≡ true → all_chars p (drop_while q s) ≡ true
  unfolding all_chars drop_while
  all_chars-drop_while q String.[] h = refl
  all_chars-drop_while q (String.◌∷◌ c s) h = elim (Bool-cases (q (code c))) [
    | inl dropped ↦ rw dropped (all_chars-drop_while q s (ground (arith, h)))
    | inr kept ↦ rw kept h
  ]

  all_chars-drop_last :
      (q : ℕ → Bool) (s : String) → all_chars p s ≡ true → all_chars p (drop_last q s) ≡ true
  unfolding all_chars drop_last
  all_chars-drop_last q String.[] h = refl
  all_chars-drop_last q (String.◌∷◌ c s) h = elim (Bool-cases (q (code c) && drop_last q s == "")) [
    | inl dropped ↦ rw dropped refl
    | inr kept ↦ rw kept (ground (arith, h, all_chars-drop_last q s))
  ]

  all_chars-drop_as : (t s : String) → all_chars p s ≡ true → all_chars p (drop_as t s) ≡ true
  unfolding all_chars drop_as
  all_chars-drop_as String.[] s h = h
  all_chars-drop_as (String.◌∷◌ c t) String.[] h = refl
  all_chars-drop_as (String.◌∷◌ c t) (String.◌∷◌ d s) h = all_chars-drop_as t s (ground (arith, h))

  all_chars-with_first :
      (c : Char) (parts : List String)
      → p (code c) ≡ true
      → all_chars p (first_part parts) ≡ true
      → all_chars p (first_part (with_first c parts)) ≡ true
  unfolding all_chars
  all_chars-with_first c [] h k = ground (arith, h)
  all_chars-with_first c (part ∷ parts) h k = ground (arith, h, k)

  all_chars-first_part :
      (n : ℕ) (s : String) → all_chars p s ≡ true → all_chars p (first_part (split_at n s)) ≡ true
  unfolding all_chars split_at
  all_chars-first_part n String.[] h = refl
  all_chars-first_part n (String.◌∷◌ c s) h = elim (Bool-cases (code c == n)) [
    | inl stop ↦ rw stop refl
    | inr go_on ↦ rw go_on (
        all_chars-with_first c (split_at n s) (ground (arith, h))
          (all_chars-first_part n s (ground (arith, h))))
  ]

  all_chars-slug_part : (u : String) → all_chars p u ≡ true → all_chars p (slug_part u) ≡ true
  unfolding slug_part clean strip_spaces
  all_chars-slug_part u h = all_chars-first_part b'?' _ (
      all_chars-first_part b'#' _
        (all_chars-drop_while is_space _ (all_chars-drop_last is_space u h)))

  all_chars-strip_spaces : (u : String) → all_chars p u ≡ true → all_chars p (strip_spaces u) ≡ true
  unfolding strip_spaces
  all_chars-strip_spaces u h = all_chars-drop_while is_space _ (all_chars-drop_last is_space u h)

inside_new :
    (p : ℕ → Bool)
    → all_chars p "/docs/" ≡ true
    → (s t : String) → all_chars p s ≡ true
    → all_chars p t ≡ true
    → all_chars p ("/docs/" <> s <> t) ≡ true
inside_new p docs s t h k =
    rw (all_chars-append p "/docs/" (s <> t), all_chars-append p s t, docs, h, k) refl

-- The new target of a link is one.
pub new_target-IsTarget :
    (known : List String) (u : String) → IsTarget u → IsTarget (new_target known u)
unfolding new_target all_chars nat_eq
new_target-IsTarget known u (filled, inside) =
    elim (Bool-cases (not (is_slug (slug_part u)) || not (contains (slug_part u) known))) [
      | inl unchanged ↦ rw unchanged (filled, inside)
      | inr changed ↦ rw changed (
        append-ne-empty_left "/docs/" _ cons≢nil,
        inside_new (not_char b')') refl (slug_part u) (drop_as (slug_part u) (strip_spaces u))
            (all_chars-slug_part (not_char b')') u inside)
            (all_chars-drop_as (not_char b')') (slug_part u) (strip_spaces u)
              (all_chars-strip_spaces (not_char b')') u inside)),
      )
    ]

drop_last-keeps :
    (q : ℕ → Bool) (c : Char) (s : String)
    → q (code c) ≡ false
    → drop_last q (String.◌∷◌ c s) ≡ String.◌∷◌ c (drop_last q s)
unfolding drop_last
drop_last-keeps q c s h = rw h refl

drop_while-keeps :
    (q : ℕ → Bool) (c : Char) (s : String)
    → q (code c) ≡ false
    → drop_while q (String.◌∷◌ c s) ≡ String.◌∷◌ c s
unfolding drop_while
drop_while-keeps q c s h = rw h refl

first_part-keeps :
    (n : ℕ) (c : Char) (s : String)
    → (code c == n) ≡ false
    → first_part (split_at n (String.◌∷◌ c s)) ≡ String.◌∷◌ c (first_part (split_at n s))
unfolding split_at
first_part-keeps n c s h = rw h (first_with_first c (split_at n s))
  where
    first_with_first :
        (c : Char) (parts : List String)
        → first_part (with_first c parts) ≡ String.◌∷◌ c (first_part parts)
    first_with_first c [] = refl
    first_with_first c (part ∷ parts) = refl

-- A target that starts with a slash is no slug.
slug_part-slash : (s : String) → (r : String) × (slug_part (String.◌∷◌ "/" s) ≡ String.◌∷◌ "/" r)
unfolding slug_part clean strip_spaces is_space nat_eq
slug_part-slash s =
    let stripped =
      ap (drop_while is_space) (drop_last-keeps is_space "/" s refl)
      ∙ drop_while-keeps is_space "/" (drop_last is_space s) refl in
    let y = drop_last is_space s in
    (
      first_part (split_at b'?' (first_part (split_at b'#' y))),
      ap clean stripped
          ∙ ap (λ x. first_part (split_at b'?' x)) (first_part-keeps b'#' "/" y refl)
          ∙ first_part-keeps b'?' "/" (first_part (split_at b'#' y)) refl,
    )

slash_slug_chars : (r : String) → all_slug_chars (String.◌∷◌ "/" r) ≡ false
unfolding all_chars is_slug_char nat_eq
slash_slug_chars r = ground arith

slash_without_feed :
    (r : String) (o : Option String)
    → all_slug_chars (without_feed (String.◌∷◌ "/" r) (with_char "/" o)) ≡ false
slash_without_feed r none = slash_slug_chars r
slash_without_feed r (some t) = slash_slug_chars t

differ-== : (s t : String) → s ≢ t → (s == t) ≡ false
differ-== s t h = ground (arith, h)

code_absurd : ¬ (◌≡◌ {A = ℕ} 47 10)
code_absurd h = omega (arith, h)

true-ne-false : ¬ (true ≡ false)
true-ne-false h = cc

slash_docs : (x : String) → ("/docs/" <> x) ≡ String.◌∷◌ "/" ("docs/" <> x)
slash_docs x = cons-append "/" "docs/" x

slash-ne-feed : (r : String) → (String.◌∷◌ "/" r == "\n") ≡ false
slash-ne-feed r =
    differ-== (String.◌∷◌ "/" r) "\n" (λ e. code_absurd (ap code (cons-eq-cons.0 e).0))

is_slug-slash : (r : String) → is_slug (String.◌∷◌ "/" r) ≡ false
unfolding is_slug strip_suffix
is_slug-slash r = rw (slash-ne-feed r) (slash_without_feed r (strip_suffix r "\n"))

slash-settled :
    (known : List String) (x : String)
    → (is_slug (slug_part ("/docs/" <> x)) && contains (slug_part ("/docs/" <> x)) known) ≡ false
slash-settled known x =
    let (r, e) = slug_part-slash ("docs/" <> x) in rw (slash_docs x, e, is_slug-slash r) refl

-- A target that the rewriting leaves or makes is no known bare slug.
pub new_target-settled :
    (known : List String) (u : String)
    → (is_slug (slug_part (new_target known u)) && contains (slug_part (new_target known u)) known)
      ≡ false
unfolding new_target
new_target-settled known u =
    elim (Bool-cases (not (is_slug (slug_part u)) || not (contains (slug_part u) known))) [
      | inl unchanged ↦ rw (unchanged, new_target) (ground (arith, unchanged))
      | inr changed ↦
          rw (changed, new_target)
            (slash-settled known (slug_part u <> drop_as (slug_part u) (strip_spaces u)))
    ]

-- A link to a bare slug has been left as it was.
pub new_target-same :
    (known : List String) (u : String)
    → is_slug (slug_part (new_target known u)) ≡ true
    → new_target known u ≡ u
unfolding new_target
new_target-same known u h =
    elim (Bool-cases (not (is_slug (slug_part u)) || not (contains (slug_part u) known))) [
      | inl unchanged ↦ rw (unchanged, new_target) refl
      | inr changed ↦
          let x = slug_part u <> drop_as (slug_part u) (strip_spaces u) in
          let (r, e) = slug_part-slash ("docs/" <> x) in
          absurd (
            true-ne-false (
              sym (rw (changed, new_target) at h)
              ∙ ap (λ y. is_slug (slug_part y)) (slash_docs x)
              ∙ ap is_slug e
              ∙ is_slug-slash r))
    ]
