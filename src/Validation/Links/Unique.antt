-- ===== src/Validation/Links/Unique.antt =====
-- A text and its pieces (validations/doc_links.py).
use text.Mathlib.TextLemmas.{nil-append, cons-append}
use Prim.Native.Char.{Char, code}
use cernopendata_portal.Base.{
  ℕ, zero, suc, String, ◌≡◌, refl, sym, ap, subst, ◌∙◌, true, false, some, List, [], ◌∷◌, ◌==◌,
  nat_eq, ◌<>◌, ◌≤◌, arith, inl, inr, Bool-cases, Option-cases,
}
use cernopendata_portal.Base.Text.{all_chars}
use cernopendata_portal.Validation.Links.Scan.{IsTarget, match_link-some, char_eq}
use cernopendata_portal.Validation.Links.Markdown.{
  Piece, plain, link, not_char, match_link, link_start, piece, pieces, pieces_of, size, in_brackets,
  render, retarget,
}
use cernopendata_portal.Validation.Links.Again.{Parsed, Parsed-again, match_link-in_brackets}

size-append : (x s : String) → size s ≤ size (x <> s)
size-append String.[] s = rw (nil-append s) (omega arith)
size-append (String.◌∷◌ c x) s = rw (cons-append c x s) (omega (arith, size-append x s))

size-in_brackets : (t u rest : String) → size rest ≤ size (in_brackets t u rest)
size-in_brackets t u rest = omega (
  arith,
  size-append t (String.◌∷◌ "]" (String.◌∷◌ "(" (u <> String.◌∷◌ ")" rest))),
  size-append u (String.◌∷◌ ")" rest),
)

link_start-in_brackets :
    (p : ℕ) (t u rest : String)
    → (p == b'!') ≡ false
    → all_chars (not_char b']') t ≡ true
    → IsTarget u
    → link_start p "[" (in_brackets t u rest) ≡ some (t, u, rest)
unfolding link_start nat_eq
link_start-in_brackets p t u rest q inside target =
    rw q (match_link-in_brackets t u rest inside target)

-- A text has one list of pieces, and the scanner gives it.
pub pieces_unique :
    (n p : ℕ) (s : String) (ps : List Piece) → Parsed p s ps → size s ≤ n → pieces n p s ≡ ps
unfolding pieces Parsed
pieces_unique zero p s [] e h = refl
pieces_unique (suc n) p s [] e h = ap (pieces (suc n) p) e
pieces_unique zero p s (plain c ∷ ps) (rest, e, _, _) h =
    absurd (subst (λ x. ¬ (size x ≤ 0)) (sym e) (λ k. omega (arith, k)) h)
pieces_unique (suc n) p s (plain c ∷ ps) (rest, e, starts, more) h =
    let fits = subst (λ x. size x ≤ suc n) e h in
    ap (pieces (suc n) p) e
    ∙ ap (piece c rest (pieces n)) starts
    ∙ ap (λ x. plain c ∷ x) (pieces_unique n (code c) rest ps more (omega (arith, fits)))
pieces_unique zero p s (link t u ∷ ps) (rest, e, _, _, _, _) h =
    absurd (subst (λ x. ¬ (size x ≤ 0)) (sym e) (λ k. omega (arith, k)) h)
pieces_unique (suc n) p s (link t u ∷ ps) (rest, e, q, inside, target, more) h =
    let fits = subst (λ x. size x ≤ suc n) e h in
    ap (pieces (suc n) p) e
    ∙ ap (piece "[" (in_brackets t u rest) (pieces n))
        (link_start-in_brackets p t u rest q inside target)
    ∙ ap (λ x. link t u ∷ x)
        (pieces_unique n b')' rest ps more (omega (arith, fits, size-in_brackets t u rest)))

link_start-some :
    (p : ℕ) (c : Char) (s : String) {r : String × String × String}
    → link_start p c s ≡ some r
    → (c ≡ "[") × ((p == b'!') ≡ false) × (match_link s ≡ some r)
unfolding link_start
link_start-some p c s h = elim (Bool-cases (code c == b'[')) [
  | inr differ ↦ absurd (ground (arith, h, differ))
  | inl opens ↦ elim (Bool-cases (p == b'!')) [
    | inl follows ↦ absurd (ground (arith, h, follows))
    | inr free ↦ (char_eq c "[" opens, free, rw (opens, free) at h)
  ]
]

pub pieces-Parsed : (n p : ℕ) (s : String) → size s ≤ n → Parsed p s (pieces n p s)
unfolding pieces Parsed
pieces-Parsed zero p String.[] h = refl
pieces-Parsed zero p (String.◌∷◌ c s) h = absurd (omega (arith, h))
pieces-Parsed (suc n) p String.[] h = refl
pieces-Parsed (suc n) p (String.◌∷◌ c s) h = elim (Option-cases (link_start p c s)) [
  | inl starts ↦ rw starts (s, refl, starts, pieces-Parsed n (code c) s (omega (arith, h)))
  | inr ((t, u, rest), starts) ↦
      let (opens, free, found) = link_start-some p c s starts in
      let (inside, target, e) = match_link-some s found in
      let fits : size rest ≤ n =
        omega (arith, h, subst (λ x. size rest ≤ size x) (sym e) (size-in_brackets t u rest)) in
      rw starts (
        rest,
        ap (λ x. String.◌∷◌ x s) opens ∙ ap (String.◌∷◌ "[") e,
        free,
        inside,
        target,
        pieces-Parsed n b')' rest fits,
      )
]

-- The links of a text whose targets have been changed into targets are those of the text, with the
-- new targets.
pub pieces_of-retarget :
    (f : String → String) (s : String)
    → ((u : String) → IsTarget u → IsTarget (f u))
    → pieces_of (render (retarget f (pieces_of s))) ≡ retarget f (pieces_of s)
pieces_of-retarget f s good =
    let text = render (retarget f (pieces_of s)) in
    pieces_unique (size text) 0 text (retarget f (pieces_of s))
      (Parsed-again f 0 s (pieces_of s) good (pieces-Parsed (size s) 0 s (omega arith)))
      (omega arith)

render-Parsed : (p : ℕ) (s : String) (ps : List Piece) → Parsed p s ps → render ps ≡ s
unfolding render Parsed
render-Parsed p s [] e = sym e
render-Parsed p s (plain c ∷ ps) (rest, e, _, more) =
    ap (String.◌∷◌ c) (render-Parsed (code c) rest ps more) ∙ sym e
render-Parsed p s (link t u ∷ ps) (rest, e, _, _, _, more) =
    ap (λ x. String.◌∷◌ "[" (in_brackets t u x)) (render-Parsed b')' rest ps more) ∙ sym e

-- The pieces into which the scanner for links takes a text make up that text.
pub render-pieces_of : (s : String) → render (pieces_of s) ≡ s
render-pieces_of s = render-Parsed 0 s (pieces_of s) (pieces-Parsed (size s) 0 s (omega arith))
