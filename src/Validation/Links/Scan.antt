-- ===== src/Validation/Links/Scan.antt =====
-- What the scanner for links has found (validations/doc_links.py).
use text.Mathlib.TextLemmas.{nil-append, cons-append, cons≢nil, cons-eq-cons}
use text.Mathlib.TextEquality.{Char-path}
use Prim.Native.Char.{Char, code}
use cernopendata_portal.Base.{
  ℕ, String, ◌≡◌, refl, ◌≢◌, sym, ap, subst, ◌∙◌, Bool, true, false, not, Option, none, some, ◌==◌,
  nat_eq, ◌<>◌, arith, inl, inr, Bool-cases,
}
use cernopendata_portal.Base.Result.{branch}
use cernopendata_portal.Base.Text.{span, all_chars}
use cernopendata_portal.Validation.Links.Markdown.{
  not_char, closed, match_target, with_text, after_text, match_link, in_brackets,
}

-- The target of a link.
abbrev pub IsTarget : String → Type 0
IsTarget u = (u ≢ "") × (all_chars (not_char b')') u ≡ true)

span-eq : (q : ℕ → Bool) (s : String) → s ≡ (span q s).0 <> (span q s).1
unfolding span
span-eq q String.[] = sym (nil-append "")
span-eq q (String.◌∷◌ c s) = elim (Bool-cases (q (code c))) [
  | inl inside ↦
      rw inside (ap (String.◌∷◌ c) (span-eq q s) ∙ sym (cons-append c (span q s).0 (span q s).1))
  | inr stop ↦ rw stop (sym (nil-append (String.◌∷◌ c s)))
]

span-inside : (q : ℕ → Bool) (s : String) → all_chars q (span q s).0 ≡ true
unfolding span all_chars
span-inside q String.[] = refl
span-inside q (String.◌∷◌ c s) = elim (Bool-cases (q (code c))) [
  | inl inside ↦ rw inside (rw inside (span-inside q s))
  | inr stop ↦ rw stop refl
]

span-stop :
    (q : ℕ → Bool) (s : String) {d : Char} {b : String}
    → (span q s).1 ≡ String.◌∷◌ d b
    → q (code d) ≡ false
unfolding span
span-stop q String.[] h = absurd (cons≢nil (sym h))
span-stop q (String.◌∷◌ c s) {d} h = elim (Bool-cases (q (code c))) [
  | inl inside ↦ span-stop q s (rw inside at h)
  | inr stop ↦ subst (λ x. q (code x) ≡ false) (cons-eq-cons.0 (rw stop at h)).0 stop
]

closed-some :
    (x : String × String) {u rest : String}
    → closed x ≡ some (u, rest)
    → (u ≢ "") × ((d : Char) × (x.0 ≡ u) × (x.1 ≡ String.◌∷◌ d rest))
closed-some (String.[], s) h = cc
closed-some (String.◌∷◌ c t, String.[]) h = cc
closed-some (String.◌∷◌ c t, String.◌∷◌ d s) {u} {rest} h =
    let same : (String.◌∷◌ c t, s) ≡ (u, rest) = cc in
    let front = ap (λ (x : String × String). x.0) same in
    (λ e. cons≢nil (front ∙ e), (d, front, ap (λ (x : String × String). String.◌∷◌ d x.1) same))

not-false : (b : Bool) → not b ≡ false → b ≡ true
not-false true h = refl
not-false false h = cc

pub char_eq : (c : Char) (n : Char) → (code c == code n) ≡ true → c ≡ n
char_eq c n h = Char-path c n (ground (arith, h))

-- The character that ends a span of others than `n`.
span-parts :
    (n : Char) (s : String) {u rest : String} {d : Char}
    → (span (not_char (code n)) s).0 ≡ u
    → (span (not_char (code n)) s).1 ≡ String.◌∷◌ d rest
    → (all_chars (not_char (code n)) u ≡ true) × (s ≡ u <> String.◌∷◌ n rest)
span-parts n s {u} {rest} {d} front back =
    let end = char_eq d n (not-false _ (span-stop (not_char (code n)) s back)) in
    (
      subst (λ x. all_chars (not_char (code n)) x ≡ true) front (span-inside (not_char (code n)) s),
      span-eq (not_char (code n)) s
          ∙ ap (λ x. x <> (span (not_char (code n)) s).1) front
          ∙ ap (λ x. u <> x) (back ∙ ap (λ x. String.◌∷◌ x rest) end),
    )

pub match_target-some :
    (s : String) {u rest : String}
    → match_target s ≡ some (u, rest)
    → IsTarget u × (s ≡ String.◌∷◌ "(" (u <> String.◌∷◌ ")" rest))
unfolding match_target nat_eq
match_target-some String.[] h = cc
match_target-some (String.◌∷◌ c s) {u} {rest} h =
    branch (code c == b'(') _ _ h
      (λ opens k.
        let (filled, (d, front, back)) = closed-some (span (not_char b')') s) k in
        let (inside, e) = span-parts ")" s front back in
        ((filled, inside), ap (λ x. String.◌∷◌ x s) (char_eq c "(" opens) ∙ ap (String.◌∷◌ "(") e))
      (λ _ k. cc)

after_text-some :
    (x : String × String) {t u rest : String}
    → after_text x ≡ some (t, u, rest)
    → (d : Char) × (b : String) × (x.0 ≡ t)
      × (x.1 ≡ String.◌∷◌ d b)
      × (match_target b ≡ some (u, rest))
after_text-some (a, String.[]) h = cc
after_text-some (a, String.◌∷◌ d b) {t} {u} {rest} h = go (match_target b) refl h
  where
    go :
        (m : Option (String × String))
        → match_target b ≡ m
        → with_text a m ≡ some (t, u, rest)
        → (d' : Char) × (b' : String) × (a ≡ t)
          × (String.◌∷◌ d b ≡ String.◌∷◌ d' b')
          × (match_target b' ≡ some (u, rest))
    go none e k = cc
    go (some r) e k = (d, b, cc, refl, e ∙ cc)

-- What the scanner takes for a link is one.
pub match_link-some :
    (s : String) {t u rest : String}
    → match_link s ≡ some (t, u, rest)
    → (all_chars (not_char b']') t ≡ true) × IsTarget u × (s ≡ in_brackets t u rest)
unfolding match_link
match_link-some s {t} {u} {rest} h =
    let (d, b, front, back, found) = after_text-some (span (not_char b']') s) h in
    let (inside, e) = span-parts "]" s front back in
    let (target, e') = match_target-some b found in
    (inside, target, e ∙ ap (λ x. t <> String.◌∷◌ "]" x) e')
