-- ===== src/Validation/Links/Again.antt =====
-- Scanning a text once more after its links have got other targets
-- (validations/doc_links.py).
use text.Mathlib.TextLemmas.{nil-append, cons-append, cons≢nil}
use Prim.Native.Char.{Char, code}
use cernopendata_portal.Base.{
  ℕ, String, ◌≡◌, refl, ◌≢◌, sym, ap, subst, ◌∙◌, Bool, true, false, not, ◌&&◌, Option, none, some,
  List, [], ◌∷◌, ◌==◌, nat_eq, if◌then◌else◌, ◌<>◌, arith, inl, inr, Bool-cases,
}
use cernopendata_portal.Base.Text.{span, all_chars, span-append}
use cernopendata_portal.Validation.Links.Scan.{IsTarget}
use cernopendata_portal.Validation.Links.Markdown.{
  Piece, plain, link, not_char, closed, match_target, with_text, after_text, match_link, link_start,
  in_brackets, render, retarget,
}

-- A text behind a character, and its pieces.
unfoldable pub Parsed : ℕ → String → List Piece → Type 0
Parsed p s [] = s ≡ ""
Parsed p s (plain c ∷ ps) =
    (rest : String) × (s ≡ String.◌∷◌ c rest)
    × (link_start p c rest ≡ none)
    × Parsed (code c) rest ps
Parsed p s (link t u ∷ ps) =
    (rest : String) × (s ≡ String.◌∷◌ "[" (in_brackets t u rest))
    × ((p == b'!') ≡ false)
    × (all_chars (not_char b']') t ≡ true)
    × IsTarget u
    × Parsed b')' rest ps

span_empty : (q : ℕ → Bool) → span q "" ≡ ("", "")
unfolding span
span_empty q = refl

span-in :
    (q : ℕ → Bool) (c : Char) (s : String)
    → q (code c) ≡ true
    → span q (String.◌∷◌ c s) ≡ (String.◌∷◌ c (span q s).0, (span q s).1)
unfolding span
span-in q c s h = rw h refl

span-out :
    (q : ℕ → Bool) (c : Char) (s : String)
    → q (code c) ≡ false
    → span q (String.◌∷◌ c s) ≡ ("", String.◌∷◌ c s)
unfolding span
span-out q c s h = rw h refl

closed_target : (u rest : String) → u ≢ "" → closed (u, String.◌∷◌ ")" rest) ≡ some (u, rest)
closed_target String.[] rest h = absurd (h refl)
closed_target (String.◌∷◌ c u) rest h = refl

match_target-closed :
    (u rest : String)
    → IsTarget u
    → match_target (String.◌∷◌ "(" (u <> String.◌∷◌ ")" rest)) ≡ some (u, rest)
unfolding match_target nat_eq
match_target-closed u rest (filled, inside) =
    ap closed (
      span-append (not_char b')') u (String.◌∷◌ ")" rest) inside
        (span-out (not_char b')') ")" rest refl))
    ∙ closed_target u rest filled

-- A link that is written is found.
pub match_link-in_brackets :
    (t u rest : String)
    → all_chars (not_char b']') t ≡ true
    → IsTarget u
    → match_link (in_brackets t u rest) ≡ some (t, u, rest)
unfolding match_link nat_eq
match_link-in_brackets t u rest h target =
    ap after_text (span-append (not_char b']') t _ h (span-out (not_char b']') "]" _ refl))
    ∙ ap (with_text t) (match_target-closed u rest target)

-- Whether a closing bracket is missing.
abbrev IsOpen : String → Type 0
IsOpen s = (span (not_char b')') s).1 ≡ ""

IsOpen-tail :
    (c : Char) (s : String) → IsOpen (String.◌∷◌ c s) → (not_char b')' (code c) ≡ true) × IsOpen s
IsOpen-tail c s h = elim (Bool-cases (not_char b')' (code c))) [
  | inl inside ↦
      (inside, sym (ap (λ (x : String × String). x.1) (span-in (not_char b')') c s inside)) ∙ h)
  | inr stop ↦
      absurd
        (cons≢nil (sym (ap (λ (x : String × String). x.1) (span-out (not_char b')') c s stop)) ∙ h))
]

IsOpen-append : (x s : String) → IsOpen (x <> s) → IsOpen s
IsOpen-append String.[] s h = subst IsOpen (nil-append s) h
IsOpen-append (String.◌∷◌ c x) s h =
    IsOpen-append x s (IsOpen-tail c (x <> s) (subst IsOpen (cons-append c x s) h)).1

-- A link holds a closing bracket.
link-closed : (t u rest : String) → ¬ IsOpen (in_brackets t u rest)
unfolding nat_eq
link-closed t u rest h =
    let inner = IsOpen-append t _ h in
    let after = IsOpen-append u _ (IsOpen-tail "(" _ (IsOpen-tail "]" _ inner).1).1 in
    absurd (ground (arith, (IsOpen-tail ")" rest after).0))

closed-open : (s : String) → IsOpen s → closed (span (not_char b')') s) ≡ none
closed-open s h = open_none (span (not_char b')') s) h
  where
    open_none : (x : String × String) → x.1 ≡ "" → closed x ≡ none
    open_none (String.[], b) h = refl
    open_none (String.◌∷◌ c t, String.[]) h = refl
    open_none (String.◌∷◌ c t, String.◌∷◌ d b) h = absurd (cons≢nil h)

-- A target that is not closed, or empty.
IsOpen-closed :
    (c : Char) (s : String)
    → not_char b')' (code c) ≡ true
    → closed (span (not_char b')') (String.◌∷◌ c s)) ≡ none
    → IsOpen s
IsOpen-closed c s inside h =
    none_open (span (not_char b')') s) (sym (ap closed (span-in (not_char b')') c s inside)) ∙ h)
  where
    none_open : (x : String × String) → closed (String.◌∷◌ c x.0, x.1) ≡ none → x.1 ≡ ""
    none_open (a, String.[]) h = refl
    none_open (a, String.◌∷◌ d b) h = cc

some-ne-none : {A : Type 0} {a : A} → ¬ (some a ≡ none)
some-ne-none h = cc

with_text-none : (m : Option (String × String)) → with_text "" m ≡ none → m ≡ none
with_text-none none h = refl
with_text-none (some r) h = cc

after_text-cons :
    (c : Char) (x : String × String)
    → after_text x ≡ none
    → after_text (String.◌∷◌ c x.0, x.1) ≡ none
after_text-cons c (t, String.[]) h = refl
after_text-cons c (t, String.◌∷◌ d s) h = with_text-cons (match_target s) h
  where
    with_text-cons :
        (m : Option (String × String)) → with_text t m ≡ none → with_text (String.◌∷◌ c t) m ≡ none
    with_text-cons none h = refl
    with_text-cons (some r) h = cc

after_text-tail :
    (c : Char) (x : String × String)
    → after_text (String.◌∷◌ c x.0, x.1) ≡ none
    → after_text x ≡ none
after_text-tail c (t, String.[]) h = refl
after_text-tail c (t, String.◌∷◌ d s) h = with_text-tail (match_target s) h
  where
    with_text-tail :
        (m : Option (String × String)) → with_text (String.◌∷◌ c t) m ≡ none → with_text t m ≡ none
    with_text-tail none h = refl
    with_text-tail (some r) h = cc

gate :
    {A : Type 0} (b : Bool) (x y : Option A)
    → (x ≡ none → y ≡ none)
    → (if b then x else none) ≡ none
    → (if b then y else none) ≡ none
gate true x y f h = f h
gate false x y f h = refl

module _ (f : String → String) where
  abbrev again : List Piece → String
  again ps = render (retarget f ps)

  IsOpen-again :
      (p : ℕ) (s : String) (ps : List Piece) → Parsed p s ps → IsOpen s → IsOpen (again ps)
  unfolding render retarget Parsed
  IsOpen-again p s [] e h = ap (λ (x : String × String). x.1) (span_empty (not_char b')'))
  IsOpen-again p s (plain c ∷ ps) (rest, e, _, more) h =
      let (inside, tail) = IsOpen-tail c rest (subst IsOpen e h) in
      ap (λ (x : String × String). x.1) (span-in (not_char b')') c (again ps) inside)
      ∙ IsOpen-again (code c) rest ps more tail
  IsOpen-again p s (link t u ∷ ps) (rest, e, _, _, _, _) h =
      absurd (link-closed t u rest (IsOpen-tail "[" _ (subst IsOpen e h)).1)

  closed-again :
      (p : ℕ) (s : String) (ps : List Piece)
      → Parsed p s ps
      → closed (span (not_char b')') s) ≡ none
      → closed (span (not_char b')') (again ps)) ≡ none
  unfolding render retarget Parsed nat_eq
  closed-again p s [] e h = ap closed (span_empty (not_char b')'))
  closed-again p s (plain c ∷ ps) (rest, e, _, more) h =
      elim (Bool-cases (not_char b')' (code c))) [
        | inr stop ↦ ap closed (span-out (not_char b')') c (again ps) stop)
        | inl inside ↦ closed-open (String.◌∷◌ c (again ps)) (
            ap (λ (x : String × String). x.1) (span-in (not_char b')') c (again ps) inside)
            ∙ IsOpen-again (code c) rest ps more (
                IsOpen-closed c rest inside
                  (subst (λ x. closed (span (not_char b')') x) ≡ none) e h)))
      ]
  closed-again p s (link t u ∷ ps) (rest, e, _, _, _, _) h = absurd (
      link-closed t u rest
        (IsOpen-closed "[" _ refl (subst (λ x. closed (span (not_char b')') x) ≡ none) e h)))

  match_target-again :
      (p : ℕ) (s : String) (ps : List Piece)
      → Parsed p s ps
      → match_target s ≡ none
      → match_target (again ps) ≡ none
  unfolding render retarget Parsed match_target nat_eq
  match_target-again p s [] e h = refl
  match_target-again p s (link t u ∷ ps) whole h = refl
  match_target-again p s (plain c ∷ ps) (rest, e, _, more) h = elim (Bool-cases (code c == b'(')) [
    | inr differ ↦ rw differ refl
    | inl opens ↦
        rw opens (
          closed-again (code c) rest ps more (rw opens at (subst (λ x. match_target x ≡ none) e h)))
  ]

  match_link-again :
      (p : ℕ) (s : String) (ps : List Piece)
      → Parsed p s ps
      → match_link s ≡ none
      → match_link (again ps) ≡ none
  unfolding render retarget Parsed match_link nat_eq
  match_link-again p s [] e h = ap after_text (span_empty (not_char b']'))
  match_link-again p s (link t u ∷ ps) (rest, e, _, inside, target, _) h =
      let h' = subst (λ x. match_link x ≡ none) e h in
      absurd (
        some-ne-none (
          sym (match_link-in_brackets t u rest inside target)
          ∙ after_text-tail "[" (span (not_char b']') (in_brackets t u rest))
              (sym (ap after_text (span-in (not_char b']') "[" (in_brackets t u rest) refl)) ∙ h')))
  match_link-again p s (plain c ∷ ps) (rest, e, _, more) h =
      let h' = subst (λ x. match_link x ≡ none) e h in
      elim (Bool-cases (not_char b']' (code c))) [
        | inl inside ↦
            ap after_text (span-in (not_char b']') c (again ps) inside)
            ∙ after_text-cons c (span (not_char b']') (again ps)) (
                match_link-again (code c) rest ps more (
                  after_text-tail c (span (not_char b']') rest)
                    (sym (ap after_text (span-in (not_char b']') c rest inside)) ∙ h')))
        | inr stop ↦
            ap after_text (span-out (not_char b']') c (again ps) stop)
            ∙ ap (with_text "") (
                match_target-again (code c) rest ps more (
                  with_text-none (match_target rest)
                    (sym (ap after_text (span-out (not_char b']') c rest stop)) ∙ h')))
      ]

  -- The pieces of the text with other targets are the pieces with other targets.
  pub Parsed-again :
      (p : ℕ) (s : String) (ps : List Piece)
      → ((u : String) → IsTarget u → IsTarget (f u))
      → Parsed p s ps
      → Parsed p (again ps) (retarget f ps)
  unfolding render retarget Parsed link_start
  Parsed-again p s [] good e = refl
  Parsed-again p s (plain c ∷ ps) good (rest, e, starts, more) = (
    again ps,
    refl,
    gate (code c == b'[' && not (p == b'!')) (match_link rest) (match_link (again ps))
        (match_link-again (code c) rest ps more) starts,
    Parsed-again (code c) rest ps good more,
  )
  Parsed-again p s (link t u ∷ ps) good (rest, e, q, inside, target, more) =
      (again ps, refl, q, inside, good u target, Parsed-again b')' rest ps good more)
