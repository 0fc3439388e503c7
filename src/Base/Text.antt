-- ===== src/Base/Text.antt =====
-- Python's operations on texts that the program uses, by recursion on the characters.
use Prim.Native.String.{String, ◌++◌ as ◌<>◌}
use Prim.Native.Char.{Char, code}
use Prim.Native.Nat.{ℕ, zero, suc, ◌/◌, ◌%◌, ◌-◌, ◌≤◌}
use mathlib.Core.Path.{◌≡◌, refl}
use mathlib.Core.Logic.{◌≢◌, inl, inr}
use mathlib.Core.Bool.{Bool, true, false, ◌&&◌}
use mathlib.Core.Option.{Option, none, some}
use mathlib.Core.List.{List, [], ◌∷◌}
use native.Mathlib.Omega.{arith}
use text.Mathlib.TextLemmas.{nil-append, cons-append, append-eq-nil_iff, cons≢nil}
use cernopendata_portal.Base.Equality.{◌==◌, nat_eq, string_eq, if◌then◌else◌, ltb, Bool-cases}

-- What follows a prefix, if the text has it.
unfoldable pub strip_prefix : String → String → Option String
strip_prefix String.[] s = some s
strip_prefix (String.◌∷◌ c p) String.[] = none
strip_prefix (String.◌∷◌ c p) (String.◌∷◌ d s) =
    let rest = strip_prefix p s in if code c == code d then rest else none

-- `s.endswith(t)`
unfoldable pub ends_with : String → String → Bool
ends_with String.[] t = String.[] == t
ends_with (String.◌∷◌ c s) t =
    let rest = ends_with s t in if String.◌∷◌ c s == t then true else rest

-- A character in front of a text, if there is one.
abbrev pub with_char : Char → Option String → Option String
with_char c none = none
with_char c (some r) = some (String.◌∷◌ c r)

-- What stands before a suffix, if the text has it.
unfoldable pub strip_suffix : String → String → Option String
strip_suffix String.[] t = if String.[] == t then some String.[] else none
strip_suffix (String.◌∷◌ c s) t =
    let rest = with_char c (strip_suffix s t) in
    if String.◌∷◌ c s == t then some String.[] else rest

-- A character in front of the first part.
abbrev pub with_first : Char → List String → List String
with_first c [] = String.◌∷◌ c String.[] ∷ []
with_first c (part ∷ parts) = String.◌∷◌ c part ∷ parts

-- `s.split(c)` at one character, given by its code.
unfoldable pub split_at : ℕ → String → List String
split_at sep String.[] = String.[] ∷ []
split_at sep (String.◌∷◌ c s) =
    let rest = split_at sep s in if code c == sep then String.[] ∷ rest else with_first c rest

abbrev pub last_part : List String → String
last_part [] = ""
last_part (part ∷ []) = part
last_part (part ∷ part' ∷ parts) = last_part (part' ∷ parts)

-- `s.split(c, 1)[0]`
abbrev pub first_part : List String → String
first_part [] = ""
first_part (part ∷ parts) = part

-- `s.rsplit(c, 1)[-1]`: what follows the last such character, or the whole text.
unfoldable pub after_last : ℕ → String → String
after_last sep s = last_part (split_at sep s)

unfoldable pub all_chars : (ℕ → Bool) → String → Bool
all_chars p String.[] = true
all_chars p (String.◌∷◌ c s) = p (code c) && all_chars p s

-- The characters up to the first that fails the test, and the rest.
unfoldable pub span : (ℕ → Bool) → String → String × String
span p String.[] = (String.[], String.[])
span p (String.◌∷◌ c s) =
    let (front, rest) = span p s in
    if p (code c) then (String.◌∷◌ c front, rest) else (String.[], String.◌∷◌ c s)

abbrev digit_text : ℕ → String
digit_text d =
    if d == 0
    then "0"
    else if d == 1
    then "1"
    else if d == 2
    then "2"
    else if d == 3
    then "3"
    else if d == 4
    then "4"
    else if d == 5
    then "5"
    else if d == 6
    then "6"
    else if d == 7
    then "7"
    else if d == 8
    then "8"
    else "9"

-- `str(n)`; a number has at most as many digits as its value plus one.
unfoldable pub show_on : ℕ → ℕ → String
show_on zero n = ""
show_on (suc fuel) n =
    let front = show_on fuel (n / 10) in
    if ltb n 10 then digit_text n else front <> digit_text (n % 10)

unfoldable pub show : ℕ → String
unfolding show_on
show n = show_on (suc n) n

pub strip_prefix-append : (p s : String) → strip_prefix p (p <> s) ≡ some s
unfolding strip_prefix
strip_prefix-append String.[] s = rw nil-append
strip_prefix-append (String.◌∷◌ c p) s = rw cons-append (ground (arith, strip_prefix-append p s))

pub slash-append : (s : String) → ("/" <> s) ≡ String.◌∷◌ "/" s
slash-append s = rw cons-append (rw nil-append refl)

pub span-append :
    (q : ℕ → Bool) (p s : String)
    → all_chars q p ≡ true
    → span q s ≡ (String.[], s)
    → span q (p <> s) ≡ (p, s)
unfolding span all_chars
span-append q String.[] s h e = rw nil-append e
span-append q (String.◌∷◌ c p) s h e = rw cons-append (ground (arith, h, span-append q p s, e))

pub all_chars-append :
    (p : ℕ → Bool) (s t : String) → all_chars p (s <> t) ≡ (all_chars p s && all_chars p t)
unfolding all_chars
all_chars-append p String.[] t = rw nil-append
all_chars-append p (String.◌∷◌ c s) t = rw cons-append (ground (arith, all_chars-append p s t))

abbrev lower_letters : List Char
lower_letters =
    "a" ∷ "b" ∷ "c" ∷ "d" ∷ "e" ∷ "f" ∷ "g" ∷ "h" ∷ "i" ∷ "j" ∷ "k" ∷ "l" ∷ "m" ∷ "n" ∷ "o" ∷ "p"
    ∷ "q" ∷ "r" ∷ "s" ∷ "t" ∷ "u" ∷ "v" ∷ "w" ∷ "x" ∷ "y" ∷ "z" ∷ []

-- The entry at a position, or the default past the end.
abbrev char_at : ℕ → List Char → Char → Char
char_at n [] c = c
char_at zero (x ∷ xs) c = x
char_at (suc n) (x ∷ xs) c = char_at n xs c

-- `s.lower()`, on ASCII; other characters stay.
unfoldable pub lower : String → String
lower String.[] = String.[]
lower (String.◌∷◌ c s) =
    let d = char_at (code c - b'A') lower_letters c in
    String.◌∷◌ (if ltb (code c) b'A' then c else d) (lower s)

-- A printed number consists of digits, and of one at least.
module _ (p : ℕ → Bool) (digits : (c : ℕ) → b'0' ≤ c → c ≤ b'9' → p c ≡ true) where
  either :
      (b : Bool) (s t : String)
      → all_chars p s ≡ true
      → all_chars p t ≡ true
      → all_chars p (if b then s else t) ≡ true
  either true s t h k = h
  either false s t h k = k

  digit_text-digits : (d : ℕ) → all_chars p (digit_text d) ≡ true
  unfolding all_chars
  digit_text-digits d = either (d == 0) _ _ (rw (digits 48 (omega arith) (omega arith))) (
      either (d == 1) _ _ (rw (digits 49 (omega arith) (omega arith))) (
        either (d == 2) _ _ (rw (digits 50 (omega arith) (omega arith))) (
          either (d == 3) _ _ (rw (digits 51 (omega arith) (omega arith))) (
            either (d == 4) _ _ (rw (digits 52 (omega arith) (omega arith))) (
              either (d == 5) _ _ (rw (digits 53 (omega arith) (omega arith))) (
                either (d == 6) _ _ (rw (digits 54 (omega arith) (omega arith))) (
                  either (d == 7) _ _ (rw (digits 55 (omega arith) (omega arith))) (
                    either (d == 8) _ _ (rw (digits 56 (omega arith) (omega arith)))
                      (rw (digits 57 (omega arith) (omega arith)))))))))))

  show_on-digits : (fuel n : ℕ) → all_chars p (show_on fuel n) ≡ true
  unfolding show_on all_chars
  show_on-digits zero n = refl
  show_on-digits (suc fuel) n = ground (
    arith,
    digit_text-digits n,
    digit_text-digits (n % 10),
    show_on-digits fuel (n / 10),
    all_chars-append p (show_on fuel (n / 10)) (digit_text (n % 10)),
  )

  pub show-digits : (n : ℕ) → all_chars p (show n) ≡ true
  unfolding show
  show-digits n = show_on-digits (suc n) n

-- All characters of a text that pass a test are split off whole.
pub span-all : (p : ℕ → Bool) (s : String) → all_chars p s ≡ true → span p s ≡ (s, String.[])
unfolding span all_chars
span-all p String.[] h = refl
span-all p (String.◌∷◌ c s) h = ground (arith, span-all p s)

pub append-ne-empty : (s t : String) → t ≢ "" → s <> t ≢ ""
append-ne-empty s t h e = h (append-eq-nil_iff.0 e).1

pub append-ne-empty_left : (s t : String) → s ≢ "" → s <> t ≢ ""
append-ne-empty_left s t h e = h (append-eq-nil_iff.0 e).0

ite-ne-empty : (b : Bool) (s t : String) → s ≢ "" → t ≢ "" → (if b then s else t) ≢ ""
ite-ne-empty true s t h k = h
ite-ne-empty false s t h k = k

digit_text-ne-empty : (d : ℕ) → digit_text d ≢ ""
digit_text-ne-empty d = ite-ne-empty (d == 0) _ _ cons≢nil (
    ite-ne-empty (d == 1) _ _ cons≢nil (
      ite-ne-empty (d == 2) _ _ cons≢nil (
        ite-ne-empty (d == 3) _ _ cons≢nil (
          ite-ne-empty (d == 4) _ _ cons≢nil (
            ite-ne-empty (d == 5) _ _ cons≢nil (
              ite-ne-empty (d == 6) _ _ cons≢nil (
                ite-ne-empty (d == 7) _ _ cons≢nil
                  (ite-ne-empty (d == 8) _ _ cons≢nil cons≢nil))))))))

pub show-ne-empty : (n : ℕ) → show n ≢ ""
unfolding show
show-ne-empty n = elim (Bool-cases (ltb n 10)) [
  | inl small ↦ rw (small, show_on) (digit_text-ne-empty n)
  | inr large ↦ rw (large, show_on) (append-ne-empty _ _ (digit_text-ne-empty (n % 10)))
]
