-- ===== src/Validation/Links/Markdown.antt =====
-- The regular expressions of validations/doc_links.py as a scanner, and the operations on texts
-- that the class uses.
use Prim.Native.Char.{Char, code}
use cernopendata_portal.Base.{
  ℕ, zero, suc, String, Bool, not, ◌&&◌, ◌||◌, Option, none, some, List, [], ◌∷◌, ◌==◌, nat_eq,
  string_eq, if◌then◌else◌, ◌<>◌, leb,
}
use cernopendata_portal.Base.Text.{span}

-- A text in pieces: single characters, and links with their text and target.
pub data Piece : Type 0 where
  plain : Char → Piece
  link : String → String → Piece

abbrev pub not_char : ℕ → ℕ → Bool
not_char c d = not (d == c)

-- `)` behind a target that is not empty.
abbrev pub closed : String × String → Option (String × String)
closed (String.[], s) = none
closed (String.◌∷◌ c t, String.[]) = none
closed (String.◌∷◌ c t, String.◌∷◌ d s) = some (String.◌∷◌ c t, s)

-- `(`, the target and `)`.
unfoldable pub match_target : String → Option (String × String)
unfolding span
match_target String.[] = none
match_target (String.◌∷◌ c s) = if code c == b'(' then closed (span (not_char b')') s) else none

abbrev pub with_text : String → Option (String × String) → Option (String × String × String)
with_text t none = none
with_text t (some (target, rest)) = some (t, target, rest)

abbrev pub after_text : String × String → Option (String × String × String)
after_text (t, String.[]) = none
after_text (t, String.◌∷◌ c s) = with_text t (match_target s)

-- What follows a `[`: the text, the target and the rest, if a link starts here.
unfoldable pub match_link : String → Option (String × String × String)
unfolding span match_target
match_link s = after_text (span (not_char b']') s)

-- A link that starts at `c`, behind the character `prev`.
unfoldable pub link_start : ℕ → Char → String → Option (String × String × String)
unfolding match_link
link_start prev c s = if code c == b'[' && not (prev == b'!') then match_link s else none

abbrev pub piece :
    Char → String → (ℕ → String → List Piece) → Option (String × String × String) → List Piece
piece c s next none = plain c ∷ next (code c) s
piece c s next (some (t, target, rest)) = link t target ∷ next b')' rest

-- The pieces of a text behind the character `prev`; fuel as long as the text is enough.
unfoldable pub pieces : ℕ → ℕ → String → List Piece
unfolding link_start
pieces zero prev s = []
pieces (suc n) prev String.[] = []
pieces (suc n) prev (String.◌∷◌ c s) = piece c s (pieces n) (link_start prev c s)

abbrev pub size : String → ℕ
size String.[] = 0
size (String.◌∷◌ c s) = suc (size s)

-- At the start of a text, no `!` stands before.
abbrev pub pieces_of : String → List Piece
pieces_of s = pieces (size s) 0 s

-- `[t](target)` in front of a text.
abbrev pub in_brackets : String → String → String → String
in_brackets t target rest = t <> String.◌∷◌ "]" (String.◌∷◌ "(" (target <> String.◌∷◌ ")" rest))

unfoldable pub render : List Piece → String
render [] = ""
render (plain c ∷ ps) = String.◌∷◌ c (render ps)
render (link t target ∷ ps) = String.◌∷◌ "[" (in_brackets t target (render ps))

-- `finditer`: the targets of the links.
unfoldable pub targets : List Piece → List String
targets [] = []
targets (plain c ∷ ps) = targets ps
targets (link t target ∷ ps) = target ∷ targets ps

-- `sub`: the links with other targets.
unfoldable pub retarget : (String → String) → List Piece → List Piece
retarget f [] = []
retarget f (plain c ∷ ps) = plain c ∷ retarget f ps
retarget f (link t target ∷ ps) = link t (f target) ∷ retarget f ps

-- `str.isspace` for one character.
unfoldable pub is_space : ℕ → Bool
is_space c =
    leb 9 c && leb c 13
    || leb 28 c && leb c 32
    || c == 133
    || c == 160
    || c == 5760
    || leb 8192 c && leb c 8202
    || c == 8232
    || c == 8233
    || c == 8239
    || c == 8287
    || c == 12288

unfoldable pub drop_while : (ℕ → Bool) → String → String
drop_while p String.[] = String.[]
drop_while p (String.◌∷◌ c s) =
    let rest = drop_while p s in if p (code c) then rest else String.◌∷◌ c s

-- The text without the last characters that pass the test.
unfoldable pub drop_last : (ℕ → Bool) → String → String
drop_last p String.[] = String.[]
drop_last p (String.◌∷◌ c s) =
    let rest = drop_last p s in if p (code c) && rest == "" then String.[] else String.◌∷◌ c rest

-- `s.strip()` and `s.strip(c)`
unfoldable pub strip_spaces : String → String
unfolding is_space drop_while drop_last
strip_spaces s = drop_while is_space (drop_last is_space s)

unfoldable pub strip_char : ℕ → String → String
unfolding drop_while drop_last
strip_char c s = drop_while (λ d. d == c) (drop_last (λ d. d == c) s)

-- `t[len(s):]`
unfoldable pub drop_as : String → String → String
drop_as String.[] t = t
drop_as (String.◌∷◌ c s) String.[] = String.[]
drop_as (String.◌∷◌ c s) (String.◌∷◌ d t) = drop_as s t

-- `[A-Za-z0-9_-]`
unfoldable pub is_slug_char : ℕ → Bool
is_slug_char c =
    leb b'A' c && leb c b'Z'
    || leb b'a' c && leb c b'z'
    || leb b'0' c && leb c b'9'
    || c == b'_'
    || c == b'-'
