-- ===== src/Cold/Storage.antt =====
-- cernopendata/cold_storage/storage.py: which location a file belongs to, and its name in the other
-- storage. `literal(file).startswith(column)` is `LIKE column || '%'` in PostgreSQL: a path of a
-- location is a pattern, in which % and _ stand for any characters and for one.
pub mod Longest
use Prim.Native.Char.{Char, code}
use cernopendata_portal.Base.{
  ℕ, zero, suc, ◌-◌, String, ◌<>◌, Bool, true, false, Option, none, some, List, [], ◌∷◌, is_some,
  ltb, leb, ◌&&◌, ◌||◌, if◌then◌else◌, ◌==◌, string_eq, nat_eq,
}
use cernopendata_portal.Base.Result.{
  Result, ok, raise, key_error, or_key_error, attribute_error, ◌>>=◌,
}
use cernopendata_portal.Base.Text.{strip_prefix}
use cernopendata_portal.Cold.Model.{
  Action, stage, archive, clear_hot, action_eq, File, Location, Site,
}

abbrev pub text_length : String → ℕ
text_length String.[] = 0
text_length (String.◌∷◌ c s) = suc (text_length s)

-- `s.replace("", new)`
abbrev spread : String → String → String
spread new String.[] = new
spread new (String.◌∷◌ c s) = new <> String.◌∷◌ c (spread new s)

-- `s.replace(old, new)` for a text `old` that is not empty, with the number of characters that are
-- left to be skipped of the occurrence at hand.
unfoldable pub replace_from : String → String → ℕ → String → String
replace_from old new skip String.[] = String.[]
replace_from old new (suc skip) (String.◌∷◌ c s) = replace_from old new skip s
replace_from old new zero (String.◌∷◌ c s) =
    let inside = replace_from old new (text_length old - 1) s in
    let outside = String.◌∷◌ c (replace_from old new zero s) in
    if is_some (strip_prefix old (String.◌∷◌ c s)) then new <> inside else outside

unfoldable pub replace : String → String → String → String
unfolding replace_from
replace s old new = if old == "" then spread new s else replace_from old new zero s

-- The two paths of a location: where a file is, and where its copy goes.
abbrev pub prefix_of : Action → Location → String
prefix_of stage l = l.cold_path
prefix_of _ l = l.hot_path

abbrev pub target_of : Action → Location → String
target_of stage l = l.hot_path
target_of _ l = l.cold_path

abbrev pub any_tail : (String → Bool) → String → Bool
any_tail test String.[] = test String.[]
any_tail test (String.◌∷◌ c s) = test (String.◌∷◌ c s) || any_tail test s

abbrev pub after_one : (String → Bool) → String → Bool
after_one test String.[] = false
after_one test (String.◌∷◌ c s) = test s

abbrev pub after_char : Char → (String → Bool) → String → Bool
after_char d test String.[] = false
after_char d test (String.◌∷◌ c s) = code d == code c && test s

-- One character of a pattern, by its code, and what the rest of the pattern tests.
abbrev pub like_char : Char → (String → Bool) → String → Bool
like_char c test s =
    if code c == b'%'
    then any_tail test s
    else if code c == b'_'
    then after_one test s
    else after_char c test s

-- `s LIKE pattern`, where a backslash (92) takes the character after it as it is. At the end of a
-- pattern it is an error in SQL; it cannot stand there, since a pattern ends with %.
unfoldable pub like : String → String → Bool
like String.[] String.[] = true
like String.[] (String.◌∷◌ c s) = false
like (String.◌∷◌ c String.[]) s = like_char c (like String.[]) s
like (String.◌∷◌ c (String.◌∷◌ d p)) s =
    let escaped = after_char d (like p) s in
    let plain = like_char c (like (String.◌∷◌ d p)) s in if code c == 92 then escaped else plain

abbrev pub is_under : Action → String → Location → Bool
is_under action file l = like (prefix_of action l <> "%") file

-- The first of the matching locations in the order of falling length.
unfoldable pub find_location : Action → String → List Location → Option Location
unfolding like
find_location action file [] = none
find_location action file (l ∷ ls) =
    let rest = find_location action file ls in
    if is_under action file l
    then (elim rest [
      | none ↦ some l
      | some best ↦
          if ltb (text_length (prefix_of action l)) (text_length (prefix_of action best))
          then some best
          else some l
    ])
    else rest

-- `find_url`: the name of the copy and the class that makes it.
unfoldable pub find_url : List Location → Action → String → Option (String × String)
unfolding find_location replace like
find_url locations action file = elim (find_location action file locations) [
  | none ↦ none
  | some l ↦ some (replace file (prefix_of action l) (target_of action l), l.manager_class)
]
