-- ===== src/Validation/Links.antt =====
-- `class ValidDocLinks` (cernopendata/modules/releases/validations/doc_links.py).
-- Its regular expressions are the scanner `pieces`: a link is `[text](target)` that does not follow
-- a `!`, where the text has no `]` and the target is not empty and has no `)`. `registered` says
-- which slugs are registered identifiers of documents.
pub mod Markdown
pub mod Scan
pub mod Again
pub mod Unique
pub mod Targets
pub mod Bare
pub mod Fixed
pub mod Lawful
use cernopendata_portal.Base.{
  ℕ, suc, String, Bool, true, false, not, ◌&&◌, ◌||◌, Option, none, some, List, [], ◌∷◌, ◌++◌, ◌==◌,
  string_eq, contains, is_empty, keep_if, if◌then◌else◌, ◌<>◌,
}
use cernopendata_portal.Base.Text.{split_at, first_part, all_chars, strip_prefix, strip_suffix}
use cernopendata_portal.Base.Result.{Result, ok, raise, attribute_error, type_error, ◌>>=◌}
use cernopendata_portal.Json.{Value, null, bool, num, text, arr, obj, Fields, end, truthy}
use cernopendata_portal.Json.Dict.{lookup, insert}
use cernopendata_portal.Json.Python.{get_attr}
use cernopendata_portal.Release.Model.{
  Message, link_not_found, link_bare, link_unresolved, Metadata, Validator,
}
use cernopendata_portal.Release.Edit.{get}
use cernopendata_portal.Validation.Links.Markdown.{
  pieces, pieces_of, render, targets, retarget, strip_spaces, strip_char, drop_as, is_slug_char,
}

-- `SLUG_CHARS.match`: the `$` of the expression allows a line feed at the end.
abbrev pub without_feed : String → Option String → String
without_feed s none = s
without_feed s (some t) = t

abbrev pub all_slug_chars : String → Bool
all_slug_chars s = not (s == "") && all_chars is_slug_char s

unfoldable pub is_slug : String → Bool
unfolding strip_suffix
is_slug s = all_slug_chars (without_feed s (strip_suffix s "\n"))

-- `raw.split("#", 1)[0].split("?", 1)[0]`
unfoldable pub clean : String → String
clean raw = first_part (split_at b'?' (first_part (split_at b'#' raw)))

unfoldable pub slug_part : String → String
unfolding clean strip_spaces
slug_part target = clean (strip_spaces target)

-- The slugs of a list of targets, each once, in the order of the first occurrence.
abbrev pub add_new : String → List String → List String
add_new s ss = if contains s ss then ss else ss ++ (s ∷ [])

unfoldable pub bare_from : List String → List String → List String
bare_from slugs [] = slugs
bare_from slugs (target ∷ rest) =
    bare_from (if is_slug (slug_part target) then add_new (slug_part target) slugs else slugs) rest

-- `_extract_bare_slugs`
unfoldable pub extract_bare_slugs : String → List String
unfolding bare_from targets pieces
extract_bare_slugs content = bare_from [] (targets (pieces_of content))

abbrev absolute_slug : Option String → String
absolute_slug none = ""
absolute_slug (some s) = strip_char b'/' s

unfoldable pub absolute_from : List String → List String → List String
absolute_from slugs [] = slugs
absolute_from slugs (target ∷ rest) =
    let slug = absolute_slug (strip_prefix "/docs/" (slug_part target)) in
    absolute_from (if slug == "" then slugs else add_new slug slugs) rest

-- `_extract_absolute_slugs`
unfoldable pub extract_absolute_slugs : String → List String
unfolding absolute_from targets pieces
extract_absolute_slugs content = absolute_from [] (targets (pieces_of content))

-- The target of a link that is rewritten.
unfoldable pub new_target : List String → String → String
new_target known target =
    let raw = strip_spaces target in
    let slug = slug_part target in
    if not (is_slug slug) || not (contains slug known)
    then target
    else "/docs/" <> slug <> drop_as slug raw

-- `_rewrite_bare_slugs`
unfoldable pub rewrite_bare_slugs : List String → String → String
unfolding new_target pieces render retarget
rewrite_bare_slugs known content = render (retarget (new_target known) (pieces_of content))

abbrev hashed : Value → Result (List Value)
hashed (arr vs) = raise type_error
hashed (obj d) = raise type_error
hashed v = ok (v ∷ [])

abbrev pub has_text : List Value → String → Bool
has_text [] slug = false
has_text (text s ∷ vs) slug = slug == s || has_text vs slug
has_text (_ ∷ vs) slug = has_text vs slug

abbrev pub is_md : Value → Bool
is_md (text s) = s == "md"
is_md _ = false

abbrev pub non_empty : Value → Option String
non_empty (text String.[]) = none
non_empty (text (String.◌∷◌ c s)) = some (String.◌∷◌ c s)
non_empty _ = none

abbrev pub with_content : String → Value → Value
with_content content (obj body) = obj (insert "content" (text content) body)
with_content content v = v

abbrev pub slug_in : Value → Result (List Value)
slug_in slug = if not (truthy slug) then ok [] else hashed slug

-- `_get_release_slugs`: the set cannot hold a list or a dict.
unfoldable pub release_slugs : List Fields → Result (List Value)
unfolding truthy
release_slugs [] = ok []
release_slugs (doc ∷ docs) =
    slug_in (get "slug" doc) >>= λ first. release_slugs docs >>= λ more. ok (first ++ more)

-- `doc.get("body") or {}`
abbrev pub body_of : Value → Value
body_of v = if truthy v then v else obj end

-- A body that is no dict has no `get`.
unfoldable pub content_in : Value → Result (Option String)
content_in (obj body) =
    ok (if is_md (get "format" body) then non_empty (get "content" body) else none)
content_in _ = raise attribute_error

-- `_get_content`
unfoldable pub get_content : Fields → Result (Option String)
unfolding truthy content_in
get_content doc = content_in (body_of (get "body" doc))

-- `doc["body"]["content"] = ...`, on a document whose body is a dict.
abbrev pub set_content : String → Fields → Fields
set_content content doc = insert "body" (with_content content (get "body" doc)) doc

abbrev pub rewritten : List String → Option String → Fields → Fields
rewritten known none doc = doc
rewritten known (some content) doc =
    if is_empty known then doc else set_content (rewrite_bare_slugs known content) doc

module _ (registered : String → Bool) where
  unfoldable pub is_known : List Value → String → Bool
  is_known slugs slug = has_text slugs slug || registered slug

  abbrev check_absolute : List Value → ℕ → List String → List Message
  check_absolute slugs i [] = []
  check_absolute slugs i (slug ∷ rest) =
      let more = check_absolute slugs i rest in
      if is_known slugs slug then more else link_not_found (suc i) slug ∷ more

  abbrev check_bare : List Value → ℕ → List String → List Message
  check_bare slugs i [] = []
  check_bare slugs i (slug ∷ rest) =
      (if is_known slugs slug then link_bare (suc i) slug else link_unresolved (suc i) slug)
      ∷ check_bare slugs i rest

  -- The links of one document; `None` has none.
  abbrev check_content : List Value → ℕ → Option String → List Message
  check_content slugs i none = []
  check_content slugs i (some content) =
      check_absolute slugs i (extract_absolute_slugs content)
      ++ check_bare slugs i (extract_bare_slugs content)

  unfoldable pub check_links : List Value → ℕ → List Fields → Result (List Message)
  unfolding is_known get_content extract_absolute_slugs extract_bare_slugs
  check_links slugs i [] = ok []
  check_links slugs i (doc ∷ docs) = get_content doc >>= λ content.
      check_links slugs (suc i) docs >>= λ errors. ok (check_content slugs i content ++ errors)

  unfoldable pub validate_links : Metadata → Result (List Message)
  unfolding release_slugs check_links
  validate_links m = release_slugs m.documents >>= λ slugs. check_links slugs 0 m.documents

  -- The bare slugs of a document that have a document to lead to.
  unfoldable pub known_bare : List Value → Option String → List String
  unfolding is_known extract_bare_slugs
  known_bare slugs none = []
  known_bare slugs (some content) = keep_if (is_known slugs) (extract_bare_slugs content)

  -- The loop of `fixable` stops at the first document that has one.
  unfoldable pub any_fixable : List Value → List Fields → Result Bool
  unfolding known_bare get_content
  any_fixable slugs [] = ok false
  any_fixable slugs (doc ∷ docs) =
      let rest = any_fixable slugs docs in
      get_content doc >>= λ content. if is_empty (known_bare slugs content) then rest else ok true

  unfoldable pub fixable_links : Metadata → Result Bool
  unfolding release_slugs any_fixable
  fixable_links m = release_slugs m.documents >>= λ slugs. any_fixable slugs m.documents

  unfoldable pub fix_documents : List Value → List Fields → Result (List Fields)
  unfolding known_bare get_content rewrite_bare_slugs
  fix_documents slugs [] = ok []
  fix_documents slugs (doc ∷ docs) = get_content doc >>= λ content.
      fix_documents slugs docs >>= λ rest.
      ok (rewritten (known_bare slugs content) content doc ∷ rest)

  unfoldable pub fix_links : Metadata → Result (Metadata × List Message)
  unfolding release_slugs fix_documents
  fix_links m = release_slugs m.documents >>= λ slugs.
      fix_documents slugs m.documents >>= λ docs. ok (record m { documents = docs }, [])

  unfoldable pub valid_doc_links : Validator
  valid_doc_links = record {
    name = "Valid document links";
    experiment = none;
    optional = false;
    validate = validate_links;
    fix = some fix_links;
    fixable = fixable_links;
  }
