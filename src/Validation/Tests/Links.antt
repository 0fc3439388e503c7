-- ===== src/Validation/Tests/Links.antt =====
-- The theorems on document links at a document with a bare link.
use cernopendata_portal.Base.{String, ◌≡◌, refl, Bool, false, List, [], ◌∷◌, string_eq, nat_eq}
use cernopendata_portal.Base.Text.{split_at, strip_suffix, all_chars, span}
use cernopendata_portal.Base.Result.{ok}
use cernopendata_portal.Json.{text, obj, Fields, end, field, truthy}
use cernopendata_portal.Json.Dict.{lookup, insert}
use cernopendata_portal.Release.Model.{draft, Metadata, Message}
use cernopendata_portal.Release.Tests.{release_in}
use cernopendata_portal.Validation.Links.{
  is_slug, clean, slug_part, bare_from, extract_bare_slugs, new_target, rewrite_bare_slugs,
  release_slugs, content_in, get_content, is_known, known_bare, fix_documents, fix_links,
  fixable_links,
}
use cernopendata_portal.Validation.Links.Markdown.{
  match_target, match_link, link_start, pieces, render, targets, retarget, is_space, drop_while,
  drop_last, strip_spaces, drop_as, is_slug_char,
}
use cernopendata_portal.Validation.Links.Fixed.{fix_links_settles}

abbrev page : String → Fields
page content =
    field "slug" (text "guide")
      (field "body" (obj (field "format" (text "md") (field "content" (text content) end))) end)

abbrev linked : Metadata
linked = record (release_in draft) { documents = page "See [here](guide#top)." ∷ [] }

abbrev relinked : Metadata
relinked = record (release_in draft) { documents = page "See [here](/docs/guide#top)." ∷ [] }

abbrev none_registered : String → Bool
none_registered slug = false

abbrev no_messages : List Message
no_messages = []

fix_links_settles_example : (fixable_links none_registered relinked ≡ ok false) × (no_messages ≡ [])
unfolding fix_links release_slugs fix_documents get_content content_in known_bare is_known
    extract_bare_slugs bare_from slug_part clean is_slug rewrite_bare_slugs new_target match_target
    match_link link_start pieces render targets retarget is_space drop_while drop_last strip_spaces
    drop_as is_slug_char split_at strip_suffix all_chars span truthy lookup insert string_eq nat_eq
fix_links_settles_example = fix_links_settles none_registered linked (relinked, []) refl
