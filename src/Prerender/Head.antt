-- ===== src/Prerender/Head.antt =====
-- `replaceMeta`: the head of a prerendered page.
use reachable_web_observator.Common.{
  if◌then◌else◌, or_else, ◌+++◌, nat_eq, string_eq, String, List, [], ◌∷◌, str_eq,
}
use reachable_web_observator.Metadata.{RouteMeta, origin, escape_attribute}
use reachable_web_observator.Prerender.Document.{
  Piece, literal, some_space, any_space, value, slash, up_to, replace_text, replace_match,
  matches_in,
}

-- `<element name="key" content="..." />` with any white space between its parts.
abbrev pub element : String → String → String → List Piece
element start key content =
    literal start
    ∷ some_space
    ∷ literal key
    ∷ some_space
    ∷ literal content
    ∷ value
    ∷ literal "\""
    ∷ any_space
    ∷ slash
    ∷ literal ">"
    ∷ []

abbrev pub meta_pattern : String → List Piece
meta_pattern key = element "<meta" key "content=\""

abbrev pub meta_element : String → String → String
meta_element key content = "<meta " +++ key +++ " content=\"" +++ content +++ "\" />"

abbrev pub replace_element : String → String → String → String
replace_element key content document =
    replace_match (meta_pattern key) (meta_element key content) document

unfoldable pub robots_text : RouteMeta → String
robots_text meta =
    if meta.no_index
    then "noindex, " +++ (if meta.follow_when_no_index then "follow" else "nofollow, noarchive")
    else "index, follow"

unfoldable pub canonical_url : String → String
canonical_url route = origin +++ (if str_eq route "/" then "/" else route)

abbrev pub with_robots : RouteMeta → String → String
with_robots meta output =
    if matches_in (literal "<meta" ∷ some_space ∷ literal "name=\"robots\"" ∷ []) output
    then output
    else replace_text "</head>"
        ("    <meta name=\"robots\" content=\"" +++ robots_text meta +++ "\" />\n  </head>") output

unfoldable pub replace_meta : String → RouteMeta → String → String
unfolding replace_match replace_text matches_in escape_attribute robots_text canonical_url
replace_meta route meta document =
    let title = escape_attribute meta.title in
    let description = escape_attribute (or_else meta.description "") in
    let url = canonical_url route in
    let d0 =
      replace_match (literal "<title>" ∷ up_to "</title>" ∷ []) ("<title>" +++ title +++ "</title>")
        document in
    let d1 = replace_element "name=\"description\"" description d0 in
    let d2 = replace_element "name=\"robots\"" (robots_text meta) d1 in
    let d3 =
      replace_match (element "<link" "rel=\"canonical\"" "href=\"")
        ("<link rel=\"canonical\" href=\"" +++ url +++ "\" />") d2 in
    let d4 = replace_element "property=\"og:title\"" title d3 in
    let d5 = replace_element "property=\"og:description\"" description d4 in
    let d6 = replace_element "property=\"og:url\"" url d5 in
    let d7 = replace_element "name=\"twitter:title\"" title d6 in
    let d8 = replace_element "name=\"twitter:description\"" description d7 in with_robots meta d8
