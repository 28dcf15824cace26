-- ===== src/Metadata.antt =====
-- lib/meta.ts and the escaping of scripts/prerender.mjs: the metadata of a route.
pub mod Laws
use Prim.Native.Char.{Char, code}
use Prim.Native.String
use reachable_web_observator.Common.{
  ◌==◌, if◌then◌else◌, truthy, or_else, ◌+++◌, nat_eq, string_eq, ℕ, String, Bool, Option, [], ◌∷◌,
}
use reachable_web_observator.Js.Params.{Params, set, set_if}

pub record RouteMeta : Type 0 where
  pub title : String
  pub description : Option String
  pub path : Option String
  pub no_index : Bool
  pub follow_when_no_index : Bool

-- `SITE`, `ORIGIN` and `OG_IMAGE`
abbrev pub site : String
site = "Reachable Web Observatory"

abbrev pub origin : String
origin = "https://observatory.verdantprotocol.com"

abbrev pub og_image : String
og_image = "https://observatory.verdantprotocol.com/og.png?v=20260726"

unfoldable pub robots : RouteMeta → String
robots meta =
    if meta.no_index
    then "noindex, "
      +++ (if meta.follow_when_no_index then "follow" else "nofollow")
      +++ (if meta.follow_when_no_index then "" else ", noarchive")
    else "index, follow"

-- The document's head: its title, and the content of each element by its selector.
pub record Head : Type 0 where
  pub title : String
  pub elements : Params

abbrev pub described : RouteMeta → Bool
described meta = truthy (or_else meta.description "")

abbrev pub canonical : String → RouteMeta → String
canonical pathname meta = origin +++ or_else meta.path pathname

-- The effect of `useMeta`, with `upsertMeta` and `upsertLink` as writes by selector.
unfoldable pub use_meta : String → RouteMeta → Head → Head
unfolding set_if
use_meta pathname meta head =
    let text = or_else meta.description "" in
    let e0 = set "link[canonical]" (canonical pathname meta) head.elements in
    let e1 = set_if (described meta) "meta[description]" text e0 in
    let e2 = set "meta[robots]" (robots meta) e1 in
    let e3 = set "meta[og:title]" meta.title e2 in
    let e4 = set "meta[og:type]" "website" e3 in
    let e5 = set "meta[og:site_name]" site e4 in
    let e6 = set "meta[og:url]" (canonical pathname meta) e5 in
    let e7 = set "meta[og:image]" og_image e6 in
    let e8 = set_if (described meta) "meta[og:description]" text e7 in
    let e9 = set "meta[twitter:card]" "summary_large_image" e8 in
    let e10 = set "meta[twitter:title]" meta.title e9 in
    let e11 = set "meta[twitter:image]" og_image e10 in
    let e12 = set_if (described meta) "meta[twitter:description]" text e11 in
    record { title = meta.title; elements = e12 }

-- `value.replaceAll(mark, text)` for a mark of one character.
unfoldable pub replace_all : ℕ → String → String → String
replace_all mark text String.[] = ""
replace_all mark text (String.◌∷◌ c s) =
    let rest = replace_all mark text s in
    if code c == mark then text +++ rest else String.◌∷◌ c rest

unfoldable pub escape_attribute : String → String
unfolding replace_all
escape_attribute value =
    replace_all b'>' "&gt;"
      (replace_all b'<' "&lt;" (replace_all b'"' "&quot;" (replace_all b'&' "&amp;" value)))
