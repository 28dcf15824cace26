-- ===== src/Prerender.antt =====
-- scripts/prerender.mjs and entry-server.tsx: the pages that the build writes for the routes.
pub mod Document
pub mod Head
pub mod Laws
use Prim.Native.Char.{Char, code}
use Prim.Native.String
use reachable_web_observator.Common.{
  ◌==◌, if◌then◌else◌, truthy, or_else, length, ◌+++◌, join, nat_eq, string_eq, ◌/◌, String, Bool,
  false, not, ◌&&◌, Option, none, some, List, [], ◌∷◌, ◌++◌, map, str_eq,
}
use reachable_web_observator.Js.Map.{unique}
use reachable_web_observator.Metadata.{RouteMeta, origin}
use reachable_web_observator.Prerender.Document.{replace_text, includes}
use reachable_web_observator.Prerender.Head.{replace_meta}

-- An entry of the route registry.
pub record Definition : Type 0 where
  pub path : String
  pub title : String
  pub description : String
  pub changefreq : String
  pub priority : String

-- `useMeta` while the server renders: each page that is rendered names its metadata, in order.
unfoldable pub collect : Option RouteMeta → List RouteMeta → Option RouteMeta
collect rendered [] = rendered
collect rendered (meta ∷ metas) = collect (some meta) metas

pub record Rendered : Type 0 where
  pub html : String
  pub meta : Option RouteMeta

-- `render`, which forgets the metadata of the page before. `app` is what React makes of the
-- application at a location: the text, and the metadata that its components name.
unfoldable pub render : (String → String × List RouteMeta) → String → Rendered
unfolding collect
render app url = let (html, metas) = app url in record { html = html; meta = collect none metas }

pub data Fault : Type 0 where
  duplicate_path : Fault
  missing differs empty_root : String → Fault

-- A file under the client's directory, as the segments of its path, and its text.
abbrev pub File : Type 0
File = List String × String

-- The build ends with an error, which leaves the files before it, or with all files.
pub data Outcome : Type 0 where
  failed : Fault → List File → Outcome
  built : List File → Outcome

abbrev pub empty_root_tag : String
empty_root_tag = "<div id=\"root\"></div>"

abbrev pub text_of : Option String → String
text_of o = or_else o ""

-- `route.slice(1)`
abbrev pub after_first : String → String
after_first String.[] = ""
after_first (String.◌∷◌ c s) = s

unfoldable pub file_of : String → List String
file_of route =
    if str_eq route "/" then "index.html" ∷ [] else after_first route ∷ "index.html" ∷ []

unfoldable pub is_complete : String → RouteMeta → Bool
unfolding includes
is_complete html meta =
    includes "<h1" html && truthy meta.title && truthy (text_of meta.description)

-- An optional field equals a text when it is there and is that text.
abbrev pub is_text : Option String → String → Bool
is_text none text = false
is_text (some s) text = str_eq s text

unfoldable pub is_registered : Definition → RouteMeta → Bool
is_registered d meta =
    is_text meta.path d.path && str_eq meta.title d.title && is_text meta.description d.description

unfoldable pub document : String → Definition → String → RouteMeta → String
unfolding replace_text replace_meta
document template d html meta =
    replace_meta d.path meta
      (replace_text empty_root_tag ("<div id=\"root\">" +++ html +++ "</div>") template)

abbrev pub fault_of : String → Definition → String → Option RouteMeta → Option Fault
fault_of template d html none = some (missing d.path)
fault_of template d html (some meta) =
    if not (is_complete html meta)
    then some (missing d.path)
    else if not (is_registered d meta)
    then some (differs d.path)
    else if includes empty_root_tag (document template d html meta)
    then some (empty_root d.path)
    else none

abbrev pub page_of : String → Definition → String → Option RouteMeta → String
page_of template d html none = ""
page_of template d html (some meta) = document template d html meta

-- The loop over the routes, after the files written so far.
unfoldable pub write_pages :
    (String → String × List RouteMeta) → String → List File → List Definition → Outcome
unfolding render is_complete is_registered document file_of includes
write_pages app template files [] = built files
write_pages app template files (d ∷ definitions) =
    let page = render app d.path in
    let rest =
      write_pages app template
        (files ++ ((file_of d.path, page_of template d page.html page.meta) ∷ [])) definitions in
    elim (fault_of template d page.html page.meta) [ some fault ↦ failed fault files | none ↦ rest ]

abbrev pub is_distinct : List String → Bool
is_distinct routes = length (unique routes) == length routes

-- `priority` is written as the registry has it.
unfoldable pub sitemap_entry : Definition → String
sitemap_entry d =
    "  <url>\n    <loc>" +++ origin +++ d.path +++ "</loc>\n    <changefreq>" +++ d.changefreq
    +++ "</changefreq>\n    <priority>" +++ d.priority +++ "</priority>\n  </url>"

unfoldable pub sitemap : List Definition → String
unfolding sitemap_entry
sitemap definitions =
    "<?xml version=\"1.0\" encoding=\"UTF-8\"?>\n<urlset xmlns=\"http://www.sitemaps.org/schemas/sitemap/0.9\">\n"
    +++ join "\n" (map sitemap_entry definitions)
    +++ "\n</urlset>\n"

-- The list of the routes and the sitemap; `json` is `JSON.stringify` with an indent of two.
abbrev pub listings : (List String → String) → List Definition → List File
listings json definitions =
    ("prerendered-routes.json" ∷ [], json (map (λ d. d.path) definitions) +++ "\n")
    ∷ ("sitemap.xml" ∷ [], sitemap definitions)
    ∷ []

abbrev pub with_listings : (List String → String) → List Definition → Outcome → Outcome
with_listings json definitions (failed fault files) = failed fault files
with_listings json definitions (built files) = built (files ++ listings json definitions)

-- The pages and the listings of the build, from the registry and the client's template.
unfoldable pub build :
    (String → String × List RouteMeta) → (List String → String) → String → List Definition → Outcome
unfolding write_pages sitemap
build app json template definitions =
    if is_distinct (map (λ d. d.path) definitions)
    then with_listings json definitions
        (write_pages app template (("spa-shell.html" ∷ [], template) ∷ []) definitions)
    else failed duplicate_path []
