-- ===== src/Tests/Build.antt =====
-- The build of a site with one route.
use reachable_web_observator.Common.{
  ◌+++◌, join, nat_eq, string_eq, String, ◌≡◌, refl, true, false, some, List, [], ◌∷◌,
}
use reachable_web_observator.Js.Map.{unique_from, contains}
use reachable_web_observator.Metadata.{RouteMeta, canonical, robots, escape_attribute, replace_all}
use reachable_web_observator.Prerender.{
  listings, Definition, File, build, built, write_pages, render, collect, is_complete,
  is_registered, document, file_of,
}
use reachable_web_observator.Prerender.Document.{
  after_prefix, includes, after_text, after_match, drop_space, drop_value, drop_slash,
  starts_with_space, expand, front, replace_from, replace_text, replace_match, matches_in,
}
use reachable_web_observator.Prerender.Head.{robots_text, canonical_url, replace_meta}
use reachable_web_observator.Prerender.Laws.{canonical-robots}

abbrev feed_meta : RouteMeta
feed_meta = record {
  title = "Feed";
  description = some "Latest";
  path = some "/feed";
  no_index = false;
  follow_when_no_index = false;
}

abbrev feed_route : Definition
feed_route = record {
  path = "/feed";
  title = "Feed";
  description = "Latest";
  changefreq = "daily";
  priority = "0.8";
}

feed_registered : is_registered feed_route feed_meta ≡ true
unfolding is_registered
feed_registered = refl

canonical-robots_example :
    (canonical_url "/feed" ≡ canonical "/anywhere" feed_meta)
    × (robots_text feed_meta ≡ robots feed_meta)
canonical-robots_example = canonical-robots feed_route feed_meta "/anywhere" feed_registered

-- What is rendered, whatever the location.
abbrev app : String → String × List RouteMeta
app url = ("<h1>F</h1>", feed_meta ∷ [])

abbrev template : String
template = "<title>x</title></head><div id=\"root\"></div>"

abbrev page : String
page =
    "<title>Feed</title>    <meta name=\"robots\" content=\"index, follow\" />\n  </head><div id=\"root\"><h1>F</h1></div>"

abbrev json : List String → String
json routes = "[\"" +++ join "\", \"" routes +++ "\"]"

abbrev files : List File
files =
    ("spa-shell.html" ∷ [], template)
    ∷ ("feed" ∷ "index.html" ∷ [], page)
    ∷ listings json (feed_route ∷ [])

built_files : build app json template (feed_route ∷ []) ≡ built files
unfolding build write_pages render collect is_complete is_registered document file_of includes
    after_prefix after_text after_match drop_space drop_value drop_slash starts_with_space expand
    front replace_from replace_text replace_match matches_in robots_text canonical_url replace_meta
    escape_attribute replace_all unique_from contains
built_files = refl
