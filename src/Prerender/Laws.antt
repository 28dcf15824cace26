-- ===== src/Prerender/Laws.antt =====
-- What a successful build has written, and that its heads are those of the running application.
use reachable_web_observator.Common.{
  if◌then◌else◌, truthy, or_else, Bool-cases, ◌+++◌, nat_eq, string_eq, String, ◌≡◌, refl, sym, ap,
  ◌∙◌, inl, inr, Bool, true, false, Option, none, some, List, [], ◌∷◌, arith, str_eq, eq_iff,
}
use reachable_web_observator.Metadata.{RouteMeta, origin, canonical, robots}
use reachable_web_observator.Prerender.Document.{includes}
use reachable_web_observator.Prerender.Head.{robots_text, canonical_url}
use reachable_web_observator.Prerender.{
  Definition, render, File, empty_root_tag, file_of, is_text, is_registered, document,
}

canonical-registered :
    (pathname route : String) (o : Option String)
    → is_text o route ≡ true
    → canonical_url route ≡ origin +++ or_else o pathname
unfolding canonical_url
canonical-registered pathname route none h = cc
canonical-registered pathname route (some s) h =
    let same = (eq_iff s route).0 h in
    elim (Bool-cases (str_eq route "/")) [
      | inl root ↦
          rw (canonical_url, root)
            (ap (λ t. origin +++ t) (sym ((eq_iff route "/").0 root) ∙ sym same))
      | inr inner ↦ rw (canonical_url, inner) (ap (λ t. origin +++ t) (sym same))
    ]

same_robots :
    (no_index follow : Bool)
    → (if no_index
        then "noindex, " +++ (if follow then "follow" else "nofollow, noarchive")
        else "index, follow")
      ≡ (if no_index
          then "noindex, "
            +++ (if follow then "follow" else "nofollow")
            +++ (if follow then "" else ", noarchive")
          else "index, follow")
same_robots false follow = refl
same_robots true true = refl
same_robots true false = refl

-- For a page that the build accepts, the canonical address and the robots directive written into
-- the page are those that the application sets when it runs, at whatever location.
pub canonical-robots :
    (d : Definition) (meta : RouteMeta) (pathname : String)
    → is_registered d meta ≡ true
    → (canonical_url d.path ≡ canonical pathname meta) × (robots_text meta ≡ robots meta)
unfolding is_registered robots robots_text
canonical-robots d meta pathname h = (
  canonical-registered pathname d.path meta.path (ground arith),
  same_robots meta.no_index meta.follow_when_no_index,
)

-- A file that was written for a route. What is rendered at the route has a heading and names the
-- metadata of the registry, whose title and description are not empty; the text is the template
-- with that rendering and that metadata, and does not have the tag of an empty page.
pub record IsPage (app : String → String × List RouteMeta) (template : String) (d : Definition)
    (file : File) : Type 0 where
  pub meta : RouteMeta
  pub named : (render app d.path).meta ≡ some meta
  pub path : meta.path ≡ some d.path
  pub title : meta.title ≡ d.title
  pub description : meta.description ≡ some d.description
  pub titled : truthy d.title ≡ true
  pub described : truthy d.description ≡ true
  pub heading : includes "<h1" (render app d.path).html ≡ true
  pub written : file ≡ (file_of d.path, document template d (render app d.path).html meta)
  pub rooted : includes empty_root_tag file.1 ≡ false

-- One file for each route, in order.
abbrev pub ArePages :
    (String → String × List RouteMeta) → String → List Definition → List File → Type 0
ArePages app template [] [] = Unit
ArePages app template (d ∷ definitions) (file ∷ files) =
    IsPage app template d file × ArePages app template definitions files
ArePages app template definitions files = ⊥
