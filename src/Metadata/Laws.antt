-- ===== src/Metadata/Laws.antt =====
-- What the head of a route's document holds, and what escaping takes away.
use Prim.Native.Char.{code}
use text.Mathlib.TextLemmas.{cons-append, nil-append}
use reachable_web_observator.Common.{
  ◌==◌, if◌then◌else◌, or_else, Bool-cases, ◌+++◌, nat_eq, string_eq, ℕ, String, ◌≡◌, refl, sym,
  ◌∙◌, ◌⊎◌, inl, inr, Bool, true, false, not, ◌&&◌, ◌||◌, Option, some, arith, str_eq,
}
use reachable_web_observator.Js.Params.{Params, get, set, set_if}
use reachable_web_observator.Js.Params.Laws.{params_laws, get-set, get-set_if}
use reachable_web_observator.Metadata.{
  RouteMeta, Head, robots, described, canonical, use_meta, replace_all, escape_attribute,
}

-- The description of a route, where it has one, else what the element held before.
abbrev pub text_of : RouteMeta → Option String → Option String
text_of meta before = if described meta then some (or_else meta.description "") else before

-- What two effects make of the element `name`: the later one writes it, or neither does.
abbrev Covered : String → (Params → Params) → (Params → Params) → Type 0
Covered name after before =
    ((held : Option String) × ((head : Params) → get name (after head) ≡ held))
    ⊎ (((head : Params) → get name (after head) ≡ get name head)
        × ((head : Params) → get name (before head) ≡ get name head))

-- A further element, which the later effect always writes.
Covered-set :
    (name key new old : String) (guard : Bool) (after before : Params → Params)
    → Covered name after before
    → Covered name (λ h. set key new (after h)) (λ h. set_if guard key old (before h))
Covered-set name key new old guard after before h = elim (Bool-cases (str_eq key name)) [
  | inl mine ↦ inl (some new, λ head. get-set key name new (after head) ∙ rw mine refl)
  | inr other ↦ elim h [
    | inl (held, k) ↦ inl (held, λ head. get-set key name new (after head) ∙ rw other (k head))
    | inr (k, l) ↦ inr (
      λ head. get-set key name new (after head) ∙ rw other (k head),
      λ head. get-set_if guard key name old (before head) ∙ rw other (l head),
    )
  ]
]

Covered-again :
    (name : String) (after before : Params → Params) (head : Params)
    → Covered name after before
    → get name (after (before head)) ≡ get name (after head)
Covered-again name after before head (inl (held, k)) = k (before head) ∙ sym (k head)
Covered-again name after before head (inr (k, l)) = k (before head) ∙ l head ∙ sym (k head)

-- The effects of two routes, one after the other: what any element holds is what the second effect
-- alone makes it hold, if the second route has a description.
get-use_meta_again :
    (pathname before_path : String) (meta before : RouteMeta) (head : Head) (name : String)
    → described meta ≡ true
    → get name (use_meta pathname meta (use_meta before_path before head)).elements
      ≡ get name (use_meta pathname meta head).elements
unfolding use_meta set_if
get-use_meta_again pathname before_path meta before head name h = rw h (
    Covered-again name _ _ head.elements (
      Covered-set name "meta[twitter:description]" _ _ (described before) _ _ (
        Covered-set name "meta[twitter:image]" _ _ true _ _ (
          Covered-set name "meta[twitter:title]" _ _ true _ _ (
            Covered-set name "meta[twitter:card]" _ _ true _ _ (
              Covered-set name "meta[og:description]" _ _ (described before) _ _ (
                Covered-set name "meta[og:image]" _ _ true _ _ (
                  Covered-set name "meta[og:url]" _ _ true _ _ (
                    Covered-set name "meta[og:site_name]" _ _ true _ _ (
                      Covered-set name "meta[og:type]" _ _ true _ _ (
                        Covered-set name "meta[og:title]" _ _ true _ _ (
                          Covered-set name "meta[robots]" _ _ true _ _ (
                            Covered-set name "meta[description]" _ _ (described before) _ _ (
                              Covered-set name "link[canonical]" _ _ true (λ x. x) (λ x. x)
                                (inr (λ x. refl, λ x. refl))))))))))))))))

-- After the effect of a route, the title, the canonical address and the robots directive of the
-- head are the route's, the titles and the address of the social cards agree with them, and so do
-- their descriptions where the route has one; a route without a description keeps the ones before.
-- For a route with a description, nothing in the head depends on the route that was shown before.
pub use_meta_lem :
    (pathname : String) (meta : RouteMeta) (head : Head)
    → let elements = (use_meta pathname meta head).elements in
      ((use_meta pathname meta head).title ≡ meta.title)
      × (get "link[canonical]" elements ≡ some (canonical pathname meta))
      × (get "meta[og:url]" elements ≡ get "link[canonical]" elements)
      × (get "meta[robots]" elements ≡ some (robots meta))
      × (get "meta[og:title]" elements ≡ some meta.title)
      × (get "meta[twitter:title]" elements ≡ some meta.title)
      × (get "meta[description]" elements ≡ text_of meta (get "meta[description]" head.elements))
      × (get "meta[og:description]" elements
          ≡ text_of meta (get "meta[og:description]" head.elements))
      × (get "meta[twitter:description]" elements
          ≡ text_of meta (get "meta[twitter:description]" head.elements))
      × ((described meta ≡ false)
          ⊎ ((before_path : String) (before : RouteMeta) (name : String)
              → get name (use_meta pathname meta (use_meta before_path before head)).elements
                ≡ get name elements))
unfolding use_meta
use_meta_lem pathname meta head = (
  refl,
  simp params_laws,
  simp params_laws,
  simp params_laws,
  simp params_laws,
  simp params_laws,
  simp params_laws,
  simp params_laws,
  simp params_laws,
  elim (Bool-cases (described meta)) [
    | inl has ↦ inr (λ before_path before name.
        get-use_meta_again pathname before_path meta before head name has)
    | inr without ↦ inl without
  ],
)

-- Whether a text has a character.
abbrev pub has_code : ℕ → String → Bool
has_code k String.[] = false
has_code k (String.◌∷◌ c s) = code c == k || has_code k s

has_code-append : (k : ℕ) (s t : String) → has_code k (s +++ t) ≡ (has_code k s || has_code k t)
has_code-append k String.[] t = rw (nil-append t) refl
has_code-append k (String.◌∷◌ c s) t =
    rw (cons-append c s t) (ground (arith, has_code-append k s t))

has_code-replace_all :
    (k mark : ℕ) (text s : String)
    → has_code k (replace_all mark text s)
      ≡ (has_code k s && not (k == mark) || has_code mark s && has_code k text)
unfolding replace_all
has_code-replace_all k mark text String.[] = refl
has_code-replace_all k mark text (String.◌∷◌ c s) =
    ground
      (arith, has_code-append k text (replace_all mark text s), has_code-replace_all k mark text s)

-- An escaped value has no quote and no angle bracket, so it cannot end the attribute or the element
-- that it is written into.
pub escape_attribute-safe :
    (value : String)
    → (has_code b'"' (escape_attribute value) ≡ false)
      × (has_code b'<' (escape_attribute value) ≡ false)
      × (has_code b'>' (escape_attribute value) ≡ false)
unfolding escape_attribute
escape_attribute-safe value = (
  simp has_code-replace_all (ground arith),
  simp has_code-replace_all (ground arith),
  simp has_code-replace_all (ground arith),
)
