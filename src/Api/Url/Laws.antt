-- ===== src/Api/Url/Laws.antt =====
-- How paths are resolved against the configured host.
use Prim.Native.Char.{code}
use text.Mathlib.TextLemmas.{cons-append, nil-append}
use reachable_web_observator.Common.Text.Laws.{cons-ne-empty}
use reachable_web_observator.Common.{
  ◌==◌, Bool-cases, ◌+++◌, nat_eq, string_eq, String, ◌≡◌, refl, ◌↔◌, inl, inr, true, false, ◌&&◌,
  arith, str_eq, eq_iff,
}
use reachable_web_observator.Api.Url.{
  begins, fold_case, has_scheme, strip_slashes, with_slash, api_url, image_url,
}

begins-append : (p s t : String) → begins p s ≡ true → begins p (s +++ t) ≡ true
unfolding begins
begins-append String.[] s t h = refl
begins-append (String.◌∷◌ c p) String.[] t h = cc
begins-append (String.◌∷◌ c p) (String.◌∷◌ d s) t h =
    rw (cons-append d s t) (ground (arith, begins-append p s t))

has_scheme-append : (s t : String) → has_scheme s ≡ true → has_scheme (s +++ t) ≡ true
unfolding has_scheme
has_scheme-append s t h = ground (arith, begins-append "http://" s t, begins-append "https://" s t)

strip_slashes_idempotent : (s : String) → strip_slashes (strip_slashes s) ≡ strip_slashes s
unfolding strip_slashes
strip_slashes_idempotent String.[] = refl
strip_slashes_idempotent (String.◌∷◌ c s) =
    elim (Bool-cases (str_eq (strip_slashes s) "" && code c == b'/')) [
      | inl gone ↦ rw gone
      | inr kept ↦ rw (kept, strip_slashes, strip_slashes_idempotent s, kept)
    ]

with_slash_idempotent : (s : String) → with_slash (with_slash s) ≡ with_slash s
unfolding with_slash
with_slash_idempotent String.[] = refl
with_slash_idempotent (String.◌∷◌ c s) = ground arith

has_scheme-with_slash :
    (path : String) → has_scheme path ≡ false → has_scheme (with_slash path) ≡ false
unfolding has_scheme with_slash begins fold_case
has_scheme-with_slash String.[] h = refl
has_scheme-with_slash (String.◌∷◌ c s) h = elim (Bool-cases (code c == b'/')) [
  | inl slash ↦ rw slash h
  | inr none ↦ rw none
]

-- A relative path is joined to the host by exactly one slash: neither the slashes that end the
-- configured host nor a missing leading slash of the path make a difference.
api_url_of_relative :
    (base path : String)
    → has_scheme path ≡ false
    → (api_url base path ≡ api_url (strip_slashes base) path)
      × (api_url base path ≡ api_url base (with_slash path))
unfolding api_url
api_url_of_relative base path h = (
  rw h (rw (strip_slashes_idempotent base)),
  rw (h, has_scheme-with_slash path h) (rw (with_slash_idempotent path)),
)

-- Where the configured host is absolute, resolving a resolved URL again changes nothing.
api_url_idempotent :
    (base path : String)
    → has_scheme (strip_slashes base) ≡ true
    → api_url base (api_url base path) ≡ api_url base path
unfolding api_url
api_url_idempotent base path h = elim (Bool-cases (has_scheme path)) [
  | inl whole ↦ rw (whole, whole)
  | inr part ↦ rw (part, has_scheme-append (strip_slashes base) (with_slash path) h)
]

append-with_slash-ne-empty : (s p : String) → str_eq (s +++ with_slash p) "" ≡ false
unfolding with_slash
append-with_slash-ne-empty (String.◌∷◌ c s) p =
    rw (cons-append c s (with_slash p)) (cons-ne-empty _ _)
append-with_slash-ne-empty String.[] String.[] = refl
append-with_slash-ne-empty String.[] (String.◌∷◌ c p) =
    rw (nil-append (with_slash (String.◌∷◌ c p)))
      (ground (arith, cons-ne-empty c p, cons-ne-empty "/" (String.◌∷◌ c p)))

-- An image has an address exactly when the record names one.
image_url-eq-empty_iff : (base url : String) → (image_url base url ≡ "") ↔ (url ≡ "")
unfolding image_url api_url
image_url-eq-empty_iff base url = ground (
  arith,
  eq_iff url "",
  eq_iff (strip_slashes base +++ with_slash url) "",
  append-with_slash-ne-empty (strip_slashes base) url,
)
