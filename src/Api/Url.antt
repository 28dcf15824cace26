-- ===== src/Api/Url.antt =====
-- `API_BASE`, `apiURL` and `imageURL` of api.ts.
pub mod Laws
use Prim.Native.Char.{code}
use Prim.Native.String
use reachable_web_observator.Common.{
  leb, ◌==◌, if◌then◌else◌, ◌+++◌, nat_eq, string_eq, ℕ, ◌+◌, ◌/◌, String, Bool, true, false, ◌&&◌,
  ◌||◌, Option, none, some, [], ◌∷◌, str_eq,
}

-- `viteEnv?.VITE_API_BASE ?? (viteEnv?.DEV ? … : "")`
unfoldable pub api_base : Option String → Bool → String
api_base (some base) dev = base
api_base none dev = if dev then "http://127.0.0.1:8000" else ""

-- The `i` flag of a regular expression over ASCII letters.
unfoldable pub fold_case : ℕ → ℕ
fold_case c = if leb b'A' c && leb c b'Z' then c + 32 else c

-- `s` begins with `prefix`, whose letters are lower case, without regard to case.
unfoldable pub begins : String → String → Bool
unfolding fold_case
begins String.[] s = true
begins (String.◌∷◌ p prefix) String.[] = false
begins (String.◌∷◌ p prefix) (String.◌∷◌ c s) = code p == fold_case (code c) && begins prefix s

-- `/^https?:\/\//i.test(path)`
unfoldable pub has_scheme : String → Bool
unfolding begins
has_scheme path = begins "http://" path || begins "https://" path

-- `base.replace(/\/+$/, "")`
unfoldable pub strip_slashes : String → String
strip_slashes String.[] = ""
strip_slashes (String.◌∷◌ c s) =
    let rest = strip_slashes s in if str_eq rest "" && code c == b'/' then "" else String.◌∷◌ c rest

-- `path.startsWith("/") ? path : "/" + path`
unfoldable pub with_slash : String → String
with_slash String.[] = "/"
with_slash (String.◌∷◌ c s) =
    if code c == b'/' then String.◌∷◌ c s else String.◌∷◌ "/" (String.◌∷◌ c s)

unfoldable pub api_url : String → String → String
unfolding has_scheme strip_slashes with_slash
api_url base path = if has_scheme path then path else strip_slashes base +++ with_slash path

-- `url.startsWith("http")`, which respects case.
unfoldable pub starts_http : String → Bool
starts_http (String.◌∷◌ a (String.◌∷◌ b (String.◌∷◌ c (String.◌∷◌ d s)))) =
    code a == b'h' && code b == b't' && code c == b't' && code d == b'p'
starts_http _ = false

unfoldable pub image_url : String → String → String
unfolding api_url starts_http
image_url base url = if str_eq url "" then "" else if starts_http url then url else api_url base url
