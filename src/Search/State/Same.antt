-- ===== src/Search/State/Same.antt =====
-- The dependency comparisons of the effects.
use reachable_web_observator.Common.{
  ◌==◌, nat_eq, string_eq, ℕ, ◌≡◌, refl, ap, Bool, true, false, not, ◌&&◌, Option, none, some,
  arith, str_eq, eq_iff,
}
use reachable_web_observator.Js.Number.{Number, whole, other, Reader, number_eq}
use reachable_web_observator.Api.Query.{SortMode, newest, relevance, vulns, ip}
use reachable_web_observator.Search.Filters.{
  Filters, SecFilter, any_protocol, https, http, is_active, request, link,
}

unfoldable pub sec_eq : SecFilter → SecFilter → Bool
sec_eq any_protocol any_protocol = true
sec_eq https https = true
sec_eq http http = true
sec_eq _ _ = false

unfoldable pub sort_eq : SortMode → SortMode → Bool
sort_eq newest newest = true
sort_eq relevance relevance = true
sort_eq vulns vulns = true
sort_eq ip ip = true
sort_eq _ _ = false

unfoldable pub bool_eq : Bool → Bool → Bool
bool_eq true b = b
bool_eq false b = not b

unfoldable pub range_eq : Option ℕ → Option ℕ → Bool
range_eq none none = true
range_eq (some a) (some b) = a == b
range_eq _ _ = false

unfoldable pub status_eq : Option Number → Option Number → Bool
status_eq none none = true
status_eq (some a) (some b) = number_eq a b
status_eq _ _ = false

-- `Object.is` on each of debounced, network, timeRange, port, sec, status, hasVulns, verdict, sort.
unfoldable pub same_query : Filters → Filters → Bool
same_query f g =
    str_eq f.debounced g.debounced
    && str_eq f.network g.network
    && range_eq f.time_range g.time_range
    && str_eq f.port g.port
    && sec_eq f.sec g.sec
    && status_eq f.status g.status
    && bool_eq f.has_vulns g.has_vulns
    && str_eq f.verdict g.verdict
    && sort_eq f.sort g.sort

sec_eq_sound : (a b : SecFilter) → sec_eq a b ≡ true → a ≡ b
unfolding sec_eq
sec_eq_sound a b h = ground arith

sort_eq_sound : (a b : SortMode) → sort_eq a b ≡ true → a ≡ b
unfolding sort_eq
sort_eq_sound a b h = ground arith

pub bool_eq_sound : (a b : Bool) → bool_eq a b ≡ true → a ≡ b
unfolding bool_eq
bool_eq_sound a b h = ground arith

range_eq_sound : (a b : Option ℕ) → range_eq a b ≡ true → a ≡ b
unfolding range_eq
range_eq_sound a b h = ground arith

number_eq_sound : (a b : Number) → number_eq a b ≡ true → a ≡ b
unfolding number_eq
number_eq_sound (whole a) (whole b) h = ap whole (ground arith)
number_eq_sound (other a) (other b) h = ap other ((eq_iff a b).0 h)
number_eq_sound _ _ h = cc

status_eq_sound : (a b : Option Number) → status_eq a b ≡ true → a ≡ b
unfolding status_eq
status_eq_sound none none h = refl
status_eq_sound (some a) (some b) h = ap some (number_eq_sound a b h)
status_eq_sound _ _ h = cc

pub record SameQuery (f g : Filters) : Type 0 where
  pub debounced : f.debounced ≡ g.debounced
  pub network : f.network ≡ g.network
  pub time_range : f.time_range ≡ g.time_range
  pub port : f.port ≡ g.port
  pub sec : f.sec ≡ g.sec
  pub status : f.status ≡ g.status
  pub has_vulns : f.has_vulns ≡ g.has_vulns
  pub verdict : f.verdict ≡ g.verdict
  pub sort : f.sort ≡ g.sort

-- Filters that no effect tells apart are the same query.
pub same_query_sound : (f g : Filters) → same_query f g ≡ true → SameQuery f g
unfolding same_query
same_query_sound f g h = ground (
  arith,
  eq_iff f.debounced g.debounced,
  eq_iff f.network g.network,
  range_eq_sound f.time_range g.time_range,
  eq_iff f.port g.port,
  sec_eq_sound f.sec g.sec,
  status_eq_sound f.status g.status,
  bool_eq_sound f.has_vulns g.has_vulns,
  eq_iff f.verdict g.verdict,
  sort_eq_sound f.sort g.sort,
)

-- What is searched for depends on the query alone.
pub is_active-SameQuery : {f g : Filters} → SameQuery f g → is_active f ≡ is_active g
unfolding is_active
is_active-SameQuery {f} {g} h =
    rw (h.network, h.debounced, h.port, h.sec, h.status, h.has_vulns, h.verdict)

pub request-SameQuery :
    (reader : Reader) {f g : Filters} (page : ℕ)
    → SameQuery f g
    → request reader f page ≡ request reader g page
unfolding request
request-SameQuery reader {f} {g} page h =
    rw (
      h.network, h.debounced, h.time_range, h.port, h.sec, h.status, h.has_vulns, h.verdict, h.sort,
    )

pub link-SameQuery :
    {f g : Filters} → SameQuery f g → f.group_hosts ≡ g.group_hosts → link f ≡ link g
unfolding link
link-SameQuery {f} {g} h k = rw (
  h.network, h.debounced, h.time_range, h.port, h.sec, h.status, h.has_vulns, h.verdict, h.sort, k,
)
