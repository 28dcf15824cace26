-- ===== src/Search/Filters/Link.antt =====
-- The deep link of a query restores the query.
use mathlib.Core.Option
use reachable_web_observator.Common.{
  if◌then◌else◌, truthy, is_some, or_else, trim, nat_eq, string_eq, ℕ, ◌≤◌, String, ◌≡◌, refl, Bool,
  true, false, not, ◌||◌, Option, none, some, arith, eq_iff,
}
use reachable_web_observator.Js.Number.{Number, whole, other, Reader, show, show_number, max_safe}
use reachable_web_observator.Js.Number.Decimal.{show-ne-empty}
use reachable_web_observator.Js.Params.{get}
use reachable_web_observator.Js.Params.Laws.{params_laws}
use reachable_web_observator.Api.Query.{SortMode, newest, relevance, vulns, ip, show_sort}
use reachable_web_observator.Search.Filters.{
  Filters, SecFilter, any_protocol, https, http, seed, link, seed_time_range, seed_sec, seed_status,
  seed_sort, show_sec, is_any, is_newest, is_text,
}

-- A number that is printed in decimals and read back.
abbrev pub IsSafeRange : Option ℕ → Type 0
IsSafeRange none = Unit
IsSafeRange (some n) = n ≤ max_safe

abbrev pub IsSafeStatus : Option Number → Type 0
IsSafeStatus none = Unit
IsSafeStatus (some (whole n)) = n ≤ max_safe
IsSafeStatus (some (other s)) = ⊥

-- What the page's handlers maintain for the state that a link is made of.
pub record IsCanonical (f : Filters) : Type 0 where
  pub trimmed : trim f.debounced ≡ f.debounced
  pub trimmed_network : trim f.network ≡ f.network
  pub safe_range : IsSafeRange f.time_range
  pub safe_status : IsSafeStatus f.status

text_lem : (s : String) → or_else (if truthy s then some s else none) "" ≡ s
text_lem s = ground (arith, eq_iff s "")

sec_lem : (s : SecFilter) → seed_sec (if not (is_any s) then some (show_sec s) else none) ≡ s
unfolding seed_sec
sec_lem any_protocol = refl
sec_lem https = refl
sec_lem http = refl

sort_lem : (s : SortMode) → seed_sort (if not (is_newest s) then some (show_sort s) else none) ≡ s
unfolding seed_sort show_sort
sort_lem newest = refl
sort_lem relevance = refl
sort_lem vulns = refl
sort_lem ip = refl

-- What each name of the link stands for.
module _ (f : Filters) where
  get_q-link : get "q" (link f) ≡ (if truthy f.debounced then some f.debounced else none)
  unfolding link
  get_q-link = simp params_laws

  get_network-link : get "network" (link f) ≡ (if truthy f.network then some f.network else none)
  unfolding link
  get_network-link = simp params_laws

  get_time_range-link :
      get "time_range" (link f)
      ≡ (if is_some f.time_range then some (or_else (Option.map show f.time_range) "") else none)
  unfolding link
  get_time_range-link = simp params_laws

  get_port-link : get "port" (link f) ≡ (if truthy f.port then some f.port else none)
  unfolding link
  get_port-link = simp params_laws

  get_secured-link :
      get "secured" (link f) ≡ (if not (is_any f.sec) then some (show_sec f.sec) else none)
  unfolding link
  get_secured-link = simp params_laws

  get_status-link :
      get "status" (link f)
      ≡ (if is_some f.status then some (or_else (Option.map show_number f.status) "") else none)
  unfolding link
  get_status-link = simp params_laws

  get_has_vulns-link : get "has_vulns" (link f) ≡ (if f.has_vulns then some "1" else none)
  unfolding link
  get_has_vulns-link = simp params_laws

  get_verdict-link : get "verdict" (link f) ≡ (if truthy f.verdict then some f.verdict else none)
  unfolding link
  get_verdict-link = simp params_laws

  get_sort-link :
      get "sort" (link f) ≡ (if not (is_newest f.sort) then some (show_sort f.sort) else none)
  unfolding link
  get_sort-link = simp params_laws

  get_group-link : get "group" (link f) ≡ (if f.group_hosts then some "hosts" else none)
  unfolding link
  get_group-link = simp params_laws

vulns_lem :
    (b : Bool)
    → (is_text (if b then some "1" else none) "1" || is_text (if b then some "1" else none) "true")
      ≡ b
vulns_lem true = refl
vulns_lem false = refl

group_lem : (b : Bool) → is_text (if b then some "hosts" else none) "hosts" ≡ b
group_lem true = refl
group_lem false = refl

module _ (reader : Reader) where
  range_lem :
      (o : Option ℕ)
      → IsSafeRange o
      → seed_time_range reader (if is_some o then some (or_else (Option.map show o) "") else none)
        ≡ o
  unfolding seed_time_range
  range_lem none h = refl
  range_lem (some n) h = rw (reader.to_number-show n h)

  status_lem :
      (o : Option Number)
      → IsSafeStatus o
      → seed_status reader
          (if is_some o then some (or_else (Option.map show_number o) "") else none)
        ≡ o
  unfolding seed_status show_number
  status_lem none h = refl
  status_lem (some (whole n)) h = rw (show-ne-empty n, reader.to_number-show n h)
  status_lem (some (other s)) h = absurd h

-- Loading the page from the link of a canonical query gives the query back, with the search box
-- showing the text that was searched for.
pub seed-link :
    (reader : Reader) (f : Filters)
    → IsCanonical f
    → seed reader (link f) ≡ record f { q = f.debounced }
unfolding seed
seed-link reader f c = simp (
  get_q-link f,
  get_network-link f,
  get_time_range-link f,
  get_port-link f,
  get_secured-link f,
  get_status-link f,
  get_has_vulns-link f,
  get_verdict-link f,
  get_sort-link f,
  get_group-link f,
  text_lem,
  range_lem reader f.time_range c.safe_range,
  status_lem reader f.status c.safe_status,
  sec_lem,
  sort_lem,
  vulns_lem,
  group_lem,
  c.trimmed,
  c.trimmed_network,
)
