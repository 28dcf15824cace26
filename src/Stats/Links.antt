-- ===== src/Stats/Links.antt =====
-- The deep links of the statistics page into the search page.
pub mod Laws
use reachable_web_observator.Common.{nat_eq, string_eq, ℕ, String, Bool, true, false, [], ◌∷◌}
use reachable_web_observator.Js.Number.{show}
use reachable_web_observator.Js.Params.{Params, set, set_if}

-- The filters of a link: at most one name and value.
unfoldable pub search_params : Params → ℕ → Bool → Params
unfolding set_if
search_params filters hours group_hosts =
    set_if group_hosts "group" "hosts" (set "time_range" (show hours) filters)

unfoldable pub port_link : ℕ → String → Params
port_link hours port = search_params (("port", port) ∷ []) hours false

unfoldable pub text_link : ℕ → String → Params
text_link hours text = search_params (("q", text) ∷ []) hours false

unfoldable pub network_link : ℕ → String → Params
network_link hours network = search_params (("network", network) ∷ []) hours true

unfoldable pub verdict_link : ℕ → String → Params
verdict_link hours verdict = search_params (("verdict", verdict) ∷ []) hours false
