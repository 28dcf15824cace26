-- ===== src/Api/Endpoints.antt =====
-- The paths that the `api` object of api.ts requests. `serialize` is `URLSearchParams.toString`,
-- and `encode_component` is `encodeURIComponent`.
use reachable_web_observator.Common.{if◌then◌else◌, ◌+++◌, nat_eq, string_eq, ℕ, String, Bool}
use reachable_web_observator.Js.Number.{show}
use reachable_web_observator.Js.Params.{Params}
use reachable_web_observator.Api.Types.{MapMode, observations, cleartext, at_risk}
use reachable_web_observator.Api.Query.{SearchParams, search_query}

unfoldable pub show_mode : MapMode → String
show_mode observations = "observations"
show_mode cleartext = "cleartext"
show_mode at_risk = "at-risk"

unfoldable pub gallery : ℕ → ℕ → String
unfolding show
gallery limit offset = "/api/v2/gallery?limit=" +++ show limit +++ "&offset=" +++ show offset

unfoldable pub recent : ℕ → ℕ → String
unfolding show
recent limit offset =
    "/api/v2/gallery?sort=recent&limit=" +++ show limit +++ "&offset=" +++ show offset

unfoldable pub observation_map : (String → String) → MapMode → ℕ → ℕ → String
unfolding show_mode show
observation_map encode_component mode time_range limit =
    "/api/v2/map?mode="
    +++ encode_component (show_mode mode)
    +++ "&time_range="
    +++ show time_range
    +++ "&limit="
    +++ show limit

unfoldable pub search : (Params → String) → SearchParams → String
unfolding search_query
search serialize p = "/api/v2/search?" +++ serialize (search_query p)

unfoldable pub stats_path : ℕ → String
unfolding show
stats_path time_range = "/api/v2/stats?time_range=" +++ show time_range

unfoldable pub trends : ℕ → String
unfolding show
trends days = "/api/v2/trends?days=" +++ show days

abbrev pub random_capture : String
random_capture = "/api/v2/random-capture"

unfoldable pub signal : String → String → Bool → String
signal ip port brief =
    "/api/v2/services/" +++ ip +++ "/" +++ port +++ (if brief then "?brief=1" else "")

unfoldable pub enrich : String → String
enrich ip = "/api/v2/enrich/" +++ ip
