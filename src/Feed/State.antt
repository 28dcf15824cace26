-- ===== src/Feed/State.antt =====
-- The state of the feed, its handlers and its effects.
pub mod Laws
use reachable_web_observator.Common.{
  ltb, ◌==◌, if◌then◌else◌, length, ◌+++◌, nat_eq, string_eq, ℕ, ◌+◌, String, Bool, true, false,
  not, ◌&&◌, Option, none, some, List, [], ◌∷◌, ◌++◌,
}
use reachable_web_observator.Js.Number.{show}
use reachable_web_observator.Api.Types.{Tile, ListResponse}

pub data Mode : Type 0 where
  ranked latest : Mode

-- `PAGE`
abbrev pub page_size : ℕ
page_size = 24

-- One run of the fetch effect, with what its closure captured.
pub record Flight : Type 0 where
  pub id : ℕ
  pub mode : Mode
  pub offset : ℕ

pub record State : Type 0 where
  pub mode : Mode
  pub group_hosts : Bool
  pub tiles : List Tile
  pub offset : ℕ
  pub has_more : Bool
  pub loading : Bool
  pub error : Bool
  pub reload_key : ℕ
  pub announcement : String
  pub live : Option Flight
  pub next_id : ℕ

pub data Event : Type 0 where
  set_mode : Mode → Event
  toggle_group retry load_more : Event
  resolve : ℕ → ListResponse → Event
  reject finish : ℕ → Event

unfoldable pub alive : ℕ → State → Option Flight
alive id s = elim s.live [ none ↦ none | some run ↦ if run.id == id then some run else none ]

-- `then`: the first page replaces the tiles, a later one is appended.
unfoldable pub resolved : ListResponse → Flight → State → State
unfolding show
resolved r run s = record s {
  tiles = if run.offset == 0 then r.entries else s.tiles ++ r.entries;
  has_more = r.has_more;
  announcement =
      if ltb 0 run.offset
      then show (length r.entries) +++ " additional observations loaded."
      else s.announcement;
}

abbrev pub on_alive : (Flight → State → State) → Option Flight → State → State
on_alive change none s = s
on_alive change (some run) s = change run s

unfoldable pub handle : Event → State → State
unfolding alive resolved
handle (set_mode mode) s = record s { mode = mode }
handle toggle_group s = record s { group_hosts = not s.group_hosts }
handle retry s = record s { reload_key = s.reload_key + 1 }
handle load_more s = record s { offset = s.offset + page_size }
handle (resolve id r) s = on_alive (resolved r) (alive id s) s
handle (reject id) s = on_alive (λ run t. record t { error = true }) (alive id s) s
handle (finish id) s = on_alive (λ run t. record t { loading = false }) (alive id s) s

unfoldable pub fetch_effect : State → State
fetch_effect s = record s {
  loading = true;
  error = false;
  live = some (record { id = s.next_id; mode = s.mode; offset = s.offset });
  next_id = s.next_id + 1;
}

abbrev pub mode_eq : Mode → Mode → Bool
mode_eq ranked ranked = true
mode_eq latest latest = true
mode_eq _ _ = false

unfoldable pub same_fetch : State → State → Bool
same_fetch old s =
    mode_eq old.mode s.mode && old.offset == s.offset && old.reload_key == s.reload_key

unfoldable pub refetch_effect : State → State → State
unfolding same_fetch fetch_effect
refetch_effect old s = if same_fetch old s then s else fetch_effect s

-- The effect of the mode: `setOffset(0)` takes effect in the next render, which fetches again.
unfoldable pub offset_effect : State → State → State
unfolding fetch_effect
offset_effect old s =
    if mode_eq old.mode s.mode
    then s
    else if s.offset == 0
    then s
    else fetch_effect (record s { offset = 0 })

unfoldable pub commit : State → State → State
unfolding refetch_effect offset_effect
commit old s = offset_effect old (refetch_effect old s)

unfoldable pub step : Event → State → State
unfolding commit handle
step e s = commit s (handle e s)

unfoldable pub mount : State
unfolding fetch_effect
mount = fetch_effect (record {
  mode = ranked;
  group_hosts = false;
  tiles = [];
  offset = 0;
  has_more = false;
  loading = true;
  error = false;
  reload_key = 0;
  announcement = "";
  live = none;
  next_id = 0;
})

unfoldable pub run : State → List Event → State
unfolding step
run s [] = s
run s (e ∷ events) = run (step e s) events

-- What stands where the tiles and where the button stand.
pub data Panel : Type 0 where
  failed empty_feed grid : Panel

pub data Footer : Type 0 where
  scanning try_again more end_of_feed nothing : Footer

unfoldable pub panel : State → Panel
panel s =
    if s.error && length s.tiles == 0
    then failed
    else if length s.tiles == 0 && not s.loading
    then empty_feed
    else grid

unfoldable pub footer : State → Footer
footer s =
    if s.loading
    then scanning
    else if s.error && ltb 0 (length s.tiles)
    then try_again
    else if s.has_more
    then more
    else if ltb 0 (length s.tiles)
    then end_of_feed
    else nothing
