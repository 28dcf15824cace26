-- ===== src/Search/State/Paging.antt =====
-- What the pages of the search page promise: the sessions in which the buttons are pressed where
-- they stand and a request is answered once, and the answers whose results such a session shows.
pub mod Commit
pub mod Waits
pub mod Handlers
pub mod Answers
pub mod Laws
use reachable_web_observator.Common.{
  nat_eq, string_eq, ℕ, ◌+◌, ◌≡◌, Bool, true, false, none, some, List, [], ◌∷◌, ◌++◌,
}
use reachable_web_observator.Js.Number.{Reader}
use reachable_web_observator.Js.Params.{Params}
use reachable_web_observator.Api.Types.{Tile, ListResponse}
use reachable_web_observator.Api.Query.{SearchParams}
use reachable_web_observator.Search.Filters.{Filters, request}
use reachable_web_observator.Search.State.{
  State, Event, Flight, load_more, retry, resolve, reject, finish, edit, alive,
}
use reachable_web_observator.Search.State.Steps.{mount, step}
use reachable_web_observator.Search.View.{footer, more}

-- A request that was answered, with its results.
pub record Answer : Type 0 where
  pub request : SearchParams
  pub entries : List Tile

-- The handlers of the query, the timer among them; the others are of the pages and the requests.
abbrev pub is_edit : Event → Bool
is_edit load_more = false
is_edit retry = false
is_edit (resolve id r) = false
is_edit (reject id) = false
is_edit (finish id) = false
is_edit e = true

-- The states that a user and a server reach, with the answers to the runs that were alive, newest
-- first. A promise settles once, and its `finally` follows before the next event.
pub data Reach (reader : Reader) : State → List Answer → Type 0 where
  opened : (params : Params) → Reach reader (mount reader params) []
  edited :
      {s : State} {log : List Answer} (e : Event)
      → is_edit e ≡ true
      → Reach reader s log
      → Reach reader (step reader e s) log
  asked_more :
      {s : State} {log : List Answer}
      → footer s ≡ more
      → Reach reader s log
      → Reach reader (step reader load_more s) log
  retried :
      {s : State} {log : List Answer}
      → s.error ≡ true
      → Reach reader s log
      → Reach reader (step reader retry s) log
  answered :
      {s : State} {log : List Answer} (id : ℕ) (r : ListResponse) (run : Flight)
      → alive id s ≡ some run
      → s.loading ≡ true
      → Reach reader s log
      → Reach reader
          (step reader (finish id) (step reader (resolve id r) s))
          (record { request = run.request; entries = r.entries } ∷ log)
  failed :
      {s : State} {log : List Answer} (id : ℕ) (run : Flight)
      → alive id s ≡ some run
      → s.loading ≡ true
      → Reach reader s log
      → Reach reader (step reader (finish id) (step reader (reject id) s)) log
  late :
      {s : State} {log : List Answer} (id : ℕ) (r : ListResponse)
      → alive id s ≡ none
      → Reach reader s log
      → Reach reader (step reader (resolve id r) s) log

-- The tiles are the answers to the pages of the query up to the given one, each page once and in
-- order, and these are the newest answers.
pub data Loaded (reader : Reader) (f : Filters) : ℕ → List Tile → List Answer → Type 0 where
  first_page :
      (entries : List Tile) (log : List Answer)
      → Loaded reader f 0 entries (record { request = request reader f 0; entries = entries } ∷ log)
  next_page :
      {page : ℕ} {tiles : List Tile} {log : List Answer} (entries : List Tile)
      → Loaded reader f page tiles log
      → Loaded reader f
          (page + 1)
          (tiles ++ entries)
          (record { request = request reader f (page + 1); entries = entries } ∷ log)
