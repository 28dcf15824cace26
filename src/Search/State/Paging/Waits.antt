-- ===== src/Search/State/Paging/Waits.antt =====
-- Pages that are shown and pages that are awaited.
use reachable_web_observator.Common.{
  ◌==◌, if◌then◌else◌, nat_eq, string_eq, ℕ, ◌+◌, ◌≡◌, sym, ◌∙◌, subst, ◌⊎◌, true, false, List, [],
  ◌∷◌, ◌++◌, arith,
}
use reachable_web_observator.Js.Number.{Reader}
use reachable_web_observator.Api.Types.{Tile}
use reachable_web_observator.Search.Filters.{Filters, is_active, request}
use reachable_web_observator.Search.State.{State}
use reachable_web_observator.Search.State.Same.{SameQuery, is_active-SameQuery, request-SameQuery}
use reachable_web_observator.Search.State.Paging.{Answer, Loaded, first_page, next_page}
use reachable_web_observator.Search.State.Paging.Commit.{IsAsking}

-- What a page that is not shown yet waits for: the pages before it are shown.
pub data Waits (reader : Reader) (f : Filters) : ℕ → List Tile → List Answer → Type 0 where
  for_first : (tiles : List Tile) (log : List Answer) → Waits reader f 0 tiles log
  for_next :
      {page : ℕ} {tiles : List Tile} {log : List Answer}
      → Loaded reader f page tiles log
      → Waits reader f (page + 1) tiles log

-- The results belong to the pages of the query, whether the last one is there or awaited.
pub record IsPaged (reader : Reader) (s : State) (log : List Answer) : Type 0 where
  pub settled : s.loading ≡ false → s.error ≡ false → Loaded reader s.filters s.page s.tiles log
  pub waiting : (s.loading ≡ true) ⊎ (s.error ≡ true) → Waits reader s.filters s.page s.tiles log
  pub calm : s.loading ≡ true → s.error ≡ false

abbrev pub IsPagedQuery : Reader → State → List Answer → Type 0
IsPagedQuery reader s log = is_active s.filters ≡ true → IsPaged reader s log

module _ (reader : Reader) where
  Loaded-SameQuery :
      {f g : Filters} {page : ℕ} {tiles : List Tile} {log : List Answer}
      → SameQuery f g
      → Loaded reader f page tiles log
      → Loaded reader g page tiles log
  Loaded-SameQuery {g} q (first_page entries log) =
      let shown : Loaded reader g 0 entries _ = first_page entries log in
      subst
        (λ asked. Loaded reader g 0 entries (record { request = asked; entries = entries } ∷ log))
        (sym (request-SameQuery reader 0 q)) shown
  Loaded-SameQuery {g} q (next_page {page} {tiles} {log} entries shown) =
      subst
        (λ asked.
          Loaded reader g (page + 1) (tiles ++ entries)
            (record { request = asked; entries = entries } ∷ log))
        (sym (request-SameQuery reader (page + 1) q)) (next_page entries (Loaded-SameQuery q shown))

  Waits-SameQuery :
      {f g : Filters} {page : ℕ} {tiles : List Tile} {log : List Answer}
      → SameQuery f g
      → Waits reader f page tiles log
      → Waits reader g page tiles log
  Waits-SameQuery q (for_first tiles log) = for_first tiles log
  Waits-SameQuery q (for_next shown) = for_next (Loaded-SameQuery q shown)

  -- The awaited page completes the pages before it.
  pub Loaded-answer :
      {f : Filters} {page : ℕ} {tiles : List Tile} {log : List Answer} (entries : List Tile)
      → Waits reader f page tiles log
      → Loaded reader f page
          (if page == 0 then entries else tiles ++ entries)
          (record { request = request reader f page; entries = entries } ∷ log)
  Loaded-answer entries (for_first tiles log) = first_page entries log
  Loaded-answer entries (for_next {page} shown) =
      let later : (page + 1 == 0) ≡ false = ground arith in rw later (next_page entries shown)

  pub Waits-kept :
      {f : Filters} {page : ℕ} {tiles : List Tile} {log : List Answer}
      → Waits reader f page tiles log
      → Waits reader f page (if page == 0 then [] else tiles) log
  Waits-kept (for_first tiles log) = for_first [] log
  Waits-kept (for_next {page} shown) =
      let later : (page + 1 == 0) ≡ false = ground arith in rw later (for_next shown)

  pub IsPaged-SameQuery :
      {s t : State} {log : List Answer}
      → SameQuery s.filters t.filters
      → t.page ≡ s.page
      → t.tiles ≡ s.tiles
      → t.loading ≡ s.loading
      → t.error ≡ s.error
      → IsPagedQuery reader s log
      → IsPagedQuery reader t log
  IsPaged-SameQuery {s} {t} {log} q page tiles loading error h on =
      let v = h (is_active-SameQuery q ∙ on) in
      record {
        settled = λ idle well.
            rw (page, tiles)
              (Loaded-SameQuery q (v.settled (sym loading ∙ idle) (sym error ∙ well)));
        waiting = λ w. rw (page, tiles) (Waits-SameQuery q (v.waiting (ground arith)));
        calm = λ busy. error ∙ v.calm (sym loading ∙ busy);
      }

  pub IsPaged-IsAsking :
      (s : State) (log : List Answer)
      → IsAsking s
      → Waits reader s.filters s.page s.tiles log
      → IsPagedQuery reader s log
  IsPaged-IsAsking s log asking w on = record {
    settled = λ idle well. let busy = asking.loading on in cc;
    waiting = λ b. w;
    calm = λ b. asking.error;
  }

  pub Waits-first :
      {f : Filters} (page : ℕ) (tiles : List Tile) (log : List Answer)
      → page ≡ 0
      → Waits reader f page tiles log
  Waits-first {f} page tiles log first =
      subst (λ n. Waits reader f n tiles log) (sym first) (for_first tiles log)
