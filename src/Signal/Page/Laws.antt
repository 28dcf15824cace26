-- ===== src/Signal/Page/Laws.antt =====
-- The page shows the record of its address.
use reachable_web_observator.Common.{
  some_inj, nat_eq, string_eq, ℕ, ◌≡◌, refl, sym, ap₂, ◌∙◌, true, Option, none, some, List, [], ◌∷◌,
  arith, eq_iff,
}
use reachable_web_observator.Api.Types.{SignalDetail}
use reachable_web_observator.Fetch as Fetch
use reachable_web_observator.Fetch.{Status, loading, ok, error, Flight}
use reachable_web_observator.Fetch.Laws.{session-IsValid, status-answered}
use reachable_web_observator.Signal.Page.{
  Address, same_address, open_page, session, not_found, observation, panel_of, panel,
}

facts_of_observation :
    (status : Status) (answer : Option SignalDetail) (d : SignalDetail)
    → panel_of status answer ≡ observation d
    → (status ≡ ok) × (answer ≡ some d)
facts_of_observation loading answer d h = cc
facts_of_observation error answer d h = cc
facts_of_observation ok none d h = cc
facts_of_observation ok (some c) d h = (refl, cc)

not_found_of_error :
    (status : Status) (answer : Option SignalDetail)
    → status ≡ error
    → panel_of status answer ≡ not_found
not_found_of_error status answer h = rw h

same_address_sound : (a b : Address) → same_address a b ≡ true → a ≡ b
same_address_sound (ip, port) (ip', port') h =
    ap₂ (λ x y. (x, y)) ((eq_iff ip ip').0 (ground arith)) ((eq_iff port port').0 (ground arith))

same_address_refl : (a : Address) → same_address a a ≡ true
same_address_refl (ip, port) = ground (arith, (eq_iff ip ip).1 refl, (eq_iff port port).1 refl)

-- Whatever the navigations and the order of the answers: a request for the address of the page is
-- in flight, its answer is shown as the observation, its failure as not found, and whatever is
-- shown as the observation is an answer for that address.
pub panel-observation :
    (reply : ℕ → Address → SignalDetail) (address : Address) (events : List (Fetch.Event Address))
    → let s = session reply (open_page reply address) events in
      ((d : SignalDetail) → panel s ≡ observation d → (id : ℕ) × (d ≡ reply id s.key))
      × ((flight : Flight Address) × (s.live ≡ some flight)
          × (flight.key ≡ s.key)
          × (panel (session reply s (Fetch.resolve flight.id ∷ []))
              ≡ observation (reply flight.id s.key))
          × (panel (session reply s (Fetch.reject flight.id ∷ [])) ≡ not_found))
unfolding session open_page panel reachable_web_observator.Fetch.run
panel-observation reply address events =
    let s = session reply (open_page reply address) events in
    let v = session-IsValid same_address reply same_address_sound address events in
    let (flight, live, at, logged) = v.current in
    let a =
      status-answered same_address reply same_address_sound same_address_refl s flight v live in
    (
      λ d h.
          let (done, answered) = facts_of_observation s.status s.answer d h in
          let (id, replied) = v.shown done in (id, some_inj (sym answered ∙ replied)),
      (flight, live, at, ap₂ panel_of a.0 a.1, not_found_of_error _ _ a.2),
    )
