-- ===== src/Signal/Record/Laws.antt =====
-- The record page never shows a position that the provider did not mean.
use reachable_web_observator.Common.{
  if◌then◌else◌, or_else, Bool-cases, any, All, nat_eq, string_eq, ℕ, ◌≤◌, ◌<◌, String, ◌≡◌, refl,
  ◌≢◌, ◌⊎◌, inl, inr, Bool, true, false, Option, none, some, List, [], ◌∷◌, arith, str_eq,
}
use reachable_web_observator.Int.{ℤ, pos, negsuc, distance}
use reachable_web_observator.Api.Types.{Geo, Tile, SignalDetail}
use reachable_web_observator.CrossReference.Rows.{Rows}
use reachable_web_observator.Signal.Record.{
  Note, rows_of, metadata, is_coarse, is_fallback_geo, show_coordinates, notes, on_map, location_of,
  location,
}

-- A position without meaning: none at all, within a thousandth of a degree of the centre of the
-- United States in both coordinates, known to 500 km at best, or where the two zeroes meet.
abbrev pub IsMeaningless : Option Geo → Type 0
IsMeaningless none = Unit
IsMeaningless (some g) =
    (distance g.lat (pos 37751000) < 1000) × (distance g.lon (negsuc 97821999) < 1000)
    ⊎ (500 ≤ or_else g.accuracy_radius_km 0)
    ⊎ (g.lat ≡ pos 0) × (g.lon ≡ pos 0)

hidden_of_meaningless : (geo : Option Geo) → IsMeaningless geo → show_coordinates geo ≡ false
unfolding show_coordinates is_fallback_geo is_coarse
hidden_of_meaningless none h = refl
hidden_of_meaningless (some g) (inl near) = ground arith
hidden_of_meaningless (some g) (inr (inl coarse)) = ground arith
hidden_of_meaningless (some g) (inr (inr origin)) = ground arith

abbrev is_coordinate : String × String → Bool
is_coordinate r = str_eq r.0 "Coord"

-- A note with another label, and a note without a value that hides it, add no coordinates.
abbrev IsApart : Note → Type 0
IsApart n = (str_eq n.label "Coord" ≡ false) ⊎ (n.value ≡ none) × (n.hide_empty ≡ true)

any-rows_of : (notes : List Note) → All IsApart notes → any is_coordinate (rows_of notes) ≡ false
unfolding rows_of
any-rows_of [] h = refl
any-rows_of (n ∷ notes) (inl apart, h) = ground (arith, any-rows_of notes h)
any-rows_of (n ∷ notes) (inr (bare, hides), h) = ground (arith, any-rows_of notes h)

no_value : (b : Bool) (value : Option String) → b ≡ false → (if b then value else none) ≡ none
no_value b value h = rw h

no_coordinate_note :
    (fixed : ℤ → String) (number : ℕ → String) (d : SignalDetail)
    → show_coordinates d.service.geo ≡ false
    → any is_coordinate (metadata fixed number d) ≡ false
unfolding metadata
no_coordinate_note fixed number d h = any-rows_of (notes fixed number d) (
  inl refl,
  (
    inl refl,
    (
      inr (no_value _ _ h, refl),
      (
        inl refl,
        (inl refl, (inl refl, (inl refl, (inl refl, (inl refl, (inl refl, (inl refl, tt))))))),
      ),
    ),
  ),
)

no_map :
    (fixed : ℤ → String) (number : ℕ → String) (s : Tile) (geo : Option Geo)
    → show_coordinates geo ≡ false
    → (lat lon : ℤ) (rows : Rows) → location_of fixed number s geo ≢ on_map lat lon rows
no_map fixed number s none h lat lon rows e = cc
no_map fixed number s (some g) h lat lon rows e = elim (Bool-cases (is_fallback_geo (some g))) [
  | inl fallback ↦ let k = rw (h, fallback) at e in cc
  | inr precise ↦ let k = rw (h, precise) at e in cc
]

-- A record whose position is meaningless shows no coordinates: not among the service metadata, and
-- not on a map.
pub coordinates_hidden :
    (fixed : ℤ → String) (number : ℕ → String) (d : SignalDetail)
    → IsMeaningless d.service.geo
    → (any (λ r. str_eq r.0 "Coord") (metadata fixed number d) ≡ false)
      × ((lat lon : ℤ) (rows : Rows) → location fixed number d.service ≢ on_map lat lon rows)
unfolding location
coordinates_hidden fixed number d h =
    let hidden = hidden_of_meaningless d.service.geo h in
    (no_coordinate_note fixed number d hidden, no_map fixed number d.service d.service.geo hidden)
