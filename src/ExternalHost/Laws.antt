-- ===== src/ExternalHost/Laws.antt =====
-- Where the external link can lead.
use Prim.Native.Char.{code}
use reachable_web_observator.Common.{
  leb, ◌==◌, if◌then◌else◌, Bool-cases, ◌+++◌, nat_eq, string_eq, ℕ, ◌+◌, ◌-◌, ◌≤◌, String, ◌≡◌,
  refl, ◌⊎◌, inl, inr, true, ◌&&◌, Option, none, some, arith,
}
use reachable_web_observator.Js.Number.{Number, whole, other, Reader, show}
use reachable_web_observator.Js.Params.{Params, get}
use reachable_web_observator.ExternalHost.{
  is_digit, matches, valid_ip, protocol_of, destination_at, destination,
}

-- The number of dots of a text that has nothing but digits and dots.
abbrev pub dotted : String → Option ℕ
dotted String.[] = some 0
dotted (String.◌∷◌ c s) =
    let rest = dotted s in
    if is_digit c
    then rest
    else if code c == b'.'
    then elim rest [ none ↦ none | some n ↦ some (n + 1) ]
    else none

dotted_of_matches : (dots seen : ℕ) (s : String) → matches dots seen s ≡ true → dotted s ≡ some dots
unfolding matches
dotted_of_matches dots seen String.[] h = ground arith
dotted_of_matches dots seen (String.◌∷◌ c s) h =
    ground (arith, dotted_of_matches dots (seen + 1) s, dotted_of_matches (dots - 1) 0 s)

-- What a link of the page can be.
pub record IsSafe (ip link : String) : Type 0 where
  pub protocol : String
  pub port : ℕ
  pub known : (protocol ≡ "http") ⊎ (protocol ≡ "https")
  pub bounds : (1 ≤ port) × (port ≤ 65535)
  pub address : dotted ip ≡ some 3
  pub parts : link ≡ protocol +++ "://" +++ ip +++ ":" +++ show port

protocol-known : (p : Option String) → (protocol_of p ≡ "http") ⊎ (protocol_of p ≡ "https")
protocol-known p = ground arith

destination_at-IsSafe :
    (protocol ip : String) (n : Number)
    → (protocol ≡ "http") ⊎ (protocol ≡ "https")
    → (destination_at protocol ip n ≡ "") ⊎ IsSafe ip (destination_at protocol ip n)
unfolding valid_ip
destination_at-IsSafe protocol ip (other s) k = inl refl
destination_at-IsSafe protocol ip (whole n) k =
    elim (Bool-cases (valid_ip ip && leb 1 n && leb n 65535)) [
      | inl ok ↦ inr (
          rw ok (record {
            protocol = protocol;
            port = n;
            known = k;
            bounds = (ground arith, ground arith);
            address = dotted_of_matches 3 0 ip (ground arith);
            parts = refl;
          }))
      | inr bad ↦ inl (rw bad refl)
    ]

-- A link of the page is empty, or it goes by HTTP or HTTPS to a text of digits and exactly three
-- dots, at a port between 1 and 65535: nothing in the path can name another scheme, host or path.
pub destination-IsSafe :
    (reader : Reader) (ip port : String) (params : Params)
    → (destination reader ip port params ≡ "") ⊎ IsSafe ip (destination reader ip port params)
unfolding destination
destination-IsSafe reader ip port params =
    destination_at-IsSafe _ ip (reader.to_number port) (protocol-known (get "protocol" params))
