-- ===== src/ExternalHost.antt =====
-- pages/ExternalHost.tsx: the notice before a visit to a current third-party host.
pub mod Laws
use Prim.Native.Char.{Char, code}
use Prim.Native.String
use reachable_web_observator.Common.{
  ltb, leb, ◌==◌, if◌then◌else◌, ◌+++◌, nat_eq, string_eq, ℕ, ◌+◌, ◌-◌, String, Bool, not, ◌&&◌,
  Option, none, some, [], ◌∷◌, str_eq,
}
use reachable_web_observator.Js.Number.{Number, whole, other, Reader, show}
use reachable_web_observator.Js.Params.{Params, get}

abbrev pub is_digit : Char → Bool
is_digit c = leb b'0' (code c) && leb (code c) b'9'

-- What is left to match of `/^(?:\d{1,3}\.){3}\d{1,3}$/`, when `dots` groups with a dot are still
-- to come and the group at hand has `seen` digits.
unfoldable pub matches : ℕ → ℕ → String → Bool
matches dots seen String.[] = dots == 0 && leb 1 seen
matches dots seen (String.◌∷◌ c s) =
    let digit = matches dots (seen + 1) s in
    let dot = matches (dots - 1) 0 s in
    if is_digit c then ltb seen 3 && digit else code c == b'.' && leb 1 seen && ltb 0 dots && dot

unfoldable pub valid_ip : String → Bool
unfolding matches
valid_ip ip = matches 3 0 ip

abbrev pub protocol_of : Option String → String
protocol_of none = "http"
protocol_of (some p) = if str_eq p "https" then "https" else "http"

-- The destination of the link with the port number, empty when it is not valid.
abbrev pub destination_at : String → String → Number → String
destination_at protocol ip (other s) = ""
destination_at protocol ip (whole n) =
    if valid_ip ip && leb 1 n && leb n 65535
    then protocol +++ "://" +++ ip +++ ":" +++ show n
    else ""

unfoldable pub destination : Reader → String → String → Params → String
unfolding valid_ip
destination reader ip port params =
    destination_at (protocol_of (get "protocol" params)) ip (reader.to_number port)
