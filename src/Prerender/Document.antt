-- ===== src/Prerender/Document.antt =====
-- The replacements of `String.prototype.replace` that the build uses, with a text or a pattern of
-- tags as what is searched for. A replacement is expanded as JavaScript does: `$$`, `$&`, and what
-- stands before and after the match.
use Prim.Native.Char.{code}
use reachable_web_observator.Common.{
  ◌==◌, if◌then◌else◌, truthy, is_some, ◌+++◌, is_space, nat_eq, string_eq, String, Bool, false,
  not, ◌&&◌, ◌||◌, Option, none, some, List, [], ◌∷◌, str_eq,
}

-- What follows the prefix.
unfoldable pub after_prefix : String → String → Option String
after_prefix String.[] s = some s
after_prefix (String.◌∷◌ c p) String.[] = none
after_prefix (String.◌∷◌ c p) (String.◌∷◌ d s) =
    let rest = after_prefix p s in if code c == code d then rest else none

-- `s.includes(text)`
unfoldable pub includes : String → String → Bool
unfolding after_prefix
includes text String.[] = not (truthy text)
includes text (String.◌∷◌ c s) =
    let rest = includes text s in is_some (after_prefix text (String.◌∷◌ c s)) || rest

-- What follows the first occurrence.
unfoldable pub after_text : String → String → Option String
unfolding after_prefix
after_text text String.[] = none
after_text text (String.◌∷◌ c s) =
    let rest = after_text text s in
    let here = after_prefix text (String.◌∷◌ c s) in if is_some here then here else rest

-- The pieces of the patterns: a text, `\s+`, `\s*`, `[^"]*`, `\/?`, and `.*?` with the text that
-- ends it. None of them needs to be matched again in another way, since what follows a white
-- space, a value or a slash in the patterns never starts with one.
pub data Piece : Type 0 where
  literal : String → Piece
  some_space any_space value slash : Piece
  up_to : String → Piece

unfoldable pub drop_space : String → String
drop_space String.[] = ""
drop_space (String.◌∷◌ c s) =
    let rest = drop_space s in if is_space (code c) then rest else String.◌∷◌ c s

unfoldable pub drop_value : String → String
drop_value String.[] = ""
drop_value (String.◌∷◌ c s) =
    let rest = drop_value s in if code c == b'"' then String.◌∷◌ c s else rest

unfoldable pub drop_slash : String → String
drop_slash String.[] = ""
drop_slash (String.◌∷◌ c s) = if code c == b'/' then s else String.◌∷◌ c s

unfoldable pub starts_with_space : String → Bool
starts_with_space String.[] = false
starts_with_space (String.◌∷◌ c s) = is_space (code c)

-- What follows a match of the pattern at the start.
unfoldable pub after_match : List Piece → String → Option String
unfolding after_prefix after_text drop_space drop_value drop_slash starts_with_space
after_match [] s = some s
after_match (literal text ∷ pieces) s = elim (after_prefix text s) [
  | none ↦ none
  | some rest ↦ after_match pieces rest
]
after_match (some_space ∷ pieces) s =
    let rest = after_match pieces (drop_space s) in if starts_with_space s then rest else none
after_match (any_space ∷ pieces) s = after_match pieces (drop_space s)
after_match (value ∷ pieces) s = after_match pieces (drop_value s)
after_match (slash ∷ pieces) s = after_match pieces (drop_slash s)
after_match (up_to text ∷ pieces) s = elim (after_text text s) [
  | none ↦ none
  | some rest ↦ after_match pieces rest
]

-- The expansion of a replacement; `taken` says that the character before was the dollar of a pair.
unfoldable pub expand : String → String → String → String → String
expand matched before after String.[] = ""
expand matched before after (String.◌∷◌ c String.[]) = String.◌∷◌ c ""
expand matched before after (String.◌∷◌ c (String.◌∷◌ d s)) =
    let pair = expand matched before after s in
    let rest = expand matched before after (String.◌∷◌ d s) in
    if code c == b'$' && code d == b'$'
    then "$" +++ pair
    else if code c == b'$' && code d == b'&'
    then matched +++ pair
    else if code c == b'$' && code d == b'`'
    then before +++ pair
    else if code c == b'$' && code d == b'\''
    then after +++ pair
    else String.◌∷◌ c rest

-- What stands before a rest of the text.
unfoldable pub front : String → String → String
front String.[] after = ""
front (String.◌∷◌ c s) after =
    let rest = front s after in if str_eq (String.◌∷◌ c s) after then "" else String.◌∷◌ c rest

-- The first match is replaced; `before` is the text that has been passed.
unfoldable pub replace_from : (String → Option String) → String → String → String → String
unfolding expand front
replace_from match_at before new String.[] = ""
replace_from match_at before new (String.◌∷◌ c s) =
    let rest = replace_from match_at (before +++ String.◌∷◌ c "") new s in
    elim (match_at (String.◌∷◌ c s)) [
      | none ↦ String.◌∷◌ c rest
      | some after ↦ expand (front (String.◌∷◌ c s) after) before after new +++ after
    ]

unfoldable pub replace_text : String → String → String → String
unfolding replace_from after_prefix
replace_text text new document = replace_from (after_prefix text) "" new document

unfoldable pub replace_match : List Piece → String → String → String
unfolding replace_from after_match
replace_match pieces new document = replace_from (after_match pieces) "" new document

-- `pattern.test(s)`
unfoldable pub matches_in : List Piece → String → Bool
unfolding after_match
matches_in pieces String.[] = is_some (after_match pieces "")
matches_in pieces (String.◌∷◌ c s) =
    let rest = matches_in pieces s in is_some (after_match pieces (String.◌∷◌ c s)) || rest
