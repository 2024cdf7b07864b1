-- ===== src/Base/Text.antt =====
-- What the program uses of Python's `str`, on the characters of a text.
use Prim.Native.Nat.{ℕ}
use Prim.Native.Char.{Char, code}
use Prim.Native.String.{String}
use mathlib.Core.Bool.{Bool, true, false, ◌&&◌, ◌||◌}
use mathlib.Core.List.{List, [], ◌∷◌}
use ads_b_flight_intelligenc.Base.Tests.{ltb, leb, ◌==◌, if◌then◌else◌}

-- `c in text`, of one character by its number
unfoldable pub has_char : ℕ → String → Bool
has_char c String.[] = false
has_char c (String.◌∷◌ d text) = code d == c || has_char c text

-- `text.encode("ascii")` succeeds
unfoldable pub is_ascii : String → Bool
is_ascii String.[] = true
is_ascii (String.◌∷◌ d text) = ltb (code d) 128 && is_ascii text

abbrev put_front : Char → List String → List String
put_front d [] = (String.◌∷◌ d String.[]) ∷ []
put_front d (part ∷ parts) = (String.◌∷◌ d part) ∷ parts

-- `text.split(c)`, at one character by its number
unfoldable pub split : ℕ → String → List String
split c String.[] = "" ∷ []
split c (String.◌∷◌ d text) =
    let rest = split c text in if code d == c then "" ∷ rest else put_front d rest

-- whether the text matches `^[0-7]*$`
unfoldable pub is_octal : String → Bool
is_octal String.[] = true
is_octal (String.◌∷◌ c text) = (leb 48 (code c) && leb (code c) 55) && is_octal text

-- `character in "0123456789ABCDEF"`, for one character
abbrev pub is_hex_digit : Char → Bool
is_hex_digit c = (leb 48 (code c) && leb (code c) 57) || (leb 65 (code c) && leb (code c) 70)

-- `not any(character not in "0123456789ABCDEF" for character in text)`
unfoldable pub is_hex : String → Bool
is_hex String.[] = true
is_hex (String.◌∷◌ c text) = is_hex_digit c && is_hex text
