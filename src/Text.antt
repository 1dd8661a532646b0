-- ===== src/Text.antt =====
-- What the program uses of Go's `strings` and `unicode` packages, on texts that are valid UTF-8.
use Prim.Native.Char.{Char, code}
use Prim.Native.String
use payment_ledger_platform.Base.{
  ◌-◌, Bool, ◌&&◌, ◌||◌, String, List, [], ◌∷◌, Option, none, some, ◌==◌, leb, eqb, if◌then◌else◌,
}

-- `unicode.IsSpace`.
unfoldable pub is_space : Char → Bool
is_space c =
    (leb 9 (code c) && leb (code c) 13)
    || eqb (code c) 32
    || eqb (code c) 0x85
    || eqb (code c) 0xA0
    || eqb (code c) 0x1680
    || (leb 0x2000 (code c) && leb (code c) 0x200a)
    || eqb (code c) 0x2028
    || eqb (code c) 0x2029
    || eqb (code c) 0x202f
    || eqb (code c) 0x205f
    || eqb (code c) 0x3000

unfoldable pub trim_left : String → String
trim_left String.[] = ""
trim_left (String.◌∷◌ c s) = let rest = trim_left s in if is_space c then rest else String.◌∷◌ c s

unfoldable pub trim_right : String → String
trim_right String.[] = ""
trim_right (String.◌∷◌ c s) =
    let rest = trim_right s in if is_space c && rest == "" then "" else String.◌∷◌ c rest

-- `strings.TrimSpace`.
unfoldable pub trim_space : String → String
unfolding trim_left trim_right is_space
trim_space s = trim_right (trim_left s)

-- `unicode.ToUpper` beyond ASCII, which is a table of the Go library.
pub record Unicode : Type 0 where
  pub to_upper : Char → Char

-- `unicode.ToUpper`: the ASCII letters here, the rest by the table.
upper_char : ⦃u : Unicode⦄ → Char → Char
upper_char ⦃u⦄ c =
    if leb 128 (code c)
    then u.to_upper c
    else (if leb b'a' (code c) && leb (code c) b'z'
        then String.char_at "ABCDEFGHIJKLMNOPQRSTUVWXYZ" (code c - b'a')
        else c)

-- `strings.ToUpper`.
unfoldable pub to_upper : ⦃u : Unicode⦄ → String → String
unfolding upper_char
to_upper String.[] = ""
to_upper (String.◌∷◌ c s) = String.◌∷◌ (upper_char c) (to_upper s)

add_to_first : Char → List String → List String
add_to_first c [] = String.◌∷◌ c "" ∷ []
add_to_first c (part ∷ parts) = String.◌∷◌ c part ∷ parts

-- `strings.Split` at a one-character separator.
unfoldable pub split : Char → String → List String
unfolding add_to_first
split sep String.[] = "" ∷ []
split sep (String.◌∷◌ c s) =
    let parts = split sep s in if eqb (code c) (code sep) then "" ∷ parts else add_to_first c parts

-- `strings.SplitN(s, sep, 2)`: `none` where the separator does not occur (one part).
unfoldable pub cut : Char → String → Option (String × String)
cut sep String.[] = none
cut sep (String.◌∷◌ c s) =
    let rest = cut sep s in
    if eqb (code c) (code sep)
    then some ("", s)
    else elim rest [ none ↦ none | some (before, after) ↦ some (String.◌∷◌ c before, after) ]
