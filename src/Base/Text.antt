-- ===== src/Base/Text.antt =====
-- The functions of Go's `strings` package that the program calls, over the native texts.
use Prim.Native.Char.{Char, code}
use dogeboxd.Base.Tests.{leb, eqb, if◌then◌else◌}
use mathlib.Core.Bool.{Bool, true, false, ◌&&◌, ◌||◌}
use mathlib.Core.List.{List, [], ◌∷◌}
use mathlib.Core.Option.{Option, none, some}
use Prim.Native.Nat.{ℕ, ◌+◌}
use Prim.Native.String.{String}
use text.Mathlib.Text.{◌==◌}

-- unicode.IsSpace
abbrev pub is_space : Char → Bool
is_space c =
    let n = code c in
    leb 9 n && leb n 13
    || eqb n 32
    || eqb n 0x85
    || eqb n 0xa0
    || eqb n 0x1680
    || leb 0x2000 n && leb n 0x200a
    || eqb n 0x2028
    || eqb n 0x2029
    || eqb n 0x202f
    || eqb n 0x205f
    || eqb n 0x3000

abbrev pub is_empty : String → Bool
is_empty String.[] = true
is_empty (String.◌∷◌ c s) = false

trim_left : String → String
trim_left String.[] = String.[]
trim_left (String.◌∷◌ c s) = let rest = trim_left s in if is_space c then rest else String.◌∷◌ c s

trim_right : String → String
trim_right String.[] = String.[]
trim_right (String.◌∷◌ c s) =
    let rest = trim_right s in if is_empty rest && is_space c then String.[] else String.◌∷◌ c rest

-- strings.TrimSpace
unfoldable pub trim_space : String → String
unfolding trim_left trim_right
trim_space s = trim_right (trim_left s)

-- The code points of a text, lower-cased as `strings.ToLower` does on ASCII letters. A comparison
-- with an ASCII text that has no `k` and no `i` is that of `strings.ToLower`, since no other letter
-- has one of the remaining ASCII letters as its lower case.
unfoldable pub lower_codes : String → List ℕ
lower_codes String.[] = []
lower_codes (String.◌∷◌ c s) =
    let n = code c in (if leb 65 n && leb n 90 then n + 32 else n) ∷ lower_codes s

unfoldable pub codes_eq : List ℕ → List ℕ → Bool
codes_eq [] [] = true
codes_eq [] (n ∷ ns) = false
codes_eq (m ∷ ms) [] = false
codes_eq (m ∷ ms) (n ∷ ns) = eqb m n && codes_eq ms ns

-- strings.ToLower(s) == t
unfoldable pub lower_equals : String → String → Bool
unfolding lower_codes codes_eq
lower_equals s t = codes_eq (lower_codes s) (lower_codes t)

abbrev pub has_prefix : String → String → Bool
has_prefix s String.[] = true
has_prefix String.[] (String.◌∷◌ d p) = false
has_prefix (String.◌∷◌ c s) (String.◌∷◌ d p) = eqb (code c) (code d) && has_prefix s p

abbrev pub has_suffix : String → String → Bool
has_suffix String.[] p = p == ""
has_suffix (String.◌∷◌ c s) p = (String.◌∷◌ c s == p) || has_suffix s p

abbrev onto_first : Char → List String → List String
onto_first c [] = []
onto_first c (p ∷ ps) = String.◌∷◌ c p ∷ ps

-- strings.Split(s, " ")
unfoldable pub split_space : String → List String
split_space String.[] = String.[] ∷ []
split_space (String.◌∷◌ c s) =
    let rest = split_space s in if eqb (code c) 32 then String.[] ∷ rest else onto_first c rest

-- The rest of the text after a prefix that it has.
unfoldable pub trim_prefix : String → String → Option String
trim_prefix s String.[] = some s
trim_prefix String.[] (String.◌∷◌ d p) = none
trim_prefix (String.◌∷◌ c s) (String.◌∷◌ d p) =
    let rest = trim_prefix s p in if eqb (code c) (code d) then rest else none

abbrev drop_empty : List String → List String
drop_empty [] = []
drop_empty (s ∷ ss) = let rest = drop_empty ss in if is_empty s then rest else s ∷ rest

-- The parts between the white-space characters, the empty ones included.
split_white : String → List String
split_white String.[] = String.[] ∷ []
split_white (String.◌∷◌ c s) =
    let rest = split_white s in if is_space c then String.[] ∷ rest else onto_first c rest

-- strings.Fields
unfoldable pub fields : String → List String
unfolding split_white
fields s = drop_empty (split_white s)
