-- ===== src/Common/Split.antt =====
-- JavaScript's searches in a text, its splits, and the texts of numbers.
pub mod Decimals
use Prim.Native.Nat.{ℕ, zero, suc, ◌+◌, ◌-◌, ◌*◌, ◌/◌, ◌%◌}
use Prim.Native.Char.{Char, code}
use Prim.Native.String.{String, [], ◌∷◌, ◌++◌}
use mathlib.Core.Bool.{Bool, true, false, ◌&&◌, ◌||◌}
use mathlib.Core.List.{List}
use mathlib.Core.Option.{Option, none, some}
use mathlib.Core.Path.{◌≡◌, refl}
use junando.Common.Bools.{leb, ltb, eqb, if◌then◌else◌}

-- `s.includes(c)`, for a text of one character
unfoldable pub includes_code : ℕ → String → Bool
includes_code k [] = false
includes_code k (c ∷ s) = eqb (code c) k || includes_code k s

-- `s.startsWith(c)`, for a text of one character
unfoldable pub starts_with_code : ℕ → String → Bool
starts_with_code k [] = false
starts_with_code k (c ∷ s) = eqb (code c) k

push_first : Char → List String → List String
push_first c List.[] = List.◌∷◌ (c ∷ []) List.[]
push_first c (List.◌∷◌ part parts) = List.◌∷◌ (c ∷ part) parts

-- `s.split(c)`, for a text of one character
unfoldable pub split : ℕ → String → List String
unfolding push_first
split k [] = List.◌∷◌ [] List.[]
split k (c ∷ s) =
    let rest = split k s in if eqb (code c) k then List.◌∷◌ [] rest else push_first c rest

abbrev pub is_digit_char : Char → Bool
is_digit_char c = leb 48 (code c) && leb (code c) 57

unfoldable pub all_digits : String → Bool
all_digits [] = true
all_digits (c ∷ s) = is_digit_char c && all_digits s

-- `Number(s)`, for a text of decimal digits
unfoldable pub digits_value : ℕ → String → ℕ
digits_value acc [] = acc
digits_value acc (c ∷ s) = digits_value (acc * 10 + (code c - 48)) s

char_at : String → ℕ → Char → Char
char_at [] i d = d
char_at (c ∷ s) zero d = c
char_at (c ∷ s) (suc i) d = char_at s i d

-- `n.toString(16)` of a number below 16 ^ fuel, with the zeros in front that `padStart` writes.
unfoldable pub hex_padded : ℕ → ℕ → String
unfolding char_at
hex_padded zero n = []
hex_padded (suc width) n =
    hex_padded width (n / 16) ++ (char_at "0123456789abcdef" (n % 16) "0" ∷ [])

split_runs : split 44 "a,,b" ≡ List.◌∷◌ "a" (List.◌∷◌ "" (List.◌∷◌ "b" List.[]))
unfolding split
split_runs = refl

hex_runs : hex_padded 8 48879 ≡ "0000beef"
unfolding hex_padded
hex_runs = refl

-- `String(n)` of a number below 10 ^ 20.
decimal_from : ℕ → ℕ → String
unfolding char_at
decimal_from zero n = []
decimal_from (suc width) n =
    let last = char_at "0123456789" (n % 10) "0" ∷ [] in
    let front = decimal_from width (n / 10) in if ltb n 10 then last else front ++ last

unfoldable pub decimal : ℕ → String
unfolding decimal_from
decimal n = decimal_from 20 n

decimal_runs : decimal 1700000060000 ≡ "1700000060000"
unfolding decimal
decimal_runs = refl

-- What is left of a text behind a prefix: `s.startsWith(p)` is whether there is any.
unfoldable pub drop_prefix : String → String → Option String
drop_prefix [] s = some s
drop_prefix (p ∷ ps) [] = none
drop_prefix (p ∷ ps) (c ∷ s) =
    let rest = drop_prefix ps s in if eqb (code p) (code c) then rest else none

-- `s.replace(p, '')`, for a text `p`: the first place alone.
unfoldable pub remove_first : String → String → String
unfolding drop_prefix
remove_first p [] = []
remove_first p (c ∷ s) = elim (drop_prefix p (c ∷ s)) [
  | some rest ↦ rest
  | none ↦ c ∷ remove_first p s
]

-- `s.replaceAll(c, d)`, for texts of one character
unfoldable pub replace_code : ℕ → Char → String → String
replace_code k d [] = []
replace_code k d (c ∷ s) = (if eqb (code c) k then d else c) ∷ replace_code k d s
