-- ===== src/Common/Text.antt =====
-- JavaScript's methods on strings. A text is a native `String`, a list of code points; case mapping
-- and white space are those of ASCII, and a code point outside the first plane counts as one unit.
use Prim.Native.Nat.{ℕ, zero, suc, ◌+◌, ◌-◌, ◌≤◌}
use native.Mathlib.Omega.{arith}
use text.Mathlib.TextLemmas.{nil-append, cons-append}
use Prim.Native.Char.{Char, code}
use Prim.Native.String.{String, [], ◌∷◌, ◌++◌}
use mathlib.Core.Bool.{Bool, true, false, ◌&&◌, ◌||◌}
use mathlib.Core.List.{List}
use mathlib.Core.Path.{◌≡◌, refl}
use junando.Common.Bools.{leb, eqb, if◌then◌else◌}

abbrev pub codes : String → List ℕ
codes [] = List.[]
codes (c ∷ s) = List.◌∷◌ (code c) (codes s)

abbrev pub is_empty : String → Bool
is_empty [] = true
is_empty (c ∷ s) = false

char_at : String → ℕ → Char → Char
char_at [] i d = d
char_at (c ∷ s) zero d = c
char_at (c ∷ s) (suc i) d = char_at s i d

lower_char : Char → Char
unfolding char_at
lower_char c =
    if leb b'A' (code c) && leb (code c) b'Z'
    then char_at "abcdefghijklmnopqrstuvwxyz" (code c - b'A') c
    else c

-- `s.toLowerCase()`
unfoldable pub to_lower_case : String → String
unfolding lower_char
to_lower_case [] = []
to_lower_case (c ∷ s) = lower_char c ∷ to_lower_case s

-- space, tab, line feed, vertical tab, form feed, carriage return
unfoldable pub is_space : Char → Bool
is_space c = eqb (code c) 32 || (leb 9 (code c) && leb (code c) 13)

trim_start : String → String
trim_start [] = []
trim_start (c ∷ s) = let rest = trim_start s in if is_space c then rest else c ∷ s

-- A white space character is dropped if nothing else follows it.
trim_end : String → String
trim_end [] = []
trim_end (c ∷ s) = let rest = trim_end s in if is_space c && is_empty rest then [] else c ∷ rest

-- `s.trim()`
unfoldable pub trim : String → String
unfolding trim_start trim_end is_space
trim s = trim_end (trim_start s)

-- `parts.join(separator)`
unfoldable pub join : String → List String → String
join separator List.[] = []
join separator (List.◌∷◌ s List.[]) = s
join separator (List.◌∷◌ s rest) = s ++ (separator ++ join separator rest)

-- `s.slice(0, n)`
unfoldable pub slice_to : ℕ → String → String
slice_to zero s = []
slice_to (suc n) [] = []
slice_to (suc n) (c ∷ s) = c ∷ slice_to n s

trim_runs : trim (to_lower_case "  Checkout API ") ≡ "checkout api"
unfolding trim to_lower_case
trim_runs = refl

-- `s.length`
abbrev pub text_length : String → ℕ
text_length [] = 0
text_length (c ∷ s) = suc (text_length s)

pub text_length-slice_to-le : (n : ℕ) (s : String) → text_length (slice_to n s) ≤ n
unfolding slice_to
text_length-slice_to-le zero s = omega arith
text_length-slice_to-le (suc n) [] = omega arith
text_length-slice_to-le (suc n) (c ∷ s) = omega (arith, text_length-slice_to-le n s)

pub text_length-append : (s t : String) → text_length (s ++ t) ≡ text_length s + text_length t
text_length-append [] t = rw nil-append (omega arith)
text_length-append (c ∷ s) t = rw cons-append (omega (arith, text_length-append s t))

upper_char : Char → Char
unfolding char_at
upper_char c =
    if leb b'a' (code c) && leb (code c) b'z'
    then char_at "ABCDEFGHIJKLMNOPQRSTUVWXYZ" (code c - b'a') c
    else c

-- `s.toUpperCase()`
unfoldable pub to_upper_case : String → String
unfolding upper_char
to_upper_case [] = []
to_upper_case (c ∷ s) = upper_char c ∷ to_upper_case s

-- `s.replaceAll(c, '')`, for a text of one character
unfoldable pub remove_code : ℕ → String → String
remove_code k [] = []
remove_code k (c ∷ s) = let rest = remove_code k s in if eqb (code c) k then rest else c ∷ rest
