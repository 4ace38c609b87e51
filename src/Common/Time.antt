-- ===== src/Common/Time.antt =====
-- `new Date(s).getTime()` for the texts that the alert schema admits, `YYYY-MM-DDTHH:MM:SS[.fff]Z`.
-- Times are only compared, so the origin is the first day of year 0: every time is a natural number.
use Prim.Native.Nat.{ℕ, zero, suc, ◌+◌, ◌-◌, ◌*◌, ◌/◌, ◌%◌}
use Prim.Native.Char.{Char, code}
use Prim.Native.String.{String, [], ◌∷◌}
use mathlib.Core.Bool.{Bool, not, ◌&&◌, ◌||◌}
use mathlib.Core.Path.{◌≡◌, refl}
use junando.Common.Bools.{leb, ltb, eqb, if◌then◌else◌}

digit : Char → ℕ
digit c = code c - 48

drop_chars : ℕ → String → String
drop_chars zero s = s
drop_chars (suc n) [] = []
drop_chars (suc n) (c ∷ s) = drop_chars n s

-- The number that the first `n` characters write, after `acc`; the text may be shorter.
read_digits : ℕ → ℕ → String → ℕ
read_digits zero acc s = acc
read_digits (suc n) acc [] = acc
read_digits (suc n) acc (c ∷ s) = read_digits n (acc * 10 + digit c) s

is_digit : Char → Bool
is_digit c = leb 48 (code c) && leb (code c) 57

-- The milliseconds after the seconds: a fraction has any number of digits, and three count.
fraction : ℕ → ℕ → String → ℕ
fraction zero acc s = acc
fraction (suc n) acc [] = fraction n (acc * 10) []
fraction (suc n) acc (c ∷ s) =
    fraction n (if is_digit c then acc * 10 + digit c else acc * 10) (if is_digit c then s else [])

is_leap : ℕ → Bool
is_leap y = (eqb (y % 4) 0 && not (eqb (y % 100) 0)) || eqb (y % 400) 0

-- The days of a common year before month `m`, from 1.
days_before_month : ℕ → ℕ
days_before_month m = (367 * m - 362) / 12 - (if leb m 2 then 0 else 2)

days_before_year : ℕ → ℕ
days_before_year y = 365 * y + (y + 3) / 4 + (y + 399) / 400 - (y + 99) / 100

days : ℕ → ℕ → ℕ → ℕ
unfolding is_leap days_before_month days_before_year
days y m d =
    days_before_year y + days_before_month m + (if ltb 2 m && is_leap y then 1 else 0) + (d - 1)

unfoldable pub get_time : String → ℕ
unfolding digit drop_chars read_digits is_digit fraction days
get_time s =
    let day =
      days (read_digits 4 0 s) (read_digits 2 0 (drop_chars 5 s))
        (read_digits 2 0 (drop_chars 8 s)) in
    let hours = day * 24 + read_digits 2 0 (drop_chars 11 s) in
    let minutes = hours * 60 + read_digits 2 0 (drop_chars 14 s) in
    let seconds = minutes * 60 + read_digits 2 0 (drop_chars 17 s) in
    seconds * 1000 + fraction 3 0 (drop_chars 20 s)

-- 2024-02-29T12:00:00.250Z is 1709208000250 ms after 1970-01-01T00:00:00Z.
get_time_runs : get_time "2024-02-29T12:00:00.25Z" ≡ get_time "1970-01-01T00:00:00Z" + 1709208000250
unfolding get_time
get_time_runs = refl

get_time_end_of_year : get_time "2023-12-31T23:59:59.999Z" + 1 ≡ get_time "2024-01-01T00:00:00Z"
unfolding get_time
get_time_end_of_year = refl
