-- ===== src/Common/Split/Decimals.antt =====
-- The texts of numbers, read back.
use Prim.Native.Nat.{ℕ, zero, suc, ◌+◌, ◌-◌, ◌*◌, ◌/◌, ◌%◌, ◌<◌}
use Prim.Native.Char.{Char, code}
use Prim.Native.String.{String, [], ◌∷◌, ◌++◌}
use text.Mathlib.TextLemmas.{nil-append, cons-append}
use native.Mathlib.Omega.{arith}
use mathlib.Core.Bool.{true, false, ◌||◌}
use mathlib.Core.Logic.{inl, inr}
use mathlib.Core.Path.{◌≡◌, refl, sym, ap, ◌∙◌}
use junando.Common.Bools.{ltb, eqb, if◌then◌else◌, Bool-cases}
use junando.Common.Split.{includes_code, digits_value, char_at, decimal_from, decimal}

abbrev pub pow10 : ℕ → ℕ
pow10 zero = 1
pow10 (suc width) = 10 * pow10 width

abbrev digit : ℕ → Char
digit d = char_at "0123456789" d "0"

digit-code : (d : ℕ) → d < 10 → code (digit d) ≡ 48 + d
unfolding char_at
digit-code zero h = refl
digit-code (suc zero) h = refl
digit-code (suc (suc zero)) h = refl
digit-code (suc (suc (suc zero))) h = refl
digit-code (suc (suc (suc (suc zero)))) h = refl
digit-code (suc (suc (suc (suc (suc zero))))) h = refl
digit-code (suc (suc (suc (suc (suc (suc zero)))))) h = refl
digit-code (suc (suc (suc (suc (suc (suc (suc zero))))))) h = refl
digit-code (suc (suc (suc (suc (suc (suc (suc (suc zero)))))))) h = refl
digit-code (suc (suc (suc (suc (suc (suc (suc (suc (suc zero))))))))) h = refl
digit-code (suc (suc (suc (suc (suc (suc (suc (suc (suc (suc d)))))))))) h =
    absurd (omega (arith, h))

digits_value-append :
    (acc : ℕ) (s t : String) → digits_value acc (s ++ t) ≡ digits_value (digits_value acc s) t
unfolding digits_value
digits_value-append acc [] t = rw nil-append refl
digits_value-append acc (c ∷ s) t =
    rw cons-append (digits_value-append (acc * 10 + (code c - 48)) s t)

digits_value-digit : (acc d : ℕ) → d < 10 → digits_value acc (digit d ∷ []) ≡ acc * 10 + d
unfolding digits_value
digits_value-digit acc d h = rw (digit-code d h) (omega arith)

digits_value-decimal_from :
    (width n : ℕ) → n < pow10 width → digits_value 0 (decimal_from width n) ≡ n
unfolding decimal_from
digits_value-decimal_from zero n h = unfold digits_value in omega (arith, h)
digits_value-decimal_from (suc width) n h = elim (Bool-cases (ltb n 10)) [
  | inl small ↦ rw small (digits_value-digit 0 (n % 10) (omega arith) ∙ ground (arith, small))
  | inr large ↦ rw large (
      digits_value-append 0 (decimal_from width (n / 10)) _
      ∙ digits_value-digit _ (n % 10) (omega arith)
      ∙ rw (digits_value-decimal_from width (n / 10) (omega (arith, h))) (omega arith))
]

-- Two numbers with one text are one, below 10 ^ 20.
pub decimal_inj : (m n : ℕ) → m < pow10 20 → n < pow10 20 → decimal m ≡ decimal n → m ≡ n
unfolding decimal
decimal_inj m n small_m small_n h =
    sym (digits_value-decimal_from 20 m small_m)
    ∙ ap (digits_value 0) h
    ∙ digits_value-decimal_from 20 n small_n

includes_code-append :
    (k : ℕ) (s t : String) → includes_code k (s ++ t) ≡ (includes_code k s || includes_code k t)
unfolding includes_code
includes_code-append k [] t = rw nil-append refl
includes_code-append k (c ∷ s) t = rw cons-append (ground (arith, includes_code-append k s t))

includes_code-digit : (d : ℕ) → d < 10 → includes_code 45 (digit d ∷ []) ≡ false
unfolding includes_code
includes_code-digit d h = ground (arith, digit-code d h)

includes_code-decimal_from : (width n : ℕ) → includes_code 45 (decimal_from width n) ≡ false
unfolding decimal_from
includes_code-decimal_from zero n = unfold includes_code in refl
includes_code-decimal_from (suc width) n =
    let last = includes_code-digit (n % 10) (omega arith) in
    elim (Bool-cases (ltb n 10)) [
      | inl small ↦ rw small last
      | inr large ↦
          rw (large, includes_code-append, includes_code-decimal_from width (n / 10), last) refl
    ]

-- The text behind the last dash.
abbrev behind_dash : String → String
behind_dash [] = []
behind_dash (c ∷ s) =
    if includes_code 45 s then behind_dash s else if eqb (code c) 45 then s else c ∷ s

behind_dash-append : (s t : String) → includes_code 45 t ≡ false → behind_dash (s ++ ("-" ++ t)) ≡ t
unfolding includes_code
behind_dash-append [] t h = rw nil-append (rw (cons-append "-" [] t, nil-append t) (rw h refl))
behind_dash-append (c ∷ s) t h =
    let found : includes_code 45 (s ++ ("-" ++ t)) ≡ true =
      includes_code-append 45 s ("-" ++ t) ∙ rw (includes_code-append 45 "-" t) (ground arith) in
    rw (cons-append c s ("-" ++ t), found) (behind_dash-append s t h)

-- Texts with a number behind a dash are different if the numbers are.
pub dashed_inj :
    (s t : String) (m n : ℕ)
    → m < pow10 20
    → n < pow10 20
    → s ++ ("-" ++ decimal m) ≡ t ++ ("-" ++ decimal n)
    → m ≡ n
dashed_inj s t m n small_m small_n h = decimal_inj m n small_m small_n (
    sym (behind_dash-append s (decimal m) (unfold decimal in includes_code-decimal_from 20 m))
    ∙ ap behind_dash h
    ∙ behind_dash-append t (decimal n) (unfold decimal in includes_code-decimal_from 20 n))
