-- ===== src/Prelude/Decimal.antt =====
-- Unsigned numbers in decimal: `{n}` of `format!`, and `str::parse` for an unsigned type.
use Prim.Native.Nat.{ℕ, zero, suc, ◌+◌, ◌-◌, ◌*◌, ◌/◌, ◌%◌, ◌<◌}
use mathlib.Core.Path.{◌≡◌, refl, ◌∙◌}
use mathlib.Core.Bool.{Bool, true, false, ◌&&◌}
use mathlib.Core.List.{[], ◌∷◌}
use mathlib.Core.Option.{Option, none, some}
use mathlib.Core.Logic.{inl, inr}
use native.Mathlib.Omega.{arith}
use alac_bot.Prelude.Tests.{leb, ltb, ◌==◌, if◌then◌else◌, Bool-cases}
use alac_bot.Prelude.Lists.{All}
use alac_bot.Prelude.Text.{Text, text_eq}

unfoldable pub is_digit : ℕ → Bool
is_digit c = leb b'0' c && leb c b'9'

-- The digits of `n` in front of `acc`; the fuel is more than the number.
unfoldable pub digits_from : ℕ → ℕ → Text → Text
digits_from zero n acc = acc
digits_from (suc fuel) n acc =
    let rest = digits_from fuel (n / 10) ((b'0' + n % 10) ∷ acc) in
    if ltb n 10 then (b'0' + n) ∷ acc else rest

unfoldable pub print : ℕ → Text
unfolding digits_from
print n = digits_from (suc n) n []

unfoldable pub parse_digits : ℕ → ℕ → Text → Option ℕ
unfolding is_digit
parse_digits bound acc [] = some acc
parse_digits bound acc (c ∷ s) =
    let next : ℕ = acc * 10 + (c - b'0') in
    let rest = parse_digits bound next s in if is_digit c && ltb next bound then rest else none

-- `s.parse::<uN>()`, for the numbers below `bound`: a plus sign may stand in front.
unfoldable pub parse : ℕ → Text → Option ℕ
unfolding parse_digits
parse bound [] = none
parse bound (c ∷ []) = if c == b'+' then none else parse_digits bound 0 (c ∷ [])
parse bound (c ∷ d ∷ s) =
    if c == b'+' then parse_digits bound 0 (d ∷ s) else parse_digits bound 0 (c ∷ d ∷ s)

parse_digits-digits_from :
    (bound fuel n : ℕ) (acc : Text)
    → n < fuel
    → n < bound
    → parse_digits bound 0 (digits_from fuel n acc) ≡ parse_digits bound n acc
unfolding digits_from parse_digits
parse_digits-digits_from bound zero n acc h b = elim h [ ]
parse_digits-digits_from bound (suc fuel) n acc h b = elim (Bool-cases (ltb n 10)) [
  | inl e ↦ ground (arith, e)
  | inr e ↦
      let ih =
        parse_digits-digits_from bound fuel (n / 10) ((b'0' + n % 10) ∷ acc) (ground (arith, e))
          (omega arith) in
      let back : n / 10 * 10 + (b'0' + n % 10 - b'0') ≡ n = omega arith in
      rw e (ground (arith, ih, back))
]

-- A text of digits, not empty.
abbrev pub IsNumeral : Text → Type 0
IsNumeral [] = ⊥
IsNumeral (c ∷ s) = (is_digit c ≡ true) × All (λ d. is_digit d ≡ true) s

digits_from-IsNumeral :
    (fuel n : ℕ) (acc : Text)
    → n < fuel
    → All (λ d. is_digit d ≡ true) acc
    → IsNumeral (digits_from fuel n acc)
unfolding digits_from
digits_from-IsNumeral zero n acc h k = elim h [ ]
digits_from-IsNumeral (suc fuel) n acc h k = elim (Bool-cases (ltb n 10)) [
  | inl e ↦ rw e (unfold is_digit in ground (arith, e), k)
  | inr e ↦ rw e (
      digits_from-IsNumeral fuel (n / 10) ((b'0' + n % 10) ∷ acc) (ground (arith, e))
        (unfold is_digit in ground arith, k))
]

pub print-IsNumeral : (n : ℕ) → IsNumeral (print n)
unfolding print
print-IsNumeral n = digits_from-IsNumeral (suc n) n [] (omega arith) tt

parse-IsNumeral : (bound : ℕ) (s : Text) → IsNumeral s → parse bound s ≡ parse_digits bound 0 s
unfolding parse
parse-IsNumeral bound [] h = absurd h
parse-IsNumeral bound (c ∷ []) h = unfold is_digit in ground (arith, h.0)
parse-IsNumeral bound (c ∷ d ∷ s) h = unfold is_digit in ground (arith, h.0)

-- What is printed is read back, if it is in range.
pub parse-print : (bound n : ℕ) → n < bound → parse bound (print n) ≡ some n
parse-print bound n h =
    parse-IsNumeral bound (print n) (print-IsNumeral n)
    ∙ unfold print in
      (parse_digits-digits_from bound (suc n) n [] (omega arith) h ∙ unfold parse_digits in refl)

pub All-print : (n : ℕ) → All (λ c. is_digit c ≡ true) (print n)
All-print n = go (print n) (print-IsNumeral n)
  where
    go : (s : Text) → IsNumeral s → All (λ c. is_digit c ≡ true) s
    go [] h = tt
    go (c ∷ s) h = h

pub text_eq-print : (n : ℕ) → text_eq (print n) [] ≡ false
text_eq-print n = go (print n) (print-IsNumeral n)
  where
    go : (s : Text) → IsNumeral s → text_eq s [] ≡ false
    go [] h = absurd h
    go (c ∷ s) h = unfold text_eq in refl
