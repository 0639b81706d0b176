-- ===== src/Stream/Range/Parse.antt =====
-- What the three forms of a range header mean.
use alac_bot.Prelude.{
  ℕ, ◌≤◌, ◌<◌, ◌≡◌, ◌-◌, refl, true, false, [], ◌∷◌, ◌++◌, arith, min, All, All-append, ◌==◌,
}
use alac_bot.Prelude.Text.{Text, codes, text_eq, is_whitespace}
use alac_bot.Prelude.Decimal.{print, All-print, text_eq-print, is_digit, parse-print}
use alac_bot.Prelude.Split.{IsPart, IsInk, split_on-part, split_on-join, trim-ink, All-imp}
use alac_bot.Prelude.Words.{u64_mod}
use alac_bot.Stream.Range.{ok, clamp, parse_num, parse_ends, parse_parts, parse_range, ◌>>=◌}

digit-IsInk : (c : ℕ) → is_digit c ≡ true → IsInk c
unfolding is_digit is_whitespace
digit-IsInk c h = ground arith

digit-ne-dash : (c : ℕ) → is_digit c ≡ true → (c == b'-') ≡ false
unfolding is_digit
digit-ne-dash c h = ground arith

IsInk-bytes : All IsInk (codes "bytes=")
unfolding is_whitespace
IsInk-bytes = ground arith

-- The header that a client writes for two texts of digits.
abbrev pub header_of : Text → Text → Text
header_of a b = codes "bytes=" ++ (a ++ b'-' ∷ b)

abbrev IsDigits : Text → Type 0
IsDigits s = All (λ c. is_digit c ≡ true) s

parse_range-header :
    (a b : Text) (file_size : ℕ)
    → IsDigits a
    → IsDigits b
    → parse_range (header_of a b) file_size
      ≡ (parse_ends (header_of a b) file_size a b >>= λ r. clamp file_size r)
unfolding parse_range
parse_range-header a b file_size ha hb =
    let inky : (s : Text) → IsDigits s → All IsInk s = λ s. All-imp _ IsInk digit-IsInk s in
    let dashless : (s : Text) → IsDigits s → IsPart b'-' s =
      λ s. All-imp _ (λ c. (c == b'-') ≡ false) digit-ne-dash s in
    let whole : All IsInk (header_of a b) =
      All-append IsInk (codes "bytes=") (a ++ b'-' ∷ b) IsInk-bytes
        (All-append IsInk a (b'-' ∷ b) (inky a ha) (unfold is_whitespace in refl, inky b hb)) in
    rw (trim-ink (header_of a b) whole) (
      rw (split_on-join b'-' a b (dashless a ha)) (
        rw (split_on-part b'-' b (dashless b hb))
          (unfold parse_parts in rw (trim-ink a (inky a ha)) (rw (trim-ink b (inky b hb)) refl))))

parse_num-print : (header : Text) (n : ℕ) → n < u64_mod → parse_num header (print n) ≡ ok n
unfolding parse_num
parse_num-print header n h = rw (parse-print u64_mod n h, parse_num)

module _ (file_size : ℕ) where
  -- The first and the last byte are both given: the range is clamped to the file.
  pub closed_range :
      (first last : ℕ)
      → first ≤ last
      → first < file_size
      → last < u64_mod
      → parse_range (header_of (print first) (print last)) file_size
        ≡ ok (record { start = first; end = min last (file_size - 1) })
  closed_range first last le lt small =
      rw
        (parse_range-header (print first) (print last) file_size (All-print first) (All-print last))
        (unfold parse_ends clamp in
          rw (text_eq-print first) (
            rw (text_eq-print last) (
              rw (parse_num-print _ first (omega arith))
                (rw (parse_num-print _ last small) (ground arith)))))

  -- Only the first byte is given: the range goes to the end of the file.
  pub open_range :
      (first : ℕ)
      → first < file_size
      → first < u64_mod
      → parse_range (header_of (print first) []) file_size
        ≡ ok (record { start = first; end = file_size - 1 })
  open_range first lt small =
      rw (parse_range-header (print first) [] file_size (All-print first) tt) (
        unfold parse_ends clamp in
        rw (text_eq-print first)
          (unfold text_eq in rw (parse_num-print _ first small) (ground arith)))

  -- Only a length is given: the last bytes of the file.
  suffix_range :
      (n : ℕ)
      → 0 < n
      → 0 < file_size
      → n < u64_mod
      → parse_range (header_of [] (print n)) file_size
        ≡ ok (record { start = file_size - n; end = file_size - 1 })
  suffix_range n pos some_bytes small =
      rw (parse_range-header [] (print n) file_size tt (All-print n))
        (unfold parse_ends clamp text_eq in rw (parse_num-print _ n small) (ground arith))
