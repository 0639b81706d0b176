-- ===== src/Stream/Range/Bounds.antt =====
-- A range that is parsed lies in the file.
use alac_bot.Prelude.{ℕ, ◌≤◌, ◌<◌, ◌≡◌, List, [], ◌∷◌, arith}
use alac_bot.Prelude.Text.{Text, trim}
use alac_bot.Stream.Range.{
  ByteRange, RangeResult, ok, err, length, clamp, parse_ends, parse_parts, parse_range, ◌>>=◌,
}

-- Within a file of the given size.
pub record IsWithin (file_size : ℕ) (r : ByteRange) : Type 0 where
  pub ordered : r.start ≤ r.end
  pub inside : r.end < file_size

clamp-IsWithin : (file_size : ℕ) (r s : ByteRange) → clamp file_size r ≡ ok s → IsWithin file_size s
unfolding clamp
clamp-IsWithin file_size r s h = ground arith

parse_parts-IsWithin :
    (header : Text) (file_size : ℕ) (parts : List Text) (r : ByteRange)
    → parse_parts header file_size parts ≡ ok r
    → IsWithin file_size r
unfolding parse_parts
parse_parts-IsWithin header file_size [] r h = ground arith
parse_parts-IsWithin header file_size (a ∷ []) r h = ground arith
parse_parts-IsWithin header file_size (a ∷ b ∷ []) r h =
    go (parse_ends header file_size (trim a) (trim b)) h
  where
    go : (m : RangeResult ByteRange) → (m >>= λ q. clamp file_size q) ≡ ok r → IsWithin file_size r
    go (ok q) k = clamp-IsWithin file_size q r k
    go (err e) k = ground arith
parse_parts-IsWithin header file_size (a ∷ b ∷ c ∷ ps) r h = ground arith

-- Whatever the header, a range that is accepted starts before it ends, lies in the file, and its
-- length is between 1 and the size of the file.
pub parse_range-IsWithin :
    (header : Text) (file_size : ℕ) (r : ByteRange)
    → parse_range header file_size ≡ ok r
    → IsWithin file_size r × (0 < length r) × (length r ≤ file_size)
unfolding parse_range length
parse_range-IsWithin header file_size r h =
    let v = parse_parts-IsWithin header file_size _ r h in
    (v, omega arith, omega (arith, v.ordered, v.inside))
