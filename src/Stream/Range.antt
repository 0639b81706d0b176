-- ===== src/Stream/Range.antt =====
-- crates/stream/src/pipe.rs: `ByteRange`, an inclusive range of bytes.
pub mod Bounds
pub mod Parse
use alac_bot.Prelude.{
  ℕ, ◌+◌, ◌-◌, Bool, ◌||◌, Option, none, some, List, [], ◌∷◌, leb, ltb, if◌then◌else◌, min,
}
use alac_bot.Prelude.Text.{Text, codes, trim, text_eq, strip_prefix, split_on}
use alac_bot.Prelude.Decimal.{parse}
use alac_bot.Prelude.Words.{u64_mod}

pub record ByteRange : Type 0 where
  pub start : ℕ
  pub end : ℕ

-- The messages of `StreamError::InvalidRange`.
pub data RangeError : Type 0 where
  malformed not_a_number : Text → RangeError
  out_of_bounds : ℕ → ℕ → ℕ → RangeError

pub data RangeResult {ℓ} (A : Type ℓ) : Type ℓ where
  ok : A → RangeResult A
  err : RangeError → RangeResult A

infixl 5 ◌>>=◌
abbrev pub ◌>>=◌ {ℓ κ} :
    {A : Type ℓ} {B : Type κ} → RangeResult A → (A → RangeResult B) → RangeResult B
ok a >>= f = f a
err e >>= f = err e

unfoldable pub length : ByteRange → ℕ
length r = r.end - r.start + 1

unfoldable pub strip_bytes : Text → Text
unfolding strip_prefix
strip_bytes s = elim (strip_prefix s (codes "bytes=")) [ none ↦ s | some rest ↦ rest ]

unfoldable pub parse_num : Text → Text → RangeResult ℕ
parse_num header s = elim (parse u64_mod s) [ none ↦ err (not_a_number header) | some n ↦ ok n ]

abbrev pub is_blank : Text → Bool
is_blank s = text_eq s []

-- The two ends, from the trimmed texts beside the dash.
unfoldable pub parse_ends : Text → ℕ → Text → Text → RangeResult ByteRange
parse_ends header file_size start_str end_str =
    if is_blank start_str
    then (do
      suffix ← parse_num header end_str
      ok (record { start = file_size - suffix; end = file_size - 1 }))
    else if is_blank end_str
    then (do start ← parse_num header start_str; ok (record { start = start; end = file_size - 1 }))
    else do
      start ← parse_num header start_str
      end ← parse_num header end_str
      ok (record { start = start; end = end })

-- The test of the bounds, and the end clamped to the file.
unfoldable pub clamp : ℕ → ByteRange → RangeResult ByteRange
clamp file_size r =
    if ltb r.end r.start || leb file_size r.start
    then err (out_of_bounds r.start r.end file_size)
    else ok (record { start = r.start; end = min r.end (file_size - 1) })

unfoldable pub parse_parts : Text → ℕ → List Text → RangeResult ByteRange
parse_parts header file_size (a ∷ b ∷ []) = do
  r ← parse_ends header file_size (trim a) (trim b)
  clamp file_size r
parse_parts header file_size _ = err (malformed header)

unfoldable pub parse_range : Text → ℕ → RangeResult ByteRange
unfolding parse_parts strip_bytes
parse_range header file_size =
    parse_parts header file_size (split_on b'-' (strip_bytes (trim header)))
