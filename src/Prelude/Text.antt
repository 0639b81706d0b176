-- ===== src/Prelude/Text.antt =====
-- Rust's `String` and `&str`, as the list of their Unicode scalar values. What the source measures
-- in bytes is measured by `byte_len`, the length of the UTF-8 encoding.
use Prim.Native.Char.{code}
use Prim.Native.String.{String}
use Prim.Native.Nat.{ℕ, ◌+◌, ◌<◌}
use mathlib.Core.Path.{◌≡◌, refl}
use mathlib.Core.Bool.{Bool, true, false, ◌&&◌, ◌||◌}
use mathlib.Core.List.{List, [], ◌∷◌, ◌++◌}
use mathlib.Core.Option.{Option, none, some}
use native.Mathlib.Omega.{arith}
use mathlib.Core.Logic.{inl, inr}
use alac_bot.Prelude.Lists.{All}
use alac_bot.Prelude.Tests.{Bool-cases, leb, ltb, ◌==◌, if◌then◌else◌}

abbrev pub Text : Type 0
Text = List ℕ

-- A literal of the source.
abbrev pub codes : String → Text
codes String.[] = []
codes (String.◌∷◌ c s) = code c ∷ codes s

-- The bytes of a character in UTF-8.
unfoldable pub char_width : ℕ → ℕ
char_width c = if ltb c 128 then 1 else if ltb c 2048 then 2 else if ltb c 65536 then 3 else 4

pub char_width_pos : (c : ℕ) → 0 < char_width c
unfolding char_width
char_width_pos c = ground arith

-- `s.len()`
unfoldable pub byte_len : Text → ℕ
unfolding char_width
byte_len [] = 0
byte_len (c ∷ s) = char_width c + byte_len s

pub byte_len-append : (s t : Text) → byte_len (s ++ t) ≡ byte_len s + byte_len t
unfolding byte_len
byte_len-append [] t = omega arith
byte_len-append (c ∷ s) t = omega (arith, byte_len-append s t)

-- `s == t`
unfoldable pub text_eq : Text → Text → Bool
text_eq [] [] = true
text_eq [] (d ∷ t) = false
text_eq (c ∷ s) [] = false
text_eq (c ∷ s) (d ∷ t) = c == d && text_eq s t

pub text_eq_refl : (s : Text) → text_eq s s ≡ true
unfolding text_eq
text_eq_refl [] = refl
text_eq_refl (c ∷ s) = ground (arith, text_eq_refl s)

pub text_eq-eq : (s t : Text) → text_eq s t ≡ true → s ≡ t
unfolding text_eq
text_eq-eq [] [] h = refl
text_eq-eq [] (d ∷ t) h = ground arith
text_eq-eq (c ∷ s) [] h = ground arith
text_eq-eq (c ∷ s) (d ∷ t) h = ground (arith, text_eq-eq s t)

-- `char::is_whitespace`: the characters of Unicode's White_Space property.
unfoldable pub is_whitespace : ℕ → Bool
is_whitespace c =
    (leb 9 c && leb c 13)
    || c == 32
    || c == 133
    || c == 160
    || c == 5760
    || (leb 8192 c && leb c 8202)
    || c == 8232
    || c == 8233
    || c == 8239
    || c == 8287
    || c == 12288

-- `s.trim_start()`
unfoldable pub trim_start : Text → Text
unfolding is_whitespace
trim_start [] = []
trim_start (c ∷ s) = let rest = trim_start s in if is_whitespace c then rest else c ∷ s

-- `s.trim_end()`: the white space at the end goes, with what is left of a character before it.
unfoldable pub trim_end : Text → Text
unfolding is_whitespace
trim_end [] = []
trim_end (c ∷ s) = elim (trim_end s) [
  | [] ↦ if is_whitespace c then [] else c ∷ []
  | d ∷ r ↦ c ∷ d ∷ r
]

unfoldable pub trim : Text → Text
unfolding trim_start trim_end
trim s = trim_end (trim_start s)

All-trim_start {κ} : (P : ℕ → Type κ) (s : Text) → All P s → All P (trim_start s)
unfolding trim_start
All-trim_start P [] h = h
All-trim_start P (c ∷ s) h = elim (Bool-cases (is_whitespace c)) [
  | inl e ↦ rw e (All-trim_start P s h.1)
  | inr e ↦ rw e h
]

All-trim_end {κ} : (P : ℕ → Type κ) (s : Text) → All P s → All P (trim_end s)
unfolding trim_end
All-trim_end P [] h = h
All-trim_end P (c ∷ s) h = go (trim_end s) (All-trim_end P s h.1)
  where
    go :
        (t : Text)
        → All P t
        → All P (elim t [ [] ↦ if is_whitespace c then [] else c ∷ [] | d ∷ r ↦ c ∷ d ∷ r ])
    go [] k = elim (Bool-cases (is_whitespace c)) [ inl e ↦ rw e tt | inr e ↦ rw e (h.0, tt) ]
    go (d ∷ r) k = (h.0, k)

pub All-trim {κ} : (P : ℕ → Type κ) (s : Text) → All P s → All P (trim s)
unfolding trim
All-trim P s h = All-trim_end P (trim_start s) (All-trim_start P s h)

-- `s.strip_prefix(p)`
unfoldable pub strip_prefix : Text → Text → Option Text
strip_prefix s [] = some s
strip_prefix [] (d ∷ p) = none
strip_prefix (c ∷ s) (d ∷ p) = let rest = strip_prefix s p in if c == d then rest else none

-- `s.strip_suffix(t)`: what stands before `t`, if `s` ends with it.
unfoldable pub strip_suffix : Text → Text → Option Text
unfolding text_eq
strip_suffix [] t = if text_eq [] t then some [] else none
strip_suffix (c ∷ s) t =
    if text_eq (c ∷ s) t
    then some []
    else elim (strip_suffix s t) [ none ↦ none | some r ↦ some (c ∷ r) ]

pub strip_suffix-append : (s t r : Text) → strip_suffix s t ≡ some r → s ≡ r ++ t
unfolding strip_suffix
strip_suffix-append [] t r h = ground (arith, text_eq-eq [] t)
strip_suffix-append (c ∷ s) t [] h = ground (arith, text_eq-eq (c ∷ s) t)
strip_suffix-append (c ∷ s) t (d ∷ r) h = ground (arith, strip_suffix-append s t r)

-- `s.split(sep)`: at least one part.
unfoldable pub split_on : ℕ → Text → List Text
split_on sep [] = [] ∷ []
split_on sep (c ∷ s) = elim (split_on sep s) [
  | [] ↦ []
  | part ∷ parts ↦ if c == sep then [] ∷ part ∷ parts else (c ∷ part) ∷ parts
]
