-- ===== src/Prelude/Split.antt =====
-- Laws of `split` and `trim` on the texts that the components print.
use Prim.Native.Nat.{ℕ}
use mathlib.Core.Path.{◌≡◌, refl}
use mathlib.Core.Bool.{true, false}
use mathlib.Core.List.{List, [], ◌∷◌, ◌++◌}
use mathlib.Core.Logic.{inl, inr}
use native.Mathlib.Omega.{arith}
use alac_bot.Prelude.Tests.{◌==◌, Bool-cases}
use alac_bot.Prelude.Lists.{All}
use alac_bot.Prelude.Text.{Text, trim, trim_start, trim_end, split_on, is_whitespace}

-- No character of the text is the separator.
abbrev pub IsPart : ℕ → Text → Type 0
IsPart sep s = All (λ c. (c == sep) ≡ false) s

split_on-cons :
    (sep : ℕ) (s : Text) → (part : Text) × (parts : List Text) × (split_on sep s ≡ part ∷ parts)
unfolding split_on
split_on-cons sep [] = ([], [], refl)
split_on-cons sep (c ∷ s) =
    let (part, parts, e) = split_on-cons sep s in
    elim (Bool-cases (c == sep)) [
      | inl b ↦ ([], part ∷ parts, rw e (rw b refl))
      | inr b ↦ (c ∷ part, parts, rw e (rw b refl))
    ]

pub split_on-part : (sep : ℕ) (s : Text) → IsPart sep s → split_on sep s ≡ s ∷ []
unfolding split_on
split_on-part sep [] h = refl
split_on-part sep (c ∷ s) h = rw (split_on-part sep s h.1) (rw h.0)

eq_refl : (c : ℕ) → (c == c) ≡ true
eq_refl c = ground arith

-- A part in front of a separator is the first part.
pub split_on-join :
    (sep : ℕ) (s t : Text) → IsPart sep s → split_on sep (s ++ sep ∷ t) ≡ s ∷ split_on sep t
unfolding split_on
split_on-join sep [] t h =
    let (part, parts, e) = split_on-cons sep t in rw e (rw (eq_refl sep) refl)
split_on-join sep (c ∷ s) t h = rw (split_on-join sep s t h.1) (rw h.0)

-- Trimming leaves a text alone in which nothing is white space.
abbrev pub IsInk : ℕ → Type 0
IsInk c = is_whitespace c ≡ false

trim_start-ink : (s : Text) → All IsInk s → trim_start s ≡ s
unfolding trim_start
trim_start-ink [] h = refl
trim_start-ink (c ∷ s) h = rw h.0

trim_end-ink : (s : Text) → All IsInk s → trim_end s ≡ s
unfolding trim_end
trim_end-ink [] h = refl
trim_end-ink (c ∷ []) h = rw h.0
trim_end-ink (c ∷ d ∷ s) h = rw (trim_end-ink (d ∷ s) h.1) refl

pub trim-ink : (s : Text) → All IsInk s → trim s ≡ s
unfolding trim
trim-ink s h = rw (trim_start-ink s h) (trim_end-ink s h)

pub All-imp {κ} : (P Q : ℕ → Type κ) → ((c : ℕ) → P c → Q c) → (s : Text) → All P s → All Q s
All-imp P Q f [] h = tt
All-imp P Q f (c ∷ s) h = (f c h.0, All-imp P Q f s h.1)
