-- ===== src/Filename/Prefix.antt =====
-- The loop that steps back to a character boundary keeps the longest run of whole characters that
-- fits, and that is what the bounds on names rest on.
use alac_bot.Prelude.{
  ℕ, zero, suc, ◌+◌, ◌-◌, ◌≤◌, ◌≡◌, refl, ap, [], ◌∷◌, arith, leb, ltb, if◌then◌else◌, Bool-cases,
  inl, inr, sym, leb→le, All,
}
use alac_bot.Prelude.Text.{Text, char_width, char_width_pos, byte_len}
use alac_bot.Filename.{is_char_boundary, slice_to, step_back, bound_utf8_prefix}

-- As many characters from the left as fit in `max` bytes.
pub fit : ℕ → Text → Text
fit max [] = []
fit max (c ∷ s) =
    let rest = fit (max - char_width c) s in if leb (char_width c) max then c ∷ rest else []

-- Stepping back in a text passes its first character, or stops in front of it.
step_back-cons :
    (c : ℕ) (s : Text) (n : ℕ)
    → step_back (c ∷ s) n
      ≡ (if leb (char_width c) n then char_width c + step_back s (n - char_width c) else 0)
unfolding step_back is_char_boundary
step_back-cons c s zero = ground (arith, char_width_pos c)
step_back-cons c s (suc n) = elim (Bool-cases (ltb n (char_width c))) [
  | inl short ↦ elim (Bool-cases (ltb (suc n) (char_width c))) [
    | inl e ↦ ground (arith, step_back-cons c s n)
    | inr e ↦
        let w : char_width c ≡ suc n = ground arith in
        let z : suc n - char_width c ≡ 0 = omega arith in rw z (ground (arith, w, z))
  ]
  | inr long ↦
      let z : suc n - char_width c ≡ suc (n - char_width c) = ground arith in
      rw z (ground (arith, step_back-cons c s n, z))
]

step_back-nil : (n : ℕ) → step_back [] n ≡ 0
unfolding step_back is_char_boundary
step_back-nil zero = refl
step_back-nil (suc n) = step_back-nil n

slice_to-add : (c : ℕ) (s : Text) (k : ℕ) → slice_to (c ∷ s) (char_width c + k) ≡ c ∷ slice_to s k
unfolding slice_to
slice_to-add c s k =
    let e : char_width c + k ≡ suc (char_width c + k - 1) = omega (arith, char_width_pos c) in
    let f : suc (char_width c + k - 1) - char_width c ≡ k = omega (arith, char_width_pos c) in
    rw e (rw f refl)

slice_back-fit : (s : Text) (n : ℕ) → slice_to s (step_back s n) ≡ fit n s
unfolding fit
slice_back-fit [] n = rw step_back-nil (unfold slice_to in refl)
slice_back-fit (c ∷ s) n = elim (Bool-cases (leb (char_width c) n)) [
  | inl e ↦
      rw (step_back-cons, e)
        (rw slice_to-add (ap (λ t. c ∷ t) (slice_back-fit s (n - char_width c))))
  | inr e ↦ rw (step_back-cons, e) (unfold slice_to in refl)
]

fit-eq_of_le : (n : ℕ) (s : Text) → byte_len s ≤ n → fit n s ≡ s
unfolding fit byte_len
fit-eq_of_le n [] h = refl
fit-eq_of_le n (c ∷ s) h = ground (arith, fit-eq_of_le (n - char_width c) s)

-- The byte loop of `bound_utf8_prefix` keeps the characters that fit, taken from the left: no
-- character is split, and none is dropped that would fit behind the kept ones.
pub bound_utf8_prefix-fit : (s : Text) (max : ℕ) → bound_utf8_prefix s max ≡ fit max s
unfolding bound_utf8_prefix
bound_utf8_prefix-fit s max = elim (Bool-cases (leb (byte_len s) max)) [
  | inl e ↦ rw e (sym (fit-eq_of_le max s (leb→le _ _ e)))
  | inr e ↦ rw e (slice_back-fit s max)
]

byte_len-fit : (max : ℕ) (s : Text) → byte_len (fit max s) ≤ max
unfolding fit byte_len
byte_len-fit max [] = omega arith
byte_len-fit max (c ∷ s) = ground (arith, byte_len-fit (max - char_width c) s)

pub byte_len-bound_utf8_prefix : (s : Text) (max : ℕ) → byte_len (bound_utf8_prefix s max) ≤ max
byte_len-bound_utf8_prefix s max = rw bound_utf8_prefix-fit (byte_len-fit max s)

All-fit {κ} : (P : ℕ → Type κ) (max : ℕ) (s : Text) → All P s → All P (fit max s)
unfolding fit
All-fit P max [] h = h
All-fit P max (c ∷ s) h = elim (Bool-cases (leb (char_width c) max)) [
  | inl e ↦ rw e (h.0, All-fit P (max - char_width c) s h.1)
  | inr e ↦ rw e tt
]

pub All-bound_utf8_prefix {κ} :
    (P : ℕ → Type κ) (s : Text) (max : ℕ) → All P s → All P (bound_utf8_prefix s max)
All-bound_utf8_prefix P s max h = rw bound_utf8_prefix-fit (All-fit P max s h)
