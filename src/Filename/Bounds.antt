-- ===== src/Filename/Bounds.antt =====
-- What the infallible constructors of a name guarantee: its length, its characters, its suffix.
use alac_bot.Prelude.{
  ℕ, ◌-◌, ◌≤◌, ◌<◌, ◌≡◌, refl, false, Option, none, some, [], ◌∷◌, ◌++◌, arith, leb, Bool-cases,
  Option-cases, inl, inr, All, All-append, All-append_left, All-append_right, map,
}
use alac_bot.Prelude.Text.{
  Text, codes, char_width, byte_len, byte_len-append, text_eq, trim, All-trim, strip_suffix,
  strip_suffix-append,
}
use alac_bot.Filename.{
  is_forbidden_char, bound_utf8_prefix, replace_forbidden, is_unusable, or_track, bound_candidate,
  sanitize_and_bound,
}
use alac_bot.Filename.Prefix.{byte_len-bound_utf8_prefix, All-bound_utf8_prefix}

-- No character of the text is forbidden in a file name.
abbrev pub IsClean : Text → Type 0
IsClean s = All (λ c. is_forbidden_char c ≡ false) s

-- A name that the file system takes: not empty, not `.` or `..`, without forbidden characters.
pub record IsName (max : ℕ) (s : Text) : Type 0 where
  pub bounded : byte_len s ≤ max
  pub usable : is_unusable s ≡ false
  pub clean : IsClean s

replace_forbidden-clean : (c : ℕ) → is_forbidden_char (replace_forbidden c) ≡ false
replace_forbidden-clean c = elim (Bool-cases (is_forbidden_char c)) [
  | inl e ↦ rw e (unfold is_forbidden_char in refl)
  | inr e ↦ rw e e
]

pub IsClean-replaced : (s : Text) → IsClean (map replace_forbidden s)
IsClean-replaced [] = tt
IsClean-replaced (c ∷ s) = (replace_forbidden-clean c, IsClean-replaced s)

IsClean-track : IsClean (codes "track")
unfolding is_forbidden_char
IsClean-track = (refl, (refl, (refl, (refl, (refl, tt)))))

or_track-IsClean : (s : Text) → IsClean s → IsClean (or_track s)
or_track-IsClean s h = elim (Bool-cases (is_unusable s)) [
  | inl e ↦ rw e IsClean-track
  | inr e ↦ rw e h
]

or_track-usable : (s : Text) → is_unusable (or_track s) ≡ false
or_track-usable s = elim (Bool-cases (is_unusable s)) [
  | inl e ↦ rw e (unfold text_eq in refl)
  | inr e ↦ rw e e
]

or_track-bounded : (max : ℕ) (s : Text) → 5 ≤ max → byte_len s ≤ max → byte_len (or_track s) ≤ max
or_track-bounded max s h k = elim (Bool-cases (is_unusable s)) [
  | inl e ↦ rw e (unfold byte_len in omega arith)
  | inr e ↦ rw e k
]

bound_candidate-bounded :
    (max : ℕ) (s : Text) (suffix : Option Text) → byte_len (bound_candidate max s suffix) ≤ max
unfolding bound_candidate
bound_candidate-bounded max s none = byte_len-bound_utf8_prefix s max
bound_candidate-bounded max s (some suffix) = elim (Option-cases (strip_suffix s suffix)) [
  | inl e ↦ rw (e, bound_candidate) (byte_len-bound_utf8_prefix s max)
  | inr (r, e) ↦
      rw (e, bound_candidate)
        (elim (Bool-cases (leb max (byte_len suffix))) [
          | inl f ↦ rw f (byte_len-bound_utf8_prefix s max)
          | inr f ↦ rw f (
              ground (
                arith,
                byte_len-append (bound_utf8_prefix r (max - byte_len suffix)) suffix,
                byte_len-bound_utf8_prefix r (max - byte_len suffix),
              ))
        ])
]

bound_candidate-IsClean :
    (max : ℕ) (s : Text) (suffix : Option Text) → IsClean s → IsClean (bound_candidate max s suffix)
unfolding bound_candidate
bound_candidate-IsClean max s none h = All-bound_utf8_prefix _ s max h
bound_candidate-IsClean max s (some suffix) h = elim (Option-cases (strip_suffix s suffix)) [
  | inl e ↦ rw (e, bound_candidate) (All-bound_utf8_prefix _ s max h)
  | inr (r, e) ↦
      let parts : IsClean (r ++ suffix) = rw (strip_suffix-append s suffix r e) at h in
      rw (e, bound_candidate)
        (elim (Bool-cases (leb max (byte_len suffix))) [
          | inl f ↦ rw f (All-bound_utf8_prefix _ s max h)
          | inr f ↦ rw f (
              All-append _ (bound_utf8_prefix r (max - byte_len suffix)) suffix
                (All-bound_utf8_prefix _ r (max - byte_len suffix)
                  (All-append_left _ r suffix parts))
                (All-append_right _ r suffix parts))
        ])
]

-- `sanitize_and_bound` returns a name that the file system takes, whatever it is given, for a limit
-- of five bytes or more.
pub sanitize_and_bound-IsName :
    (max : ℕ) (name : Text) (suffix : Option Text)
    → 5 ≤ max
    → IsName max (sanitize_and_bound max name suffix)
unfolding sanitize_and_bound
sanitize_and_bound-IsName max name suffix h =
    let cleaned =
      or_track-IsClean (trim (map replace_forbidden name))
        (All-trim _ (map replace_forbidden name) (IsClean-replaced name)) in
    let candidate : Text = or_track (trim (map replace_forbidden name)) in
    record {
      bounded = or_track-bounded max _ h (bound_candidate-bounded max candidate suffix);
      usable = or_track-usable (bound_candidate max candidate suffix);
      clean = or_track-IsClean _ (bound_candidate-IsClean max candidate suffix cleaned);
    }

pub usable_of_long : (s : Text) → 2 < byte_len s → is_unusable s ≡ false
unfolding text_eq byte_len char_width
usable_of_long [] h = elim h [ ]
usable_of_long (c ∷ []) h = ground arith
usable_of_long (c ∷ d ∷ []) h = ground arith
usable_of_long (c ∷ d ∷ e ∷ s) h = ground arith

pub usable_of_underscore : (p r : Text) → is_unusable (p ++ b'_' ∷ r) ≡ false
unfolding text_eq
usable_of_underscore [] r = refl
usable_of_underscore (c ∷ []) r = ground arith
usable_of_underscore (c ∷ d ∷ []) r = ground arith
usable_of_underscore (c ∷ d ∷ e ∷ p) r = ground arith

-- A suffix that the sanitised name ends with, of three bytes or more and shorter than the limit, is
-- kept in full, and only what stands in front of it is shortened.
pub sanitize_and_bound-suffix :
    (max : ℕ) (name suffix prefix : Text)
    → 2 < byte_len suffix
    → byte_len suffix < max
    → strip_suffix (or_track (trim (map replace_forbidden name))) suffix ≡ some prefix
    → sanitize_and_bound max name (some suffix)
      ≡ bound_utf8_prefix prefix (max - byte_len suffix) ++ suffix
unfolding sanitize_and_bound bound_candidate
sanitize_and_bound-suffix max name suffix prefix long short e =
    let kept : Text = bound_utf8_prefix prefix (max - byte_len suffix) in
    let fits : leb max (byte_len suffix) ≡ false = ground arith in
    let usable : is_unusable (kept ++ suffix) ≡ false =
      usable_of_long (kept ++ suffix) (omega (arith, byte_len-append kept suffix)) in
    rw (e, bound_candidate) (rw fits (rw usable refl))
