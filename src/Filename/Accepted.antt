-- ===== src/Filename/Accepted.antt =====
-- What the strict constructor accepts.
use alac_bot.Prelude.{
  ℕ, ◌≡◌, refl, ap, sym, subst, none, [], ◌∷◌, arith, ◌↔◌, Bool-cases, inl, inr, ◌∙◌,
}
use alac_bot.Prelude.Text.{Text, trim}
use alac_bot.Filename.{ok, is_forbidden_char, find_forbidden, try_new}
use alac_bot.Filename.Bounds.{IsClean, IsName}

find_forbidden-IsClean : (s : Text) → find_forbidden s ≡ none → IsClean s
unfolding find_forbidden
find_forbidden-IsClean [] h = tt
find_forbidden-IsClean (c ∷ s) h = elim (Bool-cases (is_forbidden_char c)) [
  | inl e ↦ cc (rw e at h)
  | inr e ↦ (e, find_forbidden-IsClean s (rw e at h))
]

IsClean-find_forbidden : (s : Text) → IsClean s → find_forbidden s ≡ none
unfolding find_forbidden
IsClean-find_forbidden [] h = refl
IsClean-find_forbidden (c ∷ s) h = rw h.0 (IsClean-find_forbidden s h.1)

IsName-trimmed : (max : ℕ) (s t : Text) → try_new max s ≡ ok t → (trim s ≡ t) × IsName max (trim s)
unfolding try_new
IsName-trimmed max s t h =
    let clean : find_forbidden (trim s) ≡ none = ground arith in
    (
      ground arith,
      record {
        bounded = ground arith;
        usable = ground arith;
        clean = find_forbidden-IsClean (trim s) clean;
      },
    )

try_new-trimmed : (max : ℕ) (s : Text) → IsName max (trim s) → try_new max s ≡ ok (trim s)
unfolding try_new
try_new-trimmed max s v =
    let clean = IsClean-find_forbidden (trim s) v.clean in ground (arith, v.bounded, v.usable)

-- `try_new` accepts a text exactly if, trimmed, it is a name that the file system takes, and it
-- returns the trimmed text.
pub try_new_iff : (max : ℕ) (s t : Text) → (try_new max s ≡ ok t) ↔ ((trim s ≡ t) × IsName max t)
try_new_iff max s t = (
  λ h. (let r = IsName-trimmed max s t h in (r.0, subst (IsName max) r.0 r.1)),
  λ h. try_new-trimmed max s (subst (IsName max) (sym h.0) h.1) ∙ ap ok h.0,
)
