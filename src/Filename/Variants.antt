-- ===== src/Filename/Variants.antt =====
-- The variants of a name: with a collision id, and for an incomplete archive.
use alac_bot.Prelude.{
  ℕ, ◌+◌, ◌-◌, ◌≤◌, ◌≡◌, refl, ap, sym, false, some, [], ◌∷◌, ◌++◌, arith, leb, Bool-cases,
  Option-cases, inl, inr, All-append, All-append_left, All-append_right, subst, append-nil, map,
  ◌∙◌,
}
use alac_bot.Prelude.Text.{
  Text, codes, byte_len, byte_len-append, text_eq, strip_suffix, strip_suffix-append,
}
use alac_bot.Filename.{
  is_forbidden_char, bound_utf8_prefix, replace_forbidden, split_extension, last_dot,
  with_collision_id, partial_suffix, into_partial,
}
use alac_bot.Filename.Prefix.{byte_len-bound_utf8_prefix, All-bound_utf8_prefix}
use alac_bot.Filename.Bounds.{
  IsClean, IsName, IsClean-replaced, usable_of_long, usable_of_underscore,
  sanitize_and_bound-IsName,
}

last_dot-append : (s stem ext : Text) → last_dot s ≡ some (stem, ext) → s ≡ stem ++ ext
unfolding last_dot
last_dot-append [] stem ext h = cc
last_dot-append (c ∷ s) [] ext h = ground arith
last_dot-append (c ∷ s) (d ∷ stem) ext h = ground (arith, last_dot-append s stem ext)

pub split_extension-append : (s : Text) → s ≡ (split_extension s).0 ++ (split_extension s).1
unfolding split_extension
split_extension-append s = elim (Option-cases (last_dot s)) [
  | inl e ↦ rw (e, split_extension) (sym (append-nil s))
  | inr ((stem, ext), e) ↦
      rw (e, split_extension)
        (elim (Bool-cases (text_eq stem [])) [
          | inl f ↦ rw f (sym (append-nil s))
          | inr f ↦ rw f (last_dot-append s stem ext e)
        ])
]

-- A clean name with a collision id is again a name that the file system takes, whatever the id.
pub with_collision_id-IsName :
    (max : ℕ) (s collision_id : Text)
    → 5 ≤ max
    → IsClean s
    → IsName max (with_collision_id max s collision_id)
unfolding with_collision_id
with_collision_id-IsName max s collision_id h k =
    let stem : Text = (split_extension s).0 in
    let ext : Text = (split_extension s).1 in
    let suffix : Text = (b'_' ∷ map replace_forbidden collision_id) ++ ext in
    let parts : IsClean (stem ++ ext) = subst IsClean (split_extension-append s) k in
    elim (Bool-cases (leb max (byte_len suffix))) [
      | inl e ↦ rw e (sanitize_and_bound-IsName max (stem ++ suffix) (some ext) h)
      | inr e ↦ rw e (record {
        bounded = ground (
          arith,
          byte_len-append (bound_utf8_prefix stem (max - byte_len suffix)) suffix,
          byte_len-bound_utf8_prefix stem (max - byte_len suffix),
        );
        usable =
            usable_of_underscore (bound_utf8_prefix stem (max - byte_len suffix))
              (map replace_forbidden collision_id ++ ext);
        clean =
            All-append _ (bound_utf8_prefix stem (max - byte_len suffix)) suffix
              (All-bound_utf8_prefix _ stem (max - byte_len suffix)
                (All-append_left _ stem ext parts))
              (
                unfold is_forbidden_char in refl,
                All-append _ (map replace_forbidden collision_id) ext
                    (IsClean-replaced collision_id) (All-append_right _ stem ext parts),
              );
      })
    ]

into_partial-stem :
    (s stem : Text)
    → strip_suffix s (codes ".zip") ≡ some stem
    → into_partial s ≡ stem ++ (partial_suffix ++ codes ".zip")
unfolding into_partial
into_partial-stem s stem e = rw (e, into_partial)

byte_len-into_partial : (s : Text) → byte_len (into_partial s) ≡ byte_len s + 10
unfolding into_partial
byte_len-into_partial s = elim (Option-cases (strip_suffix s (codes ".zip"))) [
  | inl e ↦ rw (e, into_partial) (rw byte_len-append (unfold byte_len in refl))
  | inr (stem, e) ↦
      rw (e, into_partial)
        (let split : byte_len s ≡ byte_len stem + byte_len (codes ".zip") =
            ap byte_len (strip_suffix-append s (codes ".zip") stem e) ∙ byte_len-append stem _ in
          rw byte_len-append (unfold byte_len in omega (arith, split)))
]

IsClean-partial : IsClean (partial_suffix ++ codes ".zip")
unfolding is_forbidden_char
IsClean-partial = ground arith

into_partial-IsClean : (s : Text) → IsClean s → IsClean (into_partial s)
unfolding into_partial
into_partial-IsClean s h = elim (Option-cases (strip_suffix s (codes ".zip"))) [
  | inl e ↦
      rw (e, into_partial)
        (All-append _ s partial_suffix h (
          All-append_left (λ c. is_forbidden_char c ≡ false) partial_suffix (codes ".zip")
            IsClean-partial))
  | inr (stem, e) ↦
      rw (e, into_partial)
        (All-append _ stem _
          (All-append_left _ stem (codes ".zip")
            (rw (strip_suffix-append s (codes ".zip") stem e) at h))
          IsClean-partial)
]

-- The name of an incomplete archive of at most 245 bytes is a name of at most 255.
into_partial-IsName : (s : Text) → IsName 245 s → IsName 255 (into_partial s)
into_partial-IsName s v = record {
  bounded = omega (arith, byte_len-into_partial s, v.bounded);
  usable = usable_of_long (into_partial s) (omega (arith, byte_len-into_partial s));
  clean = into_partial-IsClean s v.clean;
}
