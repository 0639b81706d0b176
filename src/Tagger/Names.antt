-- ===== src/Tagger/Names.antt =====
-- crates/engine/src/tagger.rs: the name of a finished track is one that the file system takes, and
-- keeps its label and extension whole.
use alac_bot.Prelude.{
  ℕ, ◌-◌, ◌<◌, ◌≡◌, refl, ap, sym, ◌∙◌, Bool, true, false, some, [], ◌∷◌, ◌++◌, append_assoc, map,
  arith, length, length-append, ltb, if◌then◌else◌, Bool-cases, inl, inr,
}
use alac_bot.Prelude.Text.{
  Text, codes, text_eq, text_eq_refl, text_eq-eq, is_whitespace, trim, trim_start, trim_end,
  strip_suffix, byte_len, byte_len-append,
}
use alac_bot.Filename.{
  max_filename_bytes, is_forbidden_char, replace_forbidden, sanitize_and_bound, bound_utf8_prefix,
  is_unusable,
}
use alac_bot.Filename.Bounds.{
  IsName, sanitize_and_bound-IsName, sanitize_and_bound-suffix, usable_of_long,
}
use alac_bot.Tagger.{
  TrackMeta, codec_label, track_filename_suffix, build_track_filename_with_codec, two_digits,
  file_number,
}

map-append : (f : ℕ → ℕ) (s t : Text) → map f (s ++ t) ≡ map f s ++ map f t
map-append f [] t = refl
map-append f (c ∷ s) t = ap (λ r. f c ∷ r) (map-append f s t)

-- White space is trimmed at most up to a character that is none.
trim_start-append :
    (s t : Text) (c : ℕ)
    → is_whitespace c ≡ false
    → (r : Text) × (trim_start (s ++ c ∷ t) ≡ r ++ c ∷ t)
unfolding trim_start
trim_start-append [] t c h = ([], rw h refl)
trim_start-append (d ∷ s) t c h = elim (Bool-cases (is_whitespace d)) [
  | inl e ↦ rw e (trim_start-append s t c h)
  | inr e ↦ (d ∷ s, rw e refl)
]

trim_end-append :
    (s t : Text) (d : ℕ) → trim_end (d ∷ t) ≡ d ∷ t → trim_end (s ++ d ∷ t) ≡ s ++ d ∷ t
unfolding trim_end
trim_end-append [] t d h = h
trim_end-append (c ∷ []) t d h = rw h refl
trim_end-append (c ∷ e ∷ s) t d h = rw (trim_end-append (e ∷ s) t d h) refl

impossible : (a b : ℕ) → a < b → b ≡ a → ⊥
impossible a b h k = omega arith

text_eq-longer : (s t : Text) → length t < length s → text_eq s t ≡ false
text_eq-longer s t h = elim (Bool-cases (text_eq s t)) [
  | inr e ↦ e
  | inl e ↦ elim (impossible (length t) (length s) h (ap length (text_eq-eq s t e))) [ ]
]

strip_suffix-appended : (s t : Text) → strip_suffix (s ++ t) t ≡ some s
unfolding strip_suffix
strip_suffix-appended [] [] = unfold text_eq in refl
strip_suffix-appended [] (d ∷ t) = rw (text_eq_refl (d ∷ t)) refl
strip_suffix-appended (c ∷ s) t =
    let longer : text_eq (c ∷ s ++ t) t ≡ false =
      text_eq-longer (c ∷ s ++ t) t (omega (arith, length-append s t)) in
    rw (longer, strip_suffix-appended s t) refl

-- The labels.
if-both {ℓ} :
    (P : Text × Text → Type ℓ) (b : Bool) (x y : Text × Text) → P x → P y → P (if b then x else y)
if-both P true x y h k = h
if-both P false x y h k = k

codec_label-all {ℓ} :
    (P : Text × Text → Type ℓ)
    → P (codes "Atmos", codes "m4a")
    → P (codes "AAC", codes "m4a")
    → P (codes "FLAC", codes "flac")
    → P (codes "MP3", codes "mp3")
    → P (codes "ALAC", codes "m4a")
    → (codec : Text) → P (codec_label codec)
unfolding codec_label
codec_label-all P atmos aac flac mp3 alac codec =
    if-both P (text_eq codec (codes "ec-3")) _ _ atmos (
      if-both P (text_eq codec (codes "aac")) _ _ aac (
        if-both P (text_eq codec (codes "mp4a.40.2")) _ _ aac (
          if-both P (text_eq codec (codes "mp4a.40.5")) _ _ aac (
            if-both P (text_eq codec (codes "flac")) _ _ flac
              (if-both P (text_eq codec (codes "mp3")) _ _ mp3 alac)))))

-- A suffix that the sanitiser leaves alone: clean, without white space at its end, and of a length
-- between the longest reserved name and the limit.
abbrev IsStable : Text → Type 0
IsStable t =
    (map replace_forbidden t ≡ t)
    × (trim_end t ≡ t)
    × (ltb 2 (byte_len t) ≡ true)
    × (ltb (byte_len t) max_filename_bytes ≡ true)

abbrev with_label : Bool → Text × Text → Text
with_label explicit label =
    (if explicit then codes " [E]" else []) ++ codes " [" ++ label.0 ++ codes "]." ++ label.1

track_filename_suffix-IsStable :
    (explicit : Bool) (codec : Text) → IsStable (track_filename_suffix explicit codec)
unfolding track_filename_suffix byte_len trim_end is_forbidden_char is_whitespace
track_filename_suffix-IsStable true codec =
    codec_label-all (λ label. IsStable (with_label true label)) (refl, refl, refl, refl)
      (refl, refl, refl, refl) (refl, refl, refl, refl) (refl, refl, refl, refl)
      (refl, refl, refl, refl) codec
track_filename_suffix-IsStable false codec =
    codec_label-all (λ label. IsStable (with_label false label)) (refl, refl, refl, refl)
      (refl, refl, refl, refl) (refl, refl, refl, refl) (refl, refl, refl, refl)
      (refl, refl, refl, refl) codec

trim-stable : (s t : Text) → trim_end t ≡ t → ltb 2 (byte_len t) ≡ true → trim_end (s ++ t) ≡ s ++ t
trim-stable s [] h k = unfold byte_len in ground (arith, k)
trim-stable s (d ∷ t) h k = trim_end-append s t d h

-- What stands before the suffix has a dot, so that the trimmed name keeps the suffix.
replaced :
    (a b t : Text)
    → map replace_forbidden t ≡ t
    → map replace_forbidden (a ++ (b'.' ∷ (b ++ t)))
      ≡ map replace_forbidden a ++ (b'.' ∷ (map replace_forbidden b ++ t))
unfolding is_forbidden_char
replaced a b t h =
    map-append replace_forbidden a (b'.' ∷ (b ++ t))
    ∙ ap (λ r. map replace_forbidden a ++ (b'.' ∷ r))
        (map-append replace_forbidden b t ∙ ap (λ r. map replace_forbidden b ++ r) h)

kept_stem :
    (a b t r : Text)
    → IsStable t
    → trim_start (map replace_forbidden a ++ (b'.' ∷ (map replace_forbidden b ++ t)))
      ≡ r ++ (b'.' ∷ (map replace_forbidden b ++ t))
    → trim (map replace_forbidden (a ++ (b'.' ∷ (b ++ t))))
      ≡ (r ++ (b'.' ∷ map replace_forbidden b)) ++ t
unfolding trim
kept_stem a b t r h e =
    let stem : Text = r ++ (b'.' ∷ map replace_forbidden b) in
    ap trim_end (
      ap trim_start (replaced a b t h.0)
      ∙ e
      ∙ sym (append_assoc r (b'.' ∷ map replace_forbidden b) t))
    ∙ trim-stable stem t h.1 h.2

kept_suffix :
    (a b t : Text)
    → IsStable t
    → (r : Text) × (trim (map replace_forbidden (a ++ (b'.' ∷ (b ++ t)))) ≡ r ++ t)
kept_suffix a b t h =
    let (r, e) =
      trim_start-append (map replace_forbidden a) (map replace_forbidden b ++ t) b'.'
        (unfold is_whitespace in refl) in
    (r ++ (b'.' ∷ map replace_forbidden b), kept_stem a b t r h e)

sanitized_stem :
    (name t r : Text)
    → IsStable t
    → trim (map replace_forbidden name) ≡ r ++ t
    → sanitize_and_bound max_filename_bytes name (some t)
      ≡ bound_utf8_prefix r (max_filename_bytes - byte_len t) ++ t
sanitized_stem name t r h e =
    let long : 2 < byte_len t = ground (arith, h.2) in
    let usable : is_unusable (r ++ t) ≡ false =
      usable_of_long (r ++ t) (omega (arith, byte_len-append r t)) in
    sanitize_and_bound-suffix max_filename_bytes name t r long (ground (arith, h.3))
      (rw e (rw usable (strip_suffix-appended r t)))

sanitized_suffix :
    (a b t : Text)
    → IsStable t
    → (stem : Text) × (sanitize_and_bound max_filename_bytes (a ++ (b'.' ∷ (b ++ t))) (some t)
        ≡ stem ++ t)
sanitized_suffix a b t h =
    let (r, e) = kept_suffix a b t h in
    (
      bound_utf8_prefix r (max_filename_bytes - byte_len t),
      sanitized_stem (a ++ (b'.' ∷ (b ++ t))) t r h e,
    )

regrouped :
    (n title middle artist t : Text)
    → n ++ codes ". " ++ title ++ middle ++ artist ++ t
      ≡ n ++ (b'.' ∷ ((b' ' ∷ (title ++ (middle ++ artist))) ++ t))
regrouped n title middle artist t = simp (append_assoc) refl

labelled :
    (n title artist suffix : Text)
    → IsStable suffix
    → (stem : Text) × (sanitize_and_bound max_filename_bytes
          (n ++ codes ". " ++ title ++ codes " - " ++ artist ++ suffix)
          (some suffix)
        ≡ stem ++ suffix)
labelled n title artist suffix h =
    let (stem, e) = sanitized_suffix n (b' ' ∷ (title ++ (codes " - " ++ artist))) suffix h in
    (
      stem,
      ap (λ name. sanitize_and_bound max_filename_bytes name (some suffix))
            (regrouped n title (codes " - ") artist suffix)
          ∙ e,
    )

-- The name of a finished track is one that the file system takes, of 255 bytes at most and without
-- forbidden characters, and it ends with the label and the extension of its codec, whatever the title
-- and the artist are.
pub build_track_filename_with_codec-IsName :
    (meta : TrackMeta) (codec : Text)
    → IsName max_filename_bytes (build_track_filename_with_codec meta codec)
      × ((stem : Text) × (build_track_filename_with_codec meta codec
            ≡ stem ++ track_filename_suffix meta.explicit codec))
unfolding build_track_filename_with_codec
build_track_filename_with_codec-IsName meta codec = (
  sanitize_and_bound-IsName max_filename_bytes _ _ (omega arith),
  labelled (two_digits (file_number meta)) meta.title meta.artist
      (track_filename_suffix meta.explicit codec)
      (track_filename_suffix-IsStable meta.explicit codec),
)
