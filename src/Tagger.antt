-- ===== src/Tagger.antt =====
-- crates/engine/src/tagger.rs: the names of finished tracks.
pub mod Names
use alac_bot.Prelude.{
  ℕ, ◌+◌, Bool, true, false, not, Option, none, some, List, [], ◌∷◌, ◌++◌, ltb, ◌==◌, if◌then◌else◌,
}
use alac_bot.Prelude.Integers.{ℤ, pos, negsuc, is_zero}
use alac_bot.Prelude.Text.{Text, codes, text_eq}
use alac_bot.Prelude.Decimal.{print}
use alac_bot.Filename.{max_filename_bytes, sanitize_and_bound}

-- crates/music/src/lib.rs: `TrackMeta`, the fields that a rip reads.
pub record TrackMeta : Type 0 where
  pub title : Text
  pub artist : Text
  pub album : Text
  pub duration_secs : ℤ
  pub explicit : Bool
  pub genre : Option Text
  pub release_date : Text
  pub track_number : Option ℤ
  pub track_count : Option ℤ
  pub isrc : Option Text

unfoldable pub codec_label : Text → Text × Text
unfolding text_eq
codec_label codec =
    if text_eq codec (codes "ec-3")
    then (codes "Atmos", codes "m4a")
    else if text_eq codec (codes "aac")
    then (codes "AAC", codes "m4a")
    else if text_eq codec (codes "mp4a.40.2")
    then (codes "AAC", codes "m4a")
    else if text_eq codec (codes "mp4a.40.5")
    then (codes "AAC", codes "m4a")
    else if text_eq codec (codes "flac")
    then (codes "FLAC", codes "flac")
    else if text_eq codec (codes "mp3")
    then (codes "MP3", codes "mp3")
    else (codes "ALAC", codes "m4a")

unfoldable pub track_filename_suffix : Bool → Text → Text
unfolding codec_label
track_filename_suffix explicit codec =
    (if explicit then codes " [E]" else [])
    ++ codes " ["
    ++ (codec_label codec).0
    ++ codes "]."
    ++ (codec_label codec).1

-- `{number:02}`: the sign is one of the two characters.
unfoldable pub two_digits : ℤ → Text
unfolding print
two_digits (pos n) = if ltb n 10 then b'0' ∷ print n else print n
two_digits (negsuc n) = b'-' ∷ print (n + 1)

unfoldable pub file_number : TrackMeta → ℤ
file_number meta = elim meta.track_number [ none ↦ pos 1 | some n ↦ if is_zero n then pos 1 else n ]

unfoldable pub build_track_filename_with_codec : TrackMeta → Text → Text
unfolding track_filename_suffix two_digits file_number sanitize_and_bound
build_track_filename_with_codec meta codec =
    let suffix = track_filename_suffix meta.explicit codec in
    sanitize_and_bound max_filename_bytes
      (two_digits (file_number meta)
        ++ codes ". "
        ++ meta.title
        ++ codes " - "
        ++ meta.artist
        ++ suffix)
      (some suffix)

abbrev pub build_track_filename : TrackMeta → Text
build_track_filename meta = build_track_filename_with_codec meta (codes "alac")
