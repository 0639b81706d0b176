-- ===== src/Tests/Names.antt =====
-- crates/engine/src/filename.rs and crates/engine/src/zip.rs on concrete names and tracks.
use alac_bot.Prelude.{
  ℕ, ◌+◌, ◌<◌, ◌≡◌, refl, Option, none, some, List, [], ◌∷◌, arith, All, map, if◌then◌else◌,
}
use alac_bot.Prelude.Text.{Text, codes, byte_len, text_eq, trim, strip_suffix, split_on}
use alac_bot.Prelude.Decimal.{print, is_digit}
use alac_bot.Filename.{
  NameResult, FilenameError, try_new, sanitize_and_bound, bound_utf8_prefix, is_forbidden_char,
  is_char_boundary, bound_candidate,
}
use alac_bot.Filename.Bounds.{IsName, sanitize_and_bound-IsName}
use alac_bot.Filename.Prefix.{fit, bound_utf8_prefix-fit}
use alac_bot.ZipPlan
use alac_bot.ZipPlan.{
  ZipTrackEntry, ZipPartPlan, Naming, plan_zip_parts_with_codec, check_tracks, validate_entry_name,
  cover_bytes, usable_bytes, group_tracks, number_parts, part_plan, part_suffix,
  archive_codec_label, year_part,
}
use alac_bot.ZipPlan.Groups.{joined, IsGroup, sizes}
use alac_bot.ZipPlan.Parts.{joined-plan, plan-IsGroup, group_tracks-oversized}

abbrev song : Text
song = codes "Artist: Song / Remix [ALAC].m4a"

sanitize_song :
    sanitize_and_bound 255 song (some (codes " [ALAC].m4a"))
    ≡ codes "Artist_ Song _ Remix [ALAC].m4a"
unfolding sanitize_and_bound bound_candidate bound_utf8_prefix is_forbidden_char text_eq trim
    strip_suffix byte_len is_char_boundary
sanitize_song = refl

too_long_name : try_new 5 (codes "toolong.m4a") ≡ NameResult.err (FilenameError.too_long 11 5)
unfolding try_new text_eq trim byte_len
too_long_name = refl

sanitize_and_bound-IsName_example : IsName 255 (sanitize_and_bound 255 song none)
sanitize_and_bound-IsName_example = sanitize_and_bound-IsName 255 song none (omega arith)

bound_utf8_prefix-fit_example : bound_utf8_prefix (codes "aé") 2 ≡ fit 2 (codes "aé")
bound_utf8_prefix-fit_example = bound_utf8_prefix-fit (codes "aé") 2

abbrev one_track : ZipTrackEntry
one_track = record { file_path = codes "/t/1"; archive_filename = codes "1.m4a"; file_size = 600 }

abbrev two_track : ZipTrackEntry
two_track = record { file_path = codes "/t/2"; archive_filename = codes "2.m4a"; file_size = 500 }

abbrev sizes_on_disk : Text → Option ℕ
sizes_on_disk path = if text_eq path (codes "/t/1") then some 600 else some 500

abbrev naming : Naming
naming = record {
  artist = codes "A";
  album = codes "B";
  release_date = codes "2024-01-02";
  codec = codes "flac";
}

-- Room for a thousand bytes beside the overhead of three entries: two parts.
abbrev two_parts : List ZipPartPlan
two_parts =
    part 1 (one_track ∷ []) (codes "A - B (2024) [FLAC] (Part 1 of 2).zip")
    ∷ part 2 (two_track ∷ []) (codes "A - B (2024) [FLAC] (Part 2 of 2).zip")
    ∷ []
  where
    part : ℕ → List ZipTrackEntry → Text → ZipPartPlan
    part i ts name = record {
      part_index = i;
      total_parts = 2;
      tracks = ts;
      cover_path = none;
      archive_filename = name;
    }

plan-two_parts :
    plan_zip_parts_with_codec sizes_on_disk naming (one_track ∷ two_track ∷ []) none 68072
    ≡ ZipPlan.ok two_parts
unfolding plan_zip_parts_with_codec check_tracks validate_entry_name cover_bytes usable_bytes
    group_tracks number_parts part_plan part_suffix archive_codec_label year_part sanitize_and_bound
    bound_candidate bound_utf8_prefix is_forbidden_char text_eq trim strip_suffix byte_len
    is_char_boundary split_on print is_digit
plan-two_parts = refl

joined-plan_example :
    joined (map (λ (p : ZipPartPlan). p.tracks) two_parts) ≡ one_track ∷ two_track ∷ []
joined-plan_example =
    joined-plan sizes_on_disk naming (one_track ∷ two_track ∷ []) none 68072 two_parts
      plan-two_parts

plan-IsGroup_example :
    (cover_size usable : ℕ) × (cover_bytes sizes_on_disk none ≡ ZipPlan.ok cover_size)
    × (usable_bytes (one_track ∷ two_track ∷ []) none 68072 ≡ ZipPlan.ok usable)
    × All (IsGroup usable cover_size) (map (λ (p : ZipPartPlan). p.tracks) two_parts)
plan-IsGroup_example =
    plan-IsGroup sizes_on_disk naming (one_track ∷ two_track ∷ []) none 68072 two_parts
      plan-two_parts

abbrev second_part : ZipPartPlan
second_part = record {
  part_index = 2;
  total_parts = 2;
  tracks = two_track ∷ [];
  cover_path = none;
  archive_filename = codes "A - B (2024) [FLAC] (Part 2 of 2).zip";
}

group_tracks-oversized_example :
    (g : List ZipTrackEntry) × (group_tracks 1000 500 [] [] 500 (one_track ∷ [])
      ≡ ZipPlan.ok (g ∷ []))
    × (1000 < 500 + sizes g)
group_tracks-oversized_example =
    group_tracks-oversized 1000 500 one_track (omega arith) (omega arith) (omega arith)
