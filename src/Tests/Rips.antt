-- ===== src/Tests/Rips.antt =====
-- crates/engine/src/ripper.rs and tagger.rs on a short stream.
use alac_bot.Prelude.{ℕ, zero, suc, ◌≡◌, ◌↔◌, refl, true, false, none, some, List, [], ◌∷◌, ◌++◌}
use alac_bot.Prelude.Integers.{pos}
use alac_bot.Prelude.Text.{Text, codes, byte_len, trim, strip_suffix}
use alac_bot.Filename.{max_filename_bytes, bound_candidate, is_forbidden_char, bound_utf8_prefix}
use alac_bot.Filename.Bounds.{IsName}
use alac_bot.Tagger.{TrackMeta, build_track_filename_with_codec, track_filename_suffix}
use alac_bot.Tagger.Names.{build_track_filename_with_codec-IsName}
use alac_bot.Ripper.Error.{SourceId, RipError, ok, err, Observation}
use alac_bot.Ripper.Download.{Round, Stream, Taken, download}
use alac_bot.Ripper.Download.Body.{arrived}
use alac_bot.Ripper.Download.Whole.{IsWhole, download-ok_iff}
use alac_bot.Ripper.Download.Report.{report}
use alac_bot.Ripper.{Directory, Attempt, Finalized, Config, Pass, Ripped, rip}
use alac_bot.Ripper.Cleanup.{IsFresh, IsRemoved, IsTidy}
use alac_bot.Ripper.Retry.{IsEnded, rip-IsEnded, rip-IsTidy}

abbrev song : TrackMeta
song = record {
  title = codes "A/B";
  artist = codes "C";
  album = codes "D";
  duration_secs = pos 200;
  explicit = true;
  genre = none;
  release_date = codes "2020";
  track_number = some (pos 3);
  track_count = none;
  isrc = none;
}

abbrev quiet : Taken → Round
quiet t = record { cancelled = false; taken = t }

abbrev stream_of : List Round → Stream
stream_of rounds = record {
  source = SourceId.primary_mirror;
  content_length = some 3;
  create_error = none;
  rounds = rounds;
  cancelled_at_end = false;
  cancelled_short = false;
  flush_error = none;
  cancelled_flushed = false;
}

abbrev two_chunks : Stream
two_chunks = stream_of (
    quiet (Taken.chunk (1 ∷ 2 ∷ []) none)
    ∷ quiet Taken.prefetched
    ∷ quiet (Taken.chunk (3 ∷ []) none)
    ∷ [])

abbrev one_chunk : Stream
one_chunk = stream_of (quiet (Taken.chunk (1 ∷ 2 ∷ []) none) ∷ [])

abbrev attempt_at : Stream → ℕ → Attempt
attempt_at s lane = record {
  cancelled_first = false;
  target_error = none;
  lane = lane;
  lane_error = none;
  meta = ok song;
  cancelled_before_connect = false;
  connected = ok record { stream = s; codec = codes "alac"; bit_depth = 24; sample_rate = 96000 };
  collisions = [];
  reserve_error = none;
  cancelled_before_tags = false;
  finalize = λ raw. Finalized.finalized raw;
  partial = [];
  cancelled_decode = false;
  output_removed = true;
  lane_removed = true;
}

-- The first pass is short of bytes, and the others are whole.
abbrev passes : ℕ → Pass
passes zero = record {
  cancelled_at_head = false;
  attempt = attempt_at one_chunk 7;
  cancelled_after = false;
  cancelled_asleep = false;
}
passes (suc n) = record {
  cancelled_at_head = false;
  attempt = attempt_at two_chunks 8;
  cancelled_after = false;
  cancelled_asleep = false;
}

abbrev config : Config
config = record { max_retries = 3; base_delay_ms = 2000 }

abbrev empty_directory : Directory
empty_directory = record { lanes = []; outputs = [] }

delays : Ripped → List ℕ
delays (Ripped.ripped d r told ds) = ds
delays Ripped.unfinished = []

rip_test : delays (rip config passes empty_directory) ≡ 2000 ∷ []
unfolding rip delays
rip_test = refl

name_test :
    build_track_filename_with_codec song (codes "flac") ≡ codes "03. A_B - C [E] [FLAC].flac"
unfolding build_track_filename_with_codec bound_candidate strip_suffix trim is_forbidden_char
    byte_len bound_utf8_prefix
name_test = refl

rip-IsEnded_example : IsEnded config 0 3 (rip config passes empty_directory)
rip-IsEnded_example = rip-IsEnded config passes empty_directory

passes-IsFresh : (i : ℕ) → IsFresh (passes i).attempt empty_directory
passes-IsFresh zero = (refl, λ meta source h k. refl)
passes-IsFresh (suc i) = (refl, λ meta source h k. refl)

passes-IsRemoved : (i : ℕ) → IsRemoved (passes i).attempt
passes-IsRemoved zero = (refl, refl)
passes-IsRemoved (suc i) = (refl, refl)

rip-IsTidy_example : IsTidy empty_directory (rip config passes empty_directory)
rip-IsTidy_example = rip-IsTidy config passes empty_directory passes-IsFresh passes-IsRemoved

download-ok_iff_example : (download two_chunks ≡ (ok (1 ∷ 2 ∷ 3 ∷ []), [])) ↔ (
    ((1 ∷ 2 ∷ 3 ∷ []) ≡ arrived two_chunks.rounds)
    × (Path (List Observation) [] [])
    × IsWhole two_chunks)
download-ok_iff_example = download-ok_iff two_chunks (1 ∷ 2 ∷ 3 ∷ []) []

short : RipError
short = RipError.incomplete_body SourceId.primary_mirror 3 2

download-one_chunk : download one_chunk ≡ (err short, report SourceId.primary_mirror short)
unfolding download short
download-one_chunk = refl

build_track_filename_with_codec-IsName_example :
    IsName max_filename_bytes (build_track_filename_with_codec song (codes "flac"))
    × ((stem : Text) × (build_track_filename_with_codec song (codes "flac")
          ≡ stem ++ track_filename_suffix true (codes "flac")))
build_track_filename_with_codec-IsName_example =
    build_track_filename_with_codec-IsName song (codes "flac")
