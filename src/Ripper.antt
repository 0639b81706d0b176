-- ===== src/Ripper.antt =====
-- crates/engine/src/ripper.rs: `rip_once`, which stages one track in a private directory and moves it
-- to its name, and `rip`, which tries again. Progress events, logging and the prefetch of lyrics and
-- artwork are left out, and with them the tags.
pub mod Error
pub mod Download
pub mod Cleanup
pub mod Retry
use alac_bot.Prelude.{
  ℕ, zero, suc, ◌+◌, ◌-◌, ◌*◌, ◌^◌, ◌%◌, Bool, true, false, not, ◌&&◌, Option, none, some, List, [],
  ◌∷◌, ◌++◌, ltb, leb, ◌==◌, if◌then◌else◌,
}
use alac_bot.Prelude.Integers.{ℤ, pos}
use alac_bot.Prelude.Text.{Text, codes, text_eq}
use alac_bot.Prelude.Decimal.{print}
use alac_bot.Prelude.Words.{u64_mod}
use alac_bot.Filename.{max_filename_bytes, with_collision_id}
use alac_bot.Tagger.{TrackMeta, build_track_filename_with_codec}
use alac_bot.Ripper.Error.{
  SourceId, RipError, RipResult, ok, err, Observation, SourceFailureKind, error_text, is_final,
  decode, local_io, message,
}
use alac_bot.Ripper.Download.{Bytes, Stream, Downloaded, download, observed}

-- The directory of the rips: the private directories by their suffix, and the files by name.
pub record Directory : Type 0 where
  pub lanes : List ℕ
  pub outputs : List (Text × Bytes)

-- crates/media/src/lib.rs: `MediaError`, as far as it is told apart.
pub data MediaError : Type 0 where
  source_decode source_invalid io_failed other : Text → MediaError

pub data Finalized : Type 0 where
  finalized : Bytes → Finalized
  media_failed : MediaError → Finalized

-- `AudioStreamSource`: the stream and its format.
pub record AudioStreamSource : Type 0 where
  pub stream : Stream
  pub codec : Text
  pub bit_depth : ℕ
  pub sample_rate : ℕ

-- What an attempt meets, in the order in which it asks: the signal, the file system, the stage, the
-- suffix that is drawn each time a name exists already, the media tools (whose output may be partial
-- when they fail), and the signal again; then whether the removals of the output and of the private
-- directory succeed, whose errors are passed over.
pub record Attempt : Type 0 where
  pub cancelled_first : Bool
  pub target_error : Option Text
  pub lane : ℕ
  pub lane_error : Option Text
  pub meta : RipResult TrackMeta
  pub cancelled_before_connect : Bool
  pub connected : RipResult AudioStreamSource
  pub collisions : List ℕ
  pub reserve_error : Option Text
  pub cancelled_before_tags : Bool
  pub finalize : Bytes → Finalized
  pub partial : Bytes
  pub cancelled_decode : Bool
  pub output_removed : Bool
  pub lane_removed : Bool

pub record TrackRipResult : Type 0 where
  pub file_path : Text
  pub title : Text
  pub artist : Text
  pub album : Text
  pub duration : ℤ
  pub bit_depth : ℕ
  pub sample_rate : ℕ
  pub codec : Text
  pub genre : Text
  pub release_date : Text
  pub track_number : ℤ
  pub track_count : ℤ
  pub isrc : Option Text

-- The directory after an attempt, its result, and what the stage was told.
abbrev pub Outcome : Type 0
Outcome = Directory × RipResult TrackRipResult × List Observation

unfoldable pub remove_lane : ℕ → List ℕ → List ℕ
remove_lane n [] = []
remove_lane n (m ∷ lanes) = if m == n then remove_lane n lanes else m ∷ remove_lane n lanes

unfoldable pub remove_output : Text → List (Text × Bytes) → List (Text × Bytes)
unfolding text_eq
remove_output name [] = []
remove_output name (f ∷ files) =
    if text_eq f.0 name then remove_output name files else f ∷ remove_output name files

unfoldable pub map_media_finalize_error : MediaError → RipError
map_media_finalize_error (source_decode text) = decode none text
map_media_finalize_error (source_invalid text) = decode none text
map_media_finalize_error (io_failed text) = local_io text
map_media_finalize_error (other text) = message text

abbrev pub or_default {ℓ} : {A : Type ℓ} → Option A → A → A
or_default none d = d
or_default (some a) d = a

abbrev pub non_empty : Option Text → Option Text
non_empty none = none
non_empty (some s) = if text_eq s [] then none else some s

unfoldable pub rip_result : TrackMeta → AudioStreamSource → Text → TrackRipResult
unfolding text_eq
rip_result meta source name = record {
  file_path = name;
  title = meta.title;
  artist = meta.artist;
  album = meta.album;
  duration = meta.duration_secs;
  bit_depth = source.bit_depth;
  sample_rate = source.sample_rate;
  codec = source.codec;
  genre = or_default (non_empty meta.genre) (codes "Unknown");
  release_date = meta.release_date;
  track_number = or_default meta.track_number (pos 1);
  track_count = or_default meta.track_count (pos 1);
  isrc = non_empty meta.isrc;
}

-- The loop that reserves a name: each suffix makes the next name of the base, as the one before it
-- exists already.
unfoldable pub reserve_loop : Text → Text → List ℕ → Text
unfolding with_collision_id print
reserve_loop base name [] = name
reserve_loop base name (id ∷ ids) =
    reserve_loop base (with_collision_id max_filename_bytes base (print id)) ids

unfoldable pub output_name : TrackMeta → Text → List ℕ → Text
unfolding build_track_filename_with_codec reserve_loop
output_name meta codec ids =
    let base = build_track_filename_with_codec meta codec in reserve_loop base base ids

-- The end of the inner block: the finished file under its name, or an error with what the stage is
-- told. An error of the source's own audio gets the source.
unfoldable pub finalize_error : Attempt → SourceId → RipError → RipResult Bytes × List Observation
unfolding error_text
finalize_error a source (decode known detail) =
    if a.cancelled_decode
    then (err RipError.cancelled, [])
    else observed source SourceFailureKind.media_validation
        (decode (some (or_default known source)) detail)
finalize_error a source e = (err e, [])

unfoldable pub finish : Attempt → SourceId → Downloaded → RipResult Bytes × List Observation
unfolding finalize_error map_media_finalize_error
finish a source (err e, told) = (err e, told)
finish a source (ok raw, told) =
    if a.cancelled_before_tags then (err RipError.cancelled, told) else elim (a.finalize raw) [
      | finalized content ↦ (ok content, told)
      | media_failed e ↦ finalize_error a source (map_media_finalize_error e)
    ]

-- The file stands under its name from its reservation on; when the inner block fails it is to be
-- removed.
unfoldable pub keep_or_remove :
    Attempt
    → TrackMeta
    → AudioStreamSource
    → Text
    → RipResult Bytes × List Observation
    → Directory
    → Outcome
unfolding rip_result remove_output
keep_or_remove a meta source name (ok content, told) d =
    (record d { outputs = (name, content) ∷ d.outputs }, ok (rip_result meta source name), told)
keep_or_remove a meta source name (err e, told) d = (
  record d {
    outputs =
        if a.output_removed
        then remove_output name ((name, a.partial) ∷ d.outputs)
        else (name, a.partial) ∷ d.outputs;
  },
  err e,
  told,
)

unfoldable pub with_stream : Attempt → TrackMeta → RipResult AudioStreamSource → Directory → Outcome
unfolding output_name download finish keep_or_remove
with_stream a meta (err e) d = (d, err e, [])
with_stream a meta (ok source) d = elim a.reserve_error [
  | some text ↦ (d, err (local_io text), [])
  | none ↦
      keep_or_remove a meta source (output_name meta source.codec a.collisions)
        (finish a source.stream.source (download source.stream)) d
]

unfoldable pub with_meta : Attempt → RipResult TrackMeta → Directory → Outcome
unfolding with_stream
with_meta a (err e) d = (d, err e, [])
with_meta a (ok meta) d =
    if a.cancelled_before_connect
    then (d, err RipError.cancelled, [])
    else with_stream a meta a.connected d

abbrev pub leave_lane : Attempt → Outcome → Outcome
leave_lane a (d, result, told) = (
  record d { lanes = if a.lane_removed then remove_lane a.lane d.lanes else d.lanes },
  result,
  told,
)

abbrev pub enter_lane : ℕ → Directory → Directory
enter_lane n d = record d { lanes = n ∷ d.lanes }

-- The private directory is to be removed whatever happens after it was made, or half made.
unfoldable pub rip_once : Attempt → Directory → Outcome
unfolding with_meta remove_lane
rip_once a d = if a.cancelled_first then (d, err RipError.cancelled, []) else elim a.target_error [
  | some text ↦ (d, err (local_io text), [])
  | none ↦ elim a.lane_error [
    | some text ↦ leave_lane a (enter_lane a.lane d, err (local_io text), [])
    | none ↦ leave_lane a (with_meta a a.meta (enter_lane a.lane d))
  ]
]

-- `RipperConfig`: the knobs of the retries.
pub record Config : Type 0 where
  pub max_retries : ℕ
  pub base_delay_ms : ℕ

-- A pass of the loop of `rip`: the signal at its head, the attempt, the signal after a failure, and
-- whether the signal ends the sleep.
pub record Pass : Type 0 where
  pub cancelled_at_head : Bool
  pub attempt : Attempt
  pub cancelled_after : Bool
  pub cancelled_asleep : Bool

-- Before the jitter; the arithmetic of `u64` wraps around.
abbrev pub raw_delay : Config → ℕ → ℕ
raw_delay cfg attempt = (cfg.base_delay_ms * (2 ^ (attempt - 1) % u64_mod)) % u64_mod

-- What `rip` returns: the directory, the result, all that the stage was told, and the delays before
-- their jitter. `unfinished` is a loop that is still going when the fuel is used up.
pub data Ripped : Type 0 where
  ripped : Directory → RipResult TrackRipResult → List Observation → List ℕ → Ripped
  unfinished : Ripped

abbrev pub before : List Observation → List ℕ → Ripped → Ripped
before told delays (ripped d result more_told more_delays) =
    ripped d result (told ++ more_told) (delays ++ more_delays)
before told delays unfinished = unfinished

-- After a failed attempt: `again` is the rest of the loop.
unfoldable pub after_failure :
    Config → Pass → ℕ → RipError → Directory → List Observation → (ℕ → Directory → Ripped) → Ripped
unfolding is_final
after_failure cfg p attempt e d told again =
    if is_final e
    then ripped d (err e) told []
    else if p.cancelled_after
    then ripped d (err RipError.cancelled) told []
    else if leb cfg.max_retries attempt
    then ripped d (err e) told []
    else if p.cancelled_asleep
    then ripped d (err RipError.cancelled) told (raw_delay cfg (attempt + 1) ∷ [])
    else before told (raw_delay cfg (attempt + 1) ∷ []) (again (attempt + 1) d)

unfoldable pub after_attempt : Config → Pass → ℕ → Outcome → (ℕ → Directory → Ripped) → Ripped
unfolding after_failure
after_attempt cfg p attempt (d, ok r, told) again = ripped d (ok r) told []
after_attempt cfg p attempt (d, err e, told) again = after_failure cfg p attempt e d told again

-- `loop`, from the pass of number `attempt` on.
unfoldable pub rip_loop : Config → (ℕ → Pass) → ℕ → ℕ → Directory → Ripped
unfolding rip_once after_attempt
rip_loop cfg passes zero attempt d = unfinished
rip_loop cfg passes (suc fuel) attempt d =
    if (passes attempt).cancelled_at_head
    then ripped d (err RipError.cancelled) [] []
    else after_attempt cfg (passes attempt) attempt (rip_once (passes attempt).attempt d)
        (λ next after. rip_loop cfg passes fuel next after)

unfoldable pub rip : Config → (ℕ → Pass) → Directory → Ripped
unfolding rip_loop
rip cfg passes d = rip_loop cfg passes (cfg.max_retries + 1) 0 d
