-- ===== src/Ripper/Error.antt =====
-- crates/engine/src/ripper.rs and streaming/source_id.rs: the errors of a rip and their texts.
use alac_bot.Prelude.{ℕ, Bool, true, false, Option, ◌++◌}
use alac_bot.Prelude.Text.{Text, codes}
use alac_bot.Prelude.Decimal.{print}

pub data SourceId : Type 0 where
  primary_mirror : SourceId
  wrapper_lite wrapper_candidate qobuz_backend : Text → SourceId
  qobuz_native : SourceId

pub data RipError : Type 0 where
  cancelled : RipError
  track_unavailable rendition_unavailable local_io : Text → RipError
  source_offline : SourceId → RipError
  stream_corrupt : SourceId → Text → RipError
  incomplete_body : SourceId → ℕ → ℕ → RipError
  stream_stalled : SourceId → ℕ → RipError
  timeout : Option SourceId → Text → RipError
  authentication : SourceId → RipError
  playlist_parse : Text → Text → RipError
  license decrypt : Text → RipError
  decode : Option SourceId → Text → RipError
  limit_exceeded : ℕ → RipError
  message : Text → RipError

-- `Display`
unfoldable pub source_text : SourceId → Text
source_text primary_mirror = codes "primary mirror"
source_text (wrapper_lite url) = codes "wrapper-lite (" ++ url ++ codes ")"
source_text (wrapper_candidate endpoint) = codes "wrapper candidate (" ++ endpoint ++ codes ")"
source_text (qobuz_backend url) = codes "qobuz backend (" ++ url ++ codes ")"
source_text qobuz_native = codes "qobuz native ripper"

unfoldable pub error_text : RipError → Text
unfolding source_text print
error_text cancelled = codes "Download was cancelled"
error_text (track_unavailable reason) = codes "track unavailable: " ++ reason
error_text (rendition_unavailable reason) = codes "rendition unavailable: " ++ reason
error_text (local_io text) = codes "local file error: " ++ text
error_text (source_offline source) = source_text source ++ codes " is offline"
error_text (stream_corrupt source detail) =
    codes "stream corrupt on " ++ source_text source ++ codes ": " ++ detail
error_text (incomplete_body source expected received) =
    codes "incomplete audio body from "
    ++ source_text source
    ++ codes ": expected "
    ++ print expected
    ++ codes " bytes, received "
    ++ print received
error_text (stream_stalled source secs) =
    codes "audio stream stalled on "
    ++ source_text source
    ++ codes ": no data received for "
    ++ print secs
    ++ codes "s"
error_text (timeout source detail) = codes "operation timed out: " ++ detail
error_text (authentication source) = codes "authentication failed on " ++ source_text source
error_text (playlist_parse which detail) = which ++ codes " playlist parse failed: " ++ detail
error_text (license detail) = codes "license error: " ++ detail
error_text (decrypt detail) = codes "decrypt failed: " ++ detail
error_text (decode source detail) = codes "audio decode failed: " ++ detail
error_text (limit_exceeded limit_mib) =
    codes "audio stream exceeds the " ++ print limit_mib ++ codes " MiB limit"
error_text (message text) = text

-- The errors after which the ripper does not try again.
unfoldable pub is_final : RipError → Bool
is_final cancelled = true
is_final (track_unavailable reason) = true
is_final (rendition_unavailable reason) = true
is_final (local_io text) = true
is_final (source_offline source) = true
is_final _ = false

pub data RipResult {ℓ} (A : Type ℓ) : Type ℓ where
  ok : A → RipResult A
  err : RipError → RipResult A

pub data SourceFailureKind : Type 0 where
  stream incomplete_body media_validation : SourceFailureKind

-- A call of `observe_stream_failure`.
pub record Observation : Type 0 where
  pub source : SourceId
  pub kind : SourceFailureKind
  pub detail : Text
