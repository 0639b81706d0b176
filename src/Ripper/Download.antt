-- ===== src/Ripper/Download.antt =====
-- crates/engine/src/ripper.rs: the loop of `rip_once` that writes the audio stream into the raw file.
-- A round is what its `select!` takes. Progress and logging are left out.
pub mod Body
pub mod Report
pub mod Whole
use alac_bot.Prelude.{
  ℕ, ◌+◌, ◌-◌, ◌*◌, ◌/◌, Bool, true, false, not, ◌&&◌, Option, none, some, List, [], ◌∷◌, ◌++◌, ltb,
  ◌==◌, if◌then◌else◌, length,
}
use alac_bot.Prelude.Text.{Text}
use alac_bot.Ripper.Error.{
  SourceId, RipError, RipResult, ok, err, Observation, SourceFailureKind, error_text,
  stream_stalled, stream_corrupt, limit_exceeded, local_io,
}

abbrev pub Bytes : Type 0
Bytes = List ℕ

-- crates/engine/src/limits.rs: `MAX_AUDIO_BYTES`
abbrev pub max_audio_bytes : ℕ
max_audio_bytes = 512 * 1024 * 1024

abbrev pub inactivity_secs : ℕ
inactivity_secs = 45

-- What a round takes: a prefetch that is done, silence, a chunk (with the error of its write, if there
-- is one), or an error of the stream. Silence and errors look at the signal again.
pub data Taken : Type 0 where
  prefetched : Taken
  silence : Bool → Taken
  chunk : Bytes → Option Text → Taken
  broken : Text → Bool → Taken

pub record Round : Type 0 where
  pub cancelled : Bool
  pub taken : Taken

-- How the stream and the signal behave: the rounds until the stream is over, whether the signal is set
-- at the round that sees the end, where a short body is reported and after the flush, and the errors
-- of creating and flushing the file.
pub record Stream : Type 0 where
  pub source : SourceId
  pub content_length : Option ℕ
  pub create_error : Option Text
  pub rounds : List Round
  pub cancelled_at_end : Bool
  pub cancelled_short : Bool
  pub flush_error : Option Text
  pub cancelled_flushed : Bool

-- The bytes of the raw file, or an error, with the failures that the stage is told.
abbrev pub Downloaded : Type 0
Downloaded = RipResult Bytes × List Observation

abbrev pub observed : SourceId → SourceFailureKind → RipError → Downloaded
observed source kind e =
    (err e, record { source = source; kind = kind; detail = error_text e } ∷ [])

abbrev pub too_large : Downloaded
too_large = (err (limit_exceeded (max_audio_bytes / (1024 * 1024))), [])

-- The length that is expected: a length of zero counts as unknown.
unfoldable pub expected_length : Stream → Option ℕ
expected_length s = elim s.content_length [
  | none ↦ none
  | some n ↦ if ltb 0 n then some n else none
]

-- After the loop: the length is compared, and the file is flushed.
unfoldable pub after_body : Stream → Bytes → Downloaded
unfolding expected_length
after_body s raw =
    let flushed : Downloaded = elim s.flush_error [
      | some text ↦ (err (local_io text), [])
      | none ↦ if s.cancelled_flushed then (err RipError.cancelled, []) else (ok raw, [])
    ] in
    elim (expected_length s) [
      | none ↦ flushed
      | some expected ↦
          if length raw == expected
          then flushed
          else if s.cancelled_short
          then (err RipError.cancelled, [])
          else observed s.source SourceFailureKind.incomplete_body
              (RipError.incomplete_body s.source expected (length raw))
    ]

-- What a round does with the bytes so far: it ends the loop, or goes on with more of them.
pub data Progress : Type 0 where
  halt : Downloaded → Progress
  continue : Bytes → Progress

unfoldable pub round : Stream → Taken → Bytes → Progress
round s prefetched raw = continue raw
round s (silence cancelled) raw = halt (
    if cancelled
    then (err RipError.cancelled, [])
    else observed s.source SourceFailureKind.stream (stream_stalled s.source inactivity_secs))
round s (broken detail cancelled) raw = halt (
    if cancelled
    then (err RipError.cancelled, [])
    else observed s.source SourceFailureKind.stream (stream_corrupt s.source detail))
round s (chunk bytes write_error) raw =
    if ltb max_audio_bytes (length raw + length bytes) then halt too_large else elim write_error [
      | some text ↦ halt (err (local_io text), [])
      | none ↦ continue (raw ++ bytes)
    ]

unfoldable pub body_loop : Stream → List Round → Bytes → Downloaded
unfolding round after_body
body_loop s [] raw = if s.cancelled_at_end then (err RipError.cancelled, []) else after_body s raw
body_loop s (r ∷ rounds) raw =
    if r.cancelled
    then (err RipError.cancelled, [])
    else elim (round s r.taken raw) [ halt d ↦ d | continue more ↦ body_loop s rounds more ]

unfoldable pub download : Stream → Downloaded
unfolding expected_length body_loop
download s =
    let opened : Downloaded = elim s.create_error [
      | some text ↦ (err (local_io text), [])
      | none ↦ body_loop s s.rounds []
    ] in
    elim (expected_length s) [
      | none ↦ opened
      | some expected ↦ if ltb max_audio_bytes expected then too_large else opened
    ]
