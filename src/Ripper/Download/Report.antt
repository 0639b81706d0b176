-- ===== src/Ripper/Download/Report.antt =====
-- crates/engine/src/ripper.rs: which failures of a download the stage is told.
use alac_bot.Prelude.{◌≡◌, ap, Bool-cases, inl, inr, List, [], ◌∷◌, arith}
use alac_bot.Ripper.Error.{SourceId, RipError, err, Observation, SourceFailureKind, error_text}
use alac_bot.Ripper.Download.{
  Bytes, Taken, Round, Stream, Downloaded, after_body, Progress, round, body_loop, download,
  prefetched, silence, chunk, broken, halt, continue,
}
use RipError.{stream_stalled, stream_corrupt}

abbrev told : SourceId → SourceFailureKind → RipError → List Observation
told source kind e = record { source = source; kind = kind; detail = error_text e } ∷ []

-- Silence, a broken stream and a short body are the source's; nothing else is.
abbrev pub report : SourceId → RipError → List Observation
report source (stream_stalled at secs) =
    told source SourceFailureKind.stream (stream_stalled at secs)
report source (stream_corrupt at detail) =
    told source SourceFailureKind.stream (stream_corrupt at detail)
report source (RipError.incomplete_body at expected received) =
    told source SourceFailureKind.incomplete_body (RipError.incomplete_body at expected received)
report source _ = []

after_body-report :
    (s : Stream) (raw : Bytes) (e : RipError) (o : List Observation)
    → after_body s raw ≡ (err e, o)
    → o ≡ report s.source e
unfolding after_body
after_body-report s raw e o h = ground arith

round-report :
    (s : Stream) (t : Taken) (raw : Bytes) (e : RipError) (o : List Observation)
    → round s t raw ≡ halt (err e, o)
    → o ≡ report s.source e
unfolding round
round-report s prefetched raw e o h = ground arith
round-report s (silence cancelled) raw e o h = ground arith
round-report s (broken detail cancelled) raw e o h = ground arith
round-report s (chunk bytes write_error) raw e o h = ground arith

halted-report :
    (s : Stream) (p : Progress) (rest : Bytes → Downloaded) (e : RipError) (o : List Observation)
    → ((x : List Observation) → p ≡ halt (err e, x) → x ≡ report s.source e)
    → ((more : Bytes) → rest more ≡ (err e, o) → o ≡ report s.source e)
    → elim p [ halt d ↦ d | continue more ↦ rest more ] ≡ (err e, o)
    → o ≡ report s.source e
halted-report s (halt d) rest e o h k q = h o (ap halt q)
halted-report s (continue more) rest e o h k q = k more q

body_loop-report :
    (s : Stream) (rounds : List Round) (raw : Bytes) (e : RipError) (o : List Observation)
    → body_loop s rounds raw ≡ (err e, o)
    → o ≡ report s.source e
unfolding body_loop
body_loop-report s [] raw e o h = ground (arith, after_body-report s raw e o)
body_loop-report s (r ∷ rounds) raw e o h = elim (Bool-cases r.cancelled) [
  | inl y ↦ ground arith
  | inr y ↦
      halted-report s (round s r.taken raw) (body_loop s rounds) e o (round-report s r.taken raw e)
        (λ more. body_loop-report s rounds more e o) (ground arith)
]

-- A download that ends with an error tells the stage of it exactly if it is silence, a broken stream
-- or a short body, with its source and its text; never of a cancellation, a local error or a limit.
pub download-report :
    (s : Stream) (e : RipError) (o : List Observation)
    → download s ≡ (err e, o)
    → o ≡ report s.source e
unfolding download
download-report s e o h = ground (arith, body_loop-report s s.rounds [] e o)
