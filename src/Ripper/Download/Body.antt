-- ===== src/Ripper/Download/Body.antt =====
-- crates/engine/src/ripper.rs: what a download that ends well has written, and what is reported of one
-- that does not.
use alac_bot.Prelude.{
  ℕ, ◌≤◌, ◌≡◌, ap, sym, ◌∙◌, true, false, none, some, List, [], ◌∷◌, ◌++◌, arith, length,
  length-append, append-nil, append_assoc,
}
use alac_bot.Ripper.Error.{ok, Observation}
use alac_bot.Ripper.Download.{
  Bytes, max_audio_bytes, Taken, Round, Stream, Downloaded, expected_length, after_body, round,
  body_loop, download, prefetched, silence, chunk, broken, halt, continue,
}

abbrev pub arrived_by : Taken → Bytes
arrived_by prefetched = []
arrived_by (silence cancelled) = []
arrived_by (chunk bytes write_error) = bytes
arrived_by (broken detail cancelled) = []

-- The bytes that arrive.
abbrev pub arrived : List Round → Bytes
arrived [] = []
arrived (r ∷ rounds) = arrived_by r.taken ++ arrived rounds

-- A body of the expected length, if there is one.
abbrev pub IsExpected : Stream → Bytes → Type 0
IsExpected s b = (n : ℕ) → expected_length s ≡ some n → length b ≡ n

after_body-ok :
    (s : Stream) (raw b : Bytes) (o : List Observation)
    → after_body s raw ≡ (ok b, o)
    → (b ≡ raw) × (o ≡ []) × IsExpected s raw
unfolding after_body
after_body-ok s raw b o h = (ground arith, ground arith, λ n k. ground arith)

-- A round of a download that ends well does not end the loop.
pub round-continue :
    (s : Stream) (t : Taken) (raw b : Bytes) (rest : Bytes → Downloaded) (o : List Observation)
    → length raw ≤ max_audio_bytes
    → elim (round s t raw) [ halt d ↦ d | continue more ↦ rest more ] ≡ (ok b, o)
    → (length (raw ++ arrived_by t) ≤ max_audio_bytes) × (rest (raw ++ arrived_by t) ≡ (ok b, o))
unfolding round
round-continue s prefetched raw b rest o l h = rw (append-nil raw) (l, h)
round-continue s (silence true) raw b rest o l h = ground arith
round-continue s (silence false) raw b rest o l h = ground arith
round-continue s (broken detail true) raw b rest o l h = ground arith
round-continue s (broken detail false) raw b rest o l h = ground arith
round-continue s (chunk bytes (some text)) raw b rest o l h = ground arith
round-continue s (chunk bytes none) raw b rest o l h =
    (ground (arith, length-append raw bytes), ground arith)

body_loop-ok :
    (s : Stream) (rounds : List Round) (raw b : Bytes) (o : List Observation)
    → length raw ≤ max_audio_bytes
    → body_loop s rounds raw ≡ (ok b, o)
    → (b ≡ raw ++ arrived rounds) × (length b ≤ max_audio_bytes) × (o ≡ []) × IsExpected s b
unfolding body_loop
body_loop-ok s [] raw b o l h =
    let a : after_body s raw ≡ (ok b, o) = ground arith in
    let (same, none_seen, fits) = after_body-ok s raw b o a in
    (same ∙ sym (append-nil raw), ground arith, none_seen, λ n k. ap length same ∙ fits n k)
body_loop-ok s (r ∷ rounds) raw b o l h =
    let k : elim (round s r.taken raw) [ halt d ↦ d | continue more ↦ body_loop s rounds more ]
        ≡ (ok b, o) =
      ground arith in
    let (fits, goes_on) = round-continue s r.taken raw b (body_loop s rounds) o l k in
    let (same, small, none_seen, expected) =
      body_loop-ok s rounds (raw ++ arrived_by r.taken) b o fits goes_on in
    (same ∙ append_assoc raw (arrived_by r.taken) (arrived rounds), small, none_seen, expected)

-- A download that ends well has written the bytes that arrived, in order; they are no more than the
-- limit and as many as the length that was announced, if one was; and no failure is reported.
pub download-ok :
    (s : Stream) (b : Bytes) (o : List Observation)
    → download s ≡ (ok b, o)
    → (b ≡ arrived s.rounds) × (length b ≤ max_audio_bytes) × (o ≡ []) × IsExpected s b
unfolding download
download-ok s b o h =
    let k : body_loop s s.rounds [] ≡ (ok b, o) = ground arith in
    body_loop-ok s s.rounds [] b o (omega arith) k
