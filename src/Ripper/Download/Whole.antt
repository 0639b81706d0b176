-- ===== src/Ripper/Download/Whole.antt =====
-- crates/engine/src/ripper.rs: the downloads that end well are those that nothing hinders.
use alac_bot.Prelude.{
  ℕ, ◌≤◌, ◌≡◌, ◌↔◌, refl, ap, sym, ◌∙◌, true, false, none, some, List, [], ◌∷◌, ◌++◌, arith, ltb,
  length, length-append, append-nil, append_assoc, All, Option-cases, inl, inr,
}
use alac_bot.Ripper.Error.{ok, Observation}
use alac_bot.Ripper.Download.{
  Bytes, max_audio_bytes, Taken, Round, Stream, Downloaded, expected_length, after_body, round,
  body_loop, download, prefetched, silence, chunk, broken, halt, continue,
}
use alac_bot.Ripper.Download.Body.{arrived_by, arrived, IsExpected, round-continue, download-ok}

-- A round that neither fails nor is silent.
abbrev pub IsCarried : Taken → Type 0
IsCarried prefetched = Unit
IsCarried (silence cancelled) = ⊥
IsCarried (chunk bytes write_error) = write_error ≡ none
IsCarried (broken detail cancelled) = ⊥

-- Nothing is cancelled, the file can be written, the body is within the limit and of the length that
-- was announced, if one was.
pub record IsWhole (s : Stream) : Type 0 where
  pub created : s.create_error ≡ none
  pub carried : All (λ (r : Round). (r.cancelled ≡ false) × IsCarried r.taken) s.rounds
  pub live : s.cancelled_at_end ≡ false
  pub flushed : s.flush_error ≡ none
  pub kept : s.cancelled_flushed ≡ false
  pub bounded : length (arrived s.rounds) ≤ max_audio_bytes
  pub announced : IsExpected s (arrived s.rounds)

after_body-whole :
    (s : Stream) (raw : Bytes)
    → s.flush_error ≡ none
    → s.cancelled_flushed ≡ false
    → IsExpected s raw
    → after_body s raw ≡ (ok raw, [])
unfolding after_body
after_body-whole s raw f k h = elim (Option-cases (expected_length s)) [
  | inl e ↦ ground (arith, e)
  | inr e ↦ ground (arith, e.1, h e.0 e.1)
]

round-whole :
    (s : Stream) (t : Taken) (raw : Bytes)
    → IsCarried t
    → length (raw ++ arrived_by t) ≤ max_audio_bytes
    → round s t raw ≡ continue (raw ++ arrived_by t)
unfolding round
round-whole s prefetched raw h l = ap continue (sym (append-nil raw))
round-whole s (silence cancelled) raw h l = elim h [ ]
round-whole s (broken detail cancelled) raw h l = elim h [ ]
round-whole s (chunk bytes write_error) raw h l = ground (arith, length-append raw bytes)

body_loop-whole :
    (s : Stream) (rounds : List Round) (raw : Bytes)
    → All (λ (r : Round). (r.cancelled ≡ false) × IsCarried r.taken) rounds
    → length (raw ++ arrived rounds) ≤ max_audio_bytes
    → s.cancelled_at_end ≡ false
    → ((b : Bytes) → b ≡ raw ++ arrived rounds → after_body s b ≡ (ok b, []))
    → body_loop s rounds raw ≡ (ok (raw ++ arrived rounds), [])
unfolding body_loop
body_loop-whole s [] raw c l a h = rw (a, append-nil raw) (h raw (sym (append-nil raw)))
body_loop-whole s (r ∷ rounds) raw c l a h =
    let again : raw ++ arrived_by r.taken ++ arrived rounds
        ≡ raw ++ (arrived_by r.taken ++ arrived rounds) =
      append_assoc raw (arrived_by r.taken) (arrived rounds) in
    let fits : length (raw ++ arrived_by r.taken) ≤ max_audio_bytes = omega (
      arith,
      length-append raw (arrived_by r.taken),
      length-append raw (arrived_by r.taken ++ arrived rounds),
      length-append (arrived_by r.taken) (arrived rounds),
    ) in
    rw (c.0.0, round-whole s r.taken raw c.0.1 fits)
      (body_loop-whole s rounds (raw ++ arrived_by r.taken) c.1 (rw again l) a
          (λ b k. h b (k ∙ again))
        ∙ ap (λ x. (ok x, [])) again)

expected_within :
    (s : Stream) (b : Bytes) (n : ℕ)
    → IsExpected s b
    → length b ≤ max_audio_bytes
    → expected_length s ≡ some n
    → ltb max_audio_bytes n ≡ false
expected_within s b n h l e = ground (arith, h n e)

download-whole : (s : Stream) → IsWhole s → download s ≡ (ok (arrived s.rounds), [])
unfolding download
download-whole s w =
    let body : body_loop s s.rounds [] ≡ (ok (arrived s.rounds), []) =
      body_loop-whole s s.rounds [] w.carried w.bounded w.live
        λ b k. after_body-whole s b w.flushed w.kept (λ n e. ap length k ∙ w.announced n e) in
    elim (Option-cases (expected_length s)) [
      | inl e ↦ ground (arith, body, w.created, e)
      | inr e ↦ ground (
        arith,
        body,
        w.created,
        e.1,
        expected_within s (arrived s.rounds) e.0 w.announced w.bounded e.1,
      )
    ]

after_body-kept :
    (s : Stream) (raw b : Bytes) (o : List Observation)
    → after_body s raw ≡ (ok b, o)
    → (s.flush_error ≡ none) × (s.cancelled_flushed ≡ false)
unfolding after_body
after_body-kept s raw b o h = (ground (arith, h), ground (arith, h))

round-IsCarried :
    (s : Stream) (t : Taken) (raw b : Bytes) (rest : Bytes → Downloaded) (o : List Observation)
    → elim (round s t raw) [ halt d ↦ d | continue more ↦ rest more ] ≡ (ok b, o)
    → IsCarried t
unfolding round
round-IsCarried s prefetched raw b rest o h = tt
round-IsCarried s (silence true) raw b rest o h = ground arith
round-IsCarried s (silence false) raw b rest o h = ground arith
round-IsCarried s (broken detail true) raw b rest o h = ground arith
round-IsCarried s (broken detail false) raw b rest o h = ground arith
round-IsCarried s (chunk bytes (some text)) raw b rest o h = ground arith
round-IsCarried s (chunk bytes none) raw b rest o h = refl

body_loop-IsCarried :
    (s : Stream) (rounds : List Round) (raw b : Bytes) (o : List Observation)
    → length raw ≤ max_audio_bytes
    → body_loop s rounds raw ≡ (ok b, o)
    → All (λ (r : Round). (r.cancelled ≡ false) × IsCarried r.taken) rounds
      × (s.cancelled_at_end ≡ false)
      × (s.flush_error ≡ none)
      × (s.cancelled_flushed ≡ false)
unfolding body_loop
body_loop-IsCarried s [] raw b o l h =
    let a : after_body s raw ≡ (ok b, o) = ground arith in
    let (flushed, kept) = after_body-kept s raw b o a in (tt, ground arith, flushed, kept)
body_loop-IsCarried s (r ∷ rounds) raw b o l h =
    let k : elim (round s r.taken raw) [ halt d ↦ d | continue more ↦ body_loop s rounds more ]
        ≡ (ok b, o) =
      ground arith in
    let (fits, goes_on) = round-continue s r.taken raw b (body_loop s rounds) o l k in
    let (carried, live, flushed, kept) =
      body_loop-IsCarried s rounds (raw ++ arrived_by r.taken) b o fits goes_on in
    (
      ((ground arith, round-IsCarried s r.taken raw b (body_loop s rounds) o k), carried),
      live,
      flushed,
      kept,
    )

download-IsWhole :
    (s : Stream) (b : Bytes) (o : List Observation) → download s ≡ (ok b, o) → IsWhole s
unfolding download
download-IsWhole s b o h =
    let k : body_loop s s.rounds [] ≡ (ok b, o) = ground arith in
    let (carried, live, flushed, kept) = body_loop-IsCarried s s.rounds [] b o (omega arith) k in
    let (same, bounded, seen, announced) = download-ok s b o h in
    record {
      created = ground arith;
      carried = carried;
      live = live;
      flushed = flushed;
      kept = kept;
      bounded = omega (arith, bounded, ap length same);
      announced = λ n e. sym (ap length same) ∙ announced n e;
    }

-- A download ends well exactly if nothing hinders it: no signal, no error of a file, no silence and no
-- broken stream, and a body within the limit and of the length that was announced, if one was. It has
-- then written the bytes that arrived, in order, and no failure is reported.
pub download-ok_iff :
    (s : Stream) (b : Bytes) (o : List Observation)
    → (download s ≡ (ok b, o)) ↔ ((b ≡ arrived s.rounds) × (o ≡ []) × IsWhole s)
download-ok_iff s b o = (
  λ h.
      (let (same, bounded, seen, announced) = download-ok s b o h in
        (same, seen, download-IsWhole s b o h)),
  λ h. download-whole s h.2 ∙ ap (λ x. (ok x, [])) (sym h.0) ∙ ap (λ x. (ok b, x)) (sym h.1),
)
