-- ===== src/Ripper/Cleanup.antt =====
-- crates/engine/src/ripper.rs: what a rip leaves in its directory.
use alac_bot.Prelude.{
  ℕ, zero, suc, leb, ◌+◌, ◌≡◌, refl, ap, sym, ◌∙◌, Bool, true, false, ◌||◌, List, [], ◌∷◌, arith,
  ◌==◌, if◌then◌else◌, Bool-cases, Option-cases, inl, inr, subst,
}
use alac_bot.Prelude.Text.{Text, text_eq, text_eq_refl}
use alac_bot.Tagger.{TrackMeta}
use alac_bot.Ripper.Error.{RipError, RipResult, ok, err, local_io, is_final, Observation}
use alac_bot.Ripper.Download.{Bytes, download}
use alac_bot.Ripper.{
  Directory, Attempt, AudioStreamSource, TrackRipResult, Outcome, remove_lane, remove_output,
  output_name, finish, keep_or_remove, with_stream, with_meta, leave_lane, enter_lane, rip_once,
  rip_result, Config, Pass, Ripped, ripped, unfinished, before, after_failure, after_attempt,
  rip_loop, raw_delay,
}

abbrev pub lane_taken : ℕ → List ℕ → Bool
lane_taken n [] = false
lane_taken n (m ∷ lanes) = m == n || lane_taken n lanes

abbrev pub name_taken : Text → List (Text × Bytes) → Bool
name_taken name [] = false
name_taken name (f ∷ files) = text_eq f.0 name || name_taken name files

remove_lane-free :
    (n : ℕ) (lanes : List ℕ) → lane_taken n lanes ≡ false → remove_lane n lanes ≡ lanes
unfolding remove_lane
remove_lane-free n [] h = refl
remove_lane-free n (m ∷ lanes) h = ground (arith, remove_lane-free n lanes)

remove_output-free :
    (name : Text) (files : List (Text × Bytes))
    → name_taken name files ≡ false
    → remove_output name files ≡ files
unfolding remove_output
remove_output-free name [] h = refl
remove_output-free name (f ∷ files) h = ground (arith, remove_output-free name files)

-- The private directory is a new one, and `create_new` has opened only a file that did not exist.
abbrev pub IsFresh : Attempt → Directory → Type 0
IsFresh a d =
    (lane_taken a.lane d.lanes ≡ false)
    × ((meta : TrackMeta) (source : AudioStreamSource)
        → a.meta ≡ ok meta
        → a.connected ≡ ok source
        → name_taken (output_name meta source.codec a.collisions) d.outputs ≡ false)

-- What is to be removed is removed.
abbrev pub IsRemoved : Attempt → Type 0
IsRemoved a = (a.output_removed ≡ true) × (a.lane_removed ≡ true)

-- A rip that fails leaves the directory as it was, and one that succeeds adds its file to it.
abbrev pub IsLeft : Directory → RipResult TrackRipResult → Directory → Type 0
IsLeft d (err e) after = after ≡ d
IsLeft d (ok result) after =
    (content : Bytes) × (after ≡ record d { outputs = (result.file_path, content) ∷ d.outputs })

keep_or_remove-IsLeft :
    (a : Attempt) (meta : TrackMeta) (source : AudioStreamSource) (name : Text)
    (x : RipResult Bytes × List Observation) (d : Directory)
    → a.output_removed ≡ true
    → name_taken name d.outputs ≡ false
    → IsLeft d (keep_or_remove a meta source name x d).1 (keep_or_remove a meta source name x d).0
unfolding keep_or_remove
keep_or_remove-IsLeft a meta source name (ok content, told) d o h =
    (content, unfold rip_result in refl)
keep_or_remove-IsLeft a meta source name (err e, told) d o h =
    unfold remove_output in
    rw (o, text_eq_refl name)
      (ap (λ files. record d { outputs = files }) (remove_output-free name d.outputs h))

with_stream-IsLeft :
    (a : Attempt) (meta : TrackMeta) (connected : RipResult AudioStreamSource) (d : Directory)
    → a.output_removed ≡ true
    → ((source : AudioStreamSource)
        → connected ≡ ok source
        → name_taken (output_name meta source.codec a.collisions) d.outputs ≡ false)
    → IsLeft d (with_stream a meta connected d).1 (with_stream a meta connected d).0
unfolding with_stream
with_stream-IsLeft a meta (err e) d o h = refl
with_stream-IsLeft a meta (ok source) d o h = elim (Option-cases a.reserve_error) [
  | inr y ↦ rw y.1 refl
  | inl y ↦ rw y (
      keep_or_remove-IsLeft a meta source (output_name meta source.codec a.collisions)
        (finish a source.stream.source (download source.stream)) d o (h source refl))
]

with_meta-IsLeft :
    (a : Attempt) (m : RipResult TrackMeta) (d : Directory)
    → a.output_removed ≡ true
    → ((meta : TrackMeta) (source : AudioStreamSource)
        → m ≡ ok meta
        → a.connected ≡ ok source
        → name_taken (output_name meta source.codec a.collisions) d.outputs ≡ false)
    → IsLeft d (with_meta a m d).1 (with_meta a m d).0
unfolding with_meta
with_meta-IsLeft a (err e) d o h = refl
with_meta-IsLeft a (ok meta) d o h = elim (Bool-cases a.cancelled_before_connect) [
  | inl y ↦ rw y refl
  | inr y ↦ rw y (with_stream-IsLeft a meta a.connected d o (λ source. h meta source refl))
]

removed :
    (n : ℕ) (d : Directory) → lane_taken n d.lanes ≡ false → remove_lane n (n ∷ d.lanes) ≡ d.lanes
unfolding remove_lane
removed n d h = ground (arith, remove_lane-free n d.lanes h)

leave_lane-IsLeft :
    (a : Attempt) (d : Directory) (x : Outcome)
    → a.lane_removed ≡ true
    → lane_taken a.lane d.lanes ≡ false
    → IsLeft (enter_lane a.lane d) x.1 x.0
    → IsLeft d (leave_lane a x).1 (leave_lane a x).0
leave_lane-IsLeft a d (after, ok result, told) r h k = rw r (
  k.0,
  ap {B = Directory} (λ (x : Directory). record x { lanes = remove_lane a.lane x.lanes }) k.1
      ∙ ap {B = Directory}
          (λ x. record { lanes = x; outputs = (result.file_path, k.0) ∷ d.outputs })
          (removed a.lane d h),
)
leave_lane-IsLeft a d (after, err e, told) r h k = rw r (
    ap {B = Directory} (λ (x : Directory). record x { lanes = remove_lane a.lane x.lanes }) k
    ∙ ap {B = Directory} (λ x. record { lanes = x; outputs = d.outputs }) (removed a.lane d h))

-- After an attempt in a new private directory and with a name that was free, whose removals succeed,
-- the directory is as it
-- was if the attempt failed, at whatever point, and has the file of the result besides if it did not.
pub rip_once-IsLeft :
    (a : Attempt) (d : Directory)
    → IsFresh a d
    → IsRemoved a
    → IsLeft d (rip_once a d).1 (rip_once a d).0
unfolding rip_once
rip_once-IsLeft a d h g = elim (Bool-cases a.cancelled_first) [
  | inl c ↦ rw c refl
  | inr c ↦ elim (Option-cases a.target_error) [
    | inr t ↦ rw (c, t.1) refl
    | inl t ↦ elim (Option-cases a.lane_error) [
      | inr l ↦
          rw (c, t, l.1)
            (leave_lane-IsLeft a d (enter_lane a.lane d, err (local_io l.0), []) g.1 h.0 refl)
      | inl l ↦
          rw (c, t, l)
            (leave_lane-IsLeft a d (with_meta a a.meta (enter_lane a.lane d)) g.1 h.0
              (with_meta-IsLeft a a.meta (enter_lane a.lane d) g.0 h.1))
    ]
  ]
]

-- What a rip ends with is left in order.
abbrev pub IsTidy : Directory → Ripped → Type 0
IsTidy d (ripped after result told delays) = IsLeft d result after
IsTidy d unfinished = Unit

before-IsTidy :
    (d : Directory) (told : List Observation) (delays : List ℕ) (r : Ripped)
    → IsTidy d r
    → IsTidy d (before told delays r)
before-IsTidy d told delays (ripped after result more_told more_delays) h = h
before-IsTidy d told delays unfinished h = h

if-IsTidy :
    (d : Directory) (b : Bool) (x y : Ripped)
    → IsTidy d x
    → IsTidy d y
    → IsTidy d (if b then x else y)
if-IsTidy d true x y h k = h
if-IsTidy d false x y h k = k

after_failure-IsTidy :
    (cfg : Config) (p : Pass) (n : ℕ) (e : RipError) (d : Directory) (told : List Observation)
    (again : ℕ → Directory → Ripped)
    → IsTidy d (again (n + 1) d)
    → IsTidy d (after_failure cfg p n e d told again)
unfolding after_failure
after_failure-IsTidy cfg p n e d told again h = if-IsTidy d (is_final e) _ _ refl (
    if-IsTidy d p.cancelled_after _ _ refl (
      if-IsTidy d (leb cfg.max_retries n) _ _ refl (
        if-IsTidy d p.cancelled_asleep _ _ refl
          (before-IsTidy d told (raw_delay cfg (n + 1) ∷ []) (again (n + 1) d) h))))

after_attempt-IsTidy :
    (cfg : Config) (p : Pass) (n : ℕ) (d : Directory) (x : Outcome) (again : ℕ → Directory → Ripped)
    → IsLeft d x.1 x.0
    → IsTidy d (again (n + 1) d)
    → IsTidy d (after_attempt cfg p n x again)
unfolding after_attempt
after_attempt-IsTidy cfg p n d (after, ok result, told) again h k = h
after_attempt-IsTidy cfg p n d (after, err e, told) again h k =
    subst (λ x. IsTidy d (after_failure cfg p n e x told again)) (sym h)
      (after_failure-IsTidy cfg p n e d told again k)

pub rip_loop-IsTidy :
    (cfg : Config) (passes : ℕ → Pass) (fuel n : ℕ) (d : Directory)
    → ((i : ℕ) → IsFresh (passes i).attempt d)
    → ((i : ℕ) → IsRemoved (passes i).attempt)
    → IsTidy d (rip_loop cfg passes fuel n d)
unfolding rip_loop
rip_loop-IsTidy cfg passes zero n d h g = tt
rip_loop-IsTidy cfg passes (suc fuel) n d h g = if-IsTidy d (passes n).cancelled_at_head _ _ refl (
    after_attempt-IsTidy cfg (passes n) n d (rip_once (passes n).attempt d) _
      (rip_once-IsLeft (passes n).attempt d (h n) (g n))
      (rip_loop-IsTidy cfg passes fuel (n + 1) d h g))
