-- ===== src/Orchestrator/Cached/Outcome.antt =====
-- crates/engine/src/orchestrator/mod.rs: what each resolution of a cached item leaves.
use alac_bot.Prelude.{
  ℕ, ◌+◌, ◌≡◌, refl, Bool, true, false, not, ◌&&◌, ◌||◌, List, [], ◌∷◌, ◌++◌, ◌⊎◌, sym, arith,
  if◌then◌else◌, length, length-append, Bool-cases, Option-cases, inl, inr, any, ap, ◌∙◌,
}
use alac_bot.Prelude.Text.{Text, text_eq, text_eq_refl}
use alac_bot.Orchestrator.Lane.{Rendition, is_primary, CachedTrack, PipelineItem}
use alac_bot.Orchestrator.Dispatch.{CacheResolution, hit, rerip, failed}
use alac_bot.Orchestrator.Cached.{
  Meets, CacheState, Copy, copied, preview_delivered, copy_failed, copy_cancelled, Materialized,
  stored, materialize_failed, materialize_cancelled, Phase, goes_on, returns, remove_file, strays,
  unstage, log_phase, after_log, copy_phase, deliver_phase, store_phase, stage_phase, and_then,
  finish_phase, resolve_cached_item, codec_allowed_for_rendition, job_context,
}

-- No file of that name is there.
abbrev pub IsFree : Text → CacheState → Type 0
IsFree name s = any (λ f. text_eq f name) s.files ≡ false

-- The messages of the chat: none is new, or those of a copy that gave no receipt of its message.
abbrev pub IsStray : ℕ → Meets → List ℕ → List ℕ → Type 0
IsStray copies m before after =
    (after ≡ before) ⊎ ((copies ≡ 1) × (after ≡ strays m.copy ++ before))

-- The files: none is new, or the item's own if it could not be removed.
abbrev pub IsKept : Meets → List Text → List Text → Type 0
IsKept m before after =
    (after ≡ before) ⊎ ((m.file_removed ≡ false) × (after ≡ m.filename ∷ before))

-- A cancelled resolution asks for no deletion and does not count the track; one that asks for a rip
-- asks for the deletion and has staged and counted nothing.
abbrev pub IsLeft : ℕ → Meets → CacheResolution → CacheState → CacheState → Type 0
IsLeft copies m CacheResolution.cancelled s t =
    (t.delete_calls ≡ s.delete_calls) × (t.cached_count ≡ s.cached_count)
IsLeft copies m rerip s t =
    (t.delete_calls ≡ s.delete_calls + 1)
    × IsStray copies m s.delivered t.delivered
    × (t.sources ≡ s.sources)
    × IsKept m s.files t.files
    × (t.cached_count ≡ s.cached_count)
IsLeft copies m x s t = ⊥

-- A phase that goes on has made `copies` deliveries and `entries` entries of the archive.
abbrev IsOnWay : Meets → ℕ → ℕ → CacheState → Phase → Type 0
IsOnWay m copies entries s (goes_on t) =
    (length t.delivered ≡ length s.delivered + copies)
    × (length t.sources ≡ length s.sources + entries)
    × (t.delete_calls ≡ s.delete_calls)
    × (t.cached_count ≡ s.cached_count)
IsOnWay m copies entries s (returns r t) = IsLeft copies m r s t

remove_file-free :
    (name : Text) (files : List Text)
    → any (λ f. text_eq f name) files ≡ false
    → remove_file name files ≡ files
unfolding remove_file
remove_file-free name [] h = refl
remove_file-free name (f ∷ files) h = ground (arith, remove_file-free name files)

unstage-IsKept :
    (m : Meets) (s : CacheState) → IsFree m.filename s → IsKept m s.files (unstage m s).files
unfolding remove_file
unstage-IsKept m s h = elim (Bool-cases m.file_removed) [
  | inl r ↦ inl (rw (r, text_eq_refl m.filename) (remove_file-free m.filename s.files h))
  | inr r ↦ inr (r, rw r refl)
]

log_phase-IsOnWay : (m : Meets) (s : CacheState) → IsOnWay m 0 0 s (log_phase m s)
unfolding log_phase
log_phase-IsOnWay m s = elim (Bool-cases m.log_cancelled) [
  | inl h ↦ rw h (refl, refl)
  | inr h ↦ elim (Bool-cases m.cancelled_logged) [
    | inl g ↦ rw (h, g) (refl, refl)
    | inr g ↦ rw (h, g) (omega arith, omega arith, refl, refl)
  ]
]

-- The log comes after the copy.
after_copy :
    (m : Meets) (id : ℕ) (s : CacheState)
    → IsOnWay m 1 0 s (after_log id (log_phase m (record s { delivered = id ∷ s.delivered })))
unfolding log_phase
after_copy m id s = elim (Bool-cases m.log_cancelled) [
  | inl h ↦ rw h (refl, refl)
  | inr h ↦ elim (Bool-cases m.cancelled_logged) [
    | inl g ↦ rw (h, g) (refl, refl)
    | inr g ↦ rw (h, g) (omega arith, omega arith, refl, refl)
  ]
]

copy_phase-IsOnWay :
    (m : Meets) (c : Copy) (s : CacheState) → m.copy ≡ c → IsOnWay m 1 0 s (copy_phase m c s)
unfolding copy_phase
copy_phase-IsOnWay m (copy_cancelled ids) s h = (refl, refl)
copy_phase-IsOnWay m (preview_delivered ids) s h =
    (refl, inr (refl, ap (λ c. strays c ++ s.delivered) (sym h)), refl, inl refl, refl)
copy_phase-IsOnWay m (copy_failed ids) s h =
    (refl, inr (refl, ap (λ c. strays c ++ s.delivered) (sym h)), refl, inl refl, refl)
copy_phase-IsOnWay m (copied id) s h = elim (Bool-cases m.cancelled_copied) [
  | inl c ↦ rw c (refl, refl)
  | inr c ↦ rw c (after_copy m id s)
]

-- How many copies a job that goes on has made.
abbrev pub copies : Bool → Bool → ℕ
copies is_album_job is_cache_only = if is_album_job || is_cache_only then 0 else 1

deliver_phase-IsOnWay :
    (album only : Bool) (reuse has : Rendition → Bool) (m : Meets) (s : CacheState)
    → IsOnWay m (copies album only) 0 s (deliver_phase (job_context album only reuse has) m s)
unfolding deliver_phase job_context
deliver_phase-IsOnWay true true reuse has m s = (omega arith, omega arith, refl, refl)
deliver_phase-IsOnWay false true reuse has m s = (omega arith, omega arith, refl, refl)
deliver_phase-IsOnWay true false reuse has m s = log_phase-IsOnWay m s
deliver_phase-IsOnWay false false reuse has m s = copy_phase-IsOnWay m m.copy s refl

store_phase-IsOnWay :
    (m : Meets) (c : CachedTrack) (x : Materialized) (s : CacheState)
    → IsFree m.filename s
    → IsOnWay m 0 1 s (store_phase m c x s)
unfolding store_phase
store_phase-IsOnWay m c materialize_cancelled s f = (refl, refl)
store_phase-IsOnWay m c materialize_failed s f = (refl, inl refl, refl, unstage-IsKept m s f, refl)
store_phase-IsOnWay m c stored s f = elim (Bool-cases m.cancelled_stored) [
  | inl h ↦ rw h (refl, refl)
  | inr h ↦ elim (Option-cases m.metadata) [
    | inl g ↦ rw (h, g) (refl, inl refl, refl, unstage-IsKept m s f, refl)
    | inr (size, g) ↦
        rw (h, g) (omega arith, length-append s.sources ((m.filename, size) ∷ []), refl, refl)
  ]
]

-- A phase that goes on with what the track was resolved from.
abbrev IsQuiet : Meets → CacheState → Phase → Type 0
IsQuiet m s (goes_on t) =
    (t.delivered ≡ s.delivered)
    × (t.sources ≡ s.sources)
    × (t.files ≡ s.files)
    × (t.delete_calls ≡ s.delete_calls)
    × (t.cached_count ≡ s.cached_count)
IsQuiet m s (returns r t) = IsLeft 0 m r s t

log_phase-IsQuiet : (m : Meets) (s : CacheState) → IsQuiet m s (log_phase m s)
unfolding log_phase
log_phase-IsQuiet m s = elim (Bool-cases m.log_cancelled) [
  | inl h ↦ rw h (refl, refl)
  | inr h ↦ elim (Bool-cases m.cancelled_logged) [
    | inl g ↦ rw (h, g) (refl, refl)
    | inr g ↦ rw (h, g) (refl, refl, refl, refl, refl)
  ]
]

deliver_phase-IsQuiet :
    (only : Bool) (reuse has : Rendition → Bool) (m : Meets) (s : CacheState)
    → IsQuiet m s (deliver_phase (job_context true only reuse has) m s)
unfolding deliver_phase job_context
deliver_phase-IsQuiet true reuse has m s = (refl, refl, refl, refl, refl)
deliver_phase-IsQuiet false reuse has m s = log_phase-IsQuiet m s

abbrev pub IsResolved : Meets → ℕ → ℕ → ℕ → CacheResolution → CacheState → CacheState → Type 0
IsResolved m sent entries counted hit s t =
    (length t.delivered ≡ length s.delivered + sent)
    × (length t.sources ≡ length s.sources + entries)
    × (t.delete_calls ≡ s.delete_calls)
    × (t.cached_count ≡ s.cached_count + counted)
IsResolved m sent entries counted r s t = IsLeft sent m r s t

abbrev pub counted : Rendition → ℕ
counted r = if is_primary r then 1 else 0

left :
    (m : Meets) (sent entries n : ℕ) (r : CacheResolution) (s t : CacheState)
    → IsLeft sent m r s t
    → IsResolved m sent entries n r s t
left m sent entries n hit s t h = absurd h
left m sent entries n CacheResolution.cancelled s t h = h
left m sent entries n rerip s t h = h
left m sent entries n (failed text) s t h = h

finish_phase-IsResolved :
    (sent entries : ℕ) (m : Meets) (r : Rendition) (s : CacheState) (p : Phase)
    → IsOnWay m sent entries s p
    → IsResolved m sent entries (counted r) (finish_phase m r p).0 s (finish_phase m r p).1
finish_phase-IsResolved sent entries m r s (returns x t) h = left m sent entries (counted r) x s t h
finish_phase-IsResolved sent entries m r s (goes_on t) h = elim (Bool-cases m.cancelled_last) [
  | inl c ↦ rw c (h.2, h.3)
  | inr c ↦ rw c (h.0, h.1, h.2, ap (λ n. n + counted r) h.3)
]

-- A track of no album: nothing is staged.
single-IsOnWay :
    (only : Bool) (reuse has : Rendition → Bool) (m : Meets) (r : Rendition) (c : CachedTrack)
    (s : CacheState) (p : Phase)
    → IsOnWay m (copies false only) 0 s p
    → IsOnWay m
        (copies false only)
        0
        s
        (and_then p (stage_phase (job_context false only reuse has) m r c))
unfolding stage_phase job_context
single-IsOnWay only reuse has m r c s (goes_on t) h = h
single-IsOnWay only reuse has m r c s (returns x t) h = h

abbrev pub staged : Bool → (Rendition → Bool) → (Rendition → Bool) → Rendition → ℕ
staged album reuse has r = if album && not (reuse r) && has r then 1 else 0

IsStray-trans : (m : Meets) (a b c : List ℕ) → b ≡ a → IsStray 0 m b c → IsStray 0 m a c
IsStray-trans m a b c h (inl x) = inl (x ∙ h)
IsStray-trans m a b c h (inr (z, x)) = inr (z, x ∙ ap (λ l. strays m.copy ++ l) h)

IsKept-trans : (m : Meets) (a b c : List Text) → b ≡ a → IsKept m b c → IsKept m a c
IsKept-trans m a b c h (inl x) = inl (x ∙ h)
IsKept-trans m a b c h (inr (z, x)) = inr (z, x ∙ ap (λ l. m.filename ∷ l) h)

from_quiet :
    (m : Meets) (n : ℕ) (s t : CacheState) (p : Phase)
    → IsQuiet m s (goes_on t)
    → IsOnWay m 0 n t p
    → IsOnWay m 0 n s p
from_quiet m n s t (goes_on u) (a, b, c, d, e) (f, g, h, i) =
    (f ∙ ap (λ l. length l + 0) a, g ∙ ap (λ l. length l + n) b, h ∙ d, i ∙ e)
from_quiet m n s t (returns CacheResolution.cancelled u) (a, b, c, d, e) (f, g) = (f ∙ d, g ∙ e)
from_quiet m n s t (returns rerip u) (a, b, c, d, e) (f, g, h, i, j) = (
  f ∙ ap (λ k. k + 1) d,
  IsStray-trans m s.delivered t.delivered u.delivered a g,
  h ∙ b,
  IsKept-trans m s.files t.files u.files c i,
  j ∙ e,
)
from_quiet m n s t (returns hit u) q h = absurd h
from_quiet m n s t (returns (failed text) u) q h = absurd h

stage_phase-IsOnWay :
    (only : Bool) (reuse has : Rendition → Bool) (m : Meets) (r : Rendition) (c : CachedTrack)
    (s : CacheState)
    → IsFree m.filename s
    → IsOnWay m 0
        (staged true reuse has r)
        s
        (stage_phase (job_context true only reuse has) m r c s)
unfolding stage_phase job_context
stage_phase-IsOnWay only reuse has m r c s f = elim (Bool-cases (not (reuse r) && has r)) [
  | inl h ↦ rw h (store_phase-IsOnWay m c m.materialized s f)
  | inr h ↦ rw h (omega arith, omega arith, refl, refl)
]

album-IsOnWay :
    (only : Bool) (reuse has : Rendition → Bool) (m : Meets) (r : Rendition) (c : CachedTrack)
    (s : CacheState) (p : Phase)
    → IsFree m.filename s
    → IsQuiet m s p
    → IsOnWay m 0
        (staged true reuse has r)
        s
        (and_then p (stage_phase (job_context true only reuse has) m r c))
album-IsOnWay only reuse has m r c s (goes_on t) f q =
    from_quiet m (staged true reuse has r) s t _ q (
      stage_phase-IsOnWay only reuse has m r c t
        (ap (λ l. any (λ x. text_eq x m.filename) l) q.2 ∙ f))
album-IsOnWay only reuse has m r c s (returns x t) f q = q

-- A cached item of a job that run_job has set up, whose file in the archive is a new one, ends in
-- one of three ways, whatever its calls answer and wherever a signal comes. A hit has put the one
-- message of its copy into the chat, unless the job only fills the cache or is an album's, has
-- staged one entry if an archive is being built, and is counted if it is a primary track. A
-- cancelled item is not asked to be deleted from the cache and is not counted. For one that is to be
-- ripped the deletion is asked for once, nothing is staged or counted, no new file is left but its
-- own where its removal failed, and the chat has got nothing but what a copy that gave no receipt of
-- its message has put there.
pub resolve_cached_item-IsResolved :
    (album only : Bool) (reuse has : Rendition → Bool) (m : Meets) (item : PipelineItem)
    (c : CachedTrack) (s : CacheState)
    → IsFree m.filename s
    → let x = resolve_cached_item (job_context album only reuse has) m item c s in
      IsResolved m
        (copies album only)
        (staged album reuse has item.rendition)
        (counted item.rendition)
        x.0
        s
        x.1
unfolding resolve_cached_item
resolve_cached_item-IsResolved album only reuse has m item c s f =
    elim (Bool-cases m.cancelled_first) [
      | inl h ↦ rw h (refl, refl)
      | inr h ↦ elim (Bool-cases (codec_allowed_for_rendition item.rendition c.codec)) [
        | inr g ↦ rw (h, g) (refl, inl refl, refl, inl refl, refl)
        | inl g ↦
            rw (h, g)
              (finish_phase-IsResolved (copies album only) (staged album reuse has item.rendition) m
                item.rendition s _ (on_way album))
      ]
    ]
  where
    on_way :
        (b : Bool)
        → IsOnWay m (copies b only) (staged b reuse has item.rendition) s (
            and_then
              (deliver_phase (job_context b only reuse has) m s)
              (stage_phase (job_context b only reuse has) m item.rendition c))
    on_way true =
        album-IsOnWay only reuse has m item.rendition c s _ f
          (deliver_phase-IsQuiet only reuse has m s)
    on_way false =
        single-IsOnWay only reuse has m item.rendition c s _
          (deliver_phase-IsOnWay false only reuse has m s)
