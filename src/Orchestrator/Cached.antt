-- ===== src/Orchestrator/Cached.antt =====
-- crates/engine/src/orchestrator/mod.rs: `resolve_cached_item`, which delivers a track from the cache
-- and stages it for the archive. What the calls of the delivery, of the log and of the file system
-- answer, and where a signal comes, is a record. The errors of `delete_track`, of `log_request` and of
-- the removal of a file are passed over by the code; the first two are calls that are counted here.
pub mod Outcome
use alac_bot.Prelude.{
  ℕ, ◌+◌, ◌≡◌, Bool, true, false, not, ◌&&◌, ◌||◌, Option, none, some, List, [], ◌∷◌, ◌++◌, leb,
  ltb, if◌then◌else◌,
}
use alac_bot.Prelude.Text.{Text, text_eq}
use alac_bot.Orchestrator.Lane.{
  Rendition, primary, atmos, is_primary, Codec, alac, aac, flac, ec3, CachedTrack, PipelineItem,
}
use alac_bot.Orchestrator.Dispatch.{CacheResolution, hit, rerip}

pub record CacheContext : Type 0 where
  pub is_cache_only : Bool
  pub zip_deliver : Bool
  pub zip_build : Bool
  pub zip_reuse : Rendition → Bool
  pub has_zip_state : Rendition → Bool

-- `run_job`: the flags of a job that is an album's, or is not.
unfoldable pub job_context : Bool → Bool → (Rendition → Bool) → (Rendition → Bool) → CacheContext
job_context is_album_job is_cache_only zip_reuse has_zip_state = record {
  is_cache_only = is_cache_only;
  zip_deliver = is_album_job && not is_cache_only;
  zip_build = is_album_job;
  zip_reuse = zip_reuse;
  has_zip_state = has_zip_state;
}

-- The answer of `deliver_to_chat`. Without the receipt of a message, there are the messages that have
-- reached the chat all the same.
pub data Copy : Type 0 where
  copied : ℕ → Copy
  preview_delivered copy_failed copy_cancelled : List ℕ → Copy

abbrev pub strays : Copy → List ℕ
strays (copied id) = []
strays (preview_delivered ids) = ids
strays (copy_failed ids) = ids
strays (copy_cancelled ids) = ids

pub data Materialized : Type 0 where
  stored materialize_failed materialize_cancelled : Materialized

pub record Meets : Type 0 where
  pub cancelled_first : Bool
  pub copy : Copy
  pub cancelled_copied : Bool
  pub log_cancelled : Bool
  pub cancelled_logged : Bool
  -- the file of the archive, and its size when it is looked at
  pub filename : Text
  pub materialized : Materialized
  -- whether the removal of the file succeeds, where it is asked for
  pub file_removed : Bool
  pub cancelled_stored : Bool
  pub metadata : Option ℕ
  pub cancelled_last : Bool

-- The messages in the chat, the calls of `delete_track` and of `log_request`, the files and the
-- entries of the archive with its codec, the first message of the job, and its count of cached tracks.
pub record CacheState : Type 0 where
  pub delivered : List ℕ
  pub delete_calls : ℕ
  pub logs : ℕ
  pub files : List Text
  pub sources : List (Text × ℕ)
  pub codec : Option Codec
  pub first_delivered_msg_id : Option ℕ
  pub cached_count : ℕ

unfoldable pub codec_allowed_for_rendition : Rendition → Codec → Bool
codec_allowed_for_rendition primary ec3 = false
codec_allowed_for_rendition primary _ = true
codec_allowed_for_rendition atmos ec3 = true
codec_allowed_for_rendition atmos _ = false

abbrev pub rank : Codec → ℕ
rank alac = 3
rank flac = 3
rank ec3 = 2
rank aac = 1

unfoldable pub seed_zip_codec : Codec → Option Codec → Option Codec
seed_zip_codec codec none = some codec
seed_zip_codec codec (some existing) =
    if ltb (rank existing) (rank codec) then some codec else some existing

-- A part of the function either goes on or returns.
pub data Phase : Type 0 where
  goes_on : CacheState → Phase
  returns : CacheResolution → CacheState → Phase

abbrev pub delete_track : CacheState → CacheState
delete_track s = record s { delete_calls = s.delete_calls + 1 }

unfoldable pub remove_file : Text → List Text → List Text
unfolding text_eq
remove_file name [] = []
remove_file name (f ∷ files) =
    let rest = remove_file name files in if text_eq f name then rest else f ∷ rest

abbrev pub if_cancelled : Bool → CacheState → Phase → Phase
if_cancelled signalled s p = if signalled then returns CacheResolution.cancelled s else p

unfoldable pub log_phase : Meets → CacheState → Phase
log_phase m s = if_cancelled m.log_cancelled s (
    if_cancelled m.cancelled_logged (record s { logs = s.logs + 1 })
      (goes_on (record s { logs = s.logs + 1 })))

abbrev pub remember_first : ℕ → CacheState → CacheState
remember_first id s = record s {
  first_delivered_msg_id = elim s.first_delivered_msg_id [
    | none ↦ some id
    | some first ↦ some first
  ];
}

abbrev pub after_log : ℕ → Phase → Phase
after_log id (goes_on s) = goes_on (remember_first id s)
after_log id (returns r s) = returns r s

abbrev pub in_chat : List ℕ → CacheState → CacheState
in_chat ids s = record s { delivered = ids ++ s.delivered }

unfoldable pub copy_phase : Meets → Copy → CacheState → Phase
unfolding log_phase
copy_phase m (copy_cancelled ids) s = returns CacheResolution.cancelled (in_chat ids s)
copy_phase m (preview_delivered ids) s = returns rerip (delete_track (in_chat ids s))
copy_phase m (copy_failed ids) s = returns rerip (delete_track (in_chat ids s))
copy_phase m (copied id) s =
    let sent = record s { delivered = id ∷ s.delivered } in
    if_cancelled m.cancelled_copied sent (after_log id (log_phase m sent))

unfoldable pub deliver_phase : CacheContext → Meets → CacheState → Phase
unfolding copy_phase log_phase
deliver_phase ctx m s =
    if ctx.is_cache_only
    then goes_on s
    else if ctx.zip_deliver
    then log_phase m s
    else copy_phase m m.copy s

-- The file that was written, whole or in part, is to be removed again.
abbrev pub unstage : Meets → CacheState → CacheState
unstage m s = record s {
  files =
      if m.file_removed
      then remove_file m.filename (m.filename ∷ s.files)
      else m.filename ∷ s.files;
}

unfoldable pub store_phase : Meets → CachedTrack → Materialized → CacheState → Phase
unfolding remove_file seed_zip_codec
store_phase m c materialize_cancelled s = returns CacheResolution.cancelled (unstage m s)
store_phase m c materialize_failed s = returns rerip (delete_track (unstage m s))
store_phase m c stored s =
    if m.cancelled_stored
    then returns CacheResolution.cancelled (unstage m s)
    else elim m.metadata [
      | none ↦ returns rerip (delete_track (unstage m s))
      | some size ↦ goes_on (record s {
        files = m.filename ∷ s.files;
        sources = s.sources ++ ((m.filename, size) ∷ []);
        codec = seed_zip_codec c.codec s.codec;
      })
    ]

unfoldable pub stage_phase : CacheContext → Meets → Rendition → CachedTrack → CacheState → Phase
unfolding store_phase
stage_phase ctx m r c s =
    if ctx.zip_build && not (ctx.zip_reuse r) && ctx.has_zip_state r
    then store_phase m c m.materialized s
    else goes_on s

abbrev pub and_then : Phase → (CacheState → Phase) → Phase
and_then (goes_on s) k = k s
and_then (returns r s) k = returns r s

abbrev pub last_phase : Meets → Rendition → CacheState → CacheResolution × CacheState
last_phase m r s =
    if m.cancelled_last
    then (CacheResolution.cancelled, s)
    else (hit, record s { cached_count = s.cached_count + (if is_primary r then 1 else 0) })

abbrev pub finish_phase : Meets → Rendition → Phase → CacheResolution × CacheState
finish_phase m r (goes_on s) = last_phase m r s
finish_phase m r (returns x s) = (x, s)

unfoldable pub resolve_cached_item :
    CacheContext → Meets → PipelineItem → CachedTrack → CacheState → CacheResolution × CacheState
unfolding codec_allowed_for_rendition deliver_phase stage_phase
resolve_cached_item ctx m item c s =
    if m.cancelled_first
    then (CacheResolution.cancelled, s)
    else if not (codec_allowed_for_rendition item.rendition c.codec)
    then (rerip, delete_track s)
    else finish_phase m item.rendition
        (and_then (deliver_phase ctx m s) (stage_phase ctx m item.rendition c))
