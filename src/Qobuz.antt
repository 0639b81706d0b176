-- ===== src/Qobuz.antt =====
-- crates/qobuz/src/gateway.rs and acquisition.rs: the ladder of tiers, and the acquisition of a track
-- through two gateways. Logging and the download's request are left out.
pub mod Served
pub mod Best
pub mod Retries
use alac_bot.Prelude.{
  ℕ, zero, suc, ◌+◌, Bool, true, false, not, ◌&&◌, ◌||◌, Option, none, some, List, [], ◌∷◌, ◌++◌,
  ◌==◌, if◌then◌else◌, take, drop,
}
use alac_bot.Prelude.Text.{Text, codes, text_eq, strip_prefix}
use alac_bot.Tagger.{TrackMeta}
use alac_bot.Ripper.Error.{SourceId, RipError, RipResult}

abbrev pub quality_mp3_320 : ℕ
quality_mp3_320 = 5

abbrev pub quality_cd_lossless : ℕ
quality_cd_lossless = 6

abbrev pub quality_hi_res_96 : ℕ
quality_hi_res_96 = 7

abbrev pub quality_max_hi_res : ℕ
quality_max_hi_res = 27

abbrev pub tiers_ascending : List ℕ
tiers_ascending =
    quality_mp3_320 ∷ quality_cd_lossless ∷ quality_hi_res_96 ∷ quality_max_hi_res ∷ []

-- `iter().position(|&t| t == wanted)`
unfoldable pub position : ℕ → List ℕ → Option ℕ
position wanted [] = none
position wanted (t ∷ ts) =
    let rest = position wanted ts in
    if t == wanted then some 0 else elim rest [ none ↦ none | some i ↦ some (suc i) ]

abbrev pub reversed : List ℕ → List ℕ
reversed [] = []
reversed (t ∷ ts) = reversed ts ++ t ∷ []

-- `order[index]`, with what stands after and before it.
unfoldable pub quality_ladder : ℕ → List ℕ
unfolding position
quality_ladder preferred = elim (position preferred tiers_ascending) [
  | none ↦ quality_max_hi_res ∷ quality_hi_res_96 ∷ quality_cd_lossless ∷ quality_mp3_320 ∷ []
  | some index ↦
      take 1 (drop index tiers_ascending)
      ++ drop (index + 1) tiers_ascending
      ++ reversed (take index tiers_ascending)
]

unfoldable pub quality_fallback_ladder : ℕ → List ℕ
unfolding position
quality_fallback_ladder preferred = elim (position preferred tiers_ascending) [
  | none ↦ quality_mp3_320 ∷ []
  | some index ↦ take 1 (drop index tiers_ascending) ++ reversed (take index tiers_ascending)
]

pub data QobuzError : Type 0 where
  message not_found unavailable auth rate_limit network : Text → QobuzError

pub data QobuzResult {ℓ} (A : Type ℓ) : Type ℓ where
  ok : A → QobuzResult A
  err : QobuzError → QobuzResult A

-- `Display`
unfoldable pub qobuz_error_text : QobuzError → Text
qobuz_error_text (message t) = codes "Qobuz message: " ++ t
qobuz_error_text (not_found t) = codes "Qobuz entity not found: " ++ t
qobuz_error_text (unavailable t) = codes "Qobuz stream unavailable: " ++ t
qobuz_error_text (auth t) = codes "Qobuz authentication failed: " ++ t
qobuz_error_text (rate_limit t) = codes "Qobuz rate limit exceeded: " ++ t
qobuz_error_text (network t) = codes "Qobuz network error: " ++ t

pub record QobuzStreamInfo : Type 0 where
  pub url : Text
  pub format_id : ℕ
  pub mime_type : Text
  pub bit_depth : ℕ
  pub sample_rate : ℕ

-- What a gateway answers for the track: a tier is asked for at most once, strictly or not.
pub record QobuzGateway : Type 0 where
  pub gateway_name : Text
  pub fetch_track_meta : QobuzResult TrackMeta
  pub resolve_stream_url : ℕ → Bool → QobuzResult QobuzStreamInfo

pub record QobuzAcquisition : Type 0 where
  pub primary : QobuzGateway
  pub fallback : Option QobuzGateway
  pub primary_url : Text

abbrev pub backend_source : QobuzAcquisition → SourceId
backend_source q = SourceId.qobuz_backend q.primary_url

abbrev pub bracketed : Text → Text → Text
bracketed gateway detail = codes "[" ++ gateway ++ codes "] " ++ detail

unfoldable pub map_catalog_error : Text → QobuzError → SourceId → RipError
unfolding qobuz_error_text
map_catalog_error gateway (auth detail) source = RipError.authentication source
map_catalog_error gateway (rate_limit detail) source =
    RipError.timeout (some source) (bracketed gateway detail)
map_catalog_error gateway (network detail) source =
    RipError.timeout (some source) (bracketed gateway detail)
map_catalog_error gateway e source =
    RipError.track_unavailable (bracketed gateway (qobuz_error_text e))

unfoldable pub map_stream_error : Text → QobuzError → SourceId → RipError
unfolding qobuz_error_text
map_stream_error gateway (auth detail) source = RipError.authentication source
map_stream_error gateway (rate_limit detail) source =
    RipError.timeout (some source) (bracketed gateway detail)
map_stream_error gateway (network detail) source =
    RipError.timeout (some source) (bracketed gateway detail)
map_stream_error gateway e source =
    RipError.rendition_unavailable (bracketed gateway (qobuz_error_text e))

abbrev pub is_auth : QobuzError → Bool
is_auth (auth detail) = true
is_auth _ = false

pub data MetaResult : Type 0 where
  meta_found : TrackMeta → MetaResult
  meta_failed : RipError → MetaResult

-- After both gateways failed.
unfoldable pub both_failed : QobuzAcquisition → QobuzGateway → QobuzError → QobuzError → RipError
unfolding map_catalog_error
both_failed q fallback primary_err fallback_err =
    if is_auth primary_err
    then map_catalog_error q.primary.gateway_name primary_err (backend_source q)
    else if is_auth fallback_err
    then map_catalog_error fallback.gateway_name fallback_err SourceId.qobuz_native
    else RipError.track_unavailable (
        codes "[primary "
        ++ q.primary.gateway_name
        ++ codes ": "
        ++ qobuz_error_text primary_err
        ++ codes "] ["
        ++ fallback.gateway_name
        ++ codes ": "
        ++ qobuz_error_text fallback_err
        ++ codes "]")

abbrev pub try_fallback_meta : QobuzAcquisition → QobuzError → Option QobuzGateway → MetaResult
try_fallback_meta q e none =
    meta_failed (map_catalog_error q.primary.gateway_name e (backend_source q))
try_fallback_meta q e (some fallback) = elim fallback.fetch_track_meta [
  | ok meta ↦ meta_found meta
  | err fallback_err ↦ meta_failed (both_failed q fallback e fallback_err)
]

unfoldable pub fetch_meta_with_fallback : QobuzAcquisition → MetaResult
unfolding both_failed
fetch_meta_with_fallback q = elim q.primary.fetch_track_meta [
  | ok meta ↦ meta_found meta
  | err e ↦ try_fallback_meta q e q.fallback
]

-- The stream, and whether it is from the primary gateway.
abbrev pub Resolved : Type 0
Resolved = QobuzStreamInfo × Bool

abbrev pub try_fallback : QobuzError → ℕ → Bool → Option QobuzGateway → QobuzResult Resolved
try_fallback e format_id flag none = err e
try_fallback e format_id flag (some fallback) = elim (fallback.resolve_stream_url format_id flag) [
  | ok info ↦ ok (info, false)
  | err _ ↦ err e
]

unfoldable pub resolve_with_gateways : QobuzAcquisition → ℕ → Bool → QobuzResult Resolved
resolve_with_gateways q format_id flag = elim (q.primary.resolve_stream_url format_id flag) [
  | ok info ↦ ok (info, true)
  | err e ↦ try_fallback e format_id flag q.fallback
]

abbrev pub source_of : QobuzAcquisition → Resolved → QobuzStreamInfo × SourceId
source_of q (info, true) = (info, backend_source q)
source_of q (info, false) = (info, SourceId.qobuz_native)

-- The errors that another tier would meet too.
unfoldable pub aborts_ladder : QobuzError → Bool
aborts_ladder (auth detail) = true
aborts_ladder (rate_limit detail) = true
aborts_ladder (network detail) = true
aborts_ladder _ = false

abbrev pub Streamed : Type 0
Streamed = QobuzResult (QobuzStreamInfo × SourceId)

abbrev pub or_last : Option QobuzError → QobuzError → QobuzError
or_last none e = e
or_last (some last) e = last

-- The pass that is not strict, after the ladder.
unfoldable pub fail_open : QobuzAcquisition → ℕ → Option QobuzError → Streamed
unfolding resolve_with_gateways
fail_open q preferred last_error = elim (resolve_with_gateways q preferred true) [
  | ok r ↦ ok (source_of q r)
  | err e ↦ err (or_last last_error e)
]

-- `cancelled` is whether the signal is set when a tier is asked for.
unfoldable pub ladder_loop :
    QobuzAcquisition → (ℕ → Bool) → ℕ → List ℕ → Option QobuzError → Streamed
unfolding fail_open aborts_ladder
ladder_loop q cancelled preferred [] last_error = fail_open q preferred last_error
ladder_loop q cancelled preferred (format_id ∷ tiers) last_error =
    if cancelled format_id
    then err (message (codes "cancelled"))
    else elim (resolve_with_gateways q format_id false) [
      | ok r ↦ ok (source_of q r)
      | err e ↦ if aborts_ladder e then err e else ladder_loop q cancelled preferred tiers (some e)
    ]

unfoldable pub resolve_best_available : QobuzAcquisition → (ℕ → Bool) → ℕ → Streamed
unfolding ladder_loop quality_ladder
resolve_best_available q cancelled preferred =
    ladder_loop q cancelled preferred (quality_ladder preferred) none

-- crates/music/src/lib.rs: `CodecPreference`
pub data CodecPreference : Type 0 where
  highest_quality hi_res_192 hi_res_96 lossless_cd mp3_320 atmos : CodecPreference

unfoldable pub qobuz_format_id : CodecPreference → ℕ
qobuz_format_id highest_quality = 27
qobuz_format_id hi_res_192 = 27
qobuz_format_id hi_res_96 = 7
qobuz_format_id lossless_cd = 6
qobuz_format_id CodecPreference.mp3_320 = 5
qobuz_format_id atmos = 27

-- `s.contains(t)`
unfoldable pub contains : Text → Text → Bool
unfolding strip_prefix
contains [] t = if text_eq t [] then true else false
contains (c ∷ s) t =
    let later = contains s t in elim (strip_prefix (c ∷ s) t) [ some rest ↦ true | none ↦ later ]

-- How the request of the stream ends: the signal was first, an error, or an answer, with whether it is
-- a success, its status, and the length that it announces.
pub data Sent : Type 0 where
  interrupted : Sent
  failed : Text → Sent
  answered : Bool → Text → Option ℕ → Sent

-- What `connect_stream` meets: the signal where it is looked at, and the request.
pub record Connection : Type 0 where
  pub cancelled_first : Bool
  pub cancelled_at : ℕ → Bool
  pub cancelled_unresolved : Bool
  pub cancelled_resolved : Bool
  pub sent : QobuzStreamInfo → Sent

pub record Connected : Type 0 where
  pub source : SourceId
  pub codec : Text
  pub bit_depth : ℕ
  pub sample_rate : ℕ
  pub content_length : Option ℕ

unfoldable pub codec_of : QobuzStreamInfo → Text
unfolding contains
codec_of info =
    if contains info.mime_type (codes "mp3") || info.format_id == 5
    then codes "mp3"
    else codes "flac"

unfoldable pub after_send : QobuzStreamInfo → SourceId → Sent → RipResult Connected
unfolding codec_of
after_send info source interrupted = RipResult.err RipError.cancelled
after_send info source (failed detail) = RipResult.err (RipError.timeout (some source) detail)
after_send info source (answered success status length) =
    if not success
    then RipResult.err
        (RipError.stream_corrupt source (codes "CDN returned HTTP status " ++ status))
    else RipResult.ok record {
      source = source;
      codec = codec_of info;
      bit_depth = info.bit_depth;
      sample_rate = info.sample_rate;
      content_length = length;
    }

abbrev pub after_resolve : QobuzAcquisition → Connection → Streamed → RipResult Connected
after_resolve q c (err e) = RipResult.err (
    if c.cancelled_unresolved
    then RipError.cancelled
    else map_stream_error q.primary.gateway_name e (backend_source q))
after_resolve q c (ok (info, source)) =
    if c.cancelled_resolved
    then RipResult.err RipError.cancelled
    else after_send info source (c.sent info)

unfoldable pub connect_stream :
    QobuzAcquisition → Connection → CodecPreference → RipResult Connected
unfolding resolve_best_available qobuz_format_id after_send map_stream_error
connect_stream q c preference =
    if c.cancelled_first
    then RipResult.err RipError.cancelled
    else after_resolve q c (resolve_best_available q c.cancelled_at (qobuz_format_id preference))
