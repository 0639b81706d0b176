-- ===== src/Qobuz/Retries.antt =====
-- crates/qobuz/src/acquisition.rs and crates/engine/src/ripper.rs: which failures of Qobuz's gateways
-- the ripper tries again after.
use alac_bot.Prelude.{◌≡◌, refl, true, false, not, ◌||◌, some, arith, Bool-cases, inl, inr}
use alac_bot.Prelude.Text.{Text}
use alac_bot.Ripper.Error.{SourceId, RipError, RipResult, is_final}
use alac_bot.Qobuz.{
  QobuzAcquisition, QobuzGateway, QobuzError, err, Connection, CodecPreference, connect_stream,
  qobuz_format_id, resolve_best_available, aborts_ladder, map_stream_error, map_catalog_error,
  fetch_meta_with_fallback, meta_failed, is_auth, both_failed, backend_source,
}
use QobuzError.{message, not_found, unavailable, auth, rate_limit, network}

map_stream_error-is_final :
    (gateway : Text) (e : QobuzError) (source : SourceId)
    → is_final (map_stream_error gateway e source) ≡ not (aborts_ladder e)
unfolding map_stream_error is_final aborts_ladder
map_stream_error-is_final gateway (message t) source = refl
map_stream_error-is_final gateway (not_found t) source = refl
map_stream_error-is_final gateway (unavailable t) source = refl
map_stream_error-is_final gateway (auth t) source = refl
map_stream_error-is_final gateway (rate_limit t) source = refl
map_stream_error-is_final gateway (network t) source = refl

-- Without a signal, a stream that is not resolved ends the attempt with an error after which the rip
-- is tried again exactly if it failed on credentials, a rate limit or the network.
connect_stream-is_final :
    (q : QobuzAcquisition) (c : Connection) (preference : CodecPreference) (x : QobuzError)
    → c.cancelled_first ≡ false
    → c.cancelled_unresolved ≡ false
    → resolve_best_available q c.cancelled_at (qobuz_format_id preference) ≡ err x
    → (e : RipError) × (connect_stream q c preference ≡ RipResult.err e)
      × (is_final e ≡ not (aborts_ladder x))
unfolding connect_stream
connect_stream-is_final q c preference x f u h = (
  map_stream_error q.primary.gateway_name x (backend_source q),
  rw (f, h, u) refl,
  map_stream_error-is_final q.primary.gateway_name x (backend_source q),
)

map_catalog_error-auth :
    (gateway : Text) (e : QobuzError) (source : SourceId)
    → is_auth e ≡ true
    → is_final (map_catalog_error gateway e source) ≡ false
unfolding map_catalog_error is_final
map_catalog_error-auth gateway e source h = ground arith

both_failed-is_final :
    (q : QobuzAcquisition) (fallback : QobuzGateway) (a b : QobuzError)
    → is_final (both_failed q fallback a b) ≡ not (is_auth a || is_auth b)
unfolding both_failed
both_failed-is_final q fallback a b = elim (Bool-cases (is_auth a)) [
  | inl e ↦ rw e (map_catalog_error-auth q.primary.gateway_name a (backend_source q) e)
  | inr e ↦ elim (Bool-cases (is_auth b)) [
    | inl f ↦ rw (e, f) (map_catalog_error-auth fallback.gateway_name b SourceId.qobuz_native f)
    | inr f ↦ rw (e, f) (unfold is_final in refl)
  ]
]

-- When both gateways fail to give the track's data, the rip is tried again exactly if one of them
-- failed on credentials: two failures of the network or of a rate limit end it.
pub fetch_meta_with_fallback-is_final :
    (q : QobuzAcquisition) (fallback : QobuzGateway) (a b : QobuzError)
    → q.fallback ≡ some fallback
    → q.primary.fetch_track_meta ≡ err a
    → fallback.fetch_track_meta ≡ err b
    → (e : RipError) × (fetch_meta_with_fallback q ≡ meta_failed e)
      × (is_final e ≡ not (is_auth a || is_auth b))
unfolding fetch_meta_with_fallback
fetch_meta_with_fallback-is_final q fallback a b f h k =
    (both_failed q fallback a b, rw (h, f, k) refl, both_failed-is_final q fallback a b)
