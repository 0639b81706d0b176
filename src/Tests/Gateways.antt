-- ===== src/Tests/Gateways.antt =====
-- crates/qobuz/src/acquisition.rs with gateways that serve some of the tiers.
use alac_bot.Prelude.{
  ℕ, ◌≡◌, refl, true, false, not, ◌||◌, none, some, [], ◌∷◌, arith, ◌==◌, if◌then◌else◌,
}
use alac_bot.Prelude.Text.{codes}
use alac_bot.Ripper.Error.{SourceId, RipError, RipResult, is_final}
use alac_bot.Qobuz.{
  QobuzAcquisition, QobuzGateway, QobuzError, ok, err, QobuzStreamInfo, Connection, Sent,
  CodecPreference, connect_stream, resolve_best_available, fetch_meta_with_fallback, MetaResult,
  Resolved, source_of, quality_ladder, aborts_ladder,
}
use alac_bot.Qobuz.Served.{IsServed}
use alac_bot.Qobuz.Best.{is_better, resolve_best_available-best}
use alac_bot.Qobuz.Retries.{fetch_meta_with_fallback-is_final}

abbrev info_of : ℕ → QobuzStreamInfo
info_of t = record {
  url = codes "https://q.example";
  format_id = t;
  mime_type = codes "audio/flac";
  bit_depth = 24;
  sample_rate = 96000;
}

-- A gateway that serves one tier.
abbrev serving : ℕ → QobuzError → QobuzGateway
serving t e = record {
  gateway_name = codes "g";
  fetch_track_meta = err e;
  resolve_stream_url = λ u flag. if u == t then ok (info_of t) else err e;
}

abbrev two_gateways : QobuzAcquisition
two_gateways = record {
  primary = serving 27 (QobuzError.not_found []);
  fallback = some (serving 5 (QobuzError.not_found []));
  primary_url = codes "https://b.example";
}

ladder_test : quality_ladder 6 ≡ 6 ∷ 7 ∷ 27 ∷ 5 ∷ []
unfolding quality_ladder
ladder_test = refl

best_test :
    resolve_best_available two_gateways (λ t. false) 6
    ≡ ok (info_of 27, SourceId.qobuz_backend (codes "https://b.example"))
unfolding resolve_best_available
best_test = refl

none_better : (u : ℕ) (x : Resolved) → IsServed two_gateways u x → is_better 6 u 27 ≡ false
none_better u (info, true) h = ground (arith, h)
none_better u (info, false) (failed, h) = ground (arith, h)

resolve_best_available-best_example :
    resolve_best_available two_gateways (λ t. false) 6
    ≡ ok (source_of two_gateways (info_of 27, true))
unfolding aborts_ladder
resolve_best_available-best_example =
    resolve_best_available-best two_gateways (λ t. false) 6 27 (info_of 27, true) (λ u k. refl)
      (λ u e k h. ground (arith, h.0)) refl refl (λ u x k h. none_better u x h)

abbrev offline : QobuzAcquisition
offline = record {
  primary = serving 4 (QobuzError.network (codes "reset"));
  fallback = some (serving 4 (QobuzError.rate_limit (codes "slow")));
  primary_url = codes "https://b.example";
}

abbrev connection : Connection
connection = record {
  cancelled_first = false;
  cancelled_at = λ t. false;
  cancelled_unresolved = false;
  cancelled_resolved = false;
  sent = λ info. Sent.answered true (codes "200 OK") none;
}

fetch_meta_with_fallback-is_final_example :
    (e : RipError) × (fetch_meta_with_fallback offline ≡ MetaResult.meta_failed e)
    × (is_final e ≡ not (false || false))
fetch_meta_with_fallback-is_final_example =
    fetch_meta_with_fallback-is_final offline (serving 4 (QobuzError.rate_limit (codes "slow")))
      (QobuzError.network (codes "reset")) (QobuzError.rate_limit (codes "slow")) refl refl refl

connect_test :
    connect_stream offline connection CodecPreference.hi_res_96
    ≡ RipResult.err (
        RipError.timeout
          (some (SourceId.qobuz_backend (codes "https://b.example")))
          (codes "[g] reset"))
unfolding connect_stream
connect_test = refl
