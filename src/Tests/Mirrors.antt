-- ===== src/Tests/Mirrors.antt =====
-- crates/apple/src/mirror_policy.rs with an adapter that answers every request.
use alac_bot.Prelude.{ℕ, ◌+◌, ◌≡◌, refl, true, false, none, some, arith}
use alac_bot.Prelude.Text.{Text, codes, text_eq, trim}
use alac_bot.MirrorPolicy.{
  MirrorEndpoint, MirrorError, PolicyState, Config, MirrorHttpError, Reply, World, Manifest, Parsed,
  Outcome, get_endpoint, fresh_state, request_error, configured, answer, probe, probe_manifest,
  probe_endpoint, probe_status, manifest_endpoint, settle, is_offline,
}
use alac_bot.MirrorPolicy.Circuit.{IsOpen, get_endpoint-IsOpen, get_endpoint-cancelled}

abbrev config : Config
config = record { env_override = none; failure_cooldown = 30000; cache_ttl = 3600000 }

abbrev manifest : Manifest
manifest = record {
  source = some (some (codes "https://m.example/"));
  mirrors = none;
  key = none;
  api_key = some (codes " k1 ");
}

abbrev world : Reply → ℕ → World
world reply now = record {
  get = λ url headers. reply;
  parse_manifest = λ text. Parsed.parsed manifest;
  parse_status = λ text. Parsed.malformed 1;
  entered = now;
  manifest_started = now;
  manifest_ended = now + 5;
  status_started = now + 5;
  status_ended = now + 9;
}

abbrev up : World
up = world (Reply.body (codes "{}")) 100

abbrev down : World
down = world (Reply.failed MirrorHttpError.cancelled) 100

abbrev endpoint : MirrorEndpoint
endpoint = record { mirror_url = codes "https://m.example"; api_key = codes "k1" }

abbrev kept_state : PolicyState
kept_state = record {
  cached = some (record { endpoint = endpoint; expires_at = 3600109 });
  last_failure = none;
}

get_endpoint-up : get_endpoint config up true fresh_state ≡ (kept_state, Outcome.resolved endpoint)
unfolding get_endpoint configured answer probe probe_manifest probe_endpoint probe_status settle
    manifest_endpoint is_offline trim text_eq
get_endpoint-up = refl

-- The text of the cancelled lookup.
abbrev waited : Text
waited =
    request_error (codes "Failed to fetch mirror manifest") (codes "Mirror manifest lookup")
      MirrorHttpError.cancelled 100 105

abbrev broken_state : PolicyState
broken_state = record { cached = none; last_failure = some (record { time = 105; error = waited }) }

get_endpoint-down :
    get_endpoint config down true fresh_state
    ≡ (broken_state, Outcome.refused (MirrorError.message waited))
unfolding get_endpoint configured answer probe probe_manifest settle
get_endpoint-down = refl

get_endpoint-IsOpen_example : IsOpen config broken_state waited
get_endpoint-IsOpen_example =
    get_endpoint-IsOpen config down true fresh_state broken_state waited (unfold configured in refl)
      get_endpoint-down

get_endpoint-cancelled_example :
    (get_endpoint config up false (get_endpoint config down true fresh_state).0).1
    ≡ Outcome.refused (MirrorError.message waited)
get_endpoint-cancelled_example =
    get_endpoint-cancelled config down up fresh_state (unfold configured in refl) refl (omega arith)
