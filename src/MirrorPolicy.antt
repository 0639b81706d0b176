-- ===== src/MirrorPolicy.antt =====
-- crates/apple/src/mirror_policy.rs: `MirrorPolicyManager`, with its cache and its circuit breaker.
-- The JSON parser and the HTTP adapter are parameters. An instant is a number of milliseconds, read
-- from the clock where the source reads it.
pub mod Circuit
pub mod Validity
use alac_bot.Prelude.{
  ℕ, ◌+◌, ◌-◌, Bool, true, false, ◌&&◌, ◌||◌, not, Option, none, some, List, [], ◌∷◌, ◌++◌, ltb,
  if◌then◌else◌, ◌==◌,
}
use alac_bot.Prelude.Text.{Text, codes, text_eq, trim}
use alac_bot.Prelude.Decimal.{print}

pub record MirrorEndpoint : Type 0 where
  pub mirror_url : Text
  pub api_key : Text

-- An error of the JSON parser is a number.
pub data MirrorError : Type 0 where
  message : Text → MirrorError
  json : ℕ → MirrorError

pub record CachedEndpoint : Type 0 where
  pub endpoint : MirrorEndpoint
  pub expires_at : ℕ

pub record Failure : Type 0 where
  pub time : ℕ
  pub error : Text

pub record PolicyState : Type 0 where
  pub cached : Option CachedEndpoint
  pub last_failure : Option Failure

-- The fields of the manager that do not change. `health_timeout` only goes to the adapter.
pub record Config : Type 0 where
  pub env_override : Option (Text × Text)
  pub failure_cooldown : ℕ
  pub cache_ttl : ℕ

-- `crates/apple/src/mirror_http.rs`: `MirrorHttpError`
pub data MirrorHttpError : Type 0 where
  timeout : ℕ → MirrorHttpError
  cancelled : MirrorHttpError
  status : ℕ → MirrorHttpError
  network : Text → MirrorHttpError

pub data Reply : Type 0 where
  body : Text → Reply
  failed : MirrorHttpError → Reply

pub data Parsed {ℓ} (A : Type ℓ) : Type ℓ where
  parsed : A → Parsed A
  malformed : ℕ → Parsed A

-- `ManifestSource` is its only field.
pub record Manifest : Type 0 where
  pub source : Option (Option Text)
  pub mirrors : Option (Option Text)
  pub key : Option Text
  pub api_key : Option Text

-- Of the list of instances only its emptiness is read.
pub record Status : Type 0 where
  pub wrapper_lossless_available : Option Bool
  pub wrapper_instances : Option (List ℕ)

-- The answers of the adapter to a URL and headers, the parsers, and the clock: when the state is
-- looked at, and for each of the two requests, when it starts and when its end is looked at.
pub record World : Type 0 where
  pub get : Text → List (Text × Text) → Reply
  pub parse_manifest : Text → Parsed Manifest
  pub parse_status : Text → Parsed Status
  pub entered : ℕ
  pub manifest_started : ℕ
  pub manifest_ended : ℕ
  pub status_started : ℕ
  pub status_ended : ℕ

abbrev pub manifest_url : Text
manifest_url =
    codes "https://gist.githubusercontent.com/ManOfInfinity/ec6db79f031d58640c84b225c4c78cab/raw"

abbrev pub user_agent : Text
user_agent = codes "Mozilla/5.0 (Windows NT 10.0; Win64; x64) Chrome/145.0.0.0"

abbrev pub is_empty : Text → Bool
is_empty s = text_eq s []

-- `trim_end_matches('/')`
unfoldable pub trim_slashes : Text → Text
trim_slashes [] = []
trim_slashes (c ∷ s) = elim (trim_slashes s) [
  | [] ↦ if c == b'/' then [] else c ∷ []
  | d ∷ r ↦ c ∷ d ∷ r
]

abbrev pub fresh_state : PolicyState
fresh_state = record { cached = none; last_failure = none }

abbrev pub clear_cache : PolicyState → PolicyState
clear_cache s = fresh_state

unfoldable pub is_circuit_open : Config → ℕ → PolicyState → Bool
is_circuit_open cfg now s = elim s.last_failure [
  | none ↦ false
  | some failure ↦ ltb (now - failure.time) cfg.failure_cooldown
]

unfoldable pub record_failure : ℕ → Text → PolicyState → PolicyState
record_failure now error s = record s { last_failure = some (record { time = now; error = error }) }

unfoldable pub record_success : PolicyState → PolicyState
record_success s = record s { last_failure = none }

-- The endpoint that the environment configures, if both of its parts are given.
unfoldable pub configured : Config → Option MirrorEndpoint
unfolding trim_slashes text_eq
configured cfg = elim cfg.env_override [
  | none ↦ none
  | some (mirror_url, api_key) ↦
      if not (is_empty mirror_url) && not (is_empty api_key)
      then some (record { mirror_url = trim_slashes mirror_url; api_key = api_key })
      else none
]

pub data Outcome : Type 0 where
  resolved : MirrorEndpoint → Outcome
  refused : MirrorError → Outcome

-- The section under the lock: an open circuit answers with its error, a live cache with its endpoint.
unfoldable pub recall : Config → ℕ → PolicyState → Option Outcome
recall cfg now s =
    let from_cache : Option Outcome = elim s.cached [
      | none ↦ none
      | some cached ↦ if ltb now cached.expires_at then some (resolved cached.endpoint) else none
    ] in
    elim s.last_failure [
      | none ↦ from_cache
      | some failure ↦
          if ltb (now - failure.time) cfg.failure_cooldown
          then some (refused (message failure.error))
          else from_cache
    ]

abbrev pub non_empty : Option Text → Option Text
non_empty none = none
non_empty (some s) = if is_empty s then none else some s

abbrev pub or_else : Option Text → Option Text → Option Text
or_else none o = o
or_else (some s) o = some s

abbrev pub or_empty : Option Text → Text
or_empty none = []
or_empty (some s) = s

abbrev pub flatten : Option (Option Text) → Option Text
flatten none = none
flatten (some o) = o

-- The address as the manifest writes it.
abbrev pub manifest_address : Manifest → Text
manifest_address m =
    or_empty (or_else (non_empty (flatten m.source)) (non_empty (flatten m.mirrors)))

unfoldable pub manifest_endpoint : Manifest → MirrorEndpoint
unfolding trim_slashes trim text_eq
manifest_endpoint m = record {
  mirror_url = trim_slashes (manifest_address m);
  api_key = trim (or_empty (or_else (non_empty m.key) m.api_key));
}

abbrev pub adapter_elapsed : MirrorHttpError → ℕ → ℕ → ℕ
adapter_elapsed (timeout elapsed_ms) started now = elapsed_ms
adapter_elapsed cancelled started now = now - started
adapter_elapsed (status code) started now = now - started
adapter_elapsed (network text) started now = now - started

unfoldable pub adapter_message : MirrorHttpError → Text
unfolding print
adapter_message (timeout elapsed_ms) = codes "request timed out"
adapter_message cancelled = codes "request cancelled"
adapter_message (network text) = text
adapter_message (status code) = codes "HTTP " ++ print code

-- What a request that failed is reported as: by its status, or as a wait of some milliseconds.
unfoldable pub request_error : Text → Text → MirrorHttpError → ℕ → ℕ → Text
unfolding adapter_message print
request_error fetch_text wait_text (status code) started now =
    fetch_text ++ codes " (HTTP " ++ print code ++ codes ")"
request_error fetch_text wait_text error started now =
    wait_text
    ++ codes " timed out after "
    ++ print (adapter_elapsed error started now)
    ++ codes "ms: "
    ++ adapter_message error

abbrev pub default_status : Status
default_status = record { wrapper_lossless_available = none; wrapper_instances = none }

abbrev pub status_or_default : Parsed Status → Status
status_or_default (parsed s) = s
status_or_default (malformed e) = default_status

unfoldable pub is_offline : Status → Bool
is_offline s =
    elim s.wrapper_lossless_available [ none ↦ false | some available ↦ not available ]
    || elim s.wrapper_instances [ none ↦ false | some [] ↦ true | some (i ∷ is) ↦ false ]

-- How a lookup over the network ends: with an endpoint, with a failure that opens the circuit at an
-- instant, or with an error that does not.
pub data Probe : Type 0 where
  found : MirrorEndpoint → Probe
  broken : ℕ → Text → Probe
  unreadable : ℕ → Probe

unfoldable pub probe_status : World → MirrorEndpoint → Reply → Probe
unfolding is_offline request_error
probe_status w endpoint (failed error) = broken w.status_ended (
    request_error (codes "Mirror /status check failed") (codes "Mirror /status check") error
      w.status_started w.status_ended)
probe_status w endpoint (body text) =
    if is_offline (status_or_default (w.parse_status text))
    then broken w.status_ended (codes "Lossless wrapper is currently offline on mirror")
    else found endpoint

abbrev pub status_request : MirrorEndpoint → Text × List (Text × Text)
status_request endpoint = (
  endpoint.mirror_url ++ codes "/status",
  (codes "User-Agent", user_agent) ∷ (codes "X-API-Key", endpoint.api_key) ∷ [],
)

unfoldable pub probe_endpoint : World → MirrorEndpoint → Probe
unfolding probe_status text_eq
probe_endpoint w endpoint =
    if is_empty endpoint.mirror_url || is_empty endpoint.api_key
    then broken w.manifest_ended (codes "Mirror manifest returned empty apple endpoint or api key")
    else probe_status w endpoint (w.get (status_request endpoint).0 (status_request endpoint).1)

unfoldable pub probe_manifest : World → Reply → Probe
unfolding probe_endpoint manifest_endpoint request_error
probe_manifest w (failed error) = broken w.manifest_ended (
    request_error (codes "Failed to fetch mirror manifest") (codes "Mirror manifest lookup") error
      w.manifest_started w.manifest_ended)
probe_manifest w (body text) = elim (w.parse_manifest text) [
  | malformed e ↦ unreadable e
  | parsed m ↦ probe_endpoint w (manifest_endpoint m)
]

unfoldable pub probe : World → Probe
unfolding probe_manifest
probe w = probe_manifest w (w.get manifest_url ((codes "User-Agent", user_agent) ∷ []))

-- What a lookup leaves behind: its endpoint until `cache_ttl` is over, or its failure.
unfoldable pub settle : Config → World → Probe → PolicyState → PolicyState × Outcome
unfolding record_failure
settle cfg w (found endpoint) s = (
  record {
    cached = some (record { endpoint = endpoint; expires_at = w.status_ended + cfg.cache_ttl });
    last_failure = none;
  },
  resolved endpoint,
)
settle cfg w (broken now error) s = (record_failure now error s, refused (message error))
settle cfg w (unreadable e) s = (s, refused (json e))

-- `recalled` is what the section under the lock answered; `none` also when it is passed over.
unfoldable pub answer : Config → World → Option Outcome → PolicyState → PolicyState × Outcome
unfolding settle probe
answer cfg w (some outcome) s = (s, outcome)
answer cfg w none s = settle cfg w (probe w) s

unfoldable pub get_endpoint : Config → World → Bool → PolicyState → PolicyState × Outcome
unfolding configured recall answer
get_endpoint cfg w force_refresh s = elim (configured cfg) [
  | some endpoint ↦ (s, resolved endpoint)
  | none ↦ answer cfg w (if force_refresh then none else recall cfg w.entered s) s
]
