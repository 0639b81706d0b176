-- ===== src/MirrorPolicy/Circuit.antt =====
-- crates/apple/src/mirror_policy.rs: what a lookup means for the lookups after it.
use alac_bot.Prelude.{
  ℕ, ◌+◌, ◌-◌, ◌<◌, ◌≤◌, ◌≡◌, refl, ap, ◌∙◌, Bool, true, false, Option, none, some, [], ◌∷◌, arith,
  if◌then◌else◌, Option-cases, inl, inr, subst, ◌⊎◌,
}
use alac_bot.Prelude.Text.{Text, codes}
use alac_bot.MirrorPolicy.{
  MirrorEndpoint, MirrorError, CachedEndpoint, Failure, PolicyState, Config, MirrorHttpError, Reply,
  World, Outcome, Probe, configured, recall, answer, settle, probe, probe_manifest, get_endpoint,
  record_failure, manifest_url, user_agent, request_error,
}
use MirrorError.{message}
use Outcome.{resolved, refused}
use Probe.{found, broken, unreadable}
use MirrorHttpError.{cancelled}
use Reply.{failed}

-- Until the cooldown of its failure is over, the state answers with its text.
abbrev pub IsOpen : Config → PolicyState → Text → Type 0
IsOpen cfg s e =
    (f : Failure) × (s.last_failure ≡ some f)
    × (f.error ≡ e)
    × ((w : World)
        → w.entered - f.time < cfg.failure_cooldown
        → get_endpoint cfg w false s ≡ (s, refused (message e)))

get_endpoint-open :
    (cfg : Config) (w : World) (s : PolicyState) (f : Failure)
    → configured cfg ≡ none
    → s.last_failure ≡ some f
    → w.entered - f.time < cfg.failure_cooldown
    → get_endpoint cfg w false s ≡ (s, refused (message f.error))
unfolding get_endpoint recall answer
get_endpoint-open cfg w s f c l h = ground (arith, c)

settle-message :
    (cfg : Config) (w : World) (p : Probe) (s t : PolicyState) (e : Text)
    → settle cfg w p s ≡ (t, refused (message e))
    → (f : Failure) × (t.last_failure ≡ some f) × (f.error ≡ e)
unfolding settle record_failure
settle-message cfg w (found endpoint) s t e h = (record { time = 0; error = e }, ground arith, refl)
settle-message cfg w (broken now error) s t e h =
    (record { time = now; error = error }, ground arith, ground arith)
settle-message cfg w (unreadable n) s t e h = (record { time = 0; error = e }, ground arith, refl)

recall-message :
    (cfg : Config) (now : ℕ) (s : PolicyState) (e : Text)
    → recall cfg now s ≡ some (refused (message e))
    → (f : Failure) × (s.last_failure ≡ some f) × (f.error ≡ e)
unfolding recall
recall-message cfg now s e h = elim (Option-cases s.last_failure) [
  | inl n ↦ (record { time = 0; error = e }, ground arith, refl)
  | inr y ↦ let l = y.1 in (y.0, l, ground arith)
]

answer-message :
    (cfg : Config) (w : World) (o : Option Outcome) (s t : PolicyState) (e : Text)
    → (o ≡ none) ⊎ (o ≡ recall cfg w.entered s)
    → answer cfg w o s ≡ (t, refused (message e))
    → (f : Failure) × (t.last_failure ≡ some f) × (f.error ≡ e)
unfolding answer
answer-message cfg w none s t e o h = settle-message cfg w (probe w) s t e h
answer-message cfg w (some outcome) s t e (inl o) h =
    (record { time = 0; error = e }, ground arith, refl)
answer-message cfg w (some outcome) s t e (inr o) h =
    let same : s ≡ t = ground arith in
    let got : recall cfg w.entered s ≡ some (refused (message e)) = ground arith in
    subst (λ u. (f : Failure) × (u.last_failure ≡ some f) × (f.error ≡ e)) same
      (recall-message cfg w.entered s e got)

pub recalled-cases :
    (cfg : Config) (w : World) (force : Bool) (s : PolicyState)
    → ((if force then none else recall cfg w.entered s) ≡ none)
      ⊎ ((if force then none else recall cfg w.entered s) ≡ recall cfg w.entered s)
recalled-cases cfg w true s = inl refl
recalled-cases cfg w false s = inr refl

-- A lookup that ends with a message, with no endpoint configured, leaves a failure with that message
-- behind, and until its cooldown is over every lookup that is not forced ends with the message again
-- and changes nothing, whatever the network would answer.
pub get_endpoint-IsOpen :
    (cfg : Config) (w : World) (force : Bool) (s t : PolicyState) (e : Text)
    → configured cfg ≡ none
    → get_endpoint cfg w force s ≡ (t, refused (message e))
    → IsOpen cfg t e
unfolding get_endpoint
get_endpoint-IsOpen cfg w force s t e c h =
    let k : answer cfg w (if force then none else recall cfg w.entered s) s
        ≡ (t, refused (message e)) =
      ground (arith, c) in
    let left = answer-message cfg w _ s t e (recalled-cases cfg w force s) k in
    (
      left.0,
      left.1,
      left.2,
      λ v l.
          get_endpoint-open cfg v t left.0 c left.1 l ∙ ap (λ x. (t, refused (message x))) left.2,
    )

-- At `now` no failure is young enough to answer.
abbrev pub IsClosed : Config → ℕ → PolicyState → Type 0
IsClosed cfg now s = (f : Failure) → s.last_failure ≡ some f → cfg.failure_cooldown ≤ now - f.time

-- From the cache, the endpoint is answered until it expires.
abbrev pub IsKept : Config → ℕ → PolicyState → MirrorEndpoint → Type 0
IsKept cfg now s endpoint =
    (c : CachedEndpoint) × (s.cached ≡ some c)
    × (c.endpoint ≡ endpoint)
    × ((w : World)
        → now ≤ w.entered
        → w.entered < c.expires_at
        → get_endpoint cfg w false s ≡ (s, resolved endpoint))

get_endpoint-cached :
    (cfg : Config) (w : World) (s : PolicyState) (c : CachedEndpoint)
    → configured cfg ≡ none
    → IsClosed cfg w.entered s
    → s.cached ≡ some c
    → w.entered < c.expires_at
    → get_endpoint cfg w false s ≡ (s, resolved c.endpoint)
unfolding get_endpoint recall answer
get_endpoint-cached cfg w s c n o k h = elim (Option-cases s.last_failure) [
  | inl y ↦ ground (arith, n)
  | inr y ↦ let l = y.1 in let q = o y.0 l in ground (arith, n)
]

recall-resolved :
    (cfg : Config) (now : ℕ) (s : PolicyState) (endpoint : MirrorEndpoint)
    → recall cfg now s ≡ some (resolved endpoint)
    → IsClosed cfg now s × ((c : CachedEndpoint) × (s.cached ≡ some c) × (c.endpoint ≡ endpoint))
unfolding recall
recall-resolved cfg now s endpoint h = (
  λ f l. ground arith,
  elim (Option-cases s.cached) [
    | inl n ↦ (record { endpoint = endpoint; expires_at = 0 }, ground arith, refl)
    | inr y ↦ let l = y.1 in (y.0, l, ground arith)
  ],
)

settle-resolved :
    (cfg : Config) (w : World) (now : ℕ) (p : Probe) (s t : PolicyState) (endpoint : MirrorEndpoint)
    → settle cfg w p s ≡ (t, resolved endpoint)
    → IsClosed cfg now t × ((c : CachedEndpoint) × (t.cached ≡ some c) × (c.endpoint ≡ endpoint))
unfolding settle record_failure
settle-resolved cfg w now (found e) s t endpoint h = (
  λ f l. ground arith,
  (
    record { endpoint = e; expires_at = w.status_ended + cfg.cache_ttl },
    ground arith,
    ground arith,
  ),
)
settle-resolved cfg w now (broken at e) s t endpoint h =
    (λ f l. ground arith, (record { endpoint = endpoint; expires_at = 0 }, ground arith, refl))
settle-resolved cfg w now (unreadable n) s t endpoint h =
    (λ f l. ground arith, (record { endpoint = endpoint; expires_at = 0 }, ground arith, refl))

answer-resolved :
    (cfg : Config) (w : World) (o : Option Outcome) (s t : PolicyState) (endpoint : MirrorEndpoint)
    → (o ≡ none) ⊎ (o ≡ recall cfg w.entered s)
    → answer cfg w o s ≡ (t, resolved endpoint)
    → IsClosed cfg w.entered t
      × ((c : CachedEndpoint) × (t.cached ≡ some c) × (c.endpoint ≡ endpoint))
unfolding answer
answer-resolved cfg w none s t endpoint o h =
    settle-resolved cfg w w.entered (probe w) s t endpoint h
answer-resolved cfg w (some outcome) s t endpoint (inl o) h =
    (λ f l. ground arith, (record { endpoint = endpoint; expires_at = 0 }, ground arith, refl))
answer-resolved cfg w (some outcome) s t endpoint (inr o) h =
    let same : s ≡ t = ground arith in
    let got : recall cfg w.entered s ≡ some (resolved endpoint) = ground arith in
    subst
      (λ u.
        IsClosed cfg w.entered u
        × ((c : CachedEndpoint) × (u.cached ≡ some c) × (c.endpoint ≡ endpoint)))
      same (recall-resolved cfg w.entered s endpoint got)

-- A lookup that ends with an endpoint, with none configured, has it in the cache, and until it
-- expires there every later lookup that is not forced ends with it again and changes nothing.
pub get_endpoint-IsKept :
    (cfg : Config) (w : World) (force : Bool) (s t : PolicyState) (endpoint : MirrorEndpoint)
    → configured cfg ≡ none
    → get_endpoint cfg w force s ≡ (t, resolved endpoint)
    → IsKept cfg w.entered t endpoint
unfolding get_endpoint
get_endpoint-IsKept cfg w force s t endpoint c h =
    let k : answer cfg w (if force then none else recall cfg w.entered s) s
        ≡ (t, resolved endpoint) =
      ground (arith, c) in
    let (closed, kept) = answer-resolved cfg w _ s t endpoint (recalled-cases cfg w force s) k in
    (
      kept.0,
      kept.1,
      kept.2,
      λ v later l.
          get_endpoint-cached cfg v t kept.0 c (λ f y. let z = closed f y in omega arith) kept.1 l
          ∙ ap (λ x. (t, resolved x)) kept.2,
    )

broken-refused :
    (cfg : Config) (w v : World) (s : PolicyState) (now : ℕ) (e : Text)
    → configured cfg ≡ none
    → probe w ≡ broken now e
    → v.entered - now < cfg.failure_cooldown
    → (get_endpoint cfg v false (get_endpoint cfg w true s).0).1 ≡ refused (message e)
unfolding get_endpoint answer settle recall record_failure
broken-refused cfg w v s now e c p h = ground (arith, c)

-- A forced lookup whose first request is cancelled, with no endpoint configured, opens the circuit:
-- until the cooldown is over every lookup that is not forced is refused with the text of the
-- cancelled request.
pub get_endpoint-cancelled :
    (cfg : Config) (w v : World) (s : PolicyState)
    → configured cfg ≡ none
    → w.get manifest_url ((codes "User-Agent", user_agent) ∷ []) ≡ failed cancelled
    → v.entered - w.manifest_ended < cfg.failure_cooldown
    → (get_endpoint cfg v false (get_endpoint cfg w true s).0).1
      ≡ refused (
          message (
            request_error
              (codes "Failed to fetch mirror manifest")
              (codes "Mirror manifest lookup")
              cancelled
              w.manifest_started
              w.manifest_ended))
get_endpoint-cancelled cfg w v s c g h =
    broken-refused cfg w v s w.manifest_ended _ c (unfold probe probe_manifest in rw g refl) h
