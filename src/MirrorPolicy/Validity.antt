-- ===== src/MirrorPolicy/Validity.antt =====
-- crates/apple/src/mirror_policy.rs: the endpoints that the manager keeps and answers.
use alac_bot.Prelude.{
  ℕ, ◌≡◌, refl, Bool, false, Option, none, some, List, [], ◌∷◌, arith, ◌==◌, if◌then◌else◌,
  Bool-cases, Option-cases, inl, inr, ◌⊎◌, subst,
}
use alac_bot.Prelude.Text.{Text}
use alac_bot.MirrorPolicy.{
  MirrorEndpoint, CachedEndpoint, PolicyState, Config, Manifest, Reply, Parsed, World, Outcome,
  Probe, configured, recall, answer, settle, probe, probe_manifest, probe_endpoint, probe_status,
  get_endpoint, record_failure, record_success, clear_cache, fresh_state, trim_slashes,
  manifest_endpoint, manifest_address, is_empty, status_request,
}
use alac_bot.MirrorPolicy.Circuit.{recalled-cases}
use Outcome.{resolved}
use Probe.{found, broken, unreadable}
use Reply.{body, failed}
use Parsed.{parsed, malformed}

abbrev pub ends_with_slash : Text → Bool
ends_with_slash [] = false
ends_with_slash (c ∷ []) = c == b'/'
ends_with_slash (c ∷ d ∷ s) = ends_with_slash (d ∷ s)

pub trim_slashes-end : (s : Text) → ends_with_slash (trim_slashes s) ≡ false
unfolding trim_slashes
trim_slashes-end [] = refl
trim_slashes-end (c ∷ s) = go (trim_slashes s) (trim_slashes-end s)
  where
    go :
        (t : Text)
        → ends_with_slash t ≡ false
        → ends_with_slash (elim t [ [] ↦ if c == b'/' then [] else c ∷ [] | d ∷ r ↦ c ∷ d ∷ r ])
          ≡ false
    go [] h = elim (Bool-cases (c == b'/')) [ inl e ↦ rw e refl | inr e ↦ rw e e ]
    go (d ∷ r) h = h

-- An address and a key that are not empty, and no slash at the end of the address.
abbrev pub IsUsable : MirrorEndpoint → Type 0
IsUsable e =
    (is_empty e.mirror_url ≡ false)
    × (is_empty e.api_key ≡ false)
    × (ends_with_slash e.mirror_url ≡ false)

probe_status-found :
    (w : World) (x e : MirrorEndpoint) (r : Reply) → probe_status w x r ≡ found e → x ≡ e
unfolding probe_status
probe_status-found w x e (failed error) h = ground arith
probe_status-found w x e (body text) h = ground arith

probe_endpoint-found :
    (w : World) (x e : MirrorEndpoint)
    → ends_with_slash x.mirror_url ≡ false
    → probe_endpoint w x ≡ found e
    → IsUsable e
unfolding probe_endpoint
probe_endpoint-found w x e k h =
    let q = probe_status-found w x e (w.get (status_request x).0 (status_request x).1) in
    ground (arith, q)

manifest_endpoint-end : (m : Manifest) → ends_with_slash (manifest_endpoint m).mirror_url ≡ false
unfolding manifest_endpoint
manifest_endpoint-end m = trim_slashes-end (manifest_address m)

parsed-found :
    (w : World) (p : Parsed Manifest) (e : MirrorEndpoint)
    → elim p [ malformed n ↦ unreadable n | parsed m ↦ probe_endpoint w (manifest_endpoint m) ]
      ≡ found e
    → IsUsable e
parsed-found w (malformed n) e k = ground arith
parsed-found w (parsed m) e k =
    probe_endpoint-found w (manifest_endpoint m) e (manifest_endpoint-end m) k

manifest-found :
    (w : World) (r : Reply) (e : MirrorEndpoint) → probe_manifest w r ≡ found e → IsUsable e
unfolding probe_manifest
manifest-found w (failed error) e h = ground arith
manifest-found w (body text) e h = parsed-found w (w.parse_manifest text) e h

probe-found : (w : World) (e : MirrorEndpoint) → probe w ≡ found e → IsUsable e
unfolding probe
probe-found w e h = manifest-found w _ e h

-- What changes the state of a manager, or of one that shares it: a lookup that comes back from the
-- network, a report of success or of failure, and the clearing of the cache.
pub data Change : Type 0 where
  looked_up : World → Change
  failed_at : ℕ → Text → Change
  succeeded cleared : Change

abbrev pub change : Config → Change → PolicyState → PolicyState
change cfg (looked_up w) s = (settle cfg w (probe w) s).0
change cfg (failed_at now e) s = record_failure now e s
change cfg succeeded s = record_success s
change cfg cleared s = clear_cache s

-- The changes, the last one first.
abbrev pub state_after : Config → List Change → PolicyState
state_after cfg [] = fresh_state
state_after cfg (c ∷ cs) = change cfg c (state_after cfg cs)

abbrev pub IsSound : PolicyState → Type 0
IsSound s = (c : CachedEndpoint) → s.cached ≡ some c → IsUsable c.endpoint

settle-IsSound :
    (cfg : Config) (w : World) (p : Probe) (s : PolicyState)
    → ((e : MirrorEndpoint) → p ≡ found e → IsUsable e)
    → IsSound s
    → IsSound (settle cfg w p s).0
unfolding settle record_failure
settle-IsSound cfg w (found e) s u h c k =
    let z : e ≡ c.endpoint = ground arith in subst IsUsable z (u e refl)
settle-IsSound cfg w (broken now text) s u h c k = h c k
settle-IsSound cfg w (unreadable n) s u h c k = h c k

change-IsSound :
    (cfg : Config) (c : Change) (s : PolicyState) → IsSound s → IsSound (change cfg c s)
unfolding record_failure record_success
change-IsSound cfg (looked_up w) s h = settle-IsSound cfg w (probe w) s (probe-found w) h
change-IsSound cfg (failed_at now e) s h = h
change-IsSound cfg succeeded s h = h
change-IsSound cfg cleared s h = λ c k. ground arith

state_after-IsSound : (cfg : Config) (cs : List Change) → IsSound (state_after cfg cs)
state_after-IsSound cfg [] = λ c k. ground arith
state_after-IsSound cfg (c ∷ cs) =
    change-IsSound cfg c (state_after cfg cs) (state_after-IsSound cfg cs)

recall-IsUsable :
    (cfg : Config) (now : ℕ) (s : PolicyState) (e : MirrorEndpoint)
    → IsSound s
    → recall cfg now s ≡ some (resolved e)
    → IsUsable e
unfolding recall
recall-IsUsable cfg now s e h r = elim (Option-cases s.cached) [
  | inl n ↦ ground arith
  | inr y ↦ let l = y.1 in let z : y.0.endpoint ≡ e = ground arith in subst IsUsable z (h y.0 l)
]

settle-found :
    (cfg : Config) (w : World) (p : Probe) (s : PolicyState) (e : MirrorEndpoint)
    → (settle cfg w p s).1 ≡ resolved e
    → p ≡ found e
unfolding settle
settle-found cfg w (found x) s e h = ground arith
settle-found cfg w (broken now text) s e h = ground arith
settle-found cfg w (unreadable n) s e h = ground arith

answer-IsUsable :
    (cfg : Config) (w : World) (o : Option Outcome) (s : PolicyState) (e : MirrorEndpoint)
    → IsSound s
    → (o ≡ none) ⊎ (o ≡ recall cfg w.entered s)
    → (answer cfg w o s).1 ≡ resolved e
    → IsUsable e
unfolding answer
answer-IsUsable cfg w none s e h o r = probe-found w e (settle-found cfg w (probe w) s e r)
answer-IsUsable cfg w (some outcome) s e h (inl o) r = ground arith
answer-IsUsable cfg w (some outcome) s e h (inr o) r =
    recall-IsUsable cfg w.entered s e h (ground arith)

-- After any changes, an endpoint that a lookup ends with, with none configured, has an address and a
-- key that are not empty, and no slash at the end of the address.
pub get_endpoint-IsUsable :
    (cfg : Config) (cs : List Change) (w : World) (force : Bool) (e : MirrorEndpoint)
    → configured cfg ≡ none
    → (get_endpoint cfg w force (state_after cfg cs)).1 ≡ resolved e
    → IsUsable e
unfolding get_endpoint
get_endpoint-IsUsable cfg cs w force e c h =
    let s = state_after cfg cs in
    let o = if force then none else recall cfg w.entered s in
    answer-IsUsable cfg w o s e (state_after-IsSound cfg cs) (recalled-cases cfg w force s)
      (let k : (answer cfg w o s).1 ≡ resolved e = ground (arith, c) in k)
