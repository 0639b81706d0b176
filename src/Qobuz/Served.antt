-- ===== src/Qobuz/Served.antt =====
-- crates/qobuz/src/acquisition.rs: which gateway serves a tier.
use alac_bot.Prelude.{ℕ, ◌≡◌, refl, ap, sym, ◌∙◌, true, false, ◌⊎◌, Option, none, some, inl, inr}
use alac_bot.Qobuz.{
  QobuzGateway, QobuzStreamInfo, try_fallback, QobuzAcquisition, QobuzError, QobuzResult, ok, err,
  Resolved, resolve_with_gateways,
}

pub QobuzResult-cases {ℓ} :
    {A : Type ℓ} (x : QobuzResult A) → ((a : A) × (x ≡ ok a)) ⊎ ((e : QobuzError) × (x ≡ err e))
QobuzResult-cases (ok a) = inl (a, refl)
QobuzResult-cases (err e) = inr (e, refl)

-- The fallback, if there is one, serves a tier strictly, or refuses it.
abbrev pub IsFallback : Option QobuzGateway → ℕ → QobuzStreamInfo → Type 0
IsFallback none t info = ⊥
IsFallback (some g) t info = g.resolve_stream_url t false ≡ ok info

abbrev pub HasNoFallback : Option QobuzGateway → ℕ → Type 0
HasNoFallback none t = Unit
HasNoFallback (some g) t = (e : QobuzError) × (g.resolve_stream_url t false ≡ err e)

-- What a tier is served with: by the primary gateway, or by the fallback where the primary fails.
abbrev pub IsServed : QobuzAcquisition → ℕ → Resolved → Type 0
IsServed q t (info, true) = q.primary.resolve_stream_url t false ≡ ok info
IsServed q t (info, false) =
    ((e : QobuzError) × (q.primary.resolve_stream_url t false ≡ err e))
    × IsFallback q.fallback t info

-- Both gateways refuse a tier, the primary one with an error.
abbrev pub IsRefused : QobuzAcquisition → ℕ → QobuzError → Type 0
IsRefused q t e = (q.primary.resolve_stream_url t false ≡ err e) × HasNoFallback q.fallback t

try_fallback-IsFallback :
    (o : Option QobuzGateway) (t : ℕ) (e : QobuzError) (info : QobuzStreamInfo)
    → IsFallback o t info
    → try_fallback e t false o ≡ ok (info, false)
try_fallback-IsFallback none t e info h = absurd h
try_fallback-IsFallback (some g) t e info h = rw h refl

pub resolve-IsServed :
    (q : QobuzAcquisition) (t : ℕ) (r : Resolved)
    → IsServed q t r
    → resolve_with_gateways q t false ≡ ok r
unfolding resolve_with_gateways
resolve-IsServed q t (info, true) h = rw (resolve_with_gateways, h) refl
resolve-IsServed q t (info, false) ((e, failed), h) =
    rw (resolve_with_gateways, failed) (try_fallback-IsFallback q.fallback t e info h)

-- What the fallback gives is told apart by its answer.
abbrev IsTried : Option QobuzGateway → ℕ → QobuzError → QobuzResult Resolved → Type 0
IsTried o t e (ok (info, true)) = ⊥
IsTried o t e (ok (info, false)) = IsFallback o t info
IsTried o t e (err x) = (x ≡ e) × HasNoFallback o t

try_fallback-IsTried :
    (o : Option QobuzGateway) (t : ℕ) (e : QobuzError) → IsTried o t e (try_fallback e t false o)
try_fallback-IsTried none t e = (refl, tt)
try_fallback-IsTried (some g) t e = elim (QobuzResult-cases (g.resolve_stream_url t false)) [
  | inl (info, h) ↦ rw h h
  | inr (x, h) ↦ rw h (refl, (x, h))
]

abbrev pub IsAnswer : QobuzAcquisition → ℕ → QobuzResult Resolved → Type 0
IsAnswer q t (ok r) = IsServed q t r
IsAnswer q t (err e) = IsRefused q t e

tried :
    (q : QobuzAcquisition) (t : ℕ) (e : QobuzError) (x : QobuzResult Resolved)
    → q.primary.resolve_stream_url t false ≡ err e
    → IsTried q.fallback t e x
    → IsAnswer q t x
tried q t e (ok (info, true)) h k = absurd k
tried q t e (ok (info, false)) h k = ((e, h), k)
tried q t e (err x) h (same, k) = (h ∙ ap (λ y. err y) (sym same), k)

pub resolve_with_gateways-IsAnswer :
    (q : QobuzAcquisition) (t : ℕ) → IsAnswer q t (resolve_with_gateways q t false)
unfolding resolve_with_gateways
resolve_with_gateways-IsAnswer q t =
    elim (QobuzResult-cases (q.primary.resolve_stream_url t false)) [
      | inl (info, h) ↦ rw (IsAnswer, resolve_with_gateways, h) h
      | inr (e, h) ↦
          rw (IsAnswer, resolve_with_gateways, h)
            (tried q t e _ h (try_fallback-IsTried q.fallback t e))
    ]
