-- ===== src/Qobuz/Best.antt =====
-- crates/qobuz/src/acquisition.rs: which tier a track is resolved at.
use alac_bot.Prelude.{
  ℕ, ◌≡◌, refl, ap, sym, ◌∙◌, Bool, true, false, not, ◌&&◌, ◌||◌, Option, none, some, List, [], ◌∷◌,
  arith, ltb, ◌==◌, if◌then◌else◌, Bool-cases, inl, inr, subst, any, All,
}
use alac_bot.Qobuz.Served.{
  QobuzResult-cases, IsServed, IsRefused, IsAnswer, resolve-IsServed,
  resolve_with_gateways-IsAnswer,
}
use alac_bot.Qobuz.{
  QobuzAcquisition, QobuzError, ok, err, Resolved, resolve_with_gateways, source_of, aborts_ladder,
  ladder_loop, resolve_best_available, quality_ladder, tiers_ascending, position,
}

abbrev pub is_tier : ℕ → Bool
is_tier t = any (λ x. x == t) tiers_ascending

-- Whether tier `u` is better than `t` for a preferred tier: the preferred one itself, then those above
-- it from the lowest on, then those below it from the highest on. Where none is preferred, the higher
-- one is better.
abbrev pub is_better : ℕ → ℕ → ℕ → Bool
is_better preferred u t =
    if is_tier preferred
    then not (u == t)
      && (u == preferred
          || ltb preferred u && ltb t preferred
          || ltb preferred u && ltb u t
          || ltb t u && ltb u preferred)
    else ltb t u

-- Tiers, each better than those after it.
abbrev IsSorted : ℕ → List ℕ → Type 0
IsSorted preferred [] = Unit
IsSorted preferred (u ∷ ts) =
    (is_tier u ≡ true) × All (λ t. is_better preferred u t ≡ true) ts × IsSorted preferred ts

IsSorted-cases :
    (P : ℕ → Type 0)
    → P 5
    → P 6
    → P 7
    → P 27
    → ((preferred : ℕ) → is_tier preferred ≡ false → P preferred)
    → (preferred : ℕ) → P preferred
IsSorted-cases P a b c d e preferred = elim (Bool-cases (5 == preferred)) [
  | inl h ↦ subst P (same 5 preferred h) a
  | inr h ↦ elim (Bool-cases (6 == preferred)) [
    | inl i ↦ subst P (same 6 preferred i) b
    | inr i ↦ elim (Bool-cases (7 == preferred)) [
      | inl j ↦ subst P (same 7 preferred j) c
      | inr j ↦ elim (Bool-cases (27 == preferred)) [
        | inl k ↦ subst P (same 27 preferred k) d
        | inr k ↦ e preferred (ground (arith, h, i, j, k))
      ]
    ]
  ]
]
  where
    same : (m n : ℕ) → (m == n) ≡ true → m ≡ n
    same m n h = ground arith

-- A tier of the ladder is a tier, and every tier is on it.
abbrev IsComplete : List ℕ → Type 0
IsComplete l = (t : ℕ) → is_tier t ≡ true → any (λ x. x == t) l ≡ true

quality_ladder-unknown :
    (preferred : ℕ) → is_tier preferred ≡ false → quality_ladder preferred ≡ 27 ∷ 7 ∷ 6 ∷ 5 ∷ []
unfolding quality_ladder position
quality_ladder-unknown preferred h = ground arith

unknown_is_better :
    (preferred u t : ℕ)
    → is_tier preferred ≡ false
    → ltb t u ≡ true
    → is_better preferred u t ≡ true
unknown_is_better preferred u t h k = rw h k

quality_ladder-IsSorted : (preferred : ℕ) → IsSorted preferred (quality_ladder preferred)
unfolding quality_ladder
quality_ladder-IsSorted =
    IsSorted-cases (λ p. IsSorted p (quality_ladder p))
      (
        refl,
        (refl, (refl, (refl, tt))),
        (refl, (refl, (refl, tt)), (refl, (refl, tt), (refl, tt, tt))),
      )
      (
        refl,
        (refl, (refl, (refl, tt))),
        (refl, (refl, (refl, tt)), (refl, (refl, tt), (refl, tt, tt))),
      )
      (
        refl,
        (refl, (refl, (refl, tt))),
        (refl, (refl, (refl, tt)), (refl, (refl, tt), (refl, tt, tt))),
      )
      (
        refl,
        (refl, (refl, (refl, tt))),
        (refl, (refl, (refl, tt)), (refl, (refl, tt), (refl, tt, tt))),
      )
      λ p h.
        let above : (u t : ℕ) → ltb t u ≡ true → is_better p u t ≡ true =
          λ u t k. unknown_is_better p u t h k in
        subst (IsSorted p) (sym (quality_ladder-unknown p h)) (
          refl,
          (above 27 7 refl, (above 27 6 refl, (above 27 5 refl, tt))),
          (
            refl,
            (above 7 6 refl, (above 7 5 refl, tt)),
            (refl, (above 6 5 refl, tt), (refl, tt, tt)),
          ),
        )

quality_ladder-IsComplete : (preferred : ℕ) → IsComplete (quality_ladder preferred)
unfolding quality_ladder
quality_ladder-IsComplete =
    IsSorted-cases (λ p. IsComplete (quality_ladder p)) (λ t h. ground (arith, h))
      (λ t h. ground (arith, h)) (λ t h. ground (arith, h)) (λ t h. ground (arith, h))
      λ p h. subst IsComplete (sym (quality_ladder-unknown p h)) (λ t k. ground (arith, k))

same_tier : (x t : ℕ) → (x == t) ≡ true → x ≡ t
same_tier x t h = ground arith

later :
    (x t : ℕ) (l : List ℕ)
    → any (λ y. y == t) (x ∷ l) ≡ true
    → (x == t) ≡ false
    → any (λ y. y == t) l ≡ true
later x t l h k = ground arith

All-any : (P : ℕ → Type 0) (t : ℕ) (l : List ℕ) → All P l → any (λ x. x == t) l ≡ true → P t
All-any P t [] h m = elim (nothing m) [ ]
  where
    nothing : false ≡ true → ⊥
    nothing e = ground arith
All-any P t (x ∷ l) h m = elim (Bool-cases (x == t)) [
  | inl e ↦ subst P (same_tier x t e) h.0
  | inr e ↦ All-any P t l h.1 (later x t l m e)
]

ladder_loop-best :
    (q : QobuzAcquisition) (cancelled : ℕ → Bool) (preferred t : ℕ) (r : Resolved) (l : List ℕ)
    (last : Option QobuzError)
    → ((u : ℕ) → is_tier u ≡ true → cancelled u ≡ false)
    → ((u : ℕ) (e : QobuzError)
        → is_tier u ≡ true
        → resolve_with_gateways q u false ≡ err e
        → aborts_ladder e ≡ false)
    → resolve_with_gateways q t false ≡ ok r
    → ((u : ℕ) (x : Resolved)
        → is_tier u ≡ true
        → resolve_with_gateways q u false ≡ ok x
        → is_better preferred u t ≡ false)
    → IsSorted preferred l
    → any (λ x. x == t) l ≡ true
    → ladder_loop q cancelled preferred l last ≡ ok (source_of q r)
unfolding ladder_loop
ladder_loop-best q cancelled preferred t r [] last c a s b sorted m = ground arith
ladder_loop-best q cancelled preferred t r (x ∷ l) last c a s b sorted m =
    elim (Bool-cases (x == t)) [
      | inl h ↦
          rw (c x sorted.0, ap (λ u. resolve_with_gateways q u false) (same_tier x t h) ∙ s) refl
      | inr h ↦
          let member : any (λ y. y == t) l ≡ true = later x t l m h in
          let first : is_better preferred x t ≡ true =
            All-any (λ u. is_better preferred x u ≡ true) t l sorted.1 member in
          elim (QobuzResult-cases (resolve_with_gateways q x false)) [
            | inl (y, served) ↦
                elim (absurd_test (is_better preferred x t) first (b x y sorted.0 served)) [ ]
            | inr (e, failed) ↦
                rw (c x sorted.0, failed, a x e sorted.0 failed)
                  (ladder_loop-best q cancelled preferred t r l (some e) c a s b sorted.2 member)
          ]
    ]
  where
    absurd_test : (b : Bool) → b ≡ true → b ≡ false → ⊥
    absurd_test b h k = ground arith

-- Without a signal, and where no tier is refused by both gateways with an error of the primary one
-- that is of credentials, a rate limit or the network, a track is resolved at the best of the tiers
-- that a gateway serves strictly: the preferred tier, or else the lowest of those above it, or else
-- the highest of those below it; and with the answer of the primary gateway if that one serves the
-- tier, and otherwise of the fallback.
pub resolve_best_available-best :
    (q : QobuzAcquisition) (cancelled : ℕ → Bool) (preferred t : ℕ) (r : Resolved)
    → ((u : ℕ) → is_tier u ≡ true → cancelled u ≡ false)
    → ((u : ℕ) (e : QobuzError) → is_tier u ≡ true → IsRefused q u e → aborts_ladder e ≡ false)
    → is_tier t ≡ true
    → IsServed q t r
    → ((u : ℕ) (x : Resolved) → is_tier u ≡ true → IsServed q u x → is_better preferred u t ≡ false)
    → resolve_best_available q cancelled preferred ≡ ok (source_of q r)
unfolding resolve_best_available
resolve_best_available-best q cancelled preferred t r c a k s b =
    ladder_loop-best q cancelled preferred t r (quality_ladder preferred) none c
      (λ u e n h. a u e n (subst (IsAnswer q u) h (resolve_with_gateways-IsAnswer q u)))
      (resolve-IsServed q t r s)
      (λ u x n h. b u x n (subst (IsAnswer q u) h (resolve_with_gateways-IsAnswer q u)))
      (quality_ladder-IsSorted preferred) (quality_ladder-IsComplete preferred t k)
