-- ===== src/Stream/Pool/Choice.antt =====
-- crates/stream/src/worker_pool.rs: `pick_least_loaded` picks an available worker of the least load.
use native.Mathlib.Nat.{mod-eq_of_lt, add-mod_right, mod-lt}
use alac_bot.Prelude.{
  ℕ, zero, suc, ◌+◌, ◌-◌, ◌%◌, ◌≤◌, ◌<◌, ◌≡◌, refl, ap, ◌∙◌, true, false, Option, none, some, arith,
  ltb, leb, ◌==◌, Bool-cases, inl, inr, subst,
}
use alac_bot.Stream.Breaker.{Breaker, is_available}
use alac_bot.Stream.Pool.{Turn, Pool, Best, usize_max, visit, visit_from, pick_least_loaded}

-- What the search has found of the workers it has visited: the load that it keeps is that of the worker
-- that it keeps, an available one.
abbrev IsFound : Breaker → Turn → ℕ → Best → Type 0
IsFound states t n (none, least) = least ≡ usize_max
IsFound states t n (some id, least) =
    (id < n) × (is_available states id (t.asked_at id) ≡ true) × (least ≡ t.in_flight id)

-- No available worker of those visited has less load.
abbrev IsLeast : Breaker → Turn → ℕ → Best → Type 0
IsLeast states t id best = is_available states id (t.asked_at id) ≡ true → best.1 ≤ t.in_flight id

visit-IsFound :
    (states : Breaker) (t : Turn) (n idx : ℕ) (best : Best)
    → idx < n
    → IsFound states t n best
    → IsFound states t n (visit states t idx best)
unfolding visit
visit-IsFound states t n idx best b h =
    elim (Bool-cases (is_available states idx (t.asked_at idx))) [
      | inr e ↦ rw e h
      | inl e ↦ elim (Bool-cases (ltb (t.in_flight idx) best.1)) [
        | inl l ↦ rw (e, l) (b, e, refl)
        | inr l ↦ rw (e, l) h
      ]
    ]

-- A visit does not raise the load that is kept, and brings it down to that of an available worker.
visit-less :
    (states : Breaker) (t : Turn) (idx : ℕ) (best : Best)
    → ((visit states t idx best).1 ≤ best.1) × IsLeast states t idx (visit states t idx best)
unfolding visit
visit-less states t idx best = elim (Bool-cases (is_available states idx (t.asked_at idx))) [
  | inr e ↦ rw e (omega arith, λ h. ground arith)
  | inl e ↦ elim (Bool-cases (ltb (t.in_flight idx) best.1)) [
    | inl l ↦ rw (e, l) (ground (arith, l), λ h. omega arith)
    | inr l ↦ rw (e, l) (omega arith, λ h. ground (arith, l))
  ]
]

visit_from-IsFound :
    (states : Breaker) (t : Turn) (n start offset left : ℕ) (best : Best)
    → 0 < n
    → IsFound states t n best
    → IsFound states t n (visit_from states t n start offset left best)
unfolding visit_from
visit_from-IsFound states t n start offset zero best z h = h
visit_from-IsFound states t n start offset (suc left) best z h =
    visit_from-IsFound states t n start (offset + 1) left
      (visit states t ((start + offset) % n) best) z
      (visit-IsFound states t n ((start + offset) % n) best (mod-lt (start + offset) z) h)

visit_from-le :
    (states : Breaker) (t : Turn) (n start offset left : ℕ) (best : Best)
    → (visit_from states t n start offset left best).1 ≤ best.1
unfolding visit_from
visit_from-le states t n start offset zero best = omega arith
visit_from-le states t n start offset (suc left) best =
    let next : Best = visit states t ((start + offset) % n) best in
    omega (
      arith,
      visit_from-le states t n start (offset + 1) left next,
      (visit-less states t ((start + offset) % n) best).0,
    )

visit_from-IsLeast :
    (states : Breaker) (t : Turn) (n start offset left o : ℕ) (best : Best)
    → offset ≤ o
    → o < offset + left
    → IsLeast states t ((start + o) % n) (visit_from states t n start offset left best)
unfolding visit_from
visit_from-IsLeast states t n start offset zero o best l u = elim (nothing offset o l u) [ ]
  where
    nothing : (offset o : ℕ) → offset ≤ o → o < offset + 0 → ⊥
    nothing offset o l u = omega (arith, l, u)
visit_from-IsLeast states t n start offset (suc left) o best l u =
    let next : Best = visit states t ((start + offset) % n) best in
    elim (Bool-cases (offset == o)) [
      | inr e ↦
          visit_from-IsLeast states t n start (offset + 1) left o next (ground arith) (omega arith)
      | inl e ↦ λ h.
          omega (arith, visit_from-le states t n start (offset + 1) left next, visited offset o e h)
    ]
  where
    visited :
        (offset o : ℕ)
        → (offset == o) ≡ true
        → is_available states ((start + o) % n) (t.asked_at ((start + o) % n)) ≡ true
        → (visit states t ((start + offset) % n) best).1 ≤ t.in_flight ((start + o) % n)
    visited offset o e h =
        let same : o ≡ offset = ground arith in
        rw same ((visit-less states t ((start + offset) % n) best).1 (rw same at h))

-- Each place of the pool is met at some offset.
met : (n start id : ℕ) → start < n → id < n → (o : ℕ) × (o < n) × ((start + o) % n ≡ id)
met n start id s b = elim (Bool-cases (leb start id)) [
  | inl e ↦
      let back : start + (id - start) ≡ id = ground arith in
      (id - start, omega arith, ap (λ x. x % n) back ∙ mod-eq_of_lt b)
  | inr e ↦
      let back : start + (id + n - start) ≡ id + n = omega arith in
      (id + n - start, ground arith, ap (λ x. x % n) back ∙ add-mod_right id n ∙ mod-eq_of_lt b)
]

-- What a pick answers for: `none` that no worker is available, and a worker that it is one of the
-- least load among those that are.
abbrev pub IsPick : Pool → Turn → Option ℕ → Type 0
IsPick p t none = (id : ℕ) → id < p.worker_count → is_available p.breaker id (t.asked_at id) ≡ false
IsPick p t (some id) =
    (id < p.worker_count)
    × (is_available p.breaker id (t.asked_at id) ≡ true)
    × ((other : ℕ)
        → other < p.worker_count
        → is_available p.breaker other (t.asked_at other) ≡ true
        → t.in_flight id ≤ t.in_flight other)

found-IsPick :
    (p : Pool) (t : Turn) (best : Best)
    → ((id : ℕ) → t.in_flight id < usize_max)
    → IsFound p.breaker t p.worker_count best
    → ((id : ℕ) → id < p.worker_count → IsLeast p.breaker t id best)
    → IsPick p t best.0
found-IsPick p t (none, least) loads found h = λ id b.
    elim (Bool-cases (is_available p.breaker id (t.asked_at id))) [
      | inr e ↦ e
      | inl e ↦ elim (too_small least (t.in_flight id) found (loads id) (h id b e)) [ ]
    ]
  where
    too_small : (least load : ℕ) → least ≡ usize_max → load < usize_max → least ≤ load → ⊥
    too_small least load f l h = omega (arith, f, l, h)
found-IsPick p t (some id, least) loads (b, available, same) h =
    (b, available, λ other c e. omega (arith, same, h other c e))

-- With loads below the greatest `usize`, a pick finds an available worker with the least load of those
-- that are available, wherever the cursor starts, and fails exactly when none is available. It moves
-- nothing but the cursor.
pub pick_least_loaded-IsPick :
    (p : Pool) (t : Turn)
    → ((id : ℕ) → t.in_flight id < usize_max)
    → IsPick p t (pick_least_loaded p t).0 × ((pick_least_loaded p t).1.breaker ≡ p.breaker)
unfolding pick_least_loaded
pick_least_loaded-IsPick p t loads = elim (Bool-cases (p.worker_count == 0)) [
  | inl e ↦ rw e (λ id b. elim (no_worker id p.worker_count b e) [ ], refl)
  | inr e ↦
      let start : ℕ = p.rr_cursor % p.worker_count in
      let some_worker : 0 < p.worker_count = ground arith in
      let in_range : start < p.worker_count = mod-lt p.rr_cursor some_worker in
      let best : Best =
        visit_from p.breaker t p.worker_count start 0 p.worker_count (none, usize_max) in
      rw e (
        found-IsPick p t best loads
            (visit_from-IsFound p.breaker t p.worker_count start 0 p.worker_count (none, usize_max)
              some_worker refl)
            (λ id b.
              let (o, small, same) = met p.worker_count start id in_range b in
              subst (λ x. IsLeast p.breaker t x best) same
                (visit_from-IsLeast p.breaker t p.worker_count start 0 p.worker_count o
                  (none, usize_max) (omega arith) (omega (arith, small)))),
        refl,
      )
]
  where
    no_worker : (id n : ℕ) → id < n → (n == 0) ≡ true → ⊥
    no_worker id n b e = ground arith
