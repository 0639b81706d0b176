-- ===== src/Ripper/Retry.antt =====
-- crates/engine/src/ripper.rs: the retries of `rip` come to an end.
use alac_bot.Prelude.{
  ℕ, zero, suc, ◌+◌, ◌-◌, ◌*◌, ◌^◌, ◌%◌, ◌≤◌, ◌≡◌, refl, ap, sym, Bool, true, false, List, [], ◌∷◌,
  arith, if◌then◌else◌, length, leb, subst,
}
use alac_bot.Prelude.Words.{u64_mod}
use alac_bot.Ripper.Error.{RipError, ok, err, Observation, is_final}
use alac_bot.Ripper.{
  Directory, Outcome, Config, Pass, Ripped, ripped, unfinished, before, after_failure,
  after_attempt, rip_loop, rip, rip_once, raw_delay,
}
use alac_bot.Ripper.Cleanup.{IsFresh, IsRemoved, IsTidy, rip_loop-IsTidy}

-- The delays are the base times 2 to the `n`, to the `n` + 1 and so on, in the arithmetic of `u64`.
abbrev pub IsBackoff : Config → ℕ → List ℕ → Type 0
IsBackoff cfg n [] = Unit
IsBackoff cfg n (x ∷ xs) =
    (x ≡ (cfg.base_delay_ms * (2 ^ n % u64_mod)) % u64_mod) × IsBackoff cfg (n + 1) xs

-- The loop has ended, with at most `left` more delays from the one of number `n` on.
abbrev pub IsEnded : Config → ℕ → ℕ → Ripped → Type 0
IsEnded cfg n left (ripped d result told delays) = (length delays ≤ left) × IsBackoff cfg n delays
IsEnded cfg n left unfinished = ⊥

add_sub_one : (n : ℕ) → n + 1 - 1 ≡ n
add_sub_one n = omega arith

raw_delay-suc :
    (cfg : Config) (n : ℕ)
    → raw_delay cfg (n + 1) ≡ (cfg.base_delay_ms * (2 ^ n % u64_mod)) % u64_mod
raw_delay-suc cfg n = ap (λ m. (cfg.base_delay_ms * (2 ^ m % u64_mod)) % u64_mod) (add_sub_one n)

before-IsEnded :
    (cfg : Config) (n left : ℕ) (told : List Observation) (r : Ripped)
    → IsEnded cfg (n + 1) left r
    → IsEnded cfg n (left + 1) (before told (raw_delay cfg (n + 1) ∷ []) r)
before-IsEnded cfg n left told (ripped d result more_told more_delays) h =
    (omega (arith, h.0), (raw_delay-suc cfg n, h.1))
before-IsEnded cfg n left told unfinished h = h

if-IsEnded :
    (cfg : Config) (n left : ℕ) (b : Bool) (x y : Ripped)
    → IsEnded cfg n left x
    → (b ≡ false → IsEnded cfg n left y)
    → IsEnded cfg n left (if b then x else y)
if-IsEnded cfg n left true x y h k = h
if-IsEnded cfg n left false x y h k = k refl

one_more : (a left max : ℕ) → a + left ≡ max → leb max a ≡ false → left ≡ left - 1 + 1
one_more a left max h k = ground arith

-- `again` need only end where a retry is left.
after_failure-IsEnded :
    (cfg : Config) (p : Pass) (n left : ℕ) (e : RipError) (d : Directory) (told : List Observation)
    (again : ℕ → Directory → Ripped)
    → n + left ≡ cfg.max_retries
    → ((l : ℕ) → left ≡ l + 1 → IsEnded cfg (n + 1) l (again (n + 1) d))
    → IsEnded cfg n left (after_failure cfg p n e d told again)
unfolding after_failure
after_failure-IsEnded cfg p n left e d told again m h =
    if-IsEnded cfg n left (is_final e) _ _ (omega arith, tt)
      λ _.
        if-IsEnded cfg n left p.cancelled_after _ _ (omega arith, tt)
          λ _.
            if-IsEnded cfg n left (leb cfg.max_retries n) _ _ (omega arith, tt)
              λ more.
                let positive : left ≡ left - 1 + 1 = one_more n left cfg.max_retries m more in
                if-IsEnded cfg n left p.cancelled_asleep _ _
                  (omega (arith, positive), (raw_delay-suc cfg n, tt))
                  λ _.
                    subst
                      (λ l.
                        IsEnded cfg n l
                          (before told (raw_delay cfg (n + 1) ∷ []) (again (n + 1) d)))
                      (sym positive)
                      (before-IsEnded cfg n (left - 1) told (again (n + 1) d)
                        (h (left - 1) positive))

after_attempt-IsEnded :
    (cfg : Config) (p : Pass) (n left : ℕ) (x : Outcome) (again : ℕ → Directory → Ripped)
    → n + left ≡ cfg.max_retries
    → ((l : ℕ) (d : Directory) → left ≡ l + 1 → IsEnded cfg (n + 1) l (again (n + 1) d))
    → IsEnded cfg n left (after_attempt cfg p n x again)
unfolding after_attempt
after_attempt-IsEnded cfg p n left (d, ok result, told) again m h = (omega arith, tt)
after_attempt-IsEnded cfg p n left (d, err e, told) again m h =
    after_failure-IsEnded cfg p n left e d told again m (λ l. h l d)

rip_loop-IsEnded :
    (cfg : Config) (passes : ℕ → Pass) (fuel n left : ℕ) (d : Directory)
    → fuel ≡ left + 1
    → n + left ≡ cfg.max_retries
    → IsEnded cfg n left (rip_loop cfg passes fuel n d)
unfolding rip_loop
rip_loop-IsEnded cfg passes zero n left d f m = omega (arith, f)
rip_loop-IsEnded cfg passes (suc fuel) n left d f m =
    if-IsEnded cfg n left (passes n).cancelled_at_head _ _ (omega arith, tt)
      λ _.
        after_attempt-IsEnded cfg (passes n) n left (rip_once (passes n).attempt d) _ m
          λ l after more.
            rip_loop-IsEnded cfg passes fuel (n + 1) l after (omega arith) (omega arith)

-- Whatever its passes meet, a rip ends, after at most `max_retries` delays. Each is, before its
-- jitter, the base delay times 1, 2, 4 and so on, in the arithmetic of `u64`.
pub rip-IsEnded :
    (cfg : Config) (passes : ℕ → Pass) (d : Directory)
    → IsEnded cfg 0 cfg.max_retries (rip cfg passes d)
unfolding rip
rip-IsEnded cfg passes d =
    rip_loop-IsEnded cfg passes (cfg.max_retries + 1) 0 cfg.max_retries d refl (omega arith)

-- A rip whose attempts each have a new private directory, open only a file that did not exist, and
-- succeed in what they remove, leaves the directory as it was when it fails, however many attempts it
-- made, and with the file of its result besides when it does not.
pub rip-IsTidy :
    (cfg : Config) (passes : ℕ → Pass) (d : Directory)
    → ((i : ℕ) → IsFresh (passes i).attempt d)
    → ((i : ℕ) → IsRemoved (passes i).attempt)
    → IsTidy d (rip cfg passes d)
unfolding rip
rip-IsTidy cfg passes d h g = rip_loop-IsTidy cfg passes (cfg.max_retries + 1) 0 d h g
