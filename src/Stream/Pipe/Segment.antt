-- ===== src/Stream/Pipe/Segment.antt =====
-- Slices of slices of a list.
use alac_bot.Prelude.{
  ℕ, zero, suc, ◌+◌, ◌-◌, ◌≤◌, ◌≡◌, refl, ap, sym, List, [], ◌∷◌, ◌++◌, arith, take, drop, min, leb,
  leb→le, Bool-cases, inl, inr, append-nil,
}

module _ {ℓ} {A : Type ℓ} where
  -- The elements from `a` on, before `b`.
  abbrev pub segment : ℕ → ℕ → List A → List A
  segment a b xs = take (b - a) (drop a xs)

  drop-nil : (n : ℕ) → Path (List A) (drop n []) []
  drop-nil zero = refl
  drop-nil (suc n) = refl

  take-nil : (n : ℕ) → Path (List A) (take n []) []
  take-nil zero = refl
  take-nil (suc n) = refl

  drop-drop : (m n : ℕ) (xs : List A) → drop n (drop m xs) ≡ drop (m + n) xs
  drop-drop zero n xs = let e : 0 + n ≡ n = omega arith in rw e refl
  drop-drop (suc m) n [] = rw (drop-nil n, drop-nil (suc m + n)) refl
  drop-drop (suc m) n (x ∷ xs) =
      let e : suc m + n ≡ suc (m + n) = omega arith in rw e (drop-drop m n xs)

  drop-take : (m n : ℕ) (xs : List A) → drop n (take m xs) ≡ take (m - n) (drop n xs)
  drop-take m zero xs = let e : m - 0 ≡ m = omega arith in rw e refl
  drop-take zero (suc n) xs = let e : 0 - suc n ≡ 0 = omega arith in rw e refl
  drop-take (suc m) (suc n) [] = rw (take-nil (suc m - suc n)) refl
  drop-take (suc m) (suc n) (x ∷ xs) =
      let e : suc m - suc n ≡ m - n = omega arith in rw e (drop-take m n xs)

  take-take : (m n : ℕ) (xs : List A) → take n (take m xs) ≡ take (min n m) xs
  take-take m zero xs = let e : min 0 m ≡ 0 = omega arith in rw e refl
  take-take zero (suc n) xs = let e : min (suc n) 0 ≡ 0 = omega arith in rw e refl
  take-take (suc m) (suc n) [] = rw (take-nil (min (suc n) (suc m))) refl
  take-take (suc m) (suc n) (x ∷ xs) =
      let e : min (suc n) (suc m) ≡ suc (min n m) = omega arith in
      rw e (ap (λ l. x ∷ l) (take-take m n xs))

  take-add : (m n : ℕ) (xs : List A) → take m xs ++ take n (drop m xs) ≡ take (m + n) xs
  take-add zero n xs = let e : 0 + n ≡ n = omega arith in rw e refl
  take-add (suc m) n [] = rw (take-nil n, take-nil (suc m + n)) refl
  take-add (suc m) n (x ∷ xs) =
      let e : suc m + n ≡ suc (m + n) = omega arith in rw e (ap (λ l. x ∷ l) (take-add m n xs))

  pub segment-join :
      (a b c : ℕ) (xs : List A) → a ≤ b → b ≤ c → segment a b xs ++ segment b c xs ≡ segment a c xs
  segment-join a b c xs h k =
      let e : a + (b - a) ≡ b = omega arith in
      let f : (b - a) + (c - b) ≡ c - a = omega arith in
      let g : drop b xs ≡ drop (b - a) (drop a xs) = rw (drop-drop a (b - a) xs, e) refl in
      rw (g, sym f) (take-add (b - a) (c - b) (drop a xs))

  -- A segment up to `b` or the end `c`, and what is from `b` on.
  pub segment-cover :
      (a b c : ℕ) (xs : List A) → a ≤ b → segment a (min b c) xs ++ segment b c xs ≡ segment a c xs
  segment-cover a b c xs h = elim (Bool-cases (leb b c)) [
    | inl y ↦
        (let k = leb→le b c y in
          let e : min b c ≡ b = omega arith in rw e (segment-join a b c xs h k))
    | inr y ↦
        (let e : min b c ≡ c = ground arith in
          let f : c - b ≡ 0 = ground arith in rw (e, f) (append-nil _))
  ]

  -- A slice of a block is a segment of the list it is cut from.
  pub slice-block :
      (p size i j : ℕ) (xs : List A)
      → j ≤ size
      → take (j - i) (drop i (take size (drop p xs))) ≡ segment (p + i) (p + j) xs
  slice-block p size i j xs h =
      let e : min (j - i) (size - i) ≡ j - i = omega arith in
      let f : (p + j) - (p + i) ≡ j - i = omega arith in
      rw
        (
          drop-take size i (drop p xs),
          drop-drop p i xs,
          take-take (size - i) (j - i) (drop (p + i) xs),
          e,
          f,
        )
        refl
