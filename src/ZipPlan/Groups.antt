-- ===== src/ZipPlan/Groups.antt =====
-- The groups that `group_tracks` makes: they are the tracks in order, none is empty, and a group is
-- within the limit unless it is a single track.
use alac_bot.Prelude.{
  ℕ, ◌+◌, ◌≤◌, ◌≡◌, ◌⊎◌, inl, inr, refl, ap, sym, subst, ◌∙◌, Bool, true, false, not, ◌&&◌, Option,
  none, some, List, [], ◌∷◌, ◌++◌, arith, ltb, if◌then◌else◌, All, All-append, append_assoc,
  append-nil, length,
}
use alac_bot.Prelude.Words.{checked_add}
use alac_bot.ZipPlan.{
  ZipTrackEntry, Result, ok, is_empty, group_tracks, ensure, ok_or, ◌>>◌, ZipError, invalid_limit,
}

abbrev pub joined {ℓ} : {A : Type ℓ} → List (List A) → List A
joined [] = []
joined (xs ∷ xss) = xs ++ joined xss

joined-snoc {ℓ} :
    {A : Type ℓ} (xss : List (List A)) (xs : List A) → joined (xss ++ xs ∷ []) ≡ joined xss ++ xs
joined-snoc [] xs = append-nil xs
joined-snoc (ys ∷ xss) xs =
    ap (λ l. ys ++ l) (joined-snoc xss xs) ∙ sym (append_assoc ys (joined xss) xs)

-- The bytes of a list of tracks.
abbrev pub sizes : List ZipTrackEntry → ℕ
sizes [] = 0
sizes (t ∷ ts) = t.file_size + sizes ts

sizes-append : (xs ys : List ZipTrackEntry) → sizes (xs ++ ys) ≡ sizes xs + sizes ys
sizes-append [] ys = omega arith
sizes-append (x ∷ xs) ys = omega (arith, sizes-append xs ys)

pub ensure-ok {ℓ} :
    {A : Type ℓ} (b : Bool) (e : ZipError) (k : Result A) (a : A)
    → (ensure b e >> k) ≡ ok a
    → (b ≡ true) × (k ≡ ok a)
ensure-ok true e k a h = (refl, h)
ensure-ok false e k a h = cc

pub ok_or-ok {ℓ κ} :
    {A : Type ℓ} {B : Type κ} (o : Option A) (e : ZipError) (k : Result B) (b : B)
    → (ok_or o e >> k) ≡ ok b
    → k ≡ ok b
ok_or-ok none e k b h = cc
ok_or-ok (some a) e k b h = h

-- Where the tracks end.
joined-last :
    (groups : List (List ZipTrackEntry)) (current : List ZipTrackEntry)
    (gs : List (List ZipTrackEntry))
    → ok (if is_empty current then groups else groups ++ current ∷ []) ≡ ok gs
    → joined gs ≡ joined groups ++ (current ++ [])
joined-last groups [] gs h = let e : groups ≡ gs = cc in rw (← e) (sym (append-nil (joined groups)))
joined-last groups (c ∷ cs) gs h =
    let e : groups ++ (c ∷ cs) ∷ [] ≡ gs = cc in
    rw (← e)
      (joined-snoc groups (c ∷ cs) ∙ ap (λ l. joined groups ++ l) (sym (append-nil (c ∷ cs))))

module _ (usable cover : ℕ) where
  abbrev flush : List ZipTrackEntry → ℕ → ZipTrackEntry → Bool
  flush current size t = not (is_empty current) && ltb usable (size + t.file_size)

  -- The loop at its next track.
  abbrev next :
      List (List ZipTrackEntry)
      → List ZipTrackEntry
      → ℕ
      → ZipTrackEntry
      → List ZipTrackEntry
      → Result (List (List ZipTrackEntry))
  next groups current size t ts =
      group_tracks usable cover (if flush current size t then groups ++ current ∷ [] else groups)
        ((if flush current size t then [] else current) ++ t ∷ [])
        ((if flush current size t then cover else size) + t.file_size) ts

  group_tracks-next :
      (groups : List (List ZipTrackEntry)) (current : List ZipTrackEntry) (size : ℕ)
      (t : ZipTrackEntry) (ts : List ZipTrackEntry) (gs : List (List ZipTrackEntry))
      → group_tracks usable cover groups current size (t ∷ ts) ≡ ok gs
      → (t.file_size ≤ usable) × (next groups current size t ts ≡ ok gs)
  unfolding group_tracks
  group_tracks-next groups current size t ts gs h =
      let first = ensure-ok (not (ltb usable t.file_size)) _ _ gs h in
      let start : ℕ = if flush current size t then cover else size in
      let rest = next groups current size t ts in
      let second =
        ok_or-ok (checked_add size t.file_size) invalid_limit
          (ok_or (checked_add start t.file_size) invalid_limit >> rest) gs first.1 in
      (
        ground (arith, first.0),
        ok_or-ok (checked_add start t.file_size) invalid_limit rest gs second,
      )

  joined-step :
      (groups : List (List ZipTrackEntry)) (current : List ZipTrackEntry) (t : ZipTrackEntry)
      (ts : List ZipTrackEntry) (b : Bool)
      → joined (if b then groups ++ current ∷ [] else groups)
          ++ (((if b then [] else current) ++ t ∷ []) ++ ts)
        ≡ joined groups ++ (current ++ t ∷ ts)
  joined-step groups current t ts true =
      rw joined-snoc (append_assoc (joined groups) current (t ∷ ts))
  joined-step groups current t ts false =
      ap (λ l. joined groups ++ l) (append_assoc current (t ∷ []) ts)

  pub joined-group_tracks :
      (ts : List ZipTrackEntry) (groups : List (List ZipTrackEntry)) (current : List ZipTrackEntry)
      (size : ℕ) (gs : List (List ZipTrackEntry))
      → group_tracks usable cover groups current size ts ≡ ok gs
      → joined gs ≡ joined groups ++ (current ++ ts)
  joined-group_tracks [] groups [] size gs h = joined-last groups [] gs (unfold group_tracks in h)
  joined-group_tracks [] groups (c ∷ cs) size gs h =
      joined-last groups (c ∷ cs) gs (unfold group_tracks in h)
  joined-group_tracks (t ∷ ts) groups current size gs h =
      let b = flush current size t in
      joined-group_tracks ts (if b then groups ++ current ∷ [] else groups)
        ((if b then [] else current) ++ t ∷ []) ((if b then cover else size) + t.file_size) gs
        (group_tracks-next groups current size t ts gs h).1
      ∙ joined-step groups current t ts b

  -- A group is not empty, and with the cover within the limit, or a single track.
  pub record IsGroup (g : List ZipTrackEntry) : Type 0 where
    pub filled : is_empty g ≡ false
    pub within : (cover + sizes g ≤ usable) ⊎ (length g ≡ 1)

  -- What the loop keeps of the group at hand.
  pub record Current (current : List ZipTrackEntry) (size : ℕ) : Type 0 where
    pub counted : size ≡ cover + sizes current
    pub group : is_empty current ≡ false → IsGroup current

  Current-step :
      (current : List ZipTrackEntry) (size : ℕ) (t : ZipTrackEntry) (b : Bool)
      → flush current size t ≡ b
      → Current current size
      → Current ((if b then [] else current) ++ t ∷ []) ((if b then cover else size) + t.file_size)
  Current-step current size t true e k = record {
    counted = omega arith;
    group = λ _. record { filled = refl; within = inr refl };
  }
  Current-step [] size t false e k = record {
    counted = omega (arith, k.counted);
    group = λ _. record { filled = refl; within = inr refl };
  }
  Current-step (c ∷ cs) size t false e k =
      let c' : size + t.file_size ≡ cover + sizes (c ∷ (cs ++ t ∷ [])) =
        omega (arith, k.counted, sizes-append cs (t ∷ [])) in
      record {
        counted = c';
        group = λ _. record { filled = refl; within = inl (ground (arith, c')) };
      }

  All-flush :
      (groups : List (List ZipTrackEntry)) (current : List ZipTrackEntry) (size : ℕ)
      (t : ZipTrackEntry) (b : Bool)
      → flush current size t ≡ b
      → All IsGroup groups
      → Current current size
      → All IsGroup (if b then groups ++ current ∷ [] else groups)
  All-flush groups current size t true e all k =
      All-append IsGroup groups (current ∷ []) all (k.group (ground arith), tt)
  All-flush groups current size t false e all k = all

  pub All-group_tracks :
      (ts : List ZipTrackEntry) (groups : List (List ZipTrackEntry)) (current : List ZipTrackEntry)
      (size : ℕ) (gs : List (List ZipTrackEntry))
      → All IsGroup groups
      → Current current size
      → group_tracks usable cover groups current size ts ≡ ok gs
      → All IsGroup gs
  All-group_tracks [] groups [] size gs all k h =
      let e : groups ≡ gs = unfold group_tracks in cc in subst (All IsGroup) e all
  All-group_tracks [] groups (c ∷ cs) size gs all k h =
      let e : groups ++ (c ∷ cs) ∷ [] ≡ gs = unfold group_tracks in cc in
      subst (All IsGroup) e (All-append IsGroup groups ((c ∷ cs) ∷ []) all (k.group refl, tt))
  All-group_tracks (t ∷ ts) groups current size gs all k h =
      let b = flush current size t in
      All-group_tracks ts (if b then groups ++ current ∷ [] else groups)
        ((if b then [] else current) ++ t ∷ []) ((if b then cover else size) + t.file_size) gs
        (All-flush groups current size t b refl all k) (Current-step current size t b refl k)
        (group_tracks-next groups current size t ts gs h).1

  pub start-Current : Current [] cover
  start-Current = record { counted = omega arith; group = λ e. cc }
