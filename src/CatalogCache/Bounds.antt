-- ===== src/CatalogCache/Bounds.antt =====
-- crates/apple/src/catalog/cache.rs: the cache keeps to its capacity.
use alac_bot.Prelude.{
  ℕ, ◌+◌, ◌-◌, ◌≤◌, ◌≡◌, refl, ap, sym, ◌∙◌, false, Option, none, some, List, [], ◌∷◌, arith, ltb,
  leb, max, Bool-cases, inl, inr, length, drop,
}
use alac_bot.Prelude.Text.{Text, text_eq}
use alac_bot.CatalogCache.{
  IndexMap, Entry, Cache, entry_of, without, put, new_cache, get, set_with_ttl, clear, put_back,
  make_room,
}

module _ {E : Type 0} where
  length-put : (key : Text) (e : E) (xs : List (Text × E)) → length (put key e xs) ≤ length xs + 1
  unfolding put
  length-put key e [] = omega arith
  length-put key e (x ∷ xs) = elim (Bool-cases (text_eq x.0 key)) [
    | inl h ↦ rw h (omega arith)
    | inr h ↦ rw h (omega (arith, length-put key e xs))
  ]

  length-without : (key : Text) (xs : List (Text × E)) → length (without key xs) ≤ length xs
  unfolding without
  length-without key [] = omega arith
  length-without key (x ∷ xs) = elim (Bool-cases (text_eq x.0 key)) [
    | inl h ↦ rw h (omega (arith, length-without key xs))
    | inr h ↦ rw h (omega (arith, length-without key xs))
  ]

  length-without_found :
      (key : Text) (e : E) (xs : List (Text × E))
      → entry_of key xs ≡ some e
      → length (without key xs) + 1 ≤ length xs
  unfolding entry_of without
  length-without_found key e [] h = ground arith
  length-without_found key e (x ∷ xs) h = elim (Bool-cases (text_eq x.0 key)) [
    | inl k ↦ rw k (omega (arith, length-without key xs))
    | inr k ↦ rw k (omega (arith, length-without_found key e xs (ground (arith, h, k))))
  ]

  length-drop_one : (xs : List (Text × E)) → length (drop 1 xs) ≡ length xs - 1
  length-drop_one [] = refl
  length-drop_one (x ∷ xs) = omega arith

-- What changes a cache.
pub data Change (V : Type 0) : Type 0 where
  got : Text → ℕ → Change V
  stored : Text → V → ℕ → ℕ → Change V
  cleared : Change V

module _ {V M : Type 0} (im : IndexMap (Entry V) M) where
  abbrev pub changed : Change V → Cache M → Cache M
  changed (got key now) c = (get im key now c).1
  changed (stored key value ttl now) c = set_with_ttl im key value ttl now c
  changed cleared c = clear im c

  abbrev pub changed_by : List (Change V) → Cache M → Cache M
  changed_by [] c = c
  changed_by (x ∷ xs) c = changed_by xs (changed x c)

  abbrev pub IsBounded : ℕ → Cache M → Type 0
  IsBounded max_size c = (length (im.entries c.map) ≤ max max_size 1) × (c.max_size ≡ max_size)

  put_back-IsBounded :
      (n : ℕ) (key : Text) (now : ℕ) (c : Cache M) (found : Option (Entry V)) (rest : M)
      → c.max_size ≡ n
      → length (im.entries rest) ≤ max n 1
      → ((e : Entry V) → found ≡ some e → length (im.entries rest) + 1 ≤ max n 1)
      → IsBounded n (put_back im key now c found rest).1
  put_back-IsBounded n key now c none rest s h k = (h, s)
  put_back-IsBounded n key now c (some e) rest s h k = elim (Bool-cases (ltb e.expires_at now)) [
    | inl g ↦ rw g (h, s)
    | inr g ↦ rw g (
      omega (
        arith,
        ap length (im.insert_lem key e rest),
        length-put key e (im.entries rest),
        k e refl,
      ),
      s,
    )
  ]

  get-IsBounded :
      (n : ℕ) (key : Text) (now : ℕ) (c : Cache M)
      → IsBounded n c
      → IsBounded n (get im key now c).1
  unfolding get
  get-IsBounded n key now c h =
      put_back-IsBounded n key now c (im.shift_remove key c.map).0 (im.shift_remove key c.map).1 h.1
        (omega (
          arith,
          ap length (im.shift_remove_lem key c.map),
          length-without key (im.entries c.map),
          h.0,
        ))
        λ e f. omega (
          arith,
          ap length (im.shift_remove_lem key c.map),
          length-without_found key e (im.entries c.map) (sym (im.shift_remove_found key c.map) ∙ f),
          h.0,
        )

  make_room-IsBounded :
      (n : ℕ) (c : Cache M) → IsBounded n c → length (im.entries (make_room im c)) + 1 ≤ max n 1
  make_room-IsBounded n c h = elim (Bool-cases (leb c.max_size (im.len c.map))) [
    | inl e ↦ rw e (
        omega (
          arith,
          ap length (im.shift_remove_first_lem c.map),
          length-drop_one (im.entries c.map),
          h.0,
        ))
    | inr e ↦
        rw e (small (im.len c.map) (length (im.entries c.map)) c.max_size e (im.len_lem c.map) h.1)
  ]
    where
      small : (l k m : ℕ) → leb m l ≡ false → l ≡ k → m ≡ n → k + 1 ≤ max n 1
      small l k m e s q = ground arith

  set_with_ttl-IsBounded :
      (n : ℕ) (key : Text) (value : V) (ttl now : ℕ) (c : Cache M)
      → IsBounded n c
      → IsBounded n (set_with_ttl im key value ttl now c)
  unfolding set_with_ttl
  set_with_ttl-IsBounded n key value ttl now c h =
      let e : Entry V = record { value = value; expires_at = now + ttl } in
      let room : M = make_room im c in
      (
        omega (
          arith,
          ap length (im.insert_lem key e room),
          length-put key e (im.entries room),
          make_room-IsBounded n c h,
        ),
        h.1,
      )

  changed-IsBounded :
      (n : ℕ) (x : Change V) (c : Cache M) → IsBounded n c → IsBounded n (changed x c)
  changed-IsBounded n (got key now) c h = get-IsBounded n key now c h
  changed-IsBounded n (stored key value ttl now) c h =
      set_with_ttl-IsBounded n key value ttl now c h
  changed-IsBounded n cleared c h = (omega (arith, ap length im.new_lem), h.1)

  changed_by-from :
      (n : ℕ) (xs : List (Change V)) (c : Cache M) → IsBounded n c → IsBounded n (changed_by xs c)
  changed_by-from n [] c h = h
  changed_by-from n (x ∷ xs) c h = changed_by-from n xs (changed x c) (changed-IsBounded n x c h)

  -- After any operations on a new cache, it has no more entries than its size, or one if its size is
  -- zero.
  pub changed_by-IsBounded :
      (max_size default_ttl : ℕ) (xs : List (Change V))
      → IsBounded max_size (changed_by xs (new_cache im max_size default_ttl))
  changed_by-IsBounded n default_ttl xs =
      changed_by-from n xs (new_cache im n default_ttl) (omega (arith, ap length im.new_lem), refl)
