-- ===== src/CatalogCache/Recall.antt =====
-- crates/apple/src/catalog/cache.rs: what is stored is found until it expires.
use alac_bot.Prelude.{
  ℕ, ◌+◌, ◌≡◌, refl, ap, sym, ◌∙◌, false, Option, none, some, List, [], ◌∷◌, arith, ltb, leb,
  if◌then◌else◌, Bool-cases, inl, inr,
}
use alac_bot.Prelude.Text.{Text, text_eq, text_eq_refl, text_eq-eq}
use alac_bot.CatalogCache.{
  IndexMap, Entry, Cache, entry_of, put, get, set_with_ttl, put_back, make_room,
}

module _ {E : Type 0} where
  entry_of-put : (key : Text) (e : E) (xs : List (Text × E)) → entry_of key (put key e xs) ≡ some e
  unfolding entry_of put
  entry_of-put key e [] = rw (text_eq_refl key) refl
  entry_of-put key e (x ∷ xs) = elim (Bool-cases (text_eq x.0 key)) [
    | inl h ↦ rw h (rw (text_eq_refl key) refl)
    | inr h ↦ rw h (rw h (entry_of-put key e xs))
  ]

  entry_of-put_other :
      (key other : Text) (e : E) (xs : List (Text × E))
      → text_eq key other ≡ false
      → entry_of other (put key e xs) ≡ entry_of other xs
  unfolding entry_of put
  entry_of-put_other key other e [] h = rw h refl
  entry_of-put_other key other e (x ∷ xs) h = elim (Bool-cases (text_eq x.0 key)) [
    | inl k ↦ rw k (rw (h, ap (λ s. text_eq s other) (text_eq-eq x.0 key k) ∙ h) refl)
    | inr k ↦ rw k (rw (entry_of-put_other key other e xs h) refl)
  ]

-- What an entry gives at an instant.
abbrev pub fresh_value : {V : Type 0} → ℕ → Option (Entry V) → Option V
fresh_value now none = none
fresh_value now (some e) = if ltb e.expires_at now then none else some e.value

module _ {V M : Type 0} (im : IndexMap (Entry V) M) where
  put_back-value :
      (key : Text) (now : ℕ) (c : Cache M) (found : Option (Entry V)) (rest : M)
      → (put_back im key now c found rest).0 ≡ fresh_value now found
  put_back-value key now c none rest = refl
  put_back-value key now c (some e) rest = ground arith

  get-value :
      (key : Text) (now : ℕ) (c : Cache M)
      → (get im key now c).0 ≡ fresh_value now (entry_of key (im.entries c.map))
  unfolding get
  get-value key now c =
      put_back-value key now c (im.shift_remove key c.map).0 (im.shift_remove key c.map).1
      ∙ ap (fresh_value now) (im.shift_remove_found key c.map)

  set_entries :
      (key : Text) (value : V) (ttl now : ℕ) (c : Cache M)
      → im.entries (set_with_ttl im key value ttl now c).map
        ≡ put key record { value = value; expires_at = now + ttl } (im.entries (make_room im c))
  unfolding set_with_ttl
  set_entries key value ttl now c =
      im.insert_lem key record { value = value; expires_at = now + ttl } (make_room im c)

  -- What is stored is found under its key up to the instant at which it expires, and not after it,
  -- whatever the capacity; and in a cache that has room, every other key gives what it gave before.
  pub get-set_with_ttl :
      (key : Text) (value : V) (ttl now later : ℕ) (c : Cache M)
      → ((get im key later (set_with_ttl im key value ttl now c)).0
          ≡ (if leb later (now + ttl) then some value else none))
        × ((other : Text)
            → text_eq key other ≡ false
            → leb c.max_size (im.len c.map) ≡ false
            → (get im other later (set_with_ttl im key value ttl now c)).0
              ≡ (get im other later c).0)
  get-set_with_ttl key value ttl now later c = (
    get-value key later (set_with_ttl im key value ttl now c)
        ∙ ap (λ xs. fresh_value later (entry_of key xs)) (set_entries key value ttl now c)
        ∙ ap (fresh_value later) (entry_of-put key _ (im.entries (make_room im c)))
        ∙ ground arith,
    λ other h k.
        get-value other later (set_with_ttl im key value ttl now c)
        ∙ ap (λ xs. fresh_value later (entry_of other xs)) (set_entries key value ttl now c)
        ∙ ap (fresh_value later) (entry_of-put_other key other _ (im.entries (make_room im c)) h)
        ∙ ap (λ (m : M). fresh_value later (entry_of other (im.entries m))) (roomy k)
        ∙ sym (get-value other later c),
  )
    where
      roomy : leb c.max_size (im.len c.map) ≡ false → make_room im c ≡ c.map
      roomy k = rw k refl
