-- ===== src/CatalogCache.antt =====
-- crates/apple/src/catalog/cache.rs: `Cache`. The insertion-ordered map of the indexmap library is an
-- interface here: its operations, with what the library documents of them as laws on the list of its
-- entries. An instant is a number of milliseconds.
pub mod Bounds
pub mod Recall
use alac_bot.Prelude.{
  ℕ, zero, suc, ◌+◌, ◌≡◌, Bool, true, false, Option, none, some, List, [], ◌∷◌, ltb, leb,
  if◌then◌else◌, length, drop,
}
use alac_bot.Prelude.Text.{Text, text_eq}

unfoldable pub entry_of {ℓ} : {E : Type ℓ} → Text → List (Text × E) → Option E
unfolding text_eq
entry_of key [] = none
entry_of key (x ∷ xs) = let rest = entry_of key xs in if text_eq x.0 key then some x.1 else rest

unfoldable pub without {ℓ} : {E : Type ℓ} → Text → List (Text × E) → List (Text × E)
unfolding text_eq
without key [] = []
without key (x ∷ xs) = let rest = without key xs in if text_eq x.0 key then rest else x ∷ rest

-- A key that is there keeps its place, and a new one goes to the end.
unfoldable pub put {ℓ} : {E : Type ℓ} → Text → E → List (Text × E) → List (Text × E)
unfolding text_eq
put key e [] = (key, e) ∷ []
put key e (x ∷ xs) = let rest = put key e xs in if text_eq x.0 key then (key, e) ∷ xs else x ∷ rest

pub record IndexMap (E : Type 0) (M : Type 0) : Type 0 where
  pub entries : M → List (Text × E)
  pub new : M
  pub len : M → ℕ
  pub shift_remove : Text → M → Option E × M
  pub shift_remove_first : M → M
  pub insert : Text → E → M → M
  pub new_lem : entries new ≡ []
  pub len_lem : (m : M) → len m ≡ length (entries m)
  pub shift_remove_found : (key : Text) (m : M) → (shift_remove key m).0 ≡ entry_of key (entries m)
  pub shift_remove_lem :
      (key : Text) (m : M) → entries (shift_remove key m).1 ≡ without key (entries m)
  pub shift_remove_first_lem : (m : M) → entries (shift_remove_first m) ≡ drop 1 (entries m)
  pub insert_lem : (key : Text) (e : E) (m : M) → entries (insert key e m) ≡ put key e (entries m)

pub record Entry (V : Type 0) : Type 0 where
  pub value : V
  pub expires_at : ℕ

pub record Cache (M : Type 0) : Type 0 where
  pub map : M
  pub max_size : ℕ
  pub default_ttl : ℕ

module _ {V M : Type 0} (im : IndexMap (Entry V) M) where
  abbrev pub new_cache : ℕ → ℕ → Cache M
  new_cache max_size default_ttl = record {
    map = im.new;
    max_size = max_size;
    default_ttl = default_ttl;
  }

  -- What is found goes to the end again, unless it has expired.
  abbrev pub put_back : Text → ℕ → Cache M → Option (Entry V) → M → Option V × Cache M
  put_back key now c none rest = (none, record c { map = rest })
  put_back key now c (some e) rest =
      if ltb e.expires_at now
      then (none, record c { map = rest })
      else (some e.value, record c { map = im.insert key e rest })

  unfoldable pub get : Text → ℕ → Cache M → Option V × Cache M
  get key now c = put_back key now c (im.shift_remove key c.map).0 (im.shift_remove key c.map).1

  abbrev pub make_room : Cache M → M
  make_room c = if leb c.max_size (im.len c.map) then im.shift_remove_first c.map else c.map

  unfoldable pub set_with_ttl : Text → V → ℕ → ℕ → Cache M → Cache M
  set_with_ttl key value ttl now c = record c {
    map = im.insert key record { value = value; expires_at = now + ttl } (make_room c);
  }

  abbrev pub set_default : Text → V → ℕ → Cache M → Cache M
  set_default key value now c = set_with_ttl key value c.default_ttl now c

  abbrev pub clear : Cache M → Cache M
  clear c = record c { map = im.new }
