-- ===== src/Tests/Caches.antt =====
-- crates/apple/src/catalog/cache.rs over a list of entries.
use alac_bot.Prelude.{
  ℕ, ◌+◌, ◌≡◌, refl, false, none, some, List, [], ◌∷◌, leb, if◌then◌else◌, length, drop,
}
use alac_bot.Prelude.Text.{Text, codes, text_eq}
use alac_bot.CatalogCache.{
  IndexMap, Entry, Cache, entry_of, without, put, new_cache, get, set_with_ttl,
}
use alac_bot.CatalogCache.Bounds.{Change, changed_by}
use alac_bot.CatalogCache.Recall.{get-set_with_ttl}

abbrev list_map : IndexMap (Entry ℕ) (List (Text × Entry ℕ))
list_map = record {
  entries = λ m. m;
  new = [];
  len = λ m. length m;
  shift_remove = λ key m. (entry_of key m, without key m);
  shift_remove_first = λ m. drop 1 m;
  insert = λ key e m. put key e m;
  new_lem = refl;
  len_lem = λ m. refl;
  shift_remove_found = λ key m. refl;
  shift_remove_lem = λ key m. refl;
  shift_remove_first_lem = λ m. refl;
  insert_lem = λ key e m. refl;
}

abbrev changes : List (Change ℕ)
changes =
    Change.stored (codes "a") 1 50 0
    ∷ Change.stored (codes "b") 2 50 1
    ∷ Change.got (codes "a") 2
    ∷ Change.stored (codes "c") 3 50 3
    ∷ []

abbrev cache : Cache (List (Text × Entry ℕ))
cache = changed_by list_map changes (new_cache list_map 2 60)

-- The key that was used least is gone.
evicted_test : (get list_map (codes "b") 4 cache).0 ≡ none
unfolding get set_with_ttl entry_of without put text_eq
evicted_test = refl

get-set_with_ttl_example :
    ((get list_map (codes "d") 9 (set_with_ttl list_map (codes "d") 4 5 4 cache)).0
      ≡ (if leb 9 (4 + 5) then some 4 else none))
    × ((other : Text)
        → text_eq (codes "d") other ≡ false
        → leb cache.max_size (list_map.len cache.map) ≡ false
        → (get list_map other 9 (set_with_ttl list_map (codes "d") 4 5 4 cache)).0
          ≡ (get list_map other 9 cache).0)
get-set_with_ttl_example = get-set_with_ttl list_map (codes "d") 4 5 4 9 cache
