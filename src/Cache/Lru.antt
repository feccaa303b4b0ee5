-- ===== src/Cache/Lru.antt =====
-- What cache.rs asks of the `lru` crate: its operations, and how they act on the entries, the most
-- recently used one first.
use rustfits.Prelude.{ℕ, ◌≡◌, Option, none, some, List, [], ◌∷◌, ◌++◌}

abbrev pub Bytes : Type 0
Bytes = List ℕ

module _ {K : Type 0} (same : Discrete K) where
  -- The bytes under a key.
  abbrev pub find : K → List (K × Bytes) → Option Bytes
  find k [] = none
  find k ((j, bytes) ∷ es) = elim (same k j) [ yes _ ↦ some bytes | no _ ↦ find k es ]

  -- The entries without the one of a key.
  abbrev pub erase : K → List (K × Bytes) → List (K × Bytes)
  erase k [] = []
  erase k ((j, bytes) ∷ es) = elim (same k j) [ yes _ ↦ es | no _ ↦ (j, bytes) ∷ erase k es ]

  -- The entry of a key in front.
  abbrev pub touch : K → List (K × Bytes) → List (K × Bytes)
  touch k es = elim (find k es) [ none ↦ es | some bytes ↦ (k, bytes) ∷ erase k es ]

  pub record LruCrate : Type 1 where
    pub LruCache : Type 0
    pub entries : LruCache → List (K × Bytes)
    pub unbounded : LruCache
    pub get : K → LruCache → Option Bytes × LruCache
    pub pop : K → LruCache → Option Bytes × LruCache
    pub pop_lru : LruCache → Option (K × Bytes) × LruCache
    pub put : K → Bytes → LruCache → LruCache
    pub clear : LruCache → LruCache
    pub entries-unbounded : entries unbounded ≡ []
    pub found-get : (k : K) (c : LruCache) → (get k c).0 ≡ find k (entries c)
    pub entries-get : (k : K) (c : LruCache) → entries (get k c).1 ≡ touch k (entries c)
    pub found-pop : (k : K) (c : LruCache) → (pop k c).0 ≡ find k (entries c)
    pub entries-pop : (k : K) (c : LruCache) → entries (pop k c).1 ≡ erase k (entries c)
    pub found-pop_lru_nil : (c : LruCache) → entries c ≡ [] → (pop_lru c).0 ≡ none
    pub entries-pop_lru_nil : (c : LruCache) → entries c ≡ [] → entries (pop_lru c).1 ≡ []
    pub found-pop_lru :
        (c : LruCache) (es : List (K × Bytes)) (e : K × Bytes)
        → entries c ≡ es ++ e ∷ []
        → (pop_lru c).0 ≡ some e
    pub entries-pop_lru :
        (c : LruCache) (es : List (K × Bytes)) (e : K × Bytes)
        → entries c ≡ es ++ e ∷ []
        → entries (pop_lru c).1 ≡ es
    pub entries-put :
        (k : K) (bytes : Bytes) (c : LruCache)
        → entries (put k bytes c) ≡ (k, bytes) ∷ erase k (entries c)
    pub entries-clear : (c : LruCache) → entries (clear c) ≡ []
