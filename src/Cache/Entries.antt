-- ===== src/Cache/Entries.antt =====
-- The entries of the cache as lists: their keys, and the bytes they hold.
use rustfits.Prelude.{
  ℕ, zero, suc, ◌+◌, ◌≤◌, ◌<◌, ◌≡◌, refl, ap, ◌≢◌, Option, none, some, List, [], ◌∷◌, ◌++◌, length,
  take, All, arith,
}
use rustfits.Cache.Lru.{Bytes, find, erase, touch}

module _ {K : Type 0} where
  -- The bytes of all entries.
  abbrev pub total : List (K × Bytes) → ℕ
  total [] = 0
  total (e ∷ es) = length e.1 + total es

  pub total-take : (i : ℕ) (es : List (K × Bytes)) → total (take i es) ≤ total es
  total-take zero es = omega arith
  total-take (suc i) [] = omega arith
  total-take (suc i) (e ∷ es) = omega (arith, total-take i es)

  -- The last of the first `suc i` entries.
  pub take-suc :
      (i : ℕ) (es : List (K × Bytes))
      → i < length es
      → (e : K × Bytes) × (take (suc i) es ≡ take i es ++ e ∷ [])
        × (total (take (suc i) es) ≡ total (take i es) + length e.1)
  take-suc i [] h = absurd (omega arith)
  take-suc zero (e ∷ es) h = (e, refl, omega arith)
  take-suc (suc i) (e ∷ es) h =
      let (last, same, size) = take-suc i es (omega arith) in (last, ap (◌∷◌ e) same, omega arith)

  -- No entry has the key.
  abbrev pub IsFresh : K → List (K × Bytes) → Type 0
  IsFresh k es = All (λ (e : K × Bytes). k ≢ e.0) es

  abbrev pub IsDistinct : List (K × Bytes) → Type 0
  IsDistinct [] = Unit
  IsDistinct (e ∷ es) = IsFresh e.0 es × IsDistinct es

  pub IsFresh-take : (k : K) (i : ℕ) (es : List (K × Bytes)) → IsFresh k es → IsFresh k (take i es)
  IsFresh-take k zero es h = tt
  IsFresh-take k (suc i) [] h = tt
  IsFresh-take k (suc i) (e ∷ es) (h, hs) = (h, IsFresh-take k i es hs)

  pub IsDistinct-take : (i : ℕ) (es : List (K × Bytes)) → IsDistinct es → IsDistinct (take i es)
  IsDistinct-take zero es d = tt
  IsDistinct-take (suc i) [] d = tt
  IsDistinct-take (suc i) (e ∷ es) (h, d) = (IsFresh-take e.0 i es h, IsDistinct-take i es d)

  module _ (same : Discrete K) where
    -- The bytes under a key, none if it has no entry.
    abbrev pub size_of : Option Bytes → ℕ
    size_of none = 0
    size_of (some bytes) = length bytes

    pub total-erase :
        (k : K) (es : List (K × Bytes))
        → total es ≡ total (erase same k es) + size_of (find same k es)
    total-erase k [] = refl
    total-erase k ((j, bytes) ∷ es) = ground (arith, total-erase k es)

    IsFresh-erase : (k l : K) (es : List (K × Bytes)) → IsFresh k es → IsFresh k (erase same l es)
    IsFresh-erase k l [] h = tt
    IsFresh-erase k l ((j, bytes) ∷ es) (h, hs) = ground (arith, IsFresh-erase k l es hs)

    pub IsDistinct-erase :
        (k : K) (es : List (K × Bytes)) → IsDistinct es → IsDistinct (erase same k es)
    IsDistinct-erase k [] d = tt
    IsDistinct-erase k ((j, bytes) ∷ es) (h, d) =
        ground (arith, IsFresh-erase j k es h, IsDistinct-erase k es d)

    pub erase-IsFresh :
        (k : K) (es : List (K × Bytes)) → IsDistinct es → IsFresh k (erase same k es)
    erase-IsFresh k [] d = tt
    erase-IsFresh k ((j, bytes) ∷ es) (h, d) = ground (arith, erase-IsFresh k es d)

    pub erase_fresh : (k : K) (es : List (K × Bytes)) → IsFresh k es → erase same k es ≡ es
    erase_fresh k [] h = refl
    erase_fresh k ((j, bytes) ∷ es) (h, hs) = ground (arith, erase_fresh k es hs)

    pub IsDistinct-touch :
        (k : K) (es : List (K × Bytes)) → IsDistinct es → IsDistinct (touch same k es)
    IsDistinct-touch k es d = ground (arith, erase-IsFresh k es d, IsDistinct-erase k es d)

    pub total-touch : (k : K) (es : List (K × Bytes)) → total (touch same k es) ≡ total es
    total-touch k es = ground (arith, total-erase k es)

    pub find_here :
        (k : K) (bytes : Bytes) (es : List (K × Bytes)) → find same k ((k, bytes) ∷ es) ≡ some bytes
    find_here k bytes es = ground arith
