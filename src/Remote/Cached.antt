-- ===== src/Remote/Cached.antt =====
-- remote_range.rs: a cache whose entries are blocks of the file, which the calls of cache.rs keep.
use rustfits.Prelude.{
  ℕ, ◌^◌, ◌<◌, ◌≡◌, refl, Bool-cases, inl, inr, Option, none, some, List, [], ◌∷◌, All, All-take,
  arith,
}
use native.Mathlib.Decide.{ℕ_discrete}
use rustfits.Cache.{new, BytesBoundLruCache, get, put, is_refused, capacity}
use rustfits.Cache.Lru.{Bytes, LruCrate, find, erase, touch}
use rustfits.Cache.Sequence.{
  IsValid, IsValid-get, IsValid-put, put-IsInserted, put_refused, found-get, IsValid-new,
  entries-new,
}

module _ (right : ℕ → Bytes) where
  -- Every entry holds the block of its key.
  abbrev pub IsRight : List (ℕ × Bytes) → Type 0
  IsRight = All (λ e. e.1 ≡ right e.0)

  -- A block that is there is the right one.
  abbrev pub IsSlot : ℕ → Option Bytes → Type 0
  IsSlot b none = Unit
  IsSlot b (some block) = block ≡ right b

  find-IsSlot : (k : ℕ) (es : List (ℕ × Bytes)) → IsRight es → IsSlot k (find ℕ_discrete k es)
  find-IsSlot k [] h = tt
  find-IsSlot k ((j, block) ∷ es) (h, hs) = ground (arith, find-IsSlot k es hs)

  erase-IsRight : (k : ℕ) (es : List (ℕ × Bytes)) → IsRight es → IsRight (erase ℕ_discrete k es)
  erase-IsRight k [] h = tt
  erase-IsRight k ((j, block) ∷ es) (h, hs) = ground (arith, erase-IsRight k es hs)

  touch-IsRight : (k : ℕ) (es : List (ℕ × Bytes)) → IsRight es → IsRight (touch ℕ_discrete k es)
  touch-IsRight k es h = ground (arith, find-IsSlot k es h, erase-IsRight k es h)

  module _ (lru : LruCrate ℕ_discrete) where
    -- A cache that one thread uses, and that holds blocks of the file.
    pub record IsBlockCache (c : BytesBoundLruCache lru) : Type 0 where
      pub valid : IsValid lru c
      pub blocks : IsRight (lru.entries c.inner.cache)

    pub new-IsBlockCache : (max_bytes : ℕ) → max_bytes < 2 ^ 63 → IsBlockCache (new lru max_bytes)
    new-IsBlockCache max_bytes h = record {
      valid = IsValid-new lru max_bytes h;
      blocks = rw (entries-new lru max_bytes) tt;
    }

    pub get-IsBlockCache :
        (b : ℕ) (c : BytesBoundLruCache lru)
        → IsBlockCache c
        → IsSlot b (get lru b c).0 × IsBlockCache (get lru b c).1
    get-IsBlockCache b c h =
        let (found, touched) = found-get lru b c h.valid in
        (
          rw found (find-IsSlot b (lru.entries c.inner.cache) h.blocks),
          record {
            valid = IsValid-get lru b c h.valid;
            blocks = rw touched (touch-IsRight b (lru.entries c.inner.cache) h.blocks);
          },
        )

    pub put-IsBlockCache :
        (b : ℕ) (c : BytesBoundLruCache lru) → IsBlockCache c → IsBlockCache (put lru b (right b) c)
    put-IsBlockCache b c h = record {
      valid = IsValid-put lru b (right b) c h.valid;
      blocks = elim (Bool-cases (is_refused lru (capacity lru c) (right b))) [
        | inl refused ↦ rw (put_refused lru b (right b) c refused) h.blocks
        | inr accepted ↦
            let new = put-IsInserted lru b (right b) c h.valid accepted in
            rw new.entries_new (
              refl,
              All-take (λ e. e.1 ≡ right e.0) new.kept
                  (erase ℕ_discrete b (lru.entries c.inner.cache))
                  (erase-IsRight b (lru.entries c.inner.cache) h.blocks),
            )
      ];
    }
