-- ===== src/Cache.antt =====
-- cache.rs: the cache of decompressed tiles, bounded by the bytes that it holds.
pub mod Lru
pub mod Entries
pub mod Trim
pub mod Put
pub mod Sequence
pub mod Race
pub mod Over
pub mod ListLru
mod Tests
use rustfits.Prelude.{
  ℕ, zero, suc, ◌+◌, ◌-◌, ◌%◌, ◌^◌, Bool, true, false, ◌||◌, ◌==◌, ltb, if◌then◌else◌, Option, none,
  some, List, length,
}
use Lru.{Bytes, LruCrate}

abbrev wrap_u64 : ℕ → ℕ
wrap_u64 n = n % 2 ^ 64

module _ {K : Type 0} {same : Discrete K} (lru : LruCrate same) where
  open lru use {LruCache, entries}

  pub record Inner : Type 0 where
    pub cache : LruCache
    pub cur_bytes : ℕ

  -- A mutex is poisoned when a thread panics that holds it: `lock()` fails from then on.
  pub record BytesBoundLruCache : Type 0 where
    pub inner : Inner
    pub poisoned : Bool
    pub max_bytes : ℕ

  pub new : ℕ → BytesBoundLruCache
  new max_bytes = record {
    inner = record { cache = lru.unbounded; cur_bytes = 0 };
    poisoned = false;
    max_bytes = max_bytes;
  }

  pub capacity : BytesBoundLruCache → ℕ
  capacity c = c.max_bytes

  pub used_bytes : BytesBoundLruCache → ℕ
  used_bytes c = if c.poisoned then 0 else c.inner.cur_bytes

  pub get : K → BytesBoundLruCache → Option Bytes × BytesBoundLruCache
  get key c =
      let hit = lru.get key c.inner.cache in
      if c.poisoned
      then (none, c)
      else (hit.0, record c { inner = record { cache = hit.1; cur_bytes = c.inner.cur_bytes } })

  -- The loops `while over(cur_bytes) { match pop_lru() ... }`. Each round takes an entry out, so
  -- the number of entries is fuel enough.
  pub pop_while : (ℕ → Bool) → ℕ → Inner → Inner
  pop_while over zero g = g
  pop_while over (suc fuel) g =
      let popped = lru.pop_lru g.cache in
      let rest = λ (size : ℕ).
        pop_while over fuel (record { cache = popped.1; cur_bytes = g.cur_bytes - size }) in
      if over g.cur_bytes
      then elim popped.0 [
        | none ↦ record { cache = popped.1; cur_bytes = g.cur_bytes }
        | some e ↦ rest (length e.1)
      ]
      else g

  pub pop_over : (ℕ → Bool) → Inner → Inner
  pop_over over g = pop_while over (suc (length (entries g.cache))) g

  -- The old entry of the key, and its bytes, taken out.
  pub pop_key : K → Inner → Inner
  pop_key key g =
      let popped = lru.pop key g.cache in
      record {
        cache = popped.1;
        cur_bytes = elim popped.0 [ none ↦ g.cur_bytes | some old ↦ g.cur_bytes - length old ];
      }

  -- `put` once it has read the capacity `cap` and holds the lock.
  pub insert : ℕ → K → Bytes → Inner → Inner
  insert cap key bytes g =
      let size = length bytes in
      let trimmed = pop_over (λ (cur : ℕ). ltb cap (wrap_u64 (cur + size))) (pop_key key g) in
      record {
        cache = lru.put key bytes trimmed.cache;
        cur_bytes = wrap_u64 (trimmed.cur_bytes + size);
      }

  -- The early returns of `put`: no cache, or a value that is larger than all of it.
  pub is_refused : ℕ → Bytes → Bool
  is_refused cap bytes = cap == 0 || ltb cap (length bytes)

  pub locked : (Inner → Inner) → BytesBoundLruCache → BytesBoundLruCache
  locked change c = if c.poisoned then c else record c { inner = change c.inner }

  pub put : K → Bytes → BytesBoundLruCache → BytesBoundLruCache
  put key bytes c =
      let cap = capacity c in if is_refused cap bytes then c else locked (insert cap key bytes) c

  -- `set_capacity` once it holds the lock.
  pub shrink : ℕ → Inner → Inner
  shrink max_bytes g = pop_over (λ (cur : ℕ). ltb max_bytes cur) g

  pub set_capacity : ℕ → BytesBoundLruCache → BytesBoundLruCache
  set_capacity max_bytes c = locked (shrink max_bytes) (record c { max_bytes = max_bytes })

  pub clear : BytesBoundLruCache → BytesBoundLruCache
  clear c = locked (λ (g : Inner). record { cache = lru.clear g.cache; cur_bytes = 0 }) c
