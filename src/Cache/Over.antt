-- ===== src/Cache/Over.antt =====
-- cache.rs: a `set_capacity` that runs between the two halves of a `put`.
use rustfits.Prelude.{
  ℕ, zero, suc, ◌≤◌, ◌<◌, ◌^◌, ◌≡◌, refl, ap, ◌∙◌, false, List, [], ◌∷◌, length, take, arith,
}
use rustfits.Cache.{
  Inner, BytesBoundLruCache, new, insert, is_refused, locked, capacity, used_bytes, shrink,
}
use rustfits.Cache.Lru.{Bytes, LruCrate, erase}
use rustfits.Cache.Entries.{total}
use rustfits.Cache.Put.{insert-IsInserted, shrink-IsShrunk}
use rustfits.Cache.Sequence.{IsAccounted-new}
use rustfits.Cache.Race.{
  System, Pending, Reach, putting, start, later, begin_put, end_put, begin_set_capacity,
  end_set_capacity,
}

module _ {K : Type 0} {same : Discrete K} (lru : LruCrate same) where
  open lru use {entries}

  not_refused :
      (cap : ℕ) (bytes : Bytes) → 0 < cap → length bytes ≤ cap → is_refused lru cap bytes ≡ false
  unfolding is_refused
  not_refused cap bytes some_room le = ground arith

  abbrev empty : Inner lru
  empty = record { cache = lru.unbounded; cur_bytes = 0 }

  take_nothing : (i : ℕ) → take {A = K × Bytes} i [] ≡ []
  take_nothing zero = refl
  take_nothing (suc i) = refl

  -- The bytes that `put` inserts, with the capacity it has read, after the cache was shrunk.
  used_after :
      (old small : ℕ) (key : K) (bytes : Bytes)
      → old < 2 ^ 63
      → length bytes ≤ old
      → (insert lru old key bytes (shrink lru small empty)).cur_bytes ≡ length bytes
  used_after old small key bytes old_small le =
      let shrunk = shrink-IsShrunk lru small empty (IsAccounted-new lru) in
      let none_left : entries (shrink lru small empty).cache ≡ [] =
        shrunk.entries_new
        ∙ ap (take shrunk.kept) lru.entries-unbounded
        ∙ take_nothing shrunk.kept in
      let none_used : (shrink lru small empty).cur_bytes ≡ 0 =
        shrunk.accounted.counted ∙ ap total none_left in
      let new =
        insert-IsInserted lru old key bytes (shrink lru small empty) old_small (omega arith) le
          shrunk.accounted in
      let others : take new.kept (erase same key (entries (shrink lru small empty).cache)) ≡ [] =
        ap (λ (es : List (K × Bytes)). take new.kept (erase same key es)) none_left
        ∙ take_nothing new.kept in
      let held = ap total new.entries_new in
      let nothing = ap total others in let counted = new.accounted.counted in omega arith

  -- For bytes that fit the old capacity and not the new one, this order of steps is possible:
  -- `put` reads the old capacity, `set_capacity` stores the new one and evicts, `put` inserts. No
  -- call is pending then, and `used_bytes` is the length of the bytes, above `capacity`.
  pub used_bytes-over :
      (old small : ℕ) (key : K) (bytes : Bytes)
      → old < 2 ^ 63
      → length bytes ≤ old
      → small < length bytes
      → (s : System lru) × Reach lru old old s
        × (s.pending ≡ [])
        × (used_bytes lru s.cache ≡ length bytes)
        × (capacity lru s.cache < used_bytes lru s.cache)
  unfolding used_bytes capacity locked new
  used_bytes-over old small key bytes old_small le over =
      let c0 : BytesBoundLruCache lru = new lru old in
      let c1 : BytesBoundLruCache lru = record {
        inner = empty;
        poisoned = false;
        max_bytes = small;
      } in
      let c2 : BytesBoundLruCache lru = locked lru (shrink lru small) c1 in
      let put_waits : Pending lru = putting old key bytes in
      let lower : small ≤ old = omega arith in
      let some_room : 0 < old = omega arith in
      let read = later start (
        begin_put (record { cache = c0; pending = [] }) key bytes
          (not_refused old bytes some_room le)) in
      let stored =
        later read
          (begin_set_capacity (record { cache = c0; pending = put_waits ∷ [] }) small lower) in
      let evicted = later stored (end_set_capacity c1 [] (put_waits ∷ []) small) in
      let inserted = later evicted (end_put c2 [] [] old key bytes) in
      let used = used_after old small key bytes old_small le in
      (_, inserted, refl, used, rw used over)
