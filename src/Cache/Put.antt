-- ===== src/Cache/Put.antt =====
-- cache.rs: `put` and `set_capacity` on a cache whose byte count is right.
use rustfits.Prelude.{
  ℕ, ◌+◌, ◌%◌, ◌^◌, ◌≤◌, ◌<◌, ◌≡◌, refl, sym, ap, ◌∙◌, inl, inr, true, ltb, List, ◌∷◌, length, take,
  arith,
}
use rustfits.Cache.{Inner, pop_over, pop_key, insert, shrink}
use rustfits.Cache.Lru.{Bytes, LruCrate, erase}
use rustfits.Cache.Entries.{
  total, total-take, IsDistinct, IsFresh-take, IsDistinct-take, total-erase, IsDistinct-erase,
  erase-IsFresh, erase_fresh,
}
use rustfits.Cache.Trim.{IsTrimmed, pop_over-IsTrimmed}

module _ {K : Type 0} {same : Discrete K} (lru : LruCrate same) where
  open lru use {entries}

  -- The counter is the number of bytes held, and no key is there twice.
  pub record IsAccounted (g : Inner lru) : Type 0 where
    pub counted : g.cur_bytes ≡ total (entries g.cache)
    pub distinct : IsDistinct (entries g.cache)

  entries-pop_key :
      (key : K) (g : Inner lru)
      → entries (pop_key lru key g).cache ≡ erase same key (entries g.cache)
  unfolding pop_key
  entries-pop_key key g = lru.entries-pop key g.cache

  counted-pop_key :
      (key : K) (g : Inner lru)
      → IsAccounted g
      → (pop_key lru key g).cur_bytes ≡ total (erase same key (entries g.cache))
  unfolding pop_key
  counted-pop_key key g a =
      let counted = a.counted in
      let parts = total-erase same key (entries g.cache) in
      rw (lru.found-pop key g.cache) (ground (arith, counted, parts))

  -- The new entry in front of the most recently used others, as many as the capacity leaves room
  -- for.
  pub record IsInserted (cap : ℕ) (key : K) (bytes : Bytes) (g new : Inner lru) : Type 0 where
    pub kept : ℕ
    pub entries_new :
        entries new.cache ≡ (key, bytes) ∷ take kept (erase same key (entries g.cache))
    pub accounted : IsAccounted new
    pub fits : new.cur_bytes ≤ cap
    pub needed :
        (i : ℕ)
        → kept < i
        → i ≤ length (erase same key (entries g.cache))
        → cap < total (take i (erase same key (entries g.cache))) + length bytes

  module _ (cap size : ℕ) (es : List (K × Bytes)) (g : Inner lru) where
    -- The sums of the loop's test, which do not reach 2^64.
    room :
        cap < 2 ^ 63
        → total es < 2 ^ 63
        → size ≤ cap
        → IsTrimmed lru (λ (cur : ℕ). ltb cap ((cur + size) % 2 ^ 64)) es g
        → g.cur_bytes + size ≤ cap
    room cap_small small le t =
        let bytes = t.bytes_kept in
        let part = total-take t.kept es in
        elim t.stopped [
          | inl f ↦ ground (arith, bytes, part, f)
          | inr none_left ↦
              let empty : g.cur_bytes ≡ 0 = bytes ∙ ap (λ (k : ℕ). total (take k es)) none_left in
              omega arith
        ]

    needed_room :
        cap < 2 ^ 63
        → total es < 2 ^ 63
        → size ≤ cap
        → (i : ℕ) → ltb cap ((total (take i es) + size) % 2 ^ 64) ≡ true
        → cap < total (take i es) + size
    needed_room cap_small small le i t = let part = total-take i es in ground (arith, part, t)

  pub insert-IsInserted :
      (cap : ℕ) (key : K) (bytes : Bytes) (g : Inner lru)
      → cap < 2 ^ 63
      → g.cur_bytes < 2 ^ 63
      → length bytes ≤ cap
      → IsAccounted g
      → IsInserted cap key bytes g (insert lru cap key bytes g)
  unfolding insert
  insert-IsInserted cap key bytes g cap_small small le a =
      let es = erase same key (entries g.cache) in
      let size = length bytes in
      let over = λ (cur : ℕ). ltb cap ((cur + size) % 2 ^ 64) in
      let trimmed = pop_over lru over (pop_key lru key g) in
      let t =
        pop_over-IsTrimmed lru over es (pop_key lru key g) (entries-pop_key key g)
          (counted-pop_key key g a) in
      let counted = a.counted in
      let es_small : total es < 2 ^ 63 =
        omega (arith, counted, total-erase same key (entries g.cache)) in
      let fits = room cap size es trimmed cap_small es_small le t in
      let fresh =
        IsFresh-take key t.kept es (erase-IsFresh same key (entries g.cache) a.distinct) in
      let front : entries (lru.put key bytes trimmed.cache) ≡ (key, bytes) ∷ take t.kept es =
        lru.entries-put key bytes trimmed.cache
        ∙ ap (λ (l : List (K × Bytes)). (key, bytes) ∷ erase same key l) t.entries_kept
        ∙ ap (◌∷◌ (key, bytes)) (erase_fresh same key (take t.kept es) fresh) in
      let kept_bytes = t.bytes_kept in
      record {
        kept = t.kept;
        entries_new = front;
        accounted = record {
          counted = rw front (omega arith);
          distinct = rw front (
            fresh,
            IsDistinct-take t.kept es (IsDistinct-erase same key (entries g.cache) a.distinct),
          );
        };
        fits = omega arith;
        needed = λ i more in_es.
            needed_room cap size es trimmed cap_small es_small le i (t.needed i more in_es);
      }

  -- The most recently used entries, as many as the new capacity has room for.
  pub record IsShrunk (cap : ℕ) (g new : Inner lru) : Type 0 where
    pub kept : ℕ
    pub entries_new : entries new.cache ≡ take kept (entries g.cache)
    pub accounted : IsAccounted new
    pub fits : new.cur_bytes ≤ cap
    pub needed :
        (i : ℕ) → kept < i → i ≤ length (entries g.cache) → cap < total (take i (entries g.cache))

  pub shrink-IsShrunk :
      (cap : ℕ) (g : Inner lru) → IsAccounted g → IsShrunk cap g (shrink lru cap g)
  unfolding shrink
  shrink-IsShrunk cap g a =
      let es = entries g.cache in
      let over = λ (cur : ℕ). ltb cap cur in
      let t = pop_over-IsTrimmed lru over es g refl a.counted in
      let bytes = t.bytes_kept in
      record {
        kept = t.kept;
        entries_new = t.entries_kept;
        accounted = record {
          counted = bytes ∙ ap total (sym t.entries_kept);
          distinct = rw t.entries_kept (IsDistinct-take t.kept es a.distinct);
        };
        fits = elim t.stopped [
          | inl f ↦ ground (arith, f)
          | inr none_left ↦
              let empty = bytes ∙ ap (λ (k : ℕ). total (take k es)) none_left in omega arith
        ];
        needed = λ i more in_es. let n = t.needed i more in_es in ground (arith, n);
      }
