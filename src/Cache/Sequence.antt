-- ===== src/Cache/Sequence.antt =====
-- cache.rs: the calls of one thread, in any order.
use rustfits.Prelude.{
  ℕ, ◌≤◌, ◌<◌, ◌^◌, ◌≡◌, refl, sym, ap, ◌∙◌, true, false, Bool-cases, inl, inr, some, List, [], ◌∷◌,
  length, All, arith,
}
use rustfits.Cache.{
  Inner, BytesBoundLruCache, new, insert, is_refused, locked, put, set_capacity, get, clear,
  capacity, used_bytes, shrink,
}
use rustfits.Cache.Lru.{Bytes, LruCrate, find, touch}
use rustfits.Cache.Entries.{total, IsDistinct-touch, total-touch, find_here}
use rustfits.Cache.Put.{IsAccounted, IsInserted, insert-IsInserted, IsShrunk, shrink-IsShrunk}

module _ {K : Type 0} {same : Discrete K} (lru : LruCrate same) where
  open lru use {entries}

  -- No thread has panicked, the count is right, and what is held fits.
  pub record IsValid (c : BytesBoundLruCache lru) : Type 0 where
    pub usable : c.poisoned ≡ false
    pub accounted : IsAccounted lru c.inner
    pub fits : c.inner.cur_bytes ≤ c.max_bytes
    pub small : c.max_bytes < 2 ^ 63

  pub data Call : Type 0 where
    call_put : K → Bytes → Call
    call_get : K → Call
    call_set_capacity : ℕ → Call
    call_clear : Call

  unfoldable pub apply : Call → BytesBoundLruCache lru → BytesBoundLruCache lru
  apply (call_put key bytes) c = put lru key bytes c
  apply (call_get key) c = (get lru key c).1
  apply (call_set_capacity max_bytes) c = set_capacity lru max_bytes c
  apply call_clear c = clear lru c

  unfoldable pub apply_all : List Call → BytesBoundLruCache lru → BytesBoundLruCache lru
  apply_all [] c = c
  apply_all (call ∷ calls) c = apply_all calls (apply call c)

  -- A capacity that a call sets is below 2^63.
  abbrev pub IsSmall : Call → Type 0
  IsSmall (call_set_capacity max_bytes) = max_bytes < 2 ^ 63
  IsSmall _ = Unit

  pub IsAccounted-new : IsAccounted lru (record { cache = lru.unbounded; cur_bytes = 0 })
  IsAccounted-new = record {
    counted = rw lru.entries-unbounded refl;
    distinct = rw lru.entries-unbounded tt;
  }

  pub IsAccounted-clear :
      (cache : lru.LruCache) → IsAccounted lru (record { cache = lru.clear cache; cur_bytes = 0 })
  IsAccounted-clear cache = record {
    counted = rw (lru.entries-clear cache) refl;
    distinct = rw (lru.entries-clear cache) tt;
  }

  pub IsAccounted-get :
      (key : K) (g : Inner lru)
      → IsAccounted lru g
      → IsAccounted lru (record { cache = (lru.get key g.cache).1; cur_bytes = g.cur_bytes })
  IsAccounted-get key g a =
      let touched = lru.entries-get key g.cache in
      record {
        counted = a.counted ∙ sym (total-touch same key (entries g.cache)) ∙ ap total (sym touched);
        distinct = rw touched (IsDistinct-touch same key _ a.distinct);
      }

  pub entries-new : (max_bytes : ℕ) → entries (new lru max_bytes).inner.cache ≡ []
  unfolding new
  entries-new max_bytes = lru.entries-unbounded

  pub IsValid-new : (max_bytes : ℕ) → max_bytes < 2 ^ 63 → IsValid (new lru max_bytes)
  unfolding new
  IsValid-new max_bytes h = record {
    usable = refl;
    accounted = IsAccounted-new;
    fits = omega arith;
    small = h;
  }

  pub is_refused_sound :
      (cap : ℕ) (bytes : Bytes) → is_refused lru cap bytes ≡ false → length bytes ≤ cap
  unfolding is_refused
  is_refused_sound cap bytes h = ground (arith, h)

  -- What `get` finds, and what it makes of the entries.
  pub found-get :
      (key : K) (c : BytesBoundLruCache lru)
      → IsValid c
      → ((get lru key c).0 ≡ find same key (entries c.inner.cache))
        × (entries (get lru key c).1.inner.cache ≡ touch same key (entries c.inner.cache))
  unfolding get
  found-get key c v =
      rw v.usable (lru.found-get key c.inner.cache, lru.entries-get key c.inner.cache)

  pub put_refused :
      (key : K) (bytes : Bytes) (c : BytesBoundLruCache lru)
      → is_refused lru (capacity lru c) bytes ≡ true
      → put lru key bytes c ≡ c
  unfolding put
  put_refused key bytes c refused = rw refused refl

  -- What `put` leaves when it accepts the bytes.
  pub insert_accepted-IsInserted :
      (key : K) (bytes : Bytes) (c : BytesBoundLruCache lru)
      → IsValid c
      → is_refused lru (capacity lru c) bytes ≡ false
      → IsInserted lru c.max_bytes key bytes c.inner (insert lru c.max_bytes key bytes c.inner)
  unfolding capacity
  insert_accepted-IsInserted key bytes c v accepted =
      let fits = v.fits in
      let small = v.small in
      insert-IsInserted lru c.max_bytes key bytes c.inner v.small (omega arith)
        (is_refused_sound c.max_bytes bytes accepted) v.accounted

  -- A change of what the lock guards.
  IsValid-locked :
      (change : Inner lru → Inner lru) (c : BytesBoundLruCache lru)
      → c.poisoned ≡ false
      → c.max_bytes < 2 ^ 63
      → IsAccounted lru (change c.inner)
      → (change c.inner).cur_bytes ≤ c.max_bytes
      → IsValid (locked lru change c)
  unfolding locked
  IsValid-locked change c usable small a fits =
      rw usable (record { usable = refl; accounted = a; fits = fits; small = small })

  pub IsValid-put :
      (key : K) (bytes : Bytes) (c : BytesBoundLruCache lru)
      → IsValid c
      → IsValid (put lru key bytes c)
  unfolding put capacity
  IsValid-put key bytes c v = elim (Bool-cases (is_refused lru c.max_bytes bytes)) [
    | inl refused ↦ rw refused v
    | inr accepted ↦
        let new = insert_accepted-IsInserted key bytes c v accepted in
        rw accepted (
          IsValid-locked (insert lru c.max_bytes key bytes) c v.usable v.small new.accounted
            new.fits)
  ]

  IsValid-set_capacity :
      (max_bytes : ℕ) (c : BytesBoundLruCache lru)
      → max_bytes < 2 ^ 63
      → IsValid c
      → IsValid (set_capacity lru max_bytes c)
  unfolding set_capacity
  IsValid-set_capacity max_bytes c h v =
      let new = shrink-IsShrunk lru max_bytes c.inner v.accounted in
      IsValid-locked (shrink lru max_bytes) _ v.usable h new.accounted new.fits

  IsValid-clear : (c : BytesBoundLruCache lru) → IsValid c → IsValid (clear lru c)
  unfolding clear
  IsValid-clear c v =
      IsValid-locked _ c v.usable v.small (IsAccounted-clear c.inner.cache) (omega arith)

  pub IsValid-get : (key : K) (c : BytesBoundLruCache lru) → IsValid c → IsValid (get lru key c).1
  unfolding get
  IsValid-get key c v = rw v.usable (record {
    usable = refl;
    accounted = IsAccounted-get key c.inner v.accounted;
    fits = v.fits;
    small = v.small;
  })

  IsValid-apply :
      (call : Call) (c : BytesBoundLruCache lru) → IsSmall call → IsValid c → IsValid (apply call c)
  unfolding apply
  IsValid-apply (call_put key bytes) c h v = IsValid-put key bytes c v
  IsValid-apply (call_get key) c h v = IsValid-get key c v
  IsValid-apply (call_set_capacity max_bytes) c h v = IsValid-set_capacity max_bytes c h v
  IsValid-apply call_clear c h v = IsValid-clear c v

  IsValid-apply_all :
      (calls : List Call) (c : BytesBoundLruCache lru)
      → All IsSmall calls
      → IsValid c
      → IsValid (apply_all calls c)
  unfolding apply_all
  IsValid-apply_all [] c h v = v
  IsValid-apply_all (call ∷ calls) c (h, hs) v =
      IsValid-apply_all calls (apply call c) hs (IsValid-apply call c h v)

  -- After any calls of one thread on a new cache, with capacities below 2^63: the lock still
  -- works, `cur_bytes` is the number of bytes held, no key has two entries, and `used_bytes` is at
  -- most `capacity`.
  pub apply_all-IsValid :
      (max_bytes : ℕ) (calls : List Call)
      → max_bytes < 2 ^ 63
      → All IsSmall calls
      → IsValid (apply_all calls (new lru max_bytes))
        × (used_bytes lru (apply_all calls (new lru max_bytes))
            ≤ capacity lru (apply_all calls (new lru max_bytes)))
  unfolding used_bytes capacity
  apply_all-IsValid max_bytes calls small hs =
      let v = IsValid-apply_all calls (new lru max_bytes) hs (IsValid-new max_bytes small) in
      (v, rw v.usable v.fits)

  -- On a valid cache, `get` after an accepted `put` of the same key finds the bytes that were put.
  pub get-put :
      (key : K) (bytes : Bytes) (c : BytesBoundLruCache lru)
      → IsValid c
      → is_refused lru (capacity lru c) bytes ≡ false
      → (get lru key (put lru key bytes c)).0 ≡ some bytes
  unfolding get put locked capacity
  get-put key bytes c v accepted =
      let new = insert_accepted-IsInserted key bytes c v accepted in
      rw (accepted, v.usable, lru.found-get, new.entries_new) (find_here same key bytes _)

  -- An accepted `put` on a valid cache leaves the new entry in front of the most recently used
  -- others, their old entry of the key taken out: as many as the capacity has room for, and one
  -- more would not fit. The count is right and at most the capacity.
  pub put-IsInserted :
      (key : K) (bytes : Bytes) (c : BytesBoundLruCache lru)
      → IsValid c
      → is_refused lru (capacity lru c) bytes ≡ false
      → IsInserted lru (capacity lru c) key bytes c.inner (put lru key bytes c).inner
  unfolding put locked capacity
  put-IsInserted key bytes c v accepted =
      rw (accepted, v.usable) (insert_accepted-IsInserted key bytes c v accepted)

  -- `set_capacity` on a valid cache keeps the most recently used entries, as many as the new
  -- capacity has room for, and one more would not fit.
  pub set_capacity-IsShrunk :
      (max_bytes : ℕ) (c : BytesBoundLruCache lru)
      → IsValid c
      → IsShrunk lru max_bytes c.inner (set_capacity lru max_bytes c).inner
  unfolding set_capacity locked
  set_capacity-IsShrunk max_bytes c v =
      rw v.usable (shrink-IsShrunk lru max_bytes c.inner v.accounted)
