-- ===== src/Cache/Race.antt =====
-- cache.rs under several threads: `put` reads the capacity before it takes the lock, and
-- `set_capacity` stores it before it does, so that other calls come between.
use rustfits.Prelude.{ℕ, ◌≤◌, ◌<◌, ◌^◌, ◌≡◌, refl, false, List, [], ◌∷◌, ◌++◌, length, All, arith}
use rustfits.Cache.{
  Inner, BytesBoundLruCache, new, insert, is_refused, locked, get, clear, capacity, used_bytes,
  shrink,
}
use rustfits.Cache.Lru.{Bytes, LruCrate}
use rustfits.Cache.Put.{IsAccounted, insert-IsInserted, shrink-IsShrunk}
use rustfits.Cache.Sequence.{is_refused_sound, IsAccounted-new, IsAccounted-get, IsAccounted-clear}

module _ {K : Type 0} {same : Discrete K} (lru : LruCrate same) where
  open lru use {entries}

  -- A call that has yet to take the lock.
  pub data Pending : Type 0 where
    putting : ℕ → K → Bytes → Pending
    setting : ℕ → Pending

  pub record System : Type 0 where
    pub cache : BytesBoundLruCache lru
    pub pending : List Pending

  module _ (limit : ℕ) where
    -- One thread moves. No capacity is set above the limit.
    pub data Step : System → System → Type 0 where
      begin_put :
          (s : System) (key : K) (bytes : Bytes)
          → is_refused lru (capacity lru s.cache) bytes ≡ false
          → Step s (record s { pending = putting (capacity lru s.cache) key bytes ∷ s.pending })
      end_put :
          (c : BytesBoundLruCache lru) (before after : List Pending) (cap : ℕ) (key : K)
          (bytes : Bytes)
          → Step
              (record { cache = c; pending = before ++ putting cap key bytes ∷ after })
              (record {
                cache = locked lru (insert lru cap key bytes) c;
                pending = before ++ after;
              })
      begin_set_capacity :
          (s : System) (max_bytes : ℕ)
          → max_bytes ≤ limit
          → Step s (record {
            cache = record s.cache { max_bytes = max_bytes };
            pending = setting max_bytes ∷ s.pending;
          })
      end_set_capacity :
          (c : BytesBoundLruCache lru) (before after : List Pending) (max_bytes : ℕ)
          → Step
              (record { cache = c; pending = before ++ setting max_bytes ∷ after })
              (record { cache = locked lru (shrink lru max_bytes) c; pending = before ++ after })
      call_get : (s : System) (key : K) → Step s (record s { cache = (get lru key s.cache).1 })
      call_clear : (s : System) → Step s (record s { cache = clear lru s.cache })

    pub data Reach (max_bytes : ℕ) : System → Type 0 where
      start : Reach max_bytes (record { cache = new lru max_bytes; pending = [] })
      later : {s t : System} → Reach max_bytes s → Step s t → Reach max_bytes t

    abbrev IsFitting : Pending → Type 0
    IsFitting (putting cap key bytes) = (cap ≤ limit) × (length bytes ≤ cap)
    IsFitting (setting max_bytes) = max_bytes ≤ limit

    record Inv (s : System) : Type 0 where
      usable : s.cache.poisoned ≡ false
      accounted : IsAccounted lru s.cache.inner
      bounded : s.cache.inner.cur_bytes ≤ limit
      capacity_bounded : s.cache.max_bytes ≤ limit
      fitting : All IsFitting s.pending

    -- A pending call ends: the call, and what is still pending.
    All-middle :
        (before after : List Pending) (p : Pending)
        → All IsFitting (before ++ p ∷ after)
        → IsFitting p × All IsFitting (before ++ after)
    All-middle [] after p h = h
    All-middle (q ∷ before) after p (h, hs) =
        let (this, rest) = All-middle before after p hs in (this, (h, rest))

    Inv-locked :
        (change : Inner lru → Inner lru) (c : BytesBoundLruCache lru) (before after : List Pending)
        → c.poisoned ≡ false
        → c.max_bytes ≤ limit
        → IsAccounted lru (change c.inner)
        → (change c.inner).cur_bytes ≤ limit
        → All IsFitting (before ++ after)
        → Inv (record { cache = locked lru change c; pending = before ++ after })
    unfolding locked
    Inv-locked change c before after usable small a fits f = rw usable (record {
      usable = refl;
      accounted = a;
      bounded = fits;
      capacity_bounded = small;
      fitting = f;
    })

    module _ (limit_small : limit < 2 ^ 63) where
      Inv-end_put :
          (c : BytesBoundLruCache lru) (before after : List Pending) (cap : ℕ) (key : K)
          (bytes : Bytes)
          → Inv (record { cache = c; pending = before ++ putting cap key bytes ∷ after })
          → Inv (record {
            cache = locked lru (insert lru cap key bytes) c;
            pending = before ++ after;
          })
      Inv-end_put c before after cap key bytes v =
          let (fit, rest) = All-middle before after (putting cap key bytes) v.fitting in
          let bounded = v.bounded in
          let new =
            insert-IsInserted lru cap key bytes c.inner (omega arith) (omega arith) fit.1
              v.accounted in
          let fits = new.fits in
          Inv-locked (insert lru cap key bytes) c before after v.usable v.capacity_bounded
            new.accounted (omega arith) rest

      Inv-end_set_capacity :
          (c : BytesBoundLruCache lru) (before after : List Pending) (max_bytes : ℕ)
          → Inv (record { cache = c; pending = before ++ setting max_bytes ∷ after })
          → Inv (record { cache = locked lru (shrink lru max_bytes) c; pending = before ++ after })
      Inv-end_set_capacity c before after max_bytes v =
          let (fit, rest) = All-middle before after (setting max_bytes) v.fitting in
          let new = shrink-IsShrunk lru max_bytes c.inner v.accounted in
          let fits = new.fits in
          Inv-locked (shrink lru max_bytes) c before after v.usable v.capacity_bounded new.accounted
            (omega arith) rest

      Inv-get : (s : System) (key : K) → Inv s → Inv (record s { cache = (get lru key s.cache).1 })
      unfolding get
      Inv-get s key v = rw v.usable (record {
        usable = refl;
        accounted = IsAccounted-get lru key s.cache.inner v.accounted;
        bounded = v.bounded;
        capacity_bounded = v.capacity_bounded;
        fitting = v.fitting;
      })

      Inv-clear : (s : System) → Inv s → Inv (record s { cache = clear lru s.cache })
      unfolding clear
      Inv-clear s v =
          Inv-locked _ s.cache [] s.pending v.usable v.capacity_bounded
            (IsAccounted-clear lru s.cache.inner.cache) (omega arith) v.fitting

      Step-Inv : {s t : System} → Step s t → Inv s → Inv t
      unfolding capacity
      Step-Inv (begin_put s key bytes accepted) v =
          let small = v.capacity_bounded in
          record {
            usable = v.usable;
            accounted = v.accounted;
            bounded = v.bounded;
            capacity_bounded = small;
            fitting = ((small, is_refused_sound lru s.cache.max_bytes bytes accepted), v.fitting);
          }
      Step-Inv (end_put c before after cap key bytes) v = Inv-end_put c before after cap key bytes v
      Step-Inv (begin_set_capacity s max_bytes le) v = record {
        usable = v.usable;
        accounted = v.accounted;
        bounded = v.bounded;
        capacity_bounded = le;
        fitting = (le, v.fitting);
      }
      Step-Inv (end_set_capacity c before after max_bytes) v =
          Inv-end_set_capacity c before after max_bytes v
      Step-Inv (call_get s key) v = Inv-get s key v
      Step-Inv (call_clear s) v = Inv-clear s v

      Reach-Inv : {max_bytes : ℕ} {s : System} → max_bytes ≤ limit → Reach max_bytes s → Inv s
      unfolding new
      Reach-Inv le start = record {
        usable = refl;
        accounted = IsAccounted-new lru;
        bounded = omega arith;
        capacity_bounded = le;
        fitting = tt;
      }
      Reach-Inv le (later r step) = Step-Inv step (Reach-Inv le r)

      -- Whatever way the calls of several threads interleave, with no capacity above a limit below
      -- 2^63: `cur_bytes` is the number of bytes held, no key has two entries, and `used_bytes` is
      -- at most the limit.
      pub Reach-bounded :
          (max_bytes : ℕ) (s : System)
          → max_bytes ≤ limit
          → Reach max_bytes s
          → IsAccounted lru s.cache.inner × (used_bytes lru s.cache ≤ limit)
      unfolding used_bytes
      Reach-bounded max_bytes s le r =
          let v = Reach-Inv le r in (v.accounted, rw v.usable v.bounded)
