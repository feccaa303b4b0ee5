-- ===== src/Remote/Slots.antt =====
-- remote_range.rs: the blocks of a span, from the cache and from fetched runs.
use rustfits.Prelude.{
  ℕ, zero, suc, ◌+◌, ◌-◌, ◌≤◌, ◌<◌, ◌≡◌, refl, sym, ap, ◌∙◌, true, Option, none, some, List, [],
  ◌∷◌, map, length, get_or, arith,
}
use native.Mathlib.Decide.{ℕ_discrete, dec_lt}
use rustfits.Cache.{BytesBoundLruCache, get, put}
use rustfits.Cache.Lru.{Bytes, LruCrate}
use rustfits.Remote.{cached_blocks, set_at, store_blocks, is_some}
use rustfits.Remote.Cached.{IsSlot, IsBlockCache, get-IsBlockCache, put-IsBlockCache}

module _ (right : ℕ → Bytes) where
  abbrev pub IsSlots : ℕ → List (Option Bytes) → Type 0
  IsSlots b [] = Unit
  IsSlots b (o ∷ slots) = IsSlot right b o × IsSlots (suc b) slots

  -- All the blocks are there.
  abbrev pub IsFull : ℕ → List (Option Bytes) → Type 0
  IsFull b [] = Unit
  IsFull b (none ∷ slots) = ⊥
  IsFull b (some block ∷ slots) = (block ≡ right b) × IsFull (suc b) slots

  abbrev pub right_blocks : ℕ → ℕ → List Bytes
  right_blocks zero b = []
  right_blocks (suc n) b = right b ∷ right_blocks n (suc b)

-- The block at an index is there.
abbrev pub IsFilled : ℕ → List (Option Bytes) → Type 0
IsFilled i slots = get_or (map is_some slots) i true ≡ true

module _ (right : ℕ → Bytes) where
  set_at-IsSlots :
      (b i : ℕ) (slots : List (Option Bytes))
      → IsSlots right b slots
      → IsSlots right b (set_at i (right (b + i)) slots)
  set_at-IsSlots b i [] h = tt
  set_at-IsSlots b zero (o ∷ slots) (h, hs) = let e : b + 0 ≡ b = omega arith in (ap right e, hs)
  set_at-IsSlots b (suc i) (o ∷ slots) (h, hs) =
      let e : b + suc i ≡ suc b + i = omega arith in (h, rw e (set_at-IsSlots (suc b) i slots hs))

  pub IsSlots-IsFull :
      (b : ℕ) (slots : List (Option Bytes))
      → IsSlots right b slots
      → ((i : ℕ) → i < length slots → IsFilled i slots)
      → IsFull right b slots
  IsSlots-IsFull b [] h f = tt
  IsSlots-IsFull b (none ∷ slots) h f = let here = f 0 (omega arith) in cc
  IsSlots-IsFull b (some block ∷ slots) (h, hs) f =
      (h, IsSlots-IsFull (suc b) slots hs (λ i low. f (suc i) (omega arith)))

length-set_at :
    (i : ℕ) (block : Bytes) (slots : List (Option Bytes))
    → length (set_at i block slots) ≡ length slots
length-set_at i block [] = refl
length-set_at zero block (o ∷ slots) = refl
length-set_at (suc i) block (o ∷ slots) = ap suc (length-set_at i block slots)

set_at-IsFilled :
    (i : ℕ) (block : Bytes) (slots : List (Option Bytes)) → IsFilled i (set_at i block slots)
set_at-IsFilled i block [] = refl
set_at-IsFilled zero block (o ∷ slots) = refl
set_at-IsFilled (suc i) block (o ∷ slots) = set_at-IsFilled i block slots

set_at-keeps :
    (i j : ℕ) (block : Bytes) (slots : List (Option Bytes))
    → IsFilled j slots
    → IsFilled j (set_at i block slots)
set_at-keeps i j block [] h = h
set_at-keeps zero zero block (o ∷ slots) h = refl
set_at-keeps zero (suc j) block (o ∷ slots) h = h
set_at-keeps (suc i) zero block (o ∷ slots) h = h
set_at-keeps (suc i) (suc j) block (o ∷ slots) h = set_at-keeps i j block slots h

module _ (right : ℕ → Bytes) (lru : LruCrate ℕ_discrete) where
  pub cached_blocks-IsSlots :
      (first n : ℕ) (c : BytesBoundLruCache lru)
      → IsBlockCache right lru c
      → IsSlots right first (cached_blocks lru first n c).0
        × (length (cached_blocks lru first n c).0 ≡ n)
        × IsBlockCache right lru (cached_blocks lru first n c).1
  unfolding cached_blocks
  cached_blocks-IsSlots first zero c h = (tt, refl, h)
  cached_blocks-IsSlots first (suc n) c h =
      let (hit, next) = get-IsBlockCache right lru first c h in
      let (hits, count, last) = cached_blocks-IsSlots (suc first) n (get lru first c).1 next in
      ((hit, hits), ap suc count, last)

  -- The slots behind a run that is stored, and what of them is filled.
  pub record IsStored (first b n : ℕ) (slots : List (Option Bytes))
      (r : List (Option Bytes) × BytesBoundLruCache lru) : Type 0 where
    pub slots_right : IsSlots right first r.0
    pub cache_right : IsBlockCache right lru r.1
    pub count : length r.0 ≡ length slots
    pub kept : (j : ℕ) → IsFilled j slots → IsFilled j r.0
    pub filled : (j : ℕ) → b ≤ first + j → first + j < b + n → IsFilled j r.0

  pub store_blocks-IsStored :
      (first b n : ℕ) (slots : List (Option Bytes)) (c : BytesBoundLruCache lru)
      → first ≤ b
      → IsSlots right first slots
      → IsBlockCache right lru c
      → IsStored first b n slots (store_blocks lru first b (right_blocks right n b) (slots, c))
  unfolding store_blocks
  store_blocks-IsStored first b zero slots c le h hc = record {
    slots_right = h;
    cache_right = hc;
    count = refl;
    kept = λ j f. f;
    filled = λ j low high. absurd (omega arith);
  }
  store_blocks-IsStored first b (suc n) slots c le h hc =
      let i = b - first in
      let at_b : first + i ≡ b = omega arith in
      let one : IsSlots right first (set_at i (right b) slots) =
        rw (ap (λ (k : ℕ). set_at i (right k) slots) (sym at_b))
          (set_at-IsSlots right first i slots h) in
      let rest =
        store_blocks-IsStored first (suc b) n (set_at i (right b) slots) (put lru b (right b) c)
          (omega arith) one (put-IsBlockCache right lru b c hc) in
      record {
        slots_right = rest.slots_right;
        cache_right = rest.cache_right;
        count = rest.count ∙ length-set_at i (right b) slots;
        kept = λ j f. rest.kept j (set_at-keeps i j (right b) slots f);
        filled = λ j low high. elim (dec_lt b (first + j)) [
          | yes later ↦ rest.filled j (omega arith) (omega arith)
          | no here ↦
              let e : j ≡ i = omega arith in rest.kept j (rw e (set_at-IsFilled i (right b) slots))
        ];
      }
