-- ===== src/Cache/Trim.antt =====
-- cache.rs: what the loop that pops the least recently used entries leaves.
use rustfits.Prelude.{
  ℕ, zero, suc, ◌-◌, ◌≤◌, ◌<◌, ◌≡◌, refl, sym, ap, ◌∙◌, ◌⊎◌, inl, inr, Bool, true, false,
  Bool-cases, some, List, [], ◌∷◌, ◌++◌, length, take, take_all, arith,
}
use native.Mathlib.Decide.{dec_lt}
use rustfits.Cache.{Inner, pop_while, pop_over}
use rustfits.Cache.Lru.{Bytes, LruCrate}
use rustfits.Cache.Entries.{total, take-suc}

module _ {K : Type 0} {same : Discrete K} (lru : LruCrate same) where
  open lru use {entries}

  -- The first entries of `es` are kept, as many as the test allows.
  pub record IsTrimmed (over : ℕ → Bool) (es : List (K × Bytes)) (g : Inner lru) : Type 0 where
    pub kept : ℕ
    pub few : kept ≤ length es
    pub entries_kept : entries g.cache ≡ take kept es
    pub bytes_kept : g.cur_bytes ≡ total (take kept es)
    pub stopped : (over g.cur_bytes ≡ false) ⊎ (kept ≡ 0)
    pub needed : (i : ℕ) → kept < i → i ≤ length es → over (total (take i es)) ≡ true

  module _ (over : ℕ → Bool) (es : List (K × Bytes)) where
    -- The loop begins a round with the first `n` entries left, and had to take the others.
    record Round (n : ℕ) (g : Inner lru) : Type 0 where
      few : n ≤ length es
      here : entries g.cache ≡ take n es
      bytes : g.cur_bytes ≡ total (take n es)
      had_to : (i : ℕ) → n < i → i ≤ length es → over (total (take i es)) ≡ true

    Round-stops :
        {n : ℕ} {g : Inner lru}
        → Round n g
        → (over g.cur_bytes ≡ false) ⊎ (n ≡ 0)
        → IsTrimmed over es g
    Round-stops {n = n} r s = record {
      kept = n;
      few = r.few;
      entries_kept = r.here;
      bytes_kept = r.bytes;
      stopped = s;
      needed = r.had_to;
    }

    -- The round that takes the last of the entries left.
    Round-pops :
        (k : ℕ) (g : Inner lru)
        → Round (suc k) g
        → over g.cur_bytes ≡ true
        → (e : K × Bytes) × ((lru.pop_lru g.cache).0 ≡ some e)
          × Round k
              (record { cache = (lru.pop_lru g.cache).1; cur_bytes = g.cur_bytes - length e.1 })
    Round-pops k g r t =
        let few = r.few in
        let bytes = r.bytes in
        let (e, last, size) = take-suc k es few in
        let popped : entries g.cache ≡ take k es ++ e ∷ [] = r.here ∙ last in
        (
          e,
          lru.found-pop_lru g.cache (take k es) e popped,
          record {
            few = omega arith;
            here = lru.entries-pop_lru g.cache (take k es) e popped;
            bytes = omega arith;
            had_to = λ i above in_es. elim (dec_lt (suc k) i) [
              | yes later ↦ r.had_to i later in_es
              | no late ↦ let i_is : i ≡ suc k = omega arith in rw (i_is, sym bytes) t
            ];
          },
        )

    Round-empty :
        (g : Inner lru)
        → Round zero g
        → Round zero (record { cache = (lru.pop_lru g.cache).1; cur_bytes = g.cur_bytes })
    Round-empty g r = record {
      few = r.few;
      here = lru.entries-pop_lru_nil g.cache r.here;
      bytes = r.bytes;
      had_to = r.had_to;
    }

    pop_while-IsTrimmed :
        (fuel n : ℕ) (g : Inner lru)
        → n < fuel
        → Round n g
        → IsTrimmed over es (pop_while lru over fuel g)
    unfolding pop_while
    pop_while-IsTrimmed zero n g enough r = absurd (omega arith)
    pop_while-IsTrimmed (suc fuel) zero g enough r = elim (Bool-cases (over g.cur_bytes)) [
      | inl t ↦
          rw (t, lru.found-pop_lru_nil g.cache r.here) (Round-stops (Round-empty g r) (inr refl))
      | inr f ↦ rw f (Round-stops r (inl f))
    ]
    pop_while-IsTrimmed (suc fuel) (suc k) g enough r = elim (Bool-cases (over g.cur_bytes)) [
      | inl t ↦
          let (e, popped, next) = Round-pops k g r t in
          rw (t, popped) (pop_while-IsTrimmed fuel k _ (omega arith) next)
      | inr f ↦ rw f (Round-stops r (inl f))
    ]

    -- The fuel is enough: the loop ends because its test fails, or nothing is left.
    pub pop_over-IsTrimmed :
        (g : Inner lru)
        → entries g.cache ≡ es
        → g.cur_bytes ≡ total es
        → IsTrimmed over es (pop_over lru over g)
    unfolding pop_over
    pop_over-IsTrimmed g here bytes =
        let all = take_all (length es) es (omega arith) in
        let count : length (entries g.cache) ≡ length es = ap length here in
        rw count (
          pop_while-IsTrimmed (suc (length es)) (length es) g (omega arith) (record {
            few = omega arith;
            here = here ∙ sym all;
            bytes = bytes ∙ ap total (sym all);
            had_to = λ i more le. absurd (omega arith);
          }))
