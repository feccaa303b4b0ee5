-- ===== src/Storage/Zero.antt =====
-- common.rs, `zero_fill_range`: a range of the file overwritten with zeros.
use rustfits.Prelude.{
  ℕ, zero, suc, ◌+◌, ◌-◌, ◌≤◌, ◌<◌, ◌≡◌, refl, sym, ap, ◌∙◌, min, Bool, true, false, ltb, List,
  length, replicate, length-replicate, get_or-replicate, ok, arith,
}
use native.Mathlib.Decide.{dec_lt}
use rustfits.Storage.{Backend, is_remote}
use rustfits.Storage.Bytes.{
  overwrite, byte_at, length-overwrite, byte_at-overwrite_before, byte_at-overwrite_in,
  byte_at-overwrite_after,
}
use rustfits.Storage.World.{
  World, at, dirty_written, or_taint, held-at, seek-at, write-at, flush-at,
}
use rustfits.Storage.Shift.{zero_loop, zero_fill}

-- `count` bytes from `start` on are zero, and the others are kept.
pub record IsZeroed (start count : ℕ) (xs ys : List ℕ) : Type 0 where
  pub len : length ys ≡ length xs
  pub before : (i : ℕ) → i < start → byte_at ys i ≡ byte_at xs i
  pub inside : (j : ℕ) → j < count → byte_at ys (start + j) ≡ 0
  pub behind : (i : ℕ) → start + count ≤ i → byte_at ys i ≡ byte_at xs i

IsZeroed-none : (start : ℕ) (xs : List ℕ) → IsZeroed start 0 xs xs
IsZeroed-none start xs = record {
  len = refl;
  before = λ i low. refl;
  inside = λ j low. absurd (omega arith);
  behind = λ i high. refl;
}

overwrite-IsZeroed :
    (start n : ℕ) (xs : List ℕ)
    → start + n ≤ length xs
    → IsZeroed start n xs (overwrite xs start (replicate n 0))
overwrite-IsZeroed start n xs h =
    let count = length-replicate {A = ℕ} n 0 in
    record {
      len = length-overwrite xs start (replicate n 0) (omega arith);
      before = λ i low. byte_at-overwrite_before xs start (replicate n 0) i low;
      inside = λ j low.
          byte_at-overwrite_in xs start (replicate n 0) j (omega arith) ∙ get_or-replicate 0 n j;
      behind = λ i high. byte_at-overwrite_after xs start (replicate n 0) i (omega arith);
    }

-- A range, and the one behind it.
IsZeroed-append :
    (start n next left count : ℕ) (xs ys zs : List ℕ)
    → next ≡ start + n
    → n + left ≡ count
    → IsZeroed start n xs ys
    → IsZeroed next left ys zs
    → IsZeroed start count xs zs
IsZeroed-append start n next left count xs ys zs from whole first rest = record {
  len = rest.len ∙ first.len;
  before = λ i low. rest.before i (omega arith) ∙ first.before i low;
  inside = λ j low. elim (dec_lt j n) [
    | yes h ↦ rest.before (start + j) (omega arith) ∙ first.inside j h
    | no h ↦
        let e : next + (j - n) ≡ start + j = omega arith in
        sym (ap (byte_at zs) e) ∙ rest.inside (j - n) (omega arith)
  ];
  behind = λ i high. rest.behind i (omega arith) ∙ first.behind i (omega arith);
}

module _ (w : World) (b : Backend) (local : is_remote b ≡ false) (chunk : ℕ) where
  zero_loop-IsZeroed :
      (fuel count : ℕ) (xs : List ℕ) (p : ℕ) (d : Bool)
      → 0 < chunk
      → count ≤ fuel
      → p + count ≤ length xs
      → (ys : List ℕ) × (q : ℕ) × (e : Bool) × (zero_loop chunk fuel count (at w b xs p d)
          ≡ (ok tt, at w b ys q e))
        × IsZeroed p count xs ys
  unfolding zero_loop or_taint
  zero_loop-IsZeroed zero zero xs p d pos enough inside = (xs, p, d, refl, IsZeroed-none p xs)
  zero_loop-IsZeroed zero (suc k) xs p d pos enough inside = absurd (omega arith)
  zero_loop-IsZeroed (suc fuel) zero xs p d pos enough inside = (xs, p, d, refl, IsZeroed-none p xs)
  zero_loop-IsZeroed (suc fuel) (suc k) xs p d pos enough inside =
      let n = min (suc k) chunk in
      let buf = replicate {A = ℕ} n 0 in
      let size = length-replicate {A = ℕ} n 0 in
      let first = overwrite-IsZeroed p n xs (omega arith) in
      let len = first.len in
      let (zs, q, e, ran, rest) =
        zero_loop-IsZeroed fuel (suc k - n) (overwrite xs p buf) (p + length buf)
          (dirty_written b buf d) pos (omega arith) (omega arith) in
      let go_on : ltb 0 (suc k) ≡ true = ground arith in
      (
        zs,
        q,
        e,
        rw (go_on, write-at w xs p d b buf local, ran) refl,
        IsZeroed-append p n (p + length buf) (suc k - n) (suc k) xs (overwrite xs p buf) zs
            (omega arith) (omega arith) first rest,
      )

  pub zero_fill-IsZeroed :
      (start count : ℕ) (xs : List ℕ) (p : ℕ) (d : Bool)
      → 0 < chunk
      → start + count ≤ length xs
      → (ys : List ℕ) × (q : ℕ) × (e : Bool) × (zero_fill chunk start count (at w b xs p d)
          ≡ (ok tt, at w b ys q e))
        × IsZeroed start count xs ys
  unfolding zero_fill or_taint
  zero_fill-IsZeroed start count xs p d pos inside =
      let (ys, q, e, ran, z) = zero_loop-IsZeroed count count xs start d pos (omega arith) inside in
      (
        ys,
        q,
        e,
        rw (held-at w xs p d b, seek-at w xs p d b start local, ran, flush-at w ys q e b local)
            refl,
        z,
      )
