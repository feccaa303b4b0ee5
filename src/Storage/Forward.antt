-- ===== src/Storage/Forward.antt =====
-- common.rs, `shift_file_tail_and_update_offsets`: the tail of a file moved towards its end.
use rustfits.Prelude.{
  ℕ, zero, suc, ◌+◌, ◌-◌, ◌^◌, ◌≤◌, ◌<◌, ◌≡◌, refl, sym, ap, ◌∙◌, min, Bool, true, false, ltb, List,
  length, ok, arith,
}
use native.Mathlib.Decide.{dec_lt}
use rustfits.Storage.{Backend, is_remote}
use rustfits.Storage.Bytes.{byte_at}
use rustfits.Storage.World.{World, at, continue, or_taint, flush-at}
use rustfits.Storage.Shift.{shift_loop, move_chunk, move_tail, add_u64}
use rustfits.Storage.Move.{IsMoved, move_chunk-IsMoved}

-- The `count` bytes from `after` on stand `delta` further behind, and nothing else is changed.
abbrev pub IsShifted : ℕ → ℕ → ℕ → List ℕ → List ℕ → Type 0
IsShifted after delta count xs ys = IsMoved after (after + delta) count xs ys

module _ (w : World) (b : Backend) (local : is_remote b ≡ false) (chunk after delta : ℕ) where
  -- A last chunk, and then what is before it.
  IsShifted-chunk :
      (n left count : ℕ) (xs ys zs : List ℕ)
      → left + n ≡ count
      → IsMoved (after + left) (after + left + delta) n xs ys
      → IsShifted after delta left ys zs
      → IsShifted after delta count xs zs
  IsShifted-chunk n left count xs ys zs whole m s = record {
    len = s.len ∙ m.len;
    before = λ i low. s.before i low ∙ m.before i (omega arith);
    inside = λ j low. elim (dec_lt j left) [
      | yes first ↦ s.inside j first ∙ m.before (after + j) (omega arith)
      | no last ↦
          let at_src : after + left + (j - left) ≡ after + j = omega arith in
          let at_dst : after + left + delta + (j - left) ≡ after + delta + j = omega arith in
          s.behind (after + delta + j) (omega arith)
          ∙ sym (ap (byte_at ys) at_dst)
          ∙ m.inside (j - left) (omega arith)
          ∙ ap (byte_at xs) at_src
    ];
    behind = λ i high. s.behind i (omega arith) ∙ m.behind i (omega arith);
  }

  IsShifted-none : (xs : List ℕ) → IsShifted after delta 0 xs xs
  IsShifted-none xs = record {
    len = refl;
    before = λ i low. refl;
    inside = λ j low. absurd (omega arith);
    behind = λ i high. refl;
  }

  pub shift_loop-IsShifted :
      (fuel count : ℕ) (xs : List ℕ) (p : ℕ) (d : Bool)
      → 0 < chunk
      → count ≤ fuel
      → after + delta + count ≤ length xs
      → length xs < 2 ^ 64
      → (ys : List ℕ) × (q : ℕ) × (e : Bool) × (shift_loop chunk after delta fuel count
            (at w b xs p d)
          ≡ (ok tt, at w b ys q e))
        × IsShifted after delta count xs ys
  unfolding shift_loop
  shift_loop-IsShifted zero zero xs p d pos enough inside small =
      (xs, p, d, refl, IsShifted-none xs)
  shift_loop-IsShifted zero (suc k) xs p d pos enough inside small = absurd (omega arith)
  shift_loop-IsShifted (suc fuel) zero xs p d pos enough inside small =
      (xs, p, d, refl, IsShifted-none xs)
  shift_loop-IsShifted (suc fuel) (suc k) xs p d pos enough inside small =
      let n = min (suc k) chunk in
      let left = suc k - n in
      let src : after + suc k - n ≡ after + left = omega arith in
      let dst : add_u64 (after + left) delta ≡ after + left + delta = omega arith in
      let (ys, q, d', ran, m) =
        move_chunk-IsMoved w b local (after + left) (after + left + delta) n xs p d (omega arith)
          (omega arith) in
      let len = m.len in
      let (zs, q', e, ran', s) =
        shift_loop-IsShifted fuel left ys q d' pos (omega arith) (omega arith) (omega arith) in
      let go_on : ltb 0 (suc k) ≡ true = ground arith in
      let start = at w b xs p d in
      let turn =
        ap (λ (s : ℕ). move_chunk s (add_u64 s delta) n start) src
        ∙ ap (λ (t : ℕ). move_chunk (after + left) t n start) dst
        ∙ ran in
      (
        zs,
        q',
        e,
        rw go_on (ap (λ r. continue r (λ _. shift_loop chunk after delta fuel left)) turn ∙ ran'),
        IsShifted-chunk n left (suc k) xs ys zs (omega arith) m s,
      )

  pub move_tail-IsShifted :
      (count : ℕ) (xs : List ℕ) (p : ℕ) (d : Bool)
      → 0 < chunk
      → after + delta + count ≤ length xs
      → length xs < 2 ^ 64
      → (ys : List ℕ) × (q : ℕ) × (e : Bool) × (move_tail
            (shift_loop chunk after delta)
            count
            (at w b xs p d)
          ≡ (ok tt, at w b ys q e))
        × IsShifted after delta count xs ys
  unfolding move_tail or_taint
  move_tail-IsShifted zero xs p d pos inside small = (xs, p, d, refl, IsShifted-none xs)
  move_tail-IsShifted (suc k) xs p d pos inside small =
      let (ys, q, e, ran, s) =
        shift_loop-IsShifted (suc k) (suc k) xs p d pos (omega arith) inside small in
      let go_on : ltb 0 (suc k) ≡ true = ground arith in
      (ys, q, e, rw (go_on, ran, flush-at w ys q e b local) refl, s)
