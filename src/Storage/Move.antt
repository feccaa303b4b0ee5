-- ===== src/Storage/Move.antt =====
-- common.rs: one chunk that is read and written elsewhere.
use rustfits.Prelude.{
  ℕ, ◌+◌, ◌≤◌, ◌<◌, ◌≡◌, refl, ◌∙◌, Bool, false, List, length, take, drop, length-take, length-drop,
  get_or-take, get_or-drop, ok, arith,
}
use rustfits.Storage.{Backend, is_remote}
use rustfits.Storage.Bytes.{
  overwrite, byte_at, length-overwrite, byte_at-overwrite_before, byte_at-overwrite_in,
  byte_at-overwrite_after,
}
use rustfits.Storage.World.{World, at, dirty_written, or_taint, seek-at, read-at, write-at}
use rustfits.Storage.Shift.{move_chunk, copy_chunk}

-- `n` bytes from `src` on stand at `dst` as well, and nothing else is changed.
pub record IsMoved (src dst n : ℕ) (xs ys : List ℕ) : Type 0 where
  pub len : length ys ≡ length xs
  pub before : (i : ℕ) → i < dst → byte_at ys i ≡ byte_at xs i
  pub inside : (j : ℕ) → j < n → byte_at ys (dst + j) ≡ byte_at xs (src + j)
  pub behind : (i : ℕ) → dst + n ≤ i → byte_at ys i ≡ byte_at xs i

abbrev moved : ℕ → ℕ → ℕ → List ℕ → List ℕ
moved src dst n xs = overwrite xs dst (take n (drop src xs))

moved-IsMoved :
    (src dst n : ℕ) (xs : List ℕ)
    → src + n ≤ length xs
    → dst + n ≤ length xs
    → IsMoved src dst n xs (moved src dst n xs)
moved-IsMoved src dst n xs h h' =
    let buf = take n (drop src xs) in
    let count : length buf ≡ n = omega (arith, length-take n (drop src xs), length-drop src xs) in
    record {
      len = length-overwrite xs dst buf (omega arith);
      before = λ i low. byte_at-overwrite_before xs dst buf i low;
      inside = λ j low.
          byte_at-overwrite_in xs dst buf j (omega arith)
          ∙ get_or-take 0 n j (drop src xs) low
          ∙ get_or-drop 0 src j xs;
      behind = λ i high. byte_at-overwrite_after xs dst buf i (omega arith);
    }

module _ (w : World) (b : Backend) (local : is_remote b ≡ false) where
  -- Where the store does not fail, a chunk is moved.
  pub move_chunk-IsMoved :
      (src dst n : ℕ) (xs : List ℕ) (p : ℕ) (d : Bool)
      → src + n ≤ length xs
      → dst + n ≤ length xs
      → (ys : List ℕ) × (q : ℕ) × (e : Bool) × (move_chunk src dst n (at w b xs p d)
          ≡ (ok tt, at w b ys q e))
        × IsMoved src dst n xs ys
  unfolding move_chunk or_taint
  move_chunk-IsMoved src dst n xs p d h h' = (
    moved src dst n xs,
    dst + length (take n (drop src xs)),
    dirty_written b (take n (drop src xs)) d,
    rw
        (
          seek-at w xs p d b src local,
          read-at w xs src d b n local h,
          seek-at w xs (src + n) d b dst local,
          write-at w xs dst d b (take n (drop src xs)) local,
        )
        refl,
    moved-IsMoved src dst n xs h h',
  )

  pub copy_chunk-IsMoved :
      (src dst n : ℕ) (xs : List ℕ) (p : ℕ) (d : Bool)
      → src + n ≤ length xs
      → dst + n ≤ length xs
      → (ys : List ℕ) × (q : ℕ) × (e : Bool) × (copy_chunk src dst n (at w b xs p d)
          ≡ (ok tt, at w b ys q e))
        × IsMoved src dst n xs ys
  unfolding copy_chunk or_taint
  copy_chunk-IsMoved src dst n xs p d h h' = (
    moved src dst n xs,
    dst + length (take n (drop src xs)),
    dirty_written b (take n (drop src xs)) d,
    rw
        (
          seek-at w xs p d b src local,
          read-at w xs src d b n local h,
          seek-at w xs (src + n) d b dst local,
          write-at w xs dst d b (take n (drop src xs)) local,
        )
        refl,
    moved-IsMoved src dst n xs h h',
  )
