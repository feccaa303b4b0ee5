-- ===== src/Storage/Remove.antt =====
-- common.rs, `shift_file_tail_backward_and_update_offsets`: the bytes in front of a tail removed.
use rustfits.Prelude.{
  ℕ, ◌+◌, ◌-◌, ◌^◌, ◌≤◌, ◌<◌, ◌≡◌, sym, ap, ◌∙◌, Bool, false, List, ◌++◌, length, take, drop,
  length-append, length-take, length-drop, get_or-append_left, get_or-append_right, get_or-take,
  get_or-drop, get_or_ext, ok, arith,
}
use native.Mathlib.Decide.{dec_lt}
use rustfits.Storage.{Backend, is_remote}
use rustfits.Storage.Bytes.{byte_at, resize, length-resize, byte_at-resize}
use rustfits.Storage.World.{World, at, dirty_after, or_taint, len-at, set_len-at}
use rustfits.Storage.Shift.{backward_loop, move_tail, shift_tail_backward, sub_u64}
use rustfits.Storage.Move.{IsMoved}
use rustfits.Storage.Opened.{with_hdus, update_offsets-open}
use rustfits.Storage.Backward.{move_tail-IsMoved}

abbrev pub remove : ℕ → ℕ → List ℕ → List ℕ
remove after delta xs = take (after - delta) xs ++ drop after xs

module _ (after delta : ℕ) (xs : List ℕ) (down : delta ≤ after) (inside : after ≤ length xs) where
  length-remove : length (remove after delta xs) ≡ length xs - delta
  length-remove = omega (
    arith,
    length-append (take (after - delta) xs) (drop after xs),
    length-take (after - delta) xs,
    length-drop after xs,
  )

  byte_at-remove_before :
      (i : ℕ) → i < after - delta → byte_at (remove after delta xs) i ≡ byte_at xs i
  byte_at-remove_before i h =
      get_or-append_left 0 (take (after - delta) xs) (drop after xs) i
        (omega (arith, length-take (after - delta) xs))
      ∙ get_or-take 0 (after - delta) i xs h

  byte_at-remove_tail :
      (j : ℕ) → byte_at (remove after delta xs) (after - delta + j) ≡ byte_at xs (after + j)
  byte_at-remove_tail j =
      let front = length-take (after - delta) xs in
      let e : after - delta + j - length (take (after - delta) xs) ≡ j = omega arith in
      get_or-append_right 0 (take (after - delta) xs) (drop after xs) (after - delta + j)
        (omega arith)
      ∙ ap (byte_at (drop after xs)) e
      ∙ get_or-drop 0 after j xs

  -- A tail that is moved towards the start, and the file cut.
  IsMoved-remove :
      (ys : List ℕ)
      → IsMoved after (after - delta) (length xs - after) xs ys
      → resize (length xs - delta) ys ≡ remove after delta xs
  IsMoved-remove ys m =
      let size = length xs - delta in
      let cut = length-resize size ys in
      get_or_ext 0 (resize size ys) (remove after delta xs) (omega (arith, length-remove)) (λ i low.
        byte_at-resize size i ys (omega arith) ∙ elim (dec_lt i (after - delta)) [
          | yes front ↦ m.before i front ∙ sym (byte_at-remove_before i front)
          | no front ↦
              let j = i - (after - delta) in
              let e : after - delta + j ≡ i = omega arith in
              sym (ap (byte_at ys) e)
              ∙ m.inside j (omega arith)
              ∙ sym (byte_at-remove_tail j)
              ∙ ap (byte_at (remove after delta xs)) e
        ])

shift_tail_backward-moved :
    (w : World) (b : Backend) (xs ys : List ℕ) (p q : ℕ) (d e : Bool) (chunk after delta : ℕ)
    → is_remote b ≡ false
    → w.layout_poisoned ≡ false
    → delta ≤ length xs
    → length xs < 2 ^ 64
    → move_tail
        (λ (fuel : ℕ). backward_loop chunk after delta fuel 0)
        (length xs - after)
        (at w b xs p d)
      ≡ (ok tt, at w b ys q e)
    → shift_tail_backward chunk after delta (at w b xs p d) ≡ (
      ok tt,
      with_hdus
          (at w b (resize (length xs - delta) ys) q (dirty_after b e))
          (λ (offset : ℕ). offset - delta)
          after,
    )
unfolding shift_tail_backward or_taint
shift_tail_backward-moved w b xs ys p q d e chunk after delta local layout less small ran =
    let size = length xs - delta in
    let new_len : sub_u64 (length xs) delta ≡ size = omega arith in
    rw (len-at w xs p d b local, ran, new_len, set_len-at w ys q e b size local)
      (update_offsets-open (at w b (resize size ys) q (dirty_after b e))
        (λ (offset : ℕ). offset - delta) after layout)

-- `shift_file_tail_backward_and_update_offsets`, with chunks of any positive size, an offset inside
-- a file shorter than 2^64 bytes, and a store whose operations do not fail: the `delta` bytes in
-- front of the offset are removed, and the HDUs from there on are moved back by `delta`. The layout
-- lock is not poisoned.
pub shift_tail_backward-remove :
    (w : World) (b : Backend) (xs : List ℕ) (p : ℕ) (d : Bool) (chunk after delta : ℕ)
    → is_remote b ≡ false
    → w.layout_poisoned ≡ false
    → 0 < chunk
    → delta ≤ after
    → after ≤ length xs
    → length xs < 2 ^ 64
    → (q : ℕ) × (e : Bool) × (shift_tail_backward chunk after delta (at w b xs p d) ≡ (
      ok tt,
      with_hdus (at w b (remove after delta xs) q e) (λ (offset : ℕ). offset - delta) after,
    ))
shift_tail_backward-remove w b xs p d chunk after delta local layout pos down inside small =
    let (ys, q, e, ran, m) =
      move_tail-IsMoved w b local chunk after delta (length xs - after) xs p d pos down
        (omega arith) in
    (
      q,
      dirty_after b e,
      shift_tail_backward-moved w b xs ys p q d e chunk after delta local layout (omega arith) small
            ran
          ∙ ap
              (λ (bytes : List ℕ). (
                ok tt,
                with_hdus (at w b bytes q (dirty_after b e)) (λ (offset : ℕ). offset - delta) after,
              ))
              (IsMoved-remove after delta xs down inside ys m),
    )
