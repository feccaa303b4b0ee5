-- ===== src/Storage/Insert.antt =====
-- common.rs: a gap opened by `shift_file_tail_and_update_offsets` and cleared by `zero_fill_range`,
-- as an image grows in front of another HDU.
use rustfits.Prelude.{
  ℕ, ◌+◌, ◌-◌, ◌^◌, ◌≤◌, ◌<◌, ◌≡◌, sym, ap, ◌∙◌, Bool, false, List, ◌++◌, length, take, drop,
  replicate, length-append, length-take, length-drop, length-replicate, get_or-append_left,
  get_or-append_right, get_or-take, get_or-drop, get_or-replicate, get_or_ext, ok, arith,
}
use native.Mathlib.Decide.{dec_lt}
use rustfits.Storage.{Backend, is_remote}
use rustfits.Storage.Bytes.{byte_at}
use rustfits.Storage.World.{World, at, continue, ◌>>>◌}
use rustfits.Storage.Shift.{shift_tail, zero_fill, add_u64}
use rustfits.Storage.Opened.{IsOpened, with_hdus, shift_tail-IsOpened}
use rustfits.Storage.Zero.{IsZeroed, zero_fill-IsZeroed}

abbrev pub insert_zeros : ℕ → ℕ → List ℕ → List ℕ
insert_zeros after delta xs = take after xs ++ (replicate delta 0 ++ drop after xs)

module _ (after delta : ℕ) (xs : List ℕ) (inside : after ≤ length xs) where
  length-insert_zeros : length (insert_zeros after delta xs) ≡ length xs + delta
  length-insert_zeros = omega (
    arith,
    length-append (take after xs) (replicate delta 0 ++ drop after xs),
    length-append (replicate delta 0) (drop after xs),
    length-take after xs,
    length-drop after xs,
    length-replicate {A = ℕ} delta 0,
  )

  byte_at-insert_before :
      (i : ℕ) → i < after → byte_at (insert_zeros after delta xs) i ≡ byte_at xs i
  byte_at-insert_before i h =
      get_or-append_left 0 (take after xs) (replicate delta 0 ++ drop after xs) i
        (omega (arith, length-take after xs))
      ∙ get_or-take 0 after i xs h

  byte_at-insert_behind :
      (j : ℕ)
      → byte_at (insert_zeros after delta xs) (after + j)
        ≡ byte_at (replicate delta 0 ++ drop after xs) j
  byte_at-insert_behind j =
      let front = length-take after xs in
      let e : after + j - length (take after xs) ≡ j = omega arith in
      get_or-append_right 0 (take after xs) (replicate delta 0 ++ drop after xs) (after + j)
        (omega arith)
      ∙ ap (byte_at (replicate delta 0 ++ drop after xs)) e

  byte_at-insert_gap : (j : ℕ) → j < delta → byte_at (insert_zeros after delta xs) (after + j) ≡ 0
  byte_at-insert_gap j h =
      byte_at-insert_behind j
      ∙ get_or-append_left 0 (replicate delta 0) (drop after xs) j
          (omega (arith, length-replicate {A = ℕ} delta 0))
      ∙ get_or-replicate 0 delta j

  byte_at-insert_tail :
      (j : ℕ) → byte_at (insert_zeros after delta xs) (after + (delta + j)) ≡ byte_at xs (after + j)
  byte_at-insert_tail j =
      let size = length-replicate {A = ℕ} delta 0 in
      let e : delta + j - length (replicate delta 0) ≡ j = omega arith in
      byte_at-insert_behind (delta + j)
      ∙ get_or-append_right 0 (replicate delta 0) (drop after xs) (delta + j) (omega arith)
      ∙ ap (byte_at (drop after xs)) e
      ∙ get_or-drop 0 after j xs

  -- A gap that is opened and then cleared is an insertion.
  IsZeroed-insert_zeros :
      (ys zs : List ℕ)
      → IsOpened after delta xs ys
      → IsZeroed after delta ys zs
      → zs ≡ insert_zeros after delta xs
  IsZeroed-insert_zeros ys zs o z =
      let size = z.len in
      let grown = o.len in
      get_or_ext 0 zs (insert_zeros after delta xs) (omega (arith, length-insert_zeros)) (λ i low.
        elim (dec_lt i after) [
          | yes front ↦ z.before i front ∙ o.before i front ∙ sym (byte_at-insert_before i front)
          | no front ↦ elim (dec_lt i (after + delta)) [
            | yes gap ↦
                let e : after + (i - after) ≡ i = omega arith in
                sym (ap (byte_at zs) e)
                ∙ z.inside (i - after) (omega arith)
                ∙ sym (byte_at-insert_gap (i - after) (omega arith))
                ∙ ap (byte_at (insert_zeros after delta xs)) e
            | no gap ↦
                let j = i - (after + delta) in
                let e : after + delta + j ≡ i = omega arith in
                let e' : after + (delta + j) ≡ i = omega arith in
                z.behind i (omega arith)
                ∙ sym (ap (byte_at ys) e)
                ∙ o.tail j (omega arith)
                ∙ sym (byte_at-insert_tail j)
                ∙ ap (byte_at (insert_zeros after delta xs)) e'
          ]
        ])

-- `shift_file_tail_and_update_offsets` and then `zero_fill_range` at the same place, with chunks of
-- any positive size, on a file whose operations do not fail: `delta` zeros are inserted at `after`,
-- an offset inside the file, and the HDUs from there on are moved by `delta`. The layout lock is not
-- poisoned, and the new length is below 2^63.
pub shift_tail-zero_fill :
    (w : World) (b : Backend) (xs : List ℕ) (p : ℕ) (d : Bool) (chunk after delta : ℕ)
    → is_remote b ≡ false
    → w.layout_poisoned ≡ false
    → 0 < chunk
    → after ≤ length xs
    → length xs + delta < 2 ^ 63
    → (q : ℕ) × (e : Bool) × ((shift_tail chunk after delta >>> zero_fill chunk after delta)
          (at w b xs p d)
        ≡ (
          ok tt,
          with_hdus
              (at w b (insert_zeros after delta xs) q e)
              (λ (offset : ℕ). add_u64 offset delta)
              after,
        ))
shift_tail-zero_fill w b xs p d chunk after delta local layout pos inside small =
    let move = λ (offset : ℕ). add_u64 offset delta in
    let (ys, q, e, ran, o) =
      shift_tail-IsOpened w b xs p d chunk after delta local layout pos inside small in
    let grown = o.len in
    let (zs, q', e', ran', z) =
      zero_fill-IsZeroed (with_hdus w move after) b local chunk after delta ys q e pos
        (omega arith) in
    (
      q',
      e',
      ap (λ r. continue r (λ _. zero_fill chunk after delta)) ran
          ∙ ran'
          ∙ ap (λ (bytes : List ℕ). (ok tt, with_hdus (at w b bytes q' e') move after))
              (IsZeroed-insert_zeros after delta xs inside ys zs o z),
    )
