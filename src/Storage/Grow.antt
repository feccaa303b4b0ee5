-- ===== src/Storage/Grow.antt =====
-- common.rs, `grow_file_to_at_least`: room for the data of an HDU.
use rustfits.Prelude.{
  ℕ, suc, ◌+◌, ◌-◌, ◌^◌, ◌≤◌, ◌<◌, ◌≡◌, refl, ap, ◌∙◌, map, Bool, true, false, leb, ◌==◌,
  if◌then◌else◌, Option, none, some, List, length, ok, err, arith,
}
use native.Mathlib.Decide.{dec_lt}
use rustfits.Storage.{len, Backend, is_remote}
use rustfits.Storage.Bytes.{byte_at, resize, length-resize, byte_at-resize}
use rustfits.Storage.World.{
  HduOffsets, World, layout_lock_poisoned, at, continue, ◌>=>◌, on_file, dirty_after, or_taint,
  len-at, set_len-at,
}
use rustfits.Storage.Shift.{
  shift_offsets, add_u64, chunk_size, next_hdu_start, find_next_hdu, grow_to, grow_file_to_at_least,
  shift_file_tail_and_update_offsets, round_up_to_block,
}
use rustfits.Storage.Opened.{moved_hdu, map-shift_offsets, shift_tail-IsOpened}
use rustfits.Storage.Next.{
  HasRoom, IsInside, IsNext, HasRoom-less, HasRoom-shift, next_hdu_start-IsNext,
}

-- `ys` and `hs` have room up to `end`, and the bytes in front of the next HDU are those of `xs`.
pub record IsGrown (data_offset end : ℕ) (xs ys : List ℕ) (before hs : List HduOffsets)
    : Type 0 where
  pub room : HasRoom data_offset end hs
  pub long : end ≤ length ys
  pub kept :
      (i : ℕ) → i < length xs → HasRoom data_offset (suc i) before → byte_at ys i ≡ byte_at xs i

module _ (w : World) (b : Backend) (xs : List ℕ) (p : ℕ) (d : Bool) (data_offset end : ℕ)
    (local : is_remote b ≡ false) (layout : w.layout_poisoned ≡ false)
    (small : length xs + end < 2 ^ 63) where
  grow_to-IsGrown :
      (o : Option ℕ)
      → IsInside (length xs) w.hdus
      → IsNext data_offset (length xs) w.hdus o
      → (ys : List ℕ) × (q : ℕ) × (e : Bool) × (hs : List HduOffsets) × (grow_to end
            (length xs)
            o
            (at w b xs p d)
          ≡ (ok tt, record (at w b ys q e) { hdus = hs }))
        × IsGrown data_offset end xs ys w.hdus hs
  unfolding grow_to or_taint shift_file_tail_and_update_offsets
  grow_to-IsGrown none inside all = elim (dec_lt (length xs) end) [
    | yes short ↦
        let t : leb end (length xs) ≡ false = ground arith in
        let wide = length-resize end xs in
        (
          resize end xs,
          p,
          dirty_after b d,
          w.hdus,
          rw (t, set_len-at w xs p d b end local) refl,
          record {
            room = all end;
            long = omega arith;
            kept = λ i low free. byte_at-resize end i xs (omega arith);
          },
        )
    | no long ↦
        let t : leb end (length xs) ≡ true = ground arith in
        (
          xs,
          p,
          d,
          w.hdus,
          rw t refl,
          record { room = all end; long = omega arith; kept = λ i low free. refl },
        )
  ]
  grow_to-IsGrown (some next) inside (far, here, room, nearest) = elim (dec_lt next end) [
    | yes short ↦
        let delta = end - next in
        let t : leb end next ≡ false = ground arith in
        let t' : (end - next == 0) ≡ false = ground arith in
        let (ys, q, e, ran, o) =
          shift_tail-IsOpened w b xs p d chunk_size next delta local layout (omega arith) here
            (omega arith) in
        let grown = o.len in
        (
          ys,
          q,
          e,
          map (moved_hdu (λ (offset : ℕ). add_u64 offset delta) next) w.hdus,
          rw (t, t') ran,
          record {
            room = rw (← map-shift_offsets (λ (offset : ℕ). add_u64 offset delta) next w.hdus) (
                HasRoom-less data_offset (next + delta) end
                  (map (shift_offsets (λ (offset : ℕ). add_u64 offset delta) next) w.hdus)
                  (omega arith)
                  (HasRoom-shift data_offset next delta (length xs) w.hdus (omega arith) far inside
                    room));
            long = omega arith;
            kept = λ i low free. o.before i (nearest (suc i) free);
          },
        )
    | no long ↦
        let t : leb end next ≡ true = ground arith in
        (
          xs,
          p,
          d,
          w.hdus,
          rw t refl,
          record {
            room = HasRoom-less data_offset next end w.hdus (omega arith) room;
            long = omega arith;
            kept = λ i low free. refl;
          },
        )
  ]

find_next_hdu-open :
    (w : World) (data_offset : ℕ)
    → w.layout_poisoned ≡ false
    → find_next_hdu data_offset w ≡ (ok (next_hdu_start data_offset w.hdus), w)
find_next_hdu-open w data_offset layout =
    ap
      (λ poisoned.
        if poisoned
        then (err layout_lock_poisoned, w)
        else (ok (next_hdu_start data_offset w.hdus), w))
      layout

-- `grow_file_to_at_least` on a store whose operations do not fail, with all HDUs inside the file, a
-- layout whose lock is not poisoned, and sizes below 2^63: the call succeeds; up to the end of the
-- blocks that hold the bytes asked for, the file is there and no other HDU begins; and the bytes in
-- front of the next HDU are kept.
pub grow_file_to_at_least-IsGrown :
    (w : World) (b : Backend) (xs : List ℕ) (p : ℕ) (d : Bool) (data_offset min_bytes : ℕ)
    → is_remote b ≡ false
    → w.layout_poisoned ≡ false
    → IsInside (length xs) w.hdus
    → length xs + (data_offset + round_up_to_block min_bytes) < 2 ^ 63
    → (ys : List ℕ) × (q : ℕ) × (e : Bool) × (hs : List HduOffsets) × (grow_file_to_at_least
          data_offset min_bytes
          (at w b xs p d)
        ≡ (ok tt, record (at w b ys q e) { hdus = hs }))
      × IsGrown data_offset (data_offset + round_up_to_block min_bytes) xs ys w.hdus hs
unfolding grow_file_to_at_least
grow_file_to_at_least-IsGrown w b xs p d data_offset min_bytes local layout inside small =
    let next = next_hdu_start data_offset w.hdus in
    let end = data_offset + round_up_to_block min_bytes in
    let in_word : add_u64 data_offset (round_up_to_block min_bytes) ≡ end = omega arith in
    let (ys, q, e, hs, ran, g) =
      grow_to-IsGrown w b xs p d data_offset end local layout small next inside
        (next_hdu_start-IsNext data_offset (length xs) w.hdus inside) in
    (
      ys,
      q,
      e,
      hs,
      ap
            (λ r. continue r (λ next. on_file len >=> λ file_len.
              grow_to (add_u64 data_offset (round_up_to_block min_bytes)) file_len next))
            (find_next_hdu-open (at w b xs p d) data_offset layout)
          ∙ ap
              (λ r. continue r (λ file_len.
                grow_to (add_u64 data_offset (round_up_to_block min_bytes)) file_len next))
              (len-at w xs p d b local)
          ∙ ap (λ (t : ℕ). grow_to t (length xs) next (at w b xs p d)) in_word
          ∙ ran,
      g,
    )
