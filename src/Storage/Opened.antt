-- ===== src/Storage/Opened.antt =====
-- common.rs, `shift_file_tail_and_update_offsets`: the gap in the file, and the offsets of the HDUs.
use rustfits.Prelude.{
  ℕ, ◌+◌, ◌-◌, ◌^◌, ◌≤◌, ◌<◌, ◌≡◌, refl, ap, ◌∙◌, max, map, Bool, true, false, ltb, leb, inl, inr,
  Bool-cases, [], ◌∷◌, if◌then◌else◌, List, length, ok, err, arith,
}
use rustfits.Storage.{Backend, is_remote}
use rustfits.Storage.Bytes.{byte_at, resize, length-resize, byte_at-resize}
use rustfits.Storage.World.{
  World, HduOffsets, layout_lock_poisoned, at, dirty_after, len-at, set_len-at,
}
use rustfits.Storage.Shift.{
  shift_loop, move_tail, shift_tail, update_offsets, shift_offsets, add_u64, saturating_add,
}
use rustfits.Storage.Forward.{move_tail-IsShifted}

-- The bytes before `after` stay, and those from there on stand `delta` further behind.
pub record IsOpened (after delta : ℕ) (xs ys : List ℕ) : Type 0 where
  pub len : length ys ≡ length xs + delta
  pub before : (i : ℕ) → i < after → byte_at ys i ≡ byte_at xs i
  pub tail :
      (j : ℕ) → after + j < length xs → byte_at ys (after + delta + j) ≡ byte_at xs (after + j)

-- What becomes of an HDU: both its offsets move, unless its header begins before `after`.
abbrev pub moved_hdu : (ℕ → ℕ) → ℕ → HduOffsets → HduOffsets
moved_hdu move after h = record {
  header_offset = if ltb h.header_offset after then h.header_offset else move h.header_offset;
  header_block_count = h.header_block_count;
  data_offset = if ltb h.header_offset after then h.data_offset else move h.data_offset;
}

abbrev pub with_hdus : World → (ℕ → ℕ) → ℕ → World
with_hdus w move after = record w { hdus = map (moved_hdu move after) w.hdus }

shift_offsets-moved_hdu :
    (move : ℕ → ℕ) (after : ℕ) (h : HduOffsets)
    → shift_offsets move after h ≡ moved_hdu move after h
shift_offsets-moved_hdu move after h = elim (Bool-cases (ltb h.header_offset after)) [
  | inl t ↦ let before : leb after h.header_offset ≡ false = ground arith in rw (t, before) refl
  | inr t ↦ let behind : leb after h.header_offset ≡ true = ground arith in rw (t, behind) refl
]

pub map-shift_offsets :
    (move : ℕ → ℕ) (after : ℕ) (hs : List HduOffsets)
    → map (shift_offsets move after) hs ≡ map (moved_hdu move after) hs
map-shift_offsets move after [] = refl
map-shift_offsets move after (h ∷ hs) =
    λ i. shift_offsets-moved_hdu move after h i ∷ map-shift_offsets move after hs i

module _ (w : World) (move : ℕ → ℕ) (after : ℕ) where
  abbrev updated : World
  updated = record w { hdus = map (shift_offsets move after) w.hdus }

  pub update_offsets-open :
      w.layout_poisoned ≡ false → update_offsets move after w ≡ (ok tt, with_hdus w move after)
  unfolding update_offsets
  update_offsets-open layout =
      ap (λ poisoned. if poisoned then (err layout_lock_poisoned, w) else (ok tt, updated)) layout
      ∙ ap (λ (hs : List HduOffsets). (ok tt, record w { hdus = hs }))
          (map-shift_offsets move after w.hdus)

  update_offsets-locked :
      w.layout_poisoned ≡ true → update_offsets move after w ≡ (err layout_lock_poisoned, w)
  unfolding update_offsets
  update_offsets-locked layout =
      ap (λ poisoned. if poisoned then (err layout_lock_poisoned, w) else (ok tt, updated)) layout

-- What `shift_tail` does where its loop ends well.
shift_tail-moved :
    (w : World) (b : Backend) (xs ys : List ℕ) (p q : ℕ) (d e : Bool) (chunk after delta : ℕ)
    → is_remote b ≡ false
    → after ≤ length xs
    → length xs + delta < 2 ^ 63
    → move_tail
        (shift_loop chunk after delta)
        (length xs - after)
        (at w b (resize (length xs + delta) xs) p (dirty_after b d))
      ≡ (ok tt, at w b ys q e)
    → shift_tail chunk after delta (at w b xs p d)
      ≡ update_offsets (λ (offset : ℕ). add_u64 offset delta) after (at w b ys q e)
unfolding shift_tail
shift_tail-moved w b xs ys p q d e chunk after delta local inside small ran =
    let size = length xs + delta in
    let new_len : max (saturating_add (length xs) delta) (add_u64 after delta) ≡ size =
      omega arith in
    rw (len-at w xs p d b local, new_len, set_len-at w xs p d b size local, ran) refl

shift_tail-bytes :
    (w : World) (b : Backend) (xs : List ℕ) (p : ℕ) (d : Bool) (chunk after delta : ℕ)
    → is_remote b ≡ false
    → 0 < chunk
    → after ≤ length xs
    → length xs + delta < 2 ^ 63
    → (ys : List ℕ) × (q : ℕ) × (e : Bool) × (shift_tail chunk after delta (at w b xs p d)
        ≡ update_offsets (λ (offset : ℕ). add_u64 offset delta) after (at w b ys q e))
      × IsOpened after delta xs ys
shift_tail-bytes w b xs p d chunk after delta local pos inside small =
    let size = length xs + delta in
    let wide = resize size xs in
    let wide_len = length-resize size xs in
    let (ys, q, e, ran, s) =
      move_tail-IsShifted w b local chunk after delta (length xs - after) wide p (dirty_after b d)
        pos (omega arith) (omega arith) in
    (
      ys,
      q,
      e,
      shift_tail-moved w b xs ys p q d e chunk after delta local inside small ran,
      record {
        len = s.len ∙ wide_len;
        before = λ i low. s.before i (omega arith) ∙ byte_at-resize size i xs (omega arith);
        tail = λ j low. s.inside j (omega arith) ∙ byte_at-resize size (after + j) xs (omega arith);
      },
    )

-- `shift_file_tail_and_update_offsets`, with chunks of any positive size and an offset inside the
-- file: the bytes before it stay, those from there on stand `delta` further behind, and the offsets
-- of the HDUs that begin there grow by `delta`. No operation of the store fails here, the layout
-- lock is not poisoned, and the new length is below 2^63.
pub shift_tail-IsOpened :
    (w : World) (b : Backend) (xs : List ℕ) (p : ℕ) (d : Bool) (chunk after delta : ℕ)
    → is_remote b ≡ false
    → w.layout_poisoned ≡ false
    → 0 < chunk
    → after ≤ length xs
    → length xs + delta < 2 ^ 63
    → (ys : List ℕ) × (q : ℕ) × (e : Bool) × (shift_tail chunk after delta (at w b xs p d)
        ≡ (ok tt, with_hdus (at w b ys q e) (λ (offset : ℕ). add_u64 offset delta) after))
      × IsOpened after delta xs ys
shift_tail-IsOpened w b xs p d chunk after delta local layout pos inside small =
    let (ys, q, e, ran, o) = shift_tail-bytes w b xs p d chunk after delta local pos inside small in
    (
      ys,
      q,
      e,
      ran ∙ update_offsets-open (at w b ys q e) (λ (offset : ℕ). add_u64 offset delta) after layout,
      o,
    )

-- `shift_file_tail_and_update_offsets` where a thread has panicked with the lock of the layout, all
-- else as it works: the call fails after the bytes have been moved, no offset of an HDU follows
-- them, and the taint flag is what it was.
pub shift_tail-poisoned :
    (w : World) (b : Backend) (xs : List ℕ) (p : ℕ) (d : Bool) (chunk after delta : ℕ)
    → is_remote b ≡ false
    → w.layout_poisoned ≡ true
    → 0 < chunk
    → after ≤ length xs
    → length xs + delta < 2 ^ 63
    → (ys : List ℕ) × (q : ℕ) × (e : Bool) × (shift_tail chunk after delta (at w b xs p d)
        ≡ (err layout_lock_poisoned, at w b ys q e))
      × IsOpened after delta xs ys
shift_tail-poisoned w b xs p d chunk after delta local layout pos inside small =
    let (ys, q, e, ran, o) = shift_tail-bytes w b xs p d chunk after delta local pos inside small in
    (
      ys,
      q,
      e,
      ran
          ∙ update_offsets-locked (at w b ys q e) (λ (offset : ℕ). add_u64 offset delta) after
              layout,
      o,
    )
