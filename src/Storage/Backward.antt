-- ===== src/Storage/Backward.antt =====
-- common.rs: copies towards the start of the file, the first chunk first; the tail that
-- `shift_file_tail_backward_and_update_offsets` moves, and `stream_copy_in_file`.
use rustfits.Prelude.{
  ℕ, zero, suc, ◌+◌, ◌-◌, ◌^◌, ◌≤◌, ◌<◌, ◌≡◌, refl, sym, ap, ◌∙◌, min, Bool, true, false, ltb, List,
  length, ok, arith,
}
use native.Mathlib.Decide.{dec_lt}
use rustfits.Storage.{Backend, is_remote}
use rustfits.Storage.Bytes.{byte_at}
use rustfits.Storage.World.{World, at, continue, or_taint, flush-at}
use rustfits.Storage.Shift.{
  backward_loop, move_tail, copy_chunk, copy_loop, stream_copy_in_file, add_u64,
}
use rustfits.Storage.Move.{IsMoved, move_chunk-IsMoved, copy_chunk-IsMoved}

IsMoved-none : (src dst : ℕ) (xs : List ℕ) → IsMoved src dst 0 xs xs
IsMoved-none src dst xs = record {
  len = refl;
  before = λ i low. refl;
  inside = λ j low. absurd (omega arith);
  behind = λ i high. refl;
}

-- A chunk, and then what is behind it, towards the start of the file.
IsMoved-append :
    (src dst n left count next_src next_dst : ℕ) (xs ys zs : List ℕ)
    → dst ≤ src
    → n + left ≡ count
    → next_src ≡ src + n
    → next_dst ≡ dst + n
    → IsMoved src dst n xs ys
    → IsMoved next_src next_dst left ys zs
    → IsMoved src dst count xs zs
IsMoved-append src dst n left count next_src next_dst xs ys zs down whole e_src e_dst first rest =
    record {
      len = rest.len ∙ first.len;
      before = λ i low. rest.before i (omega arith) ∙ first.before i low;
      inside = λ j low. elim (dec_lt j n) [
        | yes h ↦ rest.before (dst + j) (omega arith) ∙ first.inside j h
        | no h ↦
            let at_src : next_src + (j - n) ≡ src + j = omega arith in
            let at_dst : next_dst + (j - n) ≡ dst + j = omega arith in
            sym (ap (byte_at zs) at_dst)
            ∙ rest.inside (j - n) (omega arith)
            ∙ ap (byte_at ys) at_src
            ∙ first.behind (src + j) (omega arith)
      ];
      behind = λ i high. rest.behind i (omega arith) ∙ first.behind i (omega arith);
    }

module _ (w : World) (b : Backend) (local : is_remote b ≡ false) (chunk : ℕ) where
  backward_loop-IsMoved :
      (after delta fuel moved left : ℕ) (xs : List ℕ) (p : ℕ) (d : Bool)
      → 0 < chunk
      → left ≤ fuel
      → delta ≤ after
      → after + moved + left ≤ length xs
      → (ys : List ℕ) × (q : ℕ) × (e : Bool) × (backward_loop chunk after delta fuel moved left
            (at w b xs p d)
          ≡ (ok tt, at w b ys q e))
        × IsMoved (after + moved) (after + moved - delta) left xs ys
  unfolding backward_loop
  backward_loop-IsMoved after delta zero moved zero xs p d pos enough down inside =
      (xs, p, d, refl, IsMoved-none (after + moved) (after + moved - delta) xs)
  backward_loop-IsMoved after delta zero moved (suc k) xs p d pos enough down inside =
      absurd (omega arith)
  backward_loop-IsMoved after delta (suc fuel) moved zero xs p d pos enough down inside =
      (xs, p, d, refl, IsMoved-none (after + moved) (after + moved - delta) xs)
  backward_loop-IsMoved after delta (suc fuel) moved (suc k) xs p d pos enough down inside =
      let n = min (suc k) chunk in
      let src = after + moved in
      let (ys, q, d', ran, first) =
        move_chunk-IsMoved w b local src (src - delta) n xs p d (omega arith) (omega arith) in
      let len = first.len in
      let (zs, q', e, ran', rest) =
        backward_loop-IsMoved after delta fuel (moved + n) (suc k - n) ys q d' pos (omega arith)
          down (omega arith) in
      let go_on : ltb 0 (suc k) ≡ true = ground arith in
      (
        zs,
        q',
        e,
        rw go_on (
            ap (λ r. continue r (λ _. backward_loop chunk after delta fuel (moved + n) (suc k - n)))
              ran
            ∙ ran'),
        IsMoved-append src (src - delta) n (suc k - n) (suc k) (after + (moved + n))
            (after + (moved + n) - delta) xs ys zs (omega arith) (omega arith) (omega arith)
            (omega arith) first rest,
      )

  copy_loop-IsMoved :
      (src_off dst_off fuel processed left : ℕ) (xs : List ℕ) (p : ℕ) (d : Bool)
      → 0 < chunk
      → left ≤ fuel
      → dst_off ≤ src_off
      → src_off + processed + left ≤ length xs
      → length xs < 2 ^ 64
      → (ys : List ℕ) × (q : ℕ) × (e : Bool) × (copy_loop chunk src_off dst_off fuel processed left
            (at w b xs p d)
          ≡ (ok tt, at w b ys q e))
        × IsMoved (src_off + processed) (dst_off + processed) left xs ys
  unfolding copy_loop
  copy_loop-IsMoved src_off dst_off zero processed zero xs p d pos enough down inside small =
      (xs, p, d, refl, IsMoved-none (src_off + processed) (dst_off + processed) xs)
  copy_loop-IsMoved src_off dst_off zero processed (suc k) xs p d pos enough down inside small =
      absurd (omega arith)
  copy_loop-IsMoved src_off dst_off (suc fuel) processed zero xs p d pos enough down inside small =
      (xs, p, d, refl, IsMoved-none (src_off + processed) (dst_off + processed) xs)
  copy_loop-IsMoved src_off dst_off (suc fuel) processed (suc k) xs p d pos enough down inside
        small =
      let n = min (suc k) chunk in
      let src = src_off + processed in
      let dst = dst_off + processed in
      let (ys, q, d', ran, first) =
        copy_chunk-IsMoved w b local src dst n xs p d (omega arith) (omega arith) in
      let len = first.len in
      let (zs, q', e, ran', rest) =
        copy_loop-IsMoved src_off dst_off fuel (processed + n) (suc k - n) ys q d' pos (omega arith)
          down (omega arith) (omega arith) in
      let go_on : ltb 0 (suc k) ≡ true = ground arith in
      let in_word : add_u64 src_off processed ≡ src = omega arith in
      let in_word' : add_u64 dst_off processed ≡ dst = omega arith in
      let start = at w b xs p d in
      let turn =
        ap (λ (s : ℕ). copy_chunk s (add_u64 dst_off processed) n start) in_word
        ∙ ap (λ (t : ℕ). copy_chunk src t n start) in_word'
        ∙ ran in
      (
        zs,
        q',
        e,
        rw go_on (
            ap
              (λ r.
                continue r (λ _. copy_loop chunk src_off dst_off fuel (processed + n) (suc k - n)))
              turn
            ∙ ran'),
        IsMoved-append src dst n (suc k - n) (suc k) (src_off + (processed + n))
            (dst_off + (processed + n)) xs ys zs (omega arith) (omega arith) (omega arith)
            (omega arith) first rest,
      )

  -- `stream_copy_in_file`, with chunks of any positive size and a store whose operations do not fail:
  -- a range inside a file shorter than 2^64 bytes, copied to an offset that is not behind its own,
  -- arrives whole, also where the two overlap, and no other byte changes.
  pub stream_copy_in_file-IsMoved :
      (src_off dst_off count : ℕ) (xs : List ℕ) (p : ℕ) (d : Bool)
      → 0 < chunk
      → dst_off ≤ src_off
      → src_off + count ≤ length xs
      → length xs < 2 ^ 64
      → (ys : List ℕ) × (q : ℕ) × (e : Bool) × (stream_copy_in_file src_off dst_off count chunk
            (at w b xs p d)
          ≡ (ok tt, at w b ys q e))
        × IsMoved src_off dst_off count xs ys
  unfolding stream_copy_in_file
  stream_copy_in_file-IsMoved src_off dst_off count xs p d pos down inside small =
      let (ys, q, e, ran, m) =
        copy_loop-IsMoved src_off dst_off count 0 count xs p d pos (omega arith) down (omega arith)
          small in
      (
        ys,
        q,
        e,
        ran,
        IsMoved-append src_off dst_off 0 count count (src_off + 0) (dst_off + 0) xs xs ys down
            (omega arith) (omega arith) (omega arith) (IsMoved-none src_off dst_off xs) m,
      )

  pub move_tail-IsMoved :
      (after delta count : ℕ) (xs : List ℕ) (p : ℕ) (d : Bool)
      → 0 < chunk
      → delta ≤ after
      → after + count ≤ length xs
      → (ys : List ℕ) × (q : ℕ) × (e : Bool) × (move_tail
            (λ (fuel : ℕ). backward_loop chunk after delta fuel 0)
            count
            (at w b xs p d)
          ≡ (ok tt, at w b ys q e))
        × IsMoved after (after - delta) count xs ys
  unfolding move_tail or_taint
  move_tail-IsMoved after delta zero xs p d pos down inside =
      (xs, p, d, refl, IsMoved-none after (after - delta) xs)
  move_tail-IsMoved after delta (suc k) xs p d pos down inside =
      let (ys, q, e, ran, m) =
        backward_loop-IsMoved after delta (suc k) 0 (suc k) xs p d pos (omega arith) down
          (omega arith) in
      let go_on : ltb 0 (suc k) ≡ true = ground arith in
      (
        ys,
        q,
        e,
        rw (go_on, ran, flush-at w ys q e b local) refl,
        IsMoved-append after (after - delta) 0 (suc k) (suc k) (after + 0) (after + 0 - delta) xs xs
            ys (omega arith) (omega arith) (omega arith) (omega arith)
            (IsMoved-none after (after - delta) xs) m,
      )
