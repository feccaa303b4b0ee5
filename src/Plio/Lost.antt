-- ===== src/Plio/Lost.antt =====
-- zimage/plio.rs, `encode_plio_i32`: images that the stream does not carry.
use rustfits.Prelude.{
  ℕ, ◌+◌, ◌*◌, ◌/◌, ◌%◌, ◌^◌, ◌<◌, ◌≡◌, ◌∙◌, false, [], ◌∷◌, replicate, ok, ◌>>=◌, arith, bit_and,
  bit_or, bit_and_mask,
}
use rustfits.Plio.{extend_i16}
use rustfits.Plio.Encode.{encode_plio_i32, data_words, encode_loop, emit_run, emit}
use rustfits.Plio.Decode.{decode_pixels, decode_loop, decode_word, decode_set_high, wrap_add}
use rustfits.Plio.Stream.{decode_pixels-with_header, encode_plio_i32-ok}

-- The two words of a single first pixel above 4096: the flag of a single pixel falls on the second.
lone_words :
    (v : ℕ)
    → 4096 < v
    → v < 2 ^ 27
    → data_words (v ∷ []) ≡ (v % 4096 + 4096) ∷ bit_or (v / 4096) 16384 ∷ []
unfolding data_words encode_loop emit_run emit
lone_words v h small =
    let mask : bit_and v 4095 ≡ v % 4096 = bit_and_mask 12 v in ground (arith, mask)

-- A word that sets the high value, the word that it takes, and the end: no pixel is written.
set_high_only :
    (v w : ℕ)
    → decode_loop 1
        ((v % 4096 + 4096) ∷ w ∷ [])
        (record { x1 = 1; pv = 1; op = 0; skipwd = false; output = replicate 1 0 })
      ≡ ok (record {
        x1 = 1;
        pv = wrap_add (extend_i16 w * 2 ^ 12 % 2 ^ 32) (v % 4096);
        op = 0;
        skipwd = false;
        output = 0 ∷ [];
      })
unfolding decode_loop
set_high_only v w =
    let raw = v % 4096 + 4096 in
    let opcode : raw / 2 ^ 12 % 16 ≡ 1 = omega arith in
    let count : bit_and raw 0xfff ≡ v % 4096 = omega (arith, bit_and_mask 12 raw) in
    unfold decode_word decode_set_high in rw (opcode, count)

-- A tile of one pixel above 4096 (and below 2^27, so that it is accepted) decodes to 0: the flag of a
-- single pixel is set on the second of the two words that set the high value, and no word writes a pixel.
pub encode_plio_i32-loses_pixel :
    (v : ℕ)
    → 4096 < v
    → v < 2 ^ 27
    → (encode_plio_i32 (v ∷ []) >>= λ bytes. decode_pixels bytes 1) ≡ ok (0 ∷ [])
encode_plio_i32-loses_pixel v h small =
    let words = lone_words v h small in
    rw (encode_plio_i32-ok (v ∷ []) (small, tt), words)
      (decode_pixels-with_header 1 _ (omega arith)
        ∙ (rw (set_high_only v (bit_or (v / 4096) 16384))))
