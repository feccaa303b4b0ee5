-- ===== src/Plio/Tests.antt =====
-- zimage/plio.rs: its unit test, small images, and the theorems at concrete inputs.
use rustfits.Prelude.{
  ℕ, ◌≡◌, refl, arith, true, false, List, [], ◌∷◌, ◌++◌, length, replicate, Outcome, ok, err, ◌>>=◌,
}
use rustfits.Plio.{PlioError, negative_pixel, pixel_too_large, header_truncated}
use rustfits.Plio.Encode.{encode_plio_i32, encode_plio}
use rustfits.Plio.Decode.{decode_pixels, decode_plio}
use rustfits.Plio.Lossless.{is_lossless}
use rustfits.Plio.Stream.{decode_pixels-encode_plio_i32, decode_plio-encode_plio}
use rustfits.Plio.Lost.{encode_plio_i32-loses_pixel}

through : List ℕ → Outcome PlioError (List ℕ)
unfolding encode_plio_i32 decode_pixels
through pixels = encode_plio_i32 pixels >>= λ bytes. decode_pixels bytes (length pixels)

abbrev pn_run : List ℕ
pn_run = 0 ∷ 0 ∷ 0 ∷ 7 ∷ 255 ∷ 156 ∷ 0 ∷ 8 ∷ 0 ∷ 0 ∷ 0 ∷ 0 ∷ 0 ∷ 0 ∷ 64 ∷ 3 ∷ []

pn_run_of_three_ones :
    decode_plio false pn_run 5 4 32
    ≡ ok (1 ∷ 0 ∷ 0 ∷ 0 ∷ 1 ∷ 0 ∷ 0 ∷ 0 ∷ 1 ∷ 0 ∷ 0 ∷ 0 ∷ 0 ∷ 0 ∷ 0 ∷ 0 ∷ 0 ∷ 0 ∷ 0 ∷ 0 ∷ [])
unfolding decode_plio
pn_run_of_three_ones = refl

truncated : decode_plio false (0 ∷ 0 ∷ []) 5 4 32 ≡ err header_truncated
unfolding decode_plio
truncated = refl

negative : encode_plio_i32 (1 ∷ 0xffff_ffff ∷ []) ≡ err negative_pixel
unfolding encode_plio_i32
negative = refl

too_large : encode_plio_i32 (0x0800_0000 ∷ []) ≡ err pixel_too_large
unfolding encode_plio_i32
too_large = refl

-- The largest values are carried in a run, or behind a gap.
large_values :
    through (9999999 ∷ 9999999 ∷ 0 ∷ 20000 ∷ 0 ∷ []) ≡ ok (9999999 ∷ 9999999 ∷ 0 ∷ 20000 ∷ 0 ∷ [])
unfolding through
large_values = refl

-- A gap of 4095 zeros in front of a single pixel ends in opcode 6 in place of opcode 5: 0x6000.
full_gap :
    encode_plio_i32 (replicate 4095 0 ++ 1 ∷ [])
    ≡ ok (0 ∷ 0 ∷ 0 ∷ 7 ∷ 255 ∷ 156 ∷ 0 ∷ 8 ∷ 0 ∷ 0 ∷ 0 ∷ 0 ∷ 0 ∷ 0 ∷ 0x60 ∷ 0 ∷ [])
unfolding encode_plio_i32
full_gap = refl

abbrev mask : List ℕ
mask = 0 ∷ 5 ∷ 5 ∷ 7 ∷ 0 ∷ 0 ∷ 255 ∷ 0 ∷ []

mask_scan : is_lossless 1 0 mask ≡ true
unfolding is_lossless
mask_scan = refl

round_trip_example : (encode_plio_i32 mask >>= λ bytes. decode_pixels bytes (length mask)) ≡ ok mask
round_trip_example = decode_pixels-encode_plio_i32 mask (omega arith) mask_scan (omega arith)

round_trip_bytes_example :
    (encode_plio mask (length mask) 1 8 >>= λ compressed.
    decode_plio false compressed (length mask) 1 8)
    ≡ ok mask
round_trip_bytes_example = decode_plio-encode_plio false mask (omega arith) mask_scan (omega arith)

loses_pixel_example : (encode_plio_i32 (5000 ∷ []) >>= λ bytes. decode_pixels bytes 1) ≡ ok (0 ∷ [])
loses_pixel_example = encode_plio_i32-loses_pixel 5000 (omega arith) (omega arith)
