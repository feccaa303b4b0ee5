-- ===== src/Gzip/Codec.antt =====
-- zimage/gzip.rs: a tile through an encoder and its decoder.
use rustfits.Prelude.{
  ℕ, ◌*◌, ◌/◌, ◌%◌, ◌^◌, ◌≤◌, ◌<◌, ◌≡◌, refl, sym, ap, ◌∙◌, true, false, Bool, ◌&&◌, ◌==◌, ltb, leb,
  if◌then◌else◌, Bool-cases, inl, inr, Option, List, [], ◌∷◌, map, length, length-append, ok, ◌>>=◌,
  arith,
}
use native.Mathlib.Decide.{dec_lt}
use native.Mathlib.Nat.{mul-div_cancel, mul-mod_left}
use mathlib.Core.List.{reverse, flatten}
use rustfits.Gzip.{
  Flate2, IsLossless, is_bytepix, level_or, gzip_compress, gzip_decompress, decode_gzip1,
  decode_gzip2, encode_gzip1, encode_gzip2, to_native,
}
use rustfits.Gzip.Shuffle.{shuffled_tile}
use rustfits.Gzip.Swap.{HasSize, byteswap_in_place-flatten, map-reverse_bytes}

length-flatten :
    (size : ℕ) (ws : List (List ℕ)) → HasSize size ws → length (flatten ws) ≡ length ws * size
unfolding flatten
length-flatten size [] h = omega arith
length-flatten size (w ∷ ws) (h, hs) =
    omega (arith, length-append w (flatten ws), length-flatten size ws hs)

-- A pixel's bytes in the order of the target.
abbrev pub native_bytes : Bool → List ℕ → List ℕ
native_bytes big_endian w = if big_endian then w else reverse w

to_native-flatten :
    (big_endian : Bool) (b : ℕ) (ws : List (List ℕ))
    → is_bytepix b ≡ true
    → HasSize b ws
    → to_native big_endian 0 (flatten ws) b ≡ flatten (map (native_bytes big_endian) ws)
to_native-flatten true b ws known h =
    let stay : (ltb 1 b && false) ≡ false = ground arith in rw stay (ap flatten (sym (map_same ws)))
  where
    map_same : (ws : List (List ℕ)) → map (native_bytes true) ws ≡ ws
    map_same [] = refl
    map_same (w ∷ ws) = ap (◌∷◌ w) (map_same ws)
to_native-flatten false b ws known h = elim (dec_lt 1 b) [
  | yes word ↦
      let swap : (ltb 1 b && true) ≡ true = ground arith in
      rw swap (byteswap_in_place-flatten b ws known h)
  | no byte ↦
      let stay : (ltb 1 b && true) ≡ false = ground arith in
      let one : b ≡ 1 = ground (arith, known) in
      rw stay (ap flatten (sym (map-reverse_bytes ws (rw⁻¹ one h))))
]

module _ (z : Flate2) (lossless : IsLossless z) where
  gzip_decompress-gzip_compress :
      (bytes : List ℕ) (level : Option ℕ)
      → (packed : List ℕ) × (gzip_compress z bytes level ≡ ok packed)
        × (gzip_decompress z packed (length bytes) ≡ ok bytes)
  unfolding gzip_compress gzip_decompress
  gzip_decompress-gzip_compress bytes level =
      let (packed, wrote, read) = lossless.written (level_or z.default_level level) bytes in
      let same : (length bytes == length bytes) ≡ true = ground arith in
      (packed, rw wrote refl, rw (read, same) refl)

  -- The bytes of `n` pixels of `b` bytes each come back in the order of the target.
  module _ (big_endian : Bool) (b : ℕ) (ws : List (List ℕ)) (level : Option ℕ) where
    -- For a tile of pixels of 1, 2, 4 or 8 bytes, fewer than 2^64 bytes in all, a lossless flate2
    -- and an aligned buffer: `encode_gzip1` and then `decode_gzip1` give the pixels in the byte
    -- order of the target.
    pub decode_gzip1-encode_gzip1 :
        is_bytepix b ≡ true
        → HasSize b ws
        → length ws * b < 2 ^ 64
        → (encode_gzip1 z (flatten ws) level >>= λ packed.
            decode_gzip1 z big_endian 0 packed (length ws) b)
          ≡ ok (flatten (map (native_bytes big_endian) ws))
    unfolding encode_gzip1 decode_gzip1
    decode_gzip1-encode_gzip1 known sized small =
        let (packed, wrote, read) = gzip_decompress-gzip_compress (flatten ws) level in
        let in_usize : leb (2 ^ 64) (length ws * b) ≡ false = ground arith in
        rw (wrote, known, in_usize, sym (length-flatten b ws sized), read)
          (ap ok (to_native-flatten big_endian b ws known sized))

    -- For a tile of pixels of 1, 2, 4 or 8 bytes, fewer than 2^64 bytes in all, a lossless flate2,
    -- an aligned buffer, and new buffers that are long enough, whatever they hold: `encode_gzip2`
    -- and then `decode_gzip2` give the pixels in the byte order of the target.
    pub decode_gzip2-encode_gzip2 :
        (uninit uninit' : List ℕ)
        → is_bytepix b ≡ true
        → HasSize b ws
        → length ws * b < 2 ^ 64
        → length ws * b ≤ length uninit
        → length ws * b ≤ length uninit'
        → (encode_gzip2 z (flatten ws) b level uninit >>= λ packed.
            decode_gzip2 z big_endian 0 packed (length ws) b uninit')
          ≡ ok (flatten (map (native_bytes big_endian) ws))
    unfolding encode_gzip2 decode_gzip2
    decode_gzip2-encode_gzip2 uninit uninit' known sized small room room' =
        let len = length-flatten b ws sized in
        let pos : 0 < b = ground (arith, known) in
        let pixels : length (flatten ws) / b ≡ length ws =
          ap (λ (k : ℕ). k / b) len ∙ mul-div_cancel (length ws) pos in
        let rest : length (flatten ws) % b ≡ 0 =
          ap (λ (k : ℕ). k % b) len ∙ mul-mod_left (length ws) b in
        let whole : (length (flatten ws) % b == 0) ≡ true = ground (arith, rest) in
        let in_usize : leb (2 ^ 64) (length ws * b) ≡ false = ground arith in
        let native = to_native-flatten big_endian b ws known sized in
        elim (Bool-cases (b == 1)) [
          | inl one ↦
              let (packed, wrote, read) = gzip_decompress-gzip_compress (flatten ws) level in
              rw (known, whole, one, wrote, in_usize, sym len, read) (ap ok native)
          | inr more ↦
              let (s, shuffled, s_len, restored) =
                shuffled_tile (length ws) b (flatten ws) uninit uninit' pos len room room' in
              let (packed, wrote, read) = gzip_decompress-gzip_compress s level in
              rw (known, whole, more, pixels, shuffled, wrote, in_usize, sym s_len, read, restored)
                (ap ok native)
        ]
