-- ===== src/Gzip/Tests.antt =====
-- zimage/gzip.rs: small tiles, and the theorems at concrete inputs.
use rustfits.Prelude.{
  ℕ, ◌^◌, ◌≡◌, refl, false, Option, none, some, List, [], ◌∷◌, map, ok, err, ◌>>=◌, arith,
}
use mathlib.Core.List.{flatten}
use rustfits.Gzip.{
  Flate2, IsLossless, shuffle, unshuffle, decode_gzip1, decode_gzip2, encode_gzip1, encode_gzip2,
  gzip_decompress, byteswap_in_place, reverse_chunks, unsupported_bytepix, wrong_length,
  not_a_multiple, size_overflow,
}
use rustfits.Gzip.Shuffle.{unshuffle-shuffle}
use rustfits.Gzip.Codec.{native_bytes, decode_gzip1-encode_gzip1, decode_gzip2-encode_gzip2}

-- A format that stores the bytes behind its level.
abbrev stored : Flate2
stored = record {
  default_level = 6;
  read_to_end = behind_level;
  write_and_finish = λ level bytes. some (level ∷ bytes);
}
  where
    behind_level : List ℕ → Option (List ℕ)
    behind_level [] = none
    behind_level (level ∷ bytes) = some bytes

stored-IsLossless : IsLossless stored
stored-IsLossless = record { written = λ level bytes. (level ∷ bytes, refl, refl) }

abbrev words : List (List ℕ)
words = (1 ∷ 2 ∷ []) ∷ (3 ∷ 4 ∷ []) ∷ (5 ∷ 6 ∷ []) ∷ []

abbrev garbage : List ℕ
garbage = 9 ∷ 9 ∷ 9 ∷ 9 ∷ 9 ∷ 9 ∷ 9 ∷ []

shuffled_words : shuffle (flatten words) 3 2 garbage ≡ ok (1 ∷ 3 ∷ 5 ∷ 2 ∷ 4 ∷ 6 ∷ [])
unfolding shuffle flatten
shuffled_words = refl

bytepix_three : decode_gzip2 stored false 0 [] 3 3 garbage ≡ err unsupported_bytepix
unfolding decode_gzip2
bytepix_three = refl

short_stream : decode_gzip1 stored false 0 (6 ∷ 1 ∷ []) 1 2 ≡ err wrong_length
unfolding decode_gzip1 gzip_decompress
short_stream = refl

odd_length : encode_gzip2 stored (1 ∷ 2 ∷ 3 ∷ []) 2 none garbage ≡ err not_a_multiple
unfolding encode_gzip2
odd_length = refl

too_large : decode_gzip1 stored false 0 [] (2 ^ 61) 8 ≡ err size_overflow
unfolding decode_gzip1
too_large = refl

two_doubles :
    byteswap_in_place 0
      (1 ∷ 2 ∷ 3 ∷ 4 ∷ 5 ∷ 6 ∷ 7 ∷ 8 ∷ 11 ∷ 12 ∷ 13 ∷ 14 ∷ 15 ∷ 16 ∷ 17 ∷ 18 ∷ [])
      16
    ≡ 8 ∷ 7 ∷ 6 ∷ 5 ∷ 4 ∷ 3 ∷ 2 ∷ 1 ∷ 18 ∷ 17 ∷ 16 ∷ 15 ∷ 14 ∷ 13 ∷ 12 ∷ 11 ∷ []
unfolding byteswap_in_place reverse_chunks
two_doubles = refl

unshuffle-shuffle_example :
    (shuffle (1 ∷ 2 ∷ 3 ∷ 4 ∷ 5 ∷ 6 ∷ []) 3 2 garbage >>= λ shuffled.
    unshuffle shuffled 3 2 garbage)
    ≡ ok (1 ∷ 2 ∷ 3 ∷ 4 ∷ 5 ∷ 6 ∷ [])
unshuffle-shuffle_example =
    unshuffle-shuffle 3 2 (1 ∷ 2 ∷ 3 ∷ 4 ∷ 5 ∷ 6 ∷ []) garbage garbage (omega arith) refl
      (omega arith) (omega arith)

decode_gzip1-encode_gzip1_example :
    (encode_gzip1 stored (flatten words) none >>= λ packed. decode_gzip1 stored false 0 packed 3 2)
    ≡ ok (flatten (map (native_bytes false) words))
decode_gzip1-encode_gzip1_example =
    decode_gzip1-encode_gzip1 stored stored-IsLossless false 2 words none refl
      (refl, (refl, (refl, tt))) (omega arith)

decode_gzip2-encode_gzip2_example :
    (encode_gzip2 stored (flatten words) 2 (some 9) garbage >>= λ packed.
    decode_gzip2 stored false 0 packed 3 2 garbage)
    ≡ ok (flatten (map (native_bytes false) words))
decode_gzip2-encode_gzip2_example =
    decode_gzip2-encode_gzip2 stored stored-IsLossless false 2 words (some 9) garbage garbage refl
      (refl, (refl, (refl, tt))) (omega arith) (omega arith) (omega arith)
