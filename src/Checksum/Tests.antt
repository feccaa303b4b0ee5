-- ===== src/Checksum/Tests.antt =====
-- checksum.rs: the values of its unit tests, and the theorems at concrete inputs.
use rustfits.Prelude.{
  false, ok, drop, ℕ, zero, suc, ◌+◌, ◌*◌, ◌^◌, ◌≡◌, ◌≢◌, refl, inl, true, List, [], ◌∷◌, ◌++◌,
  length, All, IsByte, arith,
}
use mathlib.Core.List.{flatten}
use rustfits.Storage.{disk, seek, read_exact}
use rustfits.Storage.World.{World, opened, quiet, at, on_file}
use rustfits.Checksum.Section.{checksum_chunk, stream_loop, stream_data_section_checksum}
use rustfits.Checksum.{
  feed, feed_carried, feed_whole, compute_checksum_bytes, new_stream, finish, ones_complement_add,
}
use rustfits.Checksum.Carry.{ones_sum}
use rustfits.Checksum.Sum.{
  hi_sum, word_sum, compute_checksum_bytes-ones_sum, ones_complement_add-ones_sum,
}
use rustfits.Checksum.Overflow.{compute_checksum_bytes_overflow}
use rustfits.Checksum.Stream.{feed_all, finish-feed_all}
use rustfits.Checksum.Ascii.{encode_checksum_ascii, decode_checksum_ascii, checksum_chars}
use rustfits.Checksum.Ascii.Table.{is_alnum}
use rustfits.Checksum.Ascii.RoundTrip.{decode-encode_checksum_ascii, encode_checksum_ascii_chars}
use rustfits.Checksum.Ascii.Card.{sixteen, verify-checksum_chars}

abbrev two_ff_words : List ℕ
two_ff_words = 0xff ∷ 0xff ∷ 0xff ∷ 0xff ∷ 0xff ∷ 0xff ∷ 0xff ∷ 0xff ∷ []

negative_zero_stable : compute_checksum_bytes 0 two_ff_words ≡ 0xffff_ffff
unfolding compute_checksum_bytes
negative_zero_stable = refl

partial_tail : compute_checksum_bytes 0 (0x12 ∷ []) ≡ 0x1200_0000
unfolding compute_checksum_bytes
partial_tail = refl

-- "N6AGN49EN4AEN49E"
encode_matches_cfitsio :
    encode_checksum_ascii 0x1234_5678 false
    ≡ b'N' ∷ b'6' ∷ b'A' ∷ b'G' ∷ b'N' ∷ b'4' ∷ b'9' ∷ b'E' ∷ b'N' ∷ b'4' ∷ b'A' ∷ b'E' ∷ b'N'
      ∷ b'4' ∷ b'9' ∷ b'E' ∷ []
unfolding encode_checksum_ascii
encode_matches_cfitsio = refl

-- "49FH48D948DG48D9"
encode_complement_matches_cfitsio :
    encode_checksum_ascii 0xdead_beef true
    ≡ b'4' ∷ b'9' ∷ b'F' ∷ b'H' ∷ b'4' ∷ b'8' ∷ b'D' ∷ b'9' ∷ b'4' ∷ b'8' ∷ b'D' ∷ b'G' ∷ b'4'
      ∷ b'8' ∷ b'D' ∷ b'9' ∷ []
unfolding encode_checksum_ascii
encode_complement_matches_cfitsio = refl

-- `n` words of 0xFFFFFFFF.
ff_words : ℕ → List ℕ
ff_words zero = []
ff_words (suc n) = 0xff ∷ 0xff ∷ 0xff ∷ 0xff ∷ ff_words n

ff_words-IsByte : (n : ℕ) → All IsByte (ff_words n)
unfolding ff_words
ff_words-IsByte zero = tt
ff_words-IsByte (suc n) = let more = ff_words-IsByte n in ground arith

length-ff_words : (n : ℕ) → length (ff_words n) ≡ 4 * n
unfolding ff_words
length-ff_words zero = refl
length-ff_words (suc n) = omega (arith, length-ff_words n)

hi_sum-ff_words : (n : ℕ) → hi_sum (ff_words n) ≡ 65535 * n
unfolding ff_words hi_sum
hi_sum-ff_words zero = refl
hi_sum-ff_words (suc n) = omega (arith, hi_sum-ff_words n)

-- One chunk of 1 MiB, the size that the image HDU reads.
overflow_example :
    compute_checksum_bytes 0 (ff_words (2 ^ 18)) ≢ ones_sum (0 + word_sum (ff_words (2 ^ 18)))
overflow_example =
    compute_checksum_bytes_overflow 0 (ff_words (2 ^ 18)) (omega arith) (ff_words-IsByte (2 ^ 18))
      (omega (arith, length-ff_words (2 ^ 18))) (inl (omega (arith, hi_sum-ff_words (2 ^ 18))))

ones_sum_example : compute_checksum_bytes 5 two_ff_words ≡ ones_sum (5 + word_sum two_ff_words)
ones_sum_example =
    compute_checksum_bytes-ones_sum 5 two_ff_words (omega arith) (omega arith) (omega arith)

abbrev cut_chunks : List (List ℕ)
cut_chunks = (1 ∷ []) ∷ [] ∷ (2 ∷ 3 ∷ 4 ∷ 5 ∷ 6 ∷ 7 ∷ []) ∷ (8 ∷ 9 ∷ []) ∷ []

finish-feed_all_example :
    finish (feed_all (new_stream 5) cut_chunks) ≡ ones_sum (5 + word_sum (flatten cut_chunks))
finish-feed_all_example = finish-feed_all 5 cut_chunks (omega arith) (omega arith)

ones_complement_add_example : ones_complement_add 0xffff_fffe 7 ≡ ones_sum (0xffff_fffe + 7)
ones_complement_add_example = ones_complement_add-ones_sum 0xffff_fffe 7 (omega arith) (omega arith)

decode-encode_example :
    decode_checksum_ascii (encode_checksum_ascii 0xdead_beef true) true ≡ 0xdead_beef
decode-encode_example = decode-encode_checksum_ascii 0xdead_beef true (omega arith)

chars_example :
    (length (encode_checksum_ascii 0xdead_beef false) ≡ 16)
    × All (λ c. is_alnum c ≡ true) (encode_checksum_ascii 0xdead_beef false)
chars_example = encode_checksum_ascii_chars 0xdead_beef false

abbrev card_start : List ℕ
card_start = b'S' ∷ b'U' ∷ b'M' ∷ b' ' ∷ b'=' ∷ b' ' ∷ b'\'' ∷ []

abbrev card_end : List ℕ
card_end = b'\'' ∷ b' ' ∷ []

-- 2 bytes, and behind them a data section of 9.
abbrev data_file : List ℕ
data_file = 32 ∷ 32 ∷ 1 ∷ 2 ∷ 3 ∷ 4 ∷ 5 ∷ 6 ∷ 7 ∷ 8 ∷ 9 ∷ []

abbrev data_world : World
data_world = record {
  file = opened (quiet disk data_file 0 false);
  hdus = [];
  layout_poisoned = false;
  tainted = false;
}

-- Chunks that end inside a word, and one that is shorter.
chunked_sum :
    stream_data_section_checksum 6 2 9 0 data_world
    ≡ (ok (compute_checksum_bytes 0 (drop 2 data_file)), at data_world disk data_file 11 false)
unfolding stream_data_section_checksum stream_loop on_file seek read_exact feed feed_carried
    feed_whole new_stream finish compute_checksum_bytes
chunked_sum = refl

no_data : stream_data_section_checksum checksum_chunk 2 0 5 data_world ≡ (ok 5, data_world)
unfolding stream_data_section_checksum new_stream finish
no_data = refl

verify_example :
    (datasum q r : ℕ) × (stream_data_section_checksum checksum_chunk 2 9 0
        (at data_world disk data_file 0 false)
      ≡ (ok datasum, at data_world disk data_file q false))
    × (stream_data_section_checksum checksum_chunk 2 9
          (compute_checksum_bytes 0 (
            card_start
            ++ (checksum_chars (card_start ++ (sixteen 0x30 ++ card_end)) datasum ++ card_end)))
          (at data_world disk data_file q false)
        ≡ (ok 0xffff_ffff, at data_world disk data_file r false))
verify_example =
    verify-checksum_chars data_world disk data_file 0 false 1 checksum_chunk 2 9 card_start card_end
      refl (omega arith) (omega arith) (omega arith) (omega arith) refl (omega arith) (omega arith)
      (omega arith)
