-- ===== src/Plio/Stream.antt =====
-- zimage/plio.rs: the byte stream with its header, and the round trip of tiles.
use rustfits.Prelude.{
  take_all, ℕ, ◌+◌, ◌-◌, ◌*◌, ◌/◌, ◌%◌, ◌^◌, ◌≤◌, ◌<◌, ◌≡◌, refl, sym, ap, ◌∙◌, bit_and, bit_or,
  Bool, true, false, List, [], ◌∷◌, ◌++◌, length, drop, replicate, All, ◌==◌, ltb, leb, Outcome, ok,
  ◌>>=◌, arith, bit_and_mask, bit_or_fields, IsByte, append-nil,
}
use rustfits.Plio.{PlioError, as_i16}
use rustfits.Plio.Encode.{
  validate, data_words, with_header, shorts_to_be_bytes, encode_plio_i32, read_pixels_1,
  encode_plio,
}
use rustfits.Plio.Decode.{
  be_words, read_header, decode_loop, decode_pixels, flat_bytes, decode_plio,
}
use rustfits.Plio.Lossless.{IsPixel, is_lossless, Reads}
use rustfits.Plio.RoundTrip.{data_words-Reads}
use rustfits.Plio.Size.{length-data_words-le}

be_words-shorts : (ws : List ℕ) → be_words (shorts_to_be_bytes ws) ≡ ws
unfolding be_words shorts_to_be_bytes
be_words-shorts [] = refl
be_words-shorts (w ∷ ws) =
    let e : w / 256 * 256 + w % 256 ≡ w = omega arith in rw (e, be_words-shorts ws)

length-shorts : (ws : List ℕ) → length (shorts_to_be_bytes ws) ≡ 2 * length ws
unfolding shorts_to_be_bytes
length-shorts [] = refl
length-shorts (w ∷ ws) = omega (arith, length-shorts ws)

length-with_header : (ws : List ℕ) → length (with_header ws) ≡ length ws + 7
unfolding with_header
length-with_header ws = omega arith

drop-with_header : (ws : List ℕ) → drop 7 (with_header ws) ≡ ws
unfolding with_header
drop-with_header ws = refl

read_header-with_header :
    (ws : List ℕ)
    → length ws + 7 < 2 ^ 30
    → read_header (with_header ws) ≡ ok (record { lllen = length ws + 7; llfirt = 7 })
unfolding read_header with_header
read_header-with_header ws h =
    let total = length ws + 7 in
    let upper : as_i16 (total / 32768) ≡ total / 32768 = omega arith in
    let lower : as_i16 (total % 32768) ≡ total % 32768 = omega arith in
    let positive : leb (2 ^ 15) (total / 32768) ≡ false = ground arith in
    let low : bit_and (total % 32768) 0x7fff ≡ total % 32768 =
      omega (arith, bit_and_mask 15 (total % 32768)) in
    let joined : bit_or (total / 32768 * 2 ^ 15) (total % 32768) ≡ total =
      omega (arith, bit_or_fields 15 (total / 32768) (total % 32768) (omega arith)) in
    rw (upper, lower, positive, low, joined)

-- Behind the header the loop runs over the words.
pub decode_pixels-with_header :
    (n : ℕ) (ws : List ℕ)
    → length ws + 7 < 2 ^ 30
    → decode_pixels (shorts_to_be_bytes (with_header ws)) n ≡ (
        decode_loop n ws (record { x1 = 1; pv = 1; op = 0; skipwd = false; output = replicate n 0 })
        >>= λ s. ok s.output)
unfolding decode_pixels
decode_pixels-with_header n ws h =
    let words = with_header ws in
    let bytes = shorts_to_be_bytes words in
    let len = length-shorts words in
    let count = length-with_header ws in
    let even : (length bytes % 2 == 0) ≡ true = ground arith in
    let long : ltb (length bytes / 2) 7 ≡ false = ground arith in
    let inside : ltb (length bytes / 2) (length ws + 7) ≡ false = ground arith in
    let offset : ltb (length ws + 7) 7 ≡ false = ground arith in
    let all = take_all (length ws + 7) words (omega arith) in
    rw (
      even,
      long,
      be_words-shorts words,
      read_header-with_header ws h,
      inside,
      offset,
      all,
      drop-with_header ws,
    )

-- An image of pixels below 2^27 passes the validation.
validate-ok : (pixels : List ℕ) → All IsPixel pixels → validate pixels ≡ ok tt
unfolding validate
validate-ok [] h = refl
validate-ok (v ∷ vs) (small, smalls) = ground (arith, validate-ok vs smalls)

whole_output :
    (n : ℕ) (pixels : List ℕ)
    → n ≡ length pixels
    → pixels ++ replicate (n - length pixels) 0 ≡ pixels
whole_output n pixels e =
    let none_left : n - length pixels ≡ 0 = omega arith in rw (none_left, append-nil)

decode_words :
    (pixels words : List ℕ)
    → Reads (length pixels) [] 1 words pixels
    → (decode_loop
          (length pixels)
          words
          (record { x1 = 1; pv = 1; op = 0; skipwd = false; output = replicate (length pixels) 0 })
        >>= λ s. ok s.output)
      ≡ ok pixels
unfolding Reads
decode_words pixels words (hi, read) =
    let n = length pixels in
    let untouched : n - 0 ≡ n = omega arith in
    let read' = rw untouched at read in rw (read', whole_output n pixels refl)

pub encode_plio_i32-ok :
    (pixels : List ℕ)
    → All IsPixel pixels
    → encode_plio_i32 pixels ≡ ok (shorts_to_be_bytes (with_header (data_words pixels)))
encode_plio_i32-ok pixels small = unfold encode_plio_i32 in rw (validate-ok pixels small)

-- Every image of at most 2^28 pixels, each in 0 .. 2^27 - 1, that `is_lossless` accepts is encoded, and
-- the stream decodes to the image.
pub decode_pixels-encode_plio_i32 :
    (pixels : List ℕ)
    → All IsPixel pixels
    → is_lossless 1 0 pixels ≡ true
    → length pixels ≤ 2 ^ 28
    → (encode_plio_i32 pixels >>= λ bytes. decode_pixels bytes (length pixels)) ≡ ok pixels
decode_pixels-encode_plio_i32 pixels small scan short =
    let words = data_words pixels in
    let count = length-data_words-le pixels in
    ap (λ (t : Outcome PlioError (List ℕ)). t >>= λ bytes. decode_pixels bytes (length pixels))
      (encode_plio_i32-ok pixels small)
    ∙ decode_pixels-with_header (length pixels) words (omega arith)
    ∙ decode_words pixels words (data_words-Reads pixels small scan)

read_pixels_1-same : (bytes : List ℕ) → read_pixels_1 bytes ≡ bytes
unfolding read_pixels_1
read_pixels_1-same [] = refl
read_pixels_1-same (b ∷ bytes) = ap (◌∷◌ b) (read_pixels_1-same bytes)

flat_bytes-same :
    (big_endian : Bool) (bytes : List ℕ)
    → All IsByte bytes
    → flat_bytes big_endian (λ v. v % 256 ∷ []) bytes ≡ bytes
unfolding flat_bytes
flat_bytes-same big_endian [] h = refl
flat_bytes-same big_endian (b ∷ bytes) (p, ps) =
    let e : b % 256 ≡ b = omega arith in rw e (ap (◌∷◌ b) (flat_bytes-same big_endian bytes ps))

IsPixel-of_byte : (bytes : List ℕ) → All IsByte bytes → All IsPixel bytes
IsPixel-of_byte [] h = tt
IsPixel-of_byte (b ∷ bytes) (p, ps) = (omega arith, IsPixel-of_byte bytes ps)

encode_plio-bytes :
    (bytes : List ℕ)
    → length bytes ≤ 2 ^ 28
    → encode_plio bytes (length bytes) 1 8 ≡ encode_plio_i32 bytes
unfolding encode_plio
encode_plio-bytes bytes h =
    let n = length bytes in
    let fits : leb (2 ^ 64) (n * 1) ≡ false = ground arith in
    let same : (n == n * 1) ≡ true = ground arith in rw (fits, same, read_pixels_1-same bytes)

decode_plio-bytes :
    (big_endian : Bool) (compressed : List ℕ) (n : ℕ)
    → decode_plio big_endian compressed n 1 8
      ≡ (decode_pixels compressed n >>= λ out. ok (flat_bytes big_endian (λ v. v % 256 ∷ []) out))
unfolding decode_plio
decode_plio-bytes big_endian compressed n = refl

-- An 8-bit tile of at most 2^28 pixels that `is_lossless` accepts comes back unchanged from
-- `encode_plio` and `decode_plio`.
pub decode_plio-encode_plio :
    (big_endian : Bool) (bytes : List ℕ)
    → All IsByte bytes
    → is_lossless 1 0 bytes ≡ true
    → length bytes ≤ 2 ^ 28
    → (encode_plio bytes (length bytes) 1 8 >>= λ compressed.
        decode_plio big_endian compressed (length bytes) 1 8)
      ≡ ok bytes
decode_plio-encode_plio big_endian bytes p scan short =
    let n = length bytes in
    let small = IsPixel-of_byte bytes p in
    let compressed = shorts_to_be_bytes (with_header (data_words bytes)) in
    let encoded = encode_plio_i32-ok bytes small in
    let decoded : decode_pixels compressed n ≡ ok bytes =
      sym (ap (λ (t : Outcome PlioError (List ℕ)). t >>= λ c. decode_pixels c n) encoded)
      ∙ decode_pixels-encode_plio_i32 bytes small scan short in
    rw (encode_plio-bytes bytes short, encoded, decode_plio-bytes big_endian compressed n, decoded)
      (ap ok (flat_bytes-same big_endian bytes p))
