-- ===== src/Plio/Encode.antt =====
-- zimage/plio.rs, `encode_plio_i32` and `encode_plio`.
use rustfits.Prelude.{
  ℕ, zero, suc, ◌+◌, ◌-◌, ◌*◌, ◌/◌, ◌%◌, ◌^◌, min, bit_and, bit_or, Bool, true, false, not, ◌&&◌,
  List, [], ◌∷◌, ◌++◌, length, ◌==◌, ltb, leb, if◌then◌else◌, Outcome, ok, err, ◌>>=◌, ◌>>◌,
  fail_if,
}
use rustfits.Plio.{
  PlioError, unsupported_zbitpix, unsupported_bytepix, cast_mismatch, negative_pixel,
  pixel_too_large, size_overflow, wrong_length, is_zbitpix, is_bytepix, is_negative, extend_i16,
  as_i16,
}

abbrev pub plio_max_pv : ℕ
plio_max_pv = 0x07ff_ffff

-- `max(0, v)`
abbrev pub clamp : ℕ → ℕ
clamp v = if is_negative v then 0 else v

-- The validation loop at the top.
unfoldable pub validate : List ℕ → Outcome PlioError (Unit {0})
validate [] = ok tt
validate (v ∷ vs) =
    let more = validate vs in
    if is_negative v
    then err negative_pixel
    else (if ltb plio_max_pv v then err pixel_too_large else more)

-- `let last = out.len() - 1; out[last] = f(out[last])`
unfoldable pub change_last : (ℕ → ℕ) → List ℕ → List ℕ
change_last f [] = []
change_last f (w ∷ []) = f w ∷ []
change_last f (w ∷ v ∷ ws) = w ∷ change_last f (v ∷ ws)

-- `while remain > 0 { out.push(remain.min(4095) + opcode); remain -= 4095; }`
unfoldable pub run_words : ℕ → ℕ → ℕ → List ℕ
run_words zero opcode remain = []
run_words (suc fuel) opcode remain = elim (remain == 0) [
  | true ↦ []
  | false ↦ as_i16 (min remain 4095 + opcode) ∷ run_words fuel opcode (remain - 4095)
]

-- The words that set the high value to `pv`, which is not `hi`.
unfoldable pub set_words : ℕ → ℕ → List ℕ
set_words pv hi =
    if ltb pv hi
    then (if ltb 4095 (hi - pv)
        then as_i16 (bit_and pv 4095 + 4096) ∷ as_i16 (pv / 2 ^ 12) ∷ []
        else as_i16 (hi - pv + 12288) ∷ [])
    else (if ltb 4095 (pv - hi)
        then as_i16 (bit_and pv 4095 + 4096) ∷ as_i16 (pv / 2 ^ 12) ∷ []
        else as_i16 (pv - hi + 8192) ∷ [])

-- Whether the set words change `hi`, and whether they take the single pixel with them.
abbrev pub sets : ℕ → ℕ → Bool
sets pv hi = ltb 0 pv && not (pv == hi)

abbrev pub consumed : ℕ → ℕ → ℕ → ℕ → Bool
consumed pv hi np nz = sets pv hi && (np == 1 && nz == 0)

-- Step (1): the words that set the high value.
unfoldable pub first_words : ℕ → ℕ → ℕ → ℕ → List ℕ
unfolding set_words change_last
first_words pv hi np nz =
    if sets pv hi
    then (if np == 1 && nz == 0
        then change_last (λ w. bit_or w 16384) (set_words pv hi)
        else set_words pv hi)
    else []

-- Steps (2) and (3): the zeros before the run, and the run.
unfoldable pub later_words : ℕ → ℕ → ℕ → List ℕ
unfolding run_words change_last
later_words pv np nz =
    let zeros = run_words nz 0 nz in
    if ltb 0 nz && (np == 1 && ltb 0 pv)
    then change_last (λ w. as_i16 (w + 20481)) zeros
    else zeros ++ run_words np 16384 np

unfoldable pub emit : ℕ → ℕ → ℕ → ℕ → List ℕ
unfolding first_words later_words
emit pv hi np nz =
    first_words pv hi np nz ++ (if consumed pv hi np nz then [] else later_words pv np nz)

-- The loop's variables; the pixel at `ip` is the last that was read.
pub record EncodeState : Type 0 where
  pub pv : ℕ
  pub hi : ℕ
  pub x1 : ℕ
  pub iz : ℕ
  pub ip : ℕ
  pub out : List ℕ

-- The part of an iteration from `np` and `nz` on.
unfoldable pub emit_run : EncodeState → ℕ → ℕ → EncodeState
emit_run s x1 next_pv =
    let np = s.ip + 1 - x1 in
    let nz = x1 - s.iz in
    record {
      pv = next_pv;
      hi = if sets s.pv s.hi then s.pv else s.hi;
      x1 = s.ip + 1;
      iz = s.ip + 1;
      ip = s.ip + 1;
      out = s.out ++ emit s.pv s.hi np nz;
    }

-- An iteration that has a pixel `nv` after `ip`.
unfoldable pub encode_step : EncodeState → ℕ → EncodeState
encode_step s pixel =
    let nv = clamp pixel in
    if nv == s.pv
    then record s { ip = s.ip + 1 }
    else (if s.pv == 0
        then record s { pv = nv; x1 = s.ip + 1; ip = s.ip + 1 }
        else emit_run s s.x1 nv)

-- The list holds the pixels after `ip`.
unfoldable pub encode_loop : List ℕ → EncodeState → EncodeState
encode_loop [] s = emit_run s (if s.pv == 0 then s.ip + 1 else s.x1) s.pv
encode_loop (p ∷ ps) s = encode_loop ps (encode_step s p)

-- The words behind the header.
unfoldable pub data_words : List ℕ → List ℕ
data_words [] = []
data_words (p ∷ ps) =
    (encode_loop ps (record { pv = clamp p; hi = 1; x1 = 0; iz = 0; ip = 0; out = [] })).out

-- The header, with the total length in its fourth and fifth words.
unfoldable pub with_header : List ℕ → List ℕ
with_header words =
    let total = length words + 7 in
    0 ∷ 7 ∷ (2 ^ 16 - 100) ∷ as_i16 (total % 32768) ∷ as_i16 (total / 32768) ∷ 0 ∷ 0 ∷ words

unfoldable pub shorts_to_be_bytes : List ℕ → List ℕ
shorts_to_be_bytes [] = []
shorts_to_be_bytes (s ∷ ss) = s / 256 ∷ s % 256 ∷ shorts_to_be_bytes ss

unfoldable pub encode_plio_i32 : List ℕ → Outcome PlioError (List ℕ)
unfolding validate data_words encode_loop encode_step emit_run emit with_header shorts_to_be_bytes
encode_plio_i32 pixels = do
  validate pixels
  ok (shorts_to_be_bytes (with_header (data_words pixels)))

-- The big-endian pixels as i32, sign-extended but for one byte.
unfoldable pub read_pixels_1 : List ℕ → List ℕ
read_pixels_1 [] = []
read_pixels_1 (a ∷ bytes) = a ∷ read_pixels_1 bytes

unfoldable pub read_pixels_2 : List ℕ → List ℕ
read_pixels_2 (a ∷ b ∷ bytes) = extend_i16 (a * 256 + b) ∷ read_pixels_2 bytes
read_pixels_2 _ = []

unfoldable pub read_pixels_4 : List ℕ → List ℕ
read_pixels_4 (a ∷ b ∷ c ∷ d ∷ bytes) =
    (a * 2 ^ 24 + b * 2 ^ 16 + c * 256 + d) ∷ read_pixels_4 bytes
read_pixels_4 _ = []

unfoldable pub read_pixels : ℕ → ℕ → List ℕ → Outcome PlioError (List ℕ)
unfolding read_pixels_1 read_pixels_2 read_pixels_4
read_pixels bytepix zbitpix bytes =
    if bytepix == 1 && zbitpix == 8
    then ok (read_pixels_1 bytes)
    else (if bytepix == 2 && zbitpix == 16
        then ok (read_pixels_2 bytes)
        else (if bytepix == 4 && zbitpix == 32
            then ok (read_pixels_4 bytes)
            else err cast_mismatch))

unfoldable pub encode_plio : List ℕ → ℕ → ℕ → ℕ → Outcome PlioError (List ℕ)
unfolding read_pixels encode_plio_i32
encode_plio bytes n_pixels bytepix zbitpix = do
  fail_if (not (is_zbitpix zbitpix)) unsupported_zbitpix
  fail_if (not (is_bytepix bytepix)) unsupported_bytepix
  fail_if (leb (2 ^ 64) (n_pixels * bytepix)) size_overflow
  fail_if (not (length bytes == n_pixels * bytepix)) wrong_length
  pixels ← read_pixels bytepix zbitpix bytes
  encode_plio_i32 pixels
