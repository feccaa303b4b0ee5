-- ===== src/Plio/Decode.antt =====
-- zimage/plio.rs, `decode_plio`.
use rustfits.Prelude.{
  ℕ, zero, suc, ◌+◌, ◌-◌, ◌*◌, ◌/◌, ◌%◌, ◌^◌, min, bit_and, bit_or, Bool, true, false, not, ◌&&◌,
  ◌||◌, List, [], ◌∷◌, ◌++◌, length, take, drop, get_or, replicate, ◌==◌, ltb, leb, if◌then◌else◌,
  Outcome, ok, err, ◌>>=◌, ◌>>◌, fail_if,
}
use rustfits.Plio.{
  PlioError, unsupported_zbitpix, unsupported_bytepix, odd_payload, header_truncated,
  negative_length, negative_offset, length_past_end, offset_past_end, run_overflow, set_high_at_end,
  pixel_overflow, unknown_opcode, cast_mismatch, is_zbitpix, is_bytepix, extend_i16,
}

-- The loop's variables: `x1` counts pixels from 1, `op` is the next place in the output.
pub record DecodeState : Type 0 where
  pub x1 : ℕ
  pub pv : ℕ
  pub op : ℕ
  pub skipwd : Bool
  pub output : List ℕ

-- `for v in &mut output[start..start + count] { *v = value; }`
unfoldable pub fill : List ℕ → ℕ → ℕ → ℕ → List ℕ
fill [] start count value = []
fill (x ∷ xs) (suc start) count value = x ∷ fill xs start count value
fill (x ∷ xs) zero (suc count) value = value ∷ fill xs zero count value
fill (x ∷ xs) zero zero value = x ∷ xs

abbrev pub wrap_add : ℕ → ℕ → ℕ
wrap_add a b = (a + b) % 2 ^ 32

abbrev pub wrap_sub : ℕ → ℕ → ℕ
wrap_sub a b = (a + 2 ^ 32 - b) % 2 ^ 32

-- What a run writes, by its opcode. `whole` tells whether its end lies inside the tile.
unfoldable pub write_run : DecodeState → ℕ → ℕ → Bool → List ℕ
unfolding fill
write_run s opcode np whole =
    if opcode == 4
    then fill s.output s.op np s.pv
    else (if opcode == 5 && whole
        then fill (fill s.output s.op np 0) (s.op + np - 1) 1 s.pv
        else fill s.output s.op np 0)

-- Opcodes 0, 4 and 5. `np` is 0 where the source's is not positive.
unfoldable pub decode_run : ℕ → ℕ → ℕ → DecodeState → Outcome PlioError DecodeState
unfolding write_run
decode_run n_pixels opcode count s =
    let x2 = s.x1 + count - 1 in
    let i2 = min x2 n_pixels in
    let np = i2 + 1 - s.x1 in
    if np == 0
    then ok (record s { x1 = x2 + 1 })
    else (if leb n_pixels (s.op + np - 1)
        then err run_overflow
        else ok
            (record s { x1 = x2 + 1; op = s.op + np; output = write_run s opcode np (i2 == x2) }))

-- Opcodes 6 and 7, once `pv` is changed.
unfoldable pub decode_pixel : ℕ → DecodeState → Outcome PlioError DecodeState
unfolding fill
decode_pixel n_pixels s =
    if leb s.x1 n_pixels
    then (if leb n_pixels s.op
        then err pixel_overflow
        else ok (record s { x1 = s.x1 + 1; op = s.op + 1; output = fill s.output s.op 1 s.pv }))
    else ok (record s { x1 = s.x1 + 1 })

-- Opcode 1: the next word is the upper part.
unfoldable pub decode_set_high : ℕ → List ℕ → DecodeState → Outcome PlioError DecodeState
decode_set_high count [] s = err set_high_at_end
decode_set_high count (next ∷ _) s =
    ok (record s { pv = wrap_add (extend_i16 next * 2 ^ 12 % 2 ^ 32) count; skipwd = true })

-- One word that is not skipped.
unfoldable pub decode_word : ℕ → ℕ → List ℕ → DecodeState → Outcome PlioError DecodeState
unfolding decode_run decode_pixel decode_set_high
decode_word n_pixels raw rest s =
    let opcode = raw / 2 ^ 12 % 16 in
    let count = bit_and raw 0xfff in
    if opcode == 0 || (opcode == 4 || opcode == 5)
    then decode_run n_pixels opcode count s
    else (if opcode == 1
        then decode_set_high count rest s
        else (if opcode == 2
            then ok (record s { pv = wrap_add s.pv count })
            else (if opcode == 3
                then ok (record s { pv = wrap_sub s.pv count })
                else (if opcode == 6
                    then decode_pixel n_pixels (record s { pv = wrap_add s.pv count })
                    else (if opcode == 7
                        then decode_pixel n_pixels (record s { pv = wrap_sub s.pv count })
                        else err unknown_opcode)))))

-- The list holds the words from `ip` on.
unfoldable pub decode_loop : ℕ → List ℕ → DecodeState → Outcome PlioError DecodeState
unfolding decode_word
decode_loop n_pixels [] s = ok s
decode_loop n_pixels (raw ∷ rest) s =
    let skipped = decode_loop n_pixels rest (record s { skipwd = false }) in
    let decoded = decode_word n_pixels raw rest s >>= decode_loop n_pixels rest in
    if leb s.x1 n_pixels then (if s.skipwd then skipped else decoded) else ok s

unfoldable pub be_words : List ℕ → List ℕ
be_words (a ∷ b ∷ bytes) = (a * 256 + b) ∷ be_words bytes
be_words _ = []

-- The stream's length in words, and where its data begin.
pub record Extent : Type 0 where
  pub lllen : ℕ
  pub llfirt : ℕ

abbrev pub positive_i16 : ℕ → Bool
positive_i16 w = ltb 0 w && ltb w (2 ^ 15)

unfoldable pub read_header : List ℕ → Outcome PlioError Extent
read_header words =
    let upper = get_or words 4 0 in
    let first = get_or words 1 0 in
    if positive_i16 (get_or words 2 0)
    then ok (record { lllen = get_or words 2 0; llfirt = 3 })
    else (if leb (2 ^ 15) upper
        then err negative_length
        else (if leb (2 ^ 15) first
            then err negative_offset
            else ok (record {
              lllen = bit_or (upper * 2 ^ 15) (bit_and (get_or words 3 0) 0x7fff);
              llfirt = first;
            })))

unfoldable pub decode_pixels : List ℕ → ℕ → Outcome PlioError (List ℕ)
unfolding be_words read_header decode_loop
decode_pixels compressed n_pixels = do
  fail_if (not (length compressed % 2 == 0)) odd_payload
  let words = be_words compressed
  fail_if (ltb (length compressed / 2) 7) header_truncated
  extent ← read_header words
  fail_if (ltb (length compressed / 2) extent.lllen) length_past_end
  fail_if (ltb extent.lllen extent.llfirt) offset_past_end
  s ←
      decode_loop n_pixels (drop extent.llfirt (take extent.lllen words))
        (record { x1 = 1; pv = 1; op = 0; skipwd = false; output = replicate n_pixels 0 })
  ok s.output

-- The target's byte order is a parameter of the build, `cfg!(target_endian)`.
module _ (big_endian : Bool) where
  abbrev pub ne_bytes_2 : ℕ → List ℕ
  ne_bytes_2 v = if big_endian then v / 256 % 256 ∷ v % 256 ∷ [] else v % 256 ∷ v / 256 % 256 ∷ []

  abbrev pub ne_bytes_4 : ℕ → List ℕ
  ne_bytes_4 v =
      if big_endian
      then v / 2 ^ 24 % 256 ∷ v / 2 ^ 16 % 256 ∷ v / 256 % 256 ∷ v % 256 ∷ []
      else v % 256 ∷ v / 256 % 256 ∷ v / 2 ^ 16 % 256 ∷ v / 2 ^ 24 % 256 ∷ []

  unfoldable pub flat_bytes : (ℕ → List ℕ) → List ℕ → List ℕ
  flat_bytes f [] = []
  flat_bytes f (v ∷ vs) = f v ++ flat_bytes f vs

  unfoldable pub cast_i32_to_target_bytes : List ℕ → ℕ → ℕ → Outcome PlioError (List ℕ)
  unfolding flat_bytes
  cast_i32_to_target_bytes a bytepix zbitpix =
      if bytepix == 1 && zbitpix == 8
      then ok (flat_bytes (λ v. v % 256 ∷ []) a)
      else (if bytepix == 2 && zbitpix == 16
          then ok (flat_bytes ne_bytes_2 a)
          else (if bytepix == 4 && zbitpix == 32
              then ok (flat_bytes ne_bytes_4 a)
              else err cast_mismatch))

  unfoldable pub decode_plio : List ℕ → ℕ → ℕ → ℕ → Outcome PlioError (List ℕ)
  unfolding decode_pixels cast_i32_to_target_bytes
  decode_plio compressed n_pixels bytepix zbitpix = do
    fail_if (not (is_zbitpix zbitpix)) unsupported_zbitpix
    fail_if (not (is_bytepix bytepix)) unsupported_bytepix
    output ← decode_pixels compressed n_pixels
    cast_i32_to_target_bytes output bytepix zbitpix
