-- ===== src/Rice/Buffer.antt =====
-- zimage/rice.rs: the decoder's buffer of 64 bits in decode_rice_int_u32buf, and how it is filled.
use rustfits.Prelude.{
  ℕ, zero, suc, ◌+◌, ◌-◌, ◌*◌, ◌/◌, ◌%◌, ◌^◌, ◌==◌, ltb, leb, if◌then◌else◌, bit_or, List, [], ◌∷◌,
  length, Outcome, ok, err,
}
use rustfits.Rice.{RiceError, end_of_stream, unary_too_long}

-- The first `nbits` bits of `buf` are to be read next, and then `rest`, the data from `pos` on.
pub record Buffer : Type 0 where
  pub buf : ℕ
  pub nbits : ℕ
  pub rest : List ℕ

abbrev buffer : ℕ → ℕ → List ℕ → Buffer
buffer buf nbits rest = record { buf = buf; nbits = nbits; rest = rest }

-- `u32::from_be_bytes`
abbrev pub from_be : ℕ → ℕ → ℕ → ℕ → ℕ
from_be a b c d = ((a * 256 + b) * 256 + c) * 256 + d

-- The first loop of `refill`, which takes four bytes at a time.
unfoldable pub refill_words : ℕ → ℕ → List ℕ → Buffer
refill_words buf nbits [] = buffer buf nbits []
refill_words buf nbits (a ∷ []) = buffer buf nbits (a ∷ [])
refill_words buf nbits (a ∷ b ∷ []) = buffer buf nbits (a ∷ b ∷ [])
refill_words buf nbits (a ∷ b ∷ c ∷ []) = buffer buf nbits (a ∷ b ∷ c ∷ [])
refill_words buf nbits (a ∷ b ∷ c ∷ d ∷ rest) =
    let more =
      refill_words (bit_or buf (from_be a b c d * 2 ^ (32 - nbits) % 2 ^ 64)) (nbits + 32) rest in
    if leb nbits 32 then more else buffer buf nbits (a ∷ b ∷ c ∷ d ∷ rest)

-- The second loop, which takes a byte at a time.
unfoldable pub refill_bytes : ℕ → ℕ → List ℕ → Buffer
refill_bytes buf nbits [] = buffer buf nbits []
refill_bytes buf nbits (a ∷ rest) =
    let more = refill_bytes (bit_or buf (a * 2 ^ (56 - nbits) % 2 ^ 64)) (nbits + 8) rest in
    if leb nbits 56 then more else buffer buf nbits (a ∷ rest)

unfoldable pub refill : Buffer → Buffer
refill s = let t = refill_words s.buf s.nbits s.rest in refill_bytes t.buf t.nbits t.rest

abbrev pub consume : ℕ → Buffer → Buffer
consume n s = buffer (s.buf * 2 ^ n % 2 ^ 64) (s.nbits - n) s.rest

-- `n` bits, after a refill where fewer are at hand.
abbrev pub take_ready : ℕ → Buffer → Outcome RiceError (ℕ × Buffer)
take_ready n s = if ltb s.nbits n then err end_of_stream else ok (s.buf / 2 ^ (64 - n), consume n s)

unfoldable pub take_bits : ℕ → Buffer → Outcome RiceError (ℕ × Buffer)
take_bits n s = take_ready n (if ltb s.nbits n then refill s else s)

-- `leading_zeros` of a number of `width` bits.
abbrev pub leading_zeros : ℕ → ℕ → ℕ
leading_zeros zero v = 0
leading_zeros (suc width) v = if ltb v (2 ^ width) then suc (leading_zeros width v) else 0

-- The zeros of a unary code and the one behind them. A turn that does not end the loop leaves fewer
-- bytes, so a turn more than there are bytes is enough, and one for what the buffer has.
unfoldable pub count_zeros : ℕ → ℕ → Buffer → Outcome RiceError (ℕ × Buffer)
count_zeros zero seen s = err end_of_stream
count_zeros (suc fuel) seen s =
    let lz = leading_zeros 64 s.buf in
    let behind = buffer (s.buf * 2 ^ lz % 2 ^ 64 * 2 % 2 ^ 64) (s.nbits - (lz + 1)) s.rest in
    let total = seen + s.nbits in
    let filled = refill (buffer s.buf 0 s.rest) in
    let again = count_zeros fuel total filled in
    if s.buf == 0
    then if ltb 1024 total
      then err unary_too_long
      else if filled.nbits == 0
      then err end_of_stream
      else again
    else ok (seen + lz, behind)

unfoldable pub take_unary : Buffer → Outcome RiceError (ℕ × Buffer)
take_unary s = count_zeros (suc (suc (length s.rest))) 0 s
