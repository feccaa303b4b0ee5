-- ===== src/Checksum/Ascii.antt =====
-- checksum.rs, `encode_checksum_ascii` and `decode_checksum_ascii`: a 32-bit sum as 16 letters and
-- digits.
pub mod Table
pub mod RoundTrip
pub mod Card
use rustfits.Prelude.{
  ℕ, zero, suc, ◌+◌, ◌-◌, ◌*◌, ◌/◌, ◌%◌, ◌^◌, Bool, true, false, ◌||◌, List, [], ◌∷◌, map, get_or,
  ◌==◌, if◌then◌else◌,
}
use rustfits.Checksum.{
  Halves, add_u32, fold_carry, carry_rounds, join_halves, compute_checksum_bytes,
  ones_complement_add,
}

-- The array `ch` of one byte's four characters. They stay far above 0, so `- 1` is exact.
pub record Quartet : Type 0 where
  pub c0 : ℕ
  pub c1 : ℕ
  pub c2 : ℕ
  pub c3 : ℕ

abbrev pub exclude : List ℕ
exclude =
    0x3a ∷ 0x3b ∷ 0x3c ∷ 0x3d ∷ 0x3e ∷ 0x3f ∷ 0x40 ∷ 0x5b ∷ 0x5c ∷ 0x5d ∷ 0x5e ∷ 0x5f ∷ 0x60 ∷ []

-- Whether one of a pair of characters is the excluded one.
abbrev hits : ℕ → ℕ → ℕ → Bool
hits e a b = a % 256 == e || b % 256 == e

-- The body of the loops over `kk` and `jj`, with the flag `adjusted`.
unfoldable pub adjust_char : ℕ → Quartet × Bool → Quartet × Bool
adjust_char e (q, adjusted) =
    let first = hits e q.c0 q.c1 in
    let second = hits e q.c2 q.c3 in
    (
      record {
        c0 = if first then q.c0 + 1 else q.c0;
        c1 = if first then q.c1 - 1 else q.c1;
        c2 = if second then q.c2 + 1 else q.c2;
        c3 = if second then q.c3 - 1 else q.c3;
      },
      adjusted || first || second,
    )

unfoldable pub adjust_pass : List ℕ → Quartet × Bool → Quartet × Bool
unfolding adjust_char
adjust_pass [] s = s
adjust_pass (e ∷ es) s = adjust_pass es (adjust_char e s)

-- The loop until no pair is adjusted. Sixteen rounds are more than any byte takes (Table).
unfoldable pub rebalance : ℕ → Quartet → Quartet
unfolding adjust_pass
rebalance zero q = q
rebalance (suc fuel) q =
    let pass = adjust_pass exclude (q, false) in
    elim pass.1 [ true ↦ rebalance fuel pass.0 | false ↦ pass.0 ]

unfoldable pub encode_byte : ℕ → Quartet
unfolding rebalance
encode_byte byte =
    let quotient = byte / 4 + 0x30 in
    rebalance 16 (record { c0 = quotient + byte % 4; c1 = quotient; c2 = quotient; c3 = quotient })

-- `as u8`
abbrev pub as_u8 : ℕ → ℕ
as_u8 c = c % 256

-- `asc[4 * jj + ii] = ch[jj]`, for the bytes `ii` from the most significant on.
abbrev pub interleave : Quartet → Quartet → Quartet → Quartet → List ℕ
interleave p q r s =
    as_u8 p.c0
    ∷ as_u8 q.c0
    ∷ as_u8 r.c0
    ∷ as_u8 s.c0
    ∷ as_u8 p.c1
    ∷ as_u8 q.c1
    ∷ as_u8 r.c1
    ∷ as_u8 s.c1
    ∷ as_u8 p.c2
    ∷ as_u8 q.c2
    ∷ as_u8 r.c2
    ∷ as_u8 s.c2
    ∷ as_u8 p.c3
    ∷ as_u8 q.c3
    ∷ as_u8 r.c3
    ∷ as_u8 s.c3
    ∷ []

-- `ascii[ii] = asc[(ii + 15) % 16]`
abbrev pub rotate : List ℕ → List ℕ
rotate asc =
    get_or asc 15 0
    ∷ get_or asc 0 0
    ∷ get_or asc 1 0
    ∷ get_or asc 2 0
    ∷ get_or asc 3 0
    ∷ get_or asc 4 0
    ∷ get_or asc 5 0
    ∷ get_or asc 6 0
    ∷ get_or asc 7 0
    ∷ get_or asc 8 0
    ∷ get_or asc 9 0
    ∷ get_or asc 10 0
    ∷ get_or asc 11 0
    ∷ get_or asc 12 0
    ∷ get_or asc 13 0
    ∷ get_or asc 14 0
    ∷ []

-- `!sum` on 32 bits.
abbrev pub not_u32 : ℕ → ℕ
not_u32 sum = 2 ^ 32 - 1 - sum

abbrev pub complemented : ℕ → Bool → ℕ
complemented sum complement = if complement then not_u32 sum else sum

-- `(value & masks[ii]) >> (24 - 8 * ii)` is the byte `ii` of the value.
unfoldable pub encode_value : ℕ → List ℕ
unfolding encode_byte
encode_value value = rotate (
    interleave (encode_byte (value / 2 ^ 24 % 256)) (encode_byte (value / 2 ^ 16 % 256))
      (encode_byte (value / 2 ^ 8 % 256)) (encode_byte (value % 256)))

unfoldable pub encode_checksum_ascii : ℕ → Bool → List ℕ
unfolding encode_value
encode_checksum_ascii sum complement = encode_value (complemented sum complement)

-- `ascii[i] as i32 - 0x30`, as the u32 that it is used as.
abbrev pub char_value : ℕ → ℕ
char_value c = (c + 2 ^ 32 - 0x30) % 2 ^ 32

-- `cbuf[ii] = ascii[(ii + 1) % 16] as i32 - 0x30`
abbrev pub unshift : List ℕ → List ℕ
unshift ascii =
    char_value (get_or ascii 1 0)
    ∷ char_value (get_or ascii 2 0)
    ∷ char_value (get_or ascii 3 0)
    ∷ char_value (get_or ascii 4 0)
    ∷ char_value (get_or ascii 5 0)
    ∷ char_value (get_or ascii 6 0)
    ∷ char_value (get_or ascii 7 0)
    ∷ char_value (get_or ascii 8 0)
    ∷ char_value (get_or ascii 9 0)
    ∷ char_value (get_or ascii 10 0)
    ∷ char_value (get_or ascii 11 0)
    ∷ char_value (get_or ascii 12 0)
    ∷ char_value (get_or ascii 13 0)
    ∷ char_value (get_or ascii 14 0)
    ∷ char_value (get_or ascii 15 0)
    ∷ char_value (get_or ascii 0 0)
    ∷ []

-- The loop over `ii` in steps of 4.
unfoldable pub sum_groups : List ℕ → Halves → Halves
sum_groups (a ∷ b ∷ c ∷ d ∷ rest) h = sum_groups rest (record {
  hi = add_u32 h.hi (add_u32 (a * 2 ^ 8 % 2 ^ 32) b);
  lo = add_u32 h.lo (add_u32 (c * 2 ^ 8 % 2 ^ 32) d);
})
sum_groups _ h = h

unfoldable pub decode_checksum_ascii : List ℕ → Bool → ℕ
unfolding sum_groups fold_carry
decode_checksum_ascii ascii complement =
    let groups = sum_groups (unshift ascii) (record { hi = 0; lo = 0 }) in
    complemented (join_halves (fold_carry carry_rounds groups)) complement

-- The middle steps of `cards_with_checksum`: the characters for a header that holds the placeholder.
unfoldable pub checksum_chars : List ℕ → ℕ → List ℕ
checksum_chars header_bytes datasum =
    encode_checksum_ascii (ones_complement_add (compute_checksum_bytes 0 header_bytes) datasum) true
