-- ===== src/Checksum/Ascii/RoundTrip.antt =====
-- checksum.rs, `encode_checksum_ascii` and `decode_checksum_ascii`: the inverse, and what the
-- characters are.
use rustfits.Prelude.{
  ℕ, ◌+◌, ◌*◌, ◌/◌, ◌%◌, ◌^◌, ◌≤◌, ◌≡◌, refl, ap, ◌∙◌, Bool, true, false, length, All, IsU32, arith,
}
use rustfits.Checksum.{Halves, fold_carry, carry_rounds, join_halves}
use rustfits.Checksum.Carry.{ones_sum, value, fold_carry_rounds, join_folded, ones_sum_u32}
use rustfits.Checksum.Ascii.{
  Quartet, encode_byte, interleave, rotate, encode_value, encode_checksum_ascii, unshift,
  sum_groups, decode_checksum_ascii, complemented, as_u8, not_u32,
}
use rustfits.Checksum.Ascii.Table.{is_alnum, IsSettled, encode_byte-IsSettled, alnum_range}

-- A quartet whose characters need no wrapping.
pub record InRange (q : Quartet) : Type 0 where
  pub r0 : (0x30 ≤ q.c0) × (q.c0 ≤ 0x7a)
  pub r1 : (0x30 ≤ q.c1) × (q.c1 ≤ 0x7a)
  pub r2 : (0x30 ≤ q.c2) × (q.c2 ≤ 0x7a)
  pub r3 : (0x30 ≤ q.c3) × (q.c3 ≤ 0x7a)

pub InRange-of_settled : {b : ℕ} {q : Quartet} → IsSettled b q → InRange q
InRange-of_settled {b} {q} s = record {
  r0 = alnum_range q.c0 s.alnum0;
  r1 = alnum_range q.c1 s.alnum1;
  r2 = alnum_range q.c2 s.alnum2;
  r3 = alnum_range q.c3 s.alnum3;
}

abbrev zero_halves : Halves
zero_halves = record { hi = 0; lo = 0 }

abbrev pair_total : Quartet → Quartet → ℕ
pair_total p q = (p.c0 + p.c1 + p.c2 + p.c3) * 256 + (q.c0 + q.c1 + q.c2 + q.c3)

sum_groups_lem :
    (p q r s : Quartet)
    → InRange p
    → InRange q
    → InRange r
    → InRange s
    → let h = sum_groups (unshift (rotate (interleave p q r s))) zero_halves in
      (h.hi + 4 * 0x30 * 257 ≡ pair_total p q) × (h.lo + 4 * 0x30 * 257 ≡ pair_total r s)
unfolding sum_groups
sum_groups_lem p q r s P Q R S = omega arith

-- The characters of a 32-bit value, in terms of its bytes.
pub record Encoded (v : ℕ) (p q r s : Quartet) : Type 0 where
  pub p_settled : IsSettled (v / 2 ^ 24 % 256) p
  pub q_settled : IsSettled (v / 2 ^ 16 % 256) q
  pub r_settled : IsSettled (v / 2 ^ 8 % 256) r
  pub s_settled : IsSettled (v % 256) s
  pub written : encode_value v ≡ rotate (interleave p q r s)

pub encode_value-Encoded :
    (v : ℕ)
    → Encoded v
        (encode_byte (v / 2 ^ 24 % 256))
        (encode_byte (v / 2 ^ 16 % 256))
        (encode_byte (v / 2 ^ 8 % 256))
        (encode_byte (v % 256))
unfolding encode_value
encode_value-Encoded v = record {
  p_settled = encode_byte-IsSettled (v / 2 ^ 24 % 256) (omega arith);
  q_settled = encode_byte-IsSettled (v / 2 ^ 16 % 256) (omega arith);
  r_settled = encode_byte-IsSettled (v / 2 ^ 8 % 256) (omega arith);
  s_settled = encode_byte-IsSettled (v % 256) (omega arith);
  written = refl;
}

decode_written :
    {v : ℕ} {p q r s : Quartet}
    → IsU32 v
    → Encoded v p q r s
    → join_halves (fold_carry carry_rounds (sum_groups (unshift (encode_value v)) zero_halves)) ≡ v
decode_written {v} {p} {q} {r} {s} u e =
    let h = sum_groups (unshift (rotate (interleave p q r s))) zero_halves in
    let sums =
      sum_groups_lem p q r s (InRange-of_settled e.p_settled) (InRange-of_settled e.q_settled)
        (InRange-of_settled e.r_settled) (InRange-of_settled e.s_settled) in
    let same : value h ≡ v =
      omega
        (arith, sums, e.p_settled.total, e.q_settled.total, e.r_settled.total, e.s_settled.total) in
    rw e.written (
      join_folded (fold_carry_rounds h (omega (arith, same)) (omega (arith, same)))
      ∙ ap ones_sum same
      ∙ ones_sum_u32 v u)

-- Decoding the 16 characters of a 32-bit sum gives the sum back, with and without the complement.
pub decode-encode_checksum_ascii :
    (sum : ℕ) (complement : Bool)
    → IsU32 sum
    → decode_checksum_ascii (encode_checksum_ascii sum complement) complement ≡ sum
unfolding decode_checksum_ascii encode_checksum_ascii
decode-encode_checksum_ascii sum true u =
    rw (decode_written {v = not_u32 sum} (omega arith) (encode_value-Encoded (not_u32 sum)))
      (omega arith)
decode-encode_checksum_ascii sum false u = decode_written u (encode_value-Encoded sum)

small_char : (c : ℕ) → is_alnum c ≡ true → is_alnum (as_u8 c) ≡ true
small_char c h = let e : as_u8 c ≡ c = omega (arith, alnum_range c h) in rw e h

written_chars :
    {v : ℕ} {p q r s : Quartet}
    → Encoded v p q r s
    → All (λ c. is_alnum c ≡ true) (rotate (interleave p q r s))
written_chars {v} {p} {q} {r} {s} e =
    let P = e.p_settled in
    let Q = e.q_settled in
    let R = e.r_settled in
    let S = e.s_settled in
    (
      small_char s.c3 S.alnum3,
      (
        small_char p.c0 P.alnum0,
        (
          small_char q.c0 Q.alnum0,
          (
            small_char r.c0 R.alnum0,
            (
              small_char s.c0 S.alnum0,
              (
                small_char p.c1 P.alnum1,
                (
                  small_char q.c1 Q.alnum1,
                  (
                    small_char r.c1 R.alnum1,
                    (
                      small_char s.c1 S.alnum1,
                      (
                        small_char p.c2 P.alnum2,
                        (
                          small_char q.c2 Q.alnum2,
                          (
                            small_char r.c2 R.alnum2,
                            (
                              small_char s.c2 S.alnum2,
                              (
                                small_char p.c3 P.alnum3,
                                (small_char q.c3 Q.alnum3, (small_char r.c3 R.alnum3, tt)),
                              ),
                            ),
                          ),
                        ),
                      ),
                    ),
                  ),
                ),
              ),
            ),
          ),
        ),
      ),
    )

-- The encoding of any sum is 16 characters, each an ASCII letter or digit.
pub encode_checksum_ascii_chars :
    (sum : ℕ) (complement : Bool)
    → (length (encode_checksum_ascii sum complement) ≡ 16)
      × All (λ c. is_alnum c ≡ true) (encode_checksum_ascii sum complement)
unfolding encode_checksum_ascii encode_value
encode_checksum_ascii_chars sum complement =
    (refl, written_chars (encode_value-Encoded (complemented sum complement)))
