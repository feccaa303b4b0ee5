-- ===== src/Rice/Unary.antt =====
-- zimage/rice.rs: unary codes in the decoder's buffer.
use rustfits.Prelude.{
  ℕ, zero, suc, ◌+◌, ◌-◌, ◌*◌, ◌%◌, ◌^◌, ◌≤◌, ◌<◌, ◌≡◌, refl, sym, ap, ◌∙◌, true, false, ltb,
  two_pow_pos, List, ◌∷◌, ◌++◌, append_assoc, replicate, arith,
}
use native.Mathlib.Nat.{pow-suc, mul-lt-mul_of_pos_right, mul-le-mul_right}
use native.Mathlib.Decide.{dec_lt}
use rustfits.Rice.Digits.{to_bits, byte_bits, to_bits-add, two_pow_add}
use rustfits.Rice.Buffer.{Buffer, leading_zeros}
use rustfits.Rice.Filled.{Holds}
use rustfits.Rice.Taken.{split_word}

zeros : ℕ → List ℕ
zeros n = replicate n 0

pub to_bits_zero : (n : ℕ) → to_bits n 0 ≡ replicate n 0
to_bits_zero zero = refl
to_bits_zero (suc n) =
    let e : suc n ≡ 1 + n = omega arith in
    let nothing : 0 ≡ 0 * 2 ^ n + 0 = omega arith in
    ap (λ (m : ℕ). to_bits m 0) e
    ∙ ap (to_bits (1 + n)) nothing
    ∙ to_bits-add 1 n 0 0 (two_pow_pos n)
    ∙ ap (λ (l : List ℕ). 0 ∷ l) (to_bits_zero n)

differ : ◌≡◌ {A = ℕ} 0 1 → ⊥
differ e = omega arith

-- Zeros and a one begin a list in one way.
unary_injective :
    (m n : ℕ) (xs ys : List ℕ)
    → replicate m 0 ++ 1 ∷ xs ≡ replicate n 0 ++ 1 ∷ ys
    → (m ≡ n) × (xs ≡ ys)
unary_injective zero zero xs ys e = (refl, cc)
unary_injective zero (suc n) xs ys e = absurd (differ cc)
unary_injective (suc m) zero xs ys e = absurd (differ cc)
unary_injective (suc m) (suc n) xs ys e =
    let tails : replicate m 0 ++ 1 ∷ xs ≡ replicate n 0 ++ 1 ∷ ys = cc in
    let (same, rest) = unary_injective m n xs ys tails in (omega arith, rest)

-- Zeros that a unary code begins with.
unary_after :
    (m n : ℕ) (xs ys : List ℕ)
    → replicate m 0 ++ xs ≡ replicate n 0 ++ 1 ∷ ys
    → (m ≤ n) × (xs ≡ replicate (n - m) 0 ++ 1 ∷ ys)
unary_after zero n xs ys e = let whole : n - 0 ≡ n = omega arith in (omega arith, rw whole e)
unary_after (suc m) zero xs ys e = absurd (differ cc)
unary_after (suc m) (suc n) xs ys e =
    let tails : replicate m 0 ++ xs ≡ replicate n 0 ++ 1 ∷ ys = cc in
    let (le, rest) = unary_after m n xs ys tails in
    let left : suc n - suc m ≡ n - m = omega arith in (omega arith, rw left rest)

-- The first one of a number, and the digits behind it.
record Leads (n high z : ℕ) : Type 0 where
  inside : z < n
  at_one : 2 ^ (n - suc z) ≤ high
  rest_small : high - 2 ^ (n - suc z) < 2 ^ (n - suc z)
  digits : to_bits n high ≡ replicate z 0 ++ 1 ∷ to_bits (n - suc z) (high - 2 ^ (n - suc z))

leading_zeros-Leads : (n high : ℕ) → high < 2 ^ n → 0 < high → Leads n high (leading_zeros n high)
leading_zeros-Leads zero high small pos = absurd (omega arith)
leading_zeros-Leads (suc n) high small pos = elim (dec_lt high (2 ^ n)) [
  | yes low ↦
      let t : ltb high (2 ^ n) ≡ true = ground arith in
      let l = leading_zeros-Leads n high low pos in
      let z = leading_zeros n high in
      let left : suc n - suc (suc z) ≡ n - suc z = omega arith in
      let inside = l.inside in
      let nothing : high ≡ 0 * 2 ^ n + high = omega arith in
      let width : suc n ≡ 1 + n = omega arith in
      rw t (record {
        inside = omega arith;
        at_one = rw left l.at_one;
        rest_small = rw left l.rest_small;
        digits = rw left (
            ap (λ (m : ℕ). to_bits m high) width
            ∙ ap (to_bits (1 + n)) nothing
            ∙ to_bits-add 1 n 0 high low
            ∙ ap (λ (d : List ℕ). 0 ∷ d) l.digits);
      })
  | no here ↦
      let t : ltb high (2 ^ n) ≡ false = ground arith in
      let twice : 2 ^ suc n ≡ 2 ^ n * 2 = pow-suc 2 n in
      let left : suc n - 1 ≡ n = omega arith in
      let width : suc n ≡ 1 + n = omega arith in
      let parts : 1 * 2 ^ n + (high - 2 ^ n) ≡ high = omega arith in
      rw t (record {
        inside = omega arith;
        at_one = rw left (omega arith);
        rest_small = rw left (omega arith);
        digits = rw left (
            ap (λ (m : ℕ). to_bits m high) width
            ∙ ap (to_bits (1 + n)) (sym parts)
            ∙ to_bits-add 1 n 1 (high - 2 ^ n) (omega arith));
      })
]

leading_zeros-shift :
    (n k high : ℕ)
    → high < 2 ^ n
    → 0 < high
    → leading_zeros (n + k) (high * 2 ^ k) ≡ leading_zeros n high
leading_zeros-shift zero k high small pos = absurd (omega arith)
leading_zeros-shift (suc n) k high small pos =
    let width : suc n + k ≡ suc (n + k) = omega arith in
    let split = two_pow_add n k in
    elim (dec_lt high (2 ^ n)) [
      | yes low ↦
          let low' = mul-lt-mul_of_pos_right low (two_pow_pos k) in
          let t : ltb high (2 ^ n) ≡ true = ground arith in
          let t' : ltb (high * 2 ^ k) (2 ^ (n + k)) ≡ true = ground (arith, split, low') in
          rw (width, t, t') (ap suc (leading_zeros-shift n k high low pos))
      | no here ↦
          let high' = mul-le-mul_right {m = 2 ^ n} {n = high} (2 ^ k) (omega arith) in
          let t : ltb high (2 ^ n) ≡ false = ground arith in
          let t' : ltb (high * 2 ^ k) (2 ^ (n + k)) ≡ false = ground (arith, split, high') in
          rw (width, t, t') refl
    ]

module _ (s : Buffer) (q : ℕ) (more : List ℕ) (h : Holds s (replicate q 0 ++ 1 ∷ more)) where
  -- The one is in the buffer.
  pub found-Holds :
      0 < h.high
      → (leading_zeros 64 s.buf ≡ q)
        × Holds
            (record {
              buf = s.buf * 2 ^ q % 2 ^ 64 * 2 % 2 ^ 64;
              nbits = s.nbits - (q + 1);
              rest = s.rest;
            })
            more
  found-Holds pos =
      let n = s.nbits in
      let k = 64 - n in
      let room = h.room in
      let z = leading_zeros n h.high in
      let l = leading_zeros-Leads n h.high h.small pos in
      let inside = l.inside in
      let m = n - suc z in
      let low = h.high - 2 ^ m in
      let word : n + k ≡ 64 = omega arith in
      let lz : leading_zeros 64 s.buf ≡ z =
        ap (leading_zeros 64) h.value
        ∙ ap (λ (w : ℕ). leading_zeros w (h.high * 2 ^ k)) (sym word)
        ∙ leading_zeros-shift n k h.high h.small pos in
      let stream : replicate q 0 ++ 1 ∷ more
          ≡ replicate z 0 ++ 1 ∷ (to_bits m low ++ byte_bits s.rest) =
        h.stream
        ∙ ap (λ (d : List ℕ). d ++ byte_bits s.rest) l.digits
        ∙ append_assoc (replicate z 0) (1 ∷ to_bits m low) (byte_bits s.rest) in
      let (same, rest) = unary_injective q z more (to_bits m low ++ byte_bits s.rest) stream in
      let at_one = l.at_one in
      let parts : h.high ≡ 1 * 2 ^ m + low = omega arith in
      let whole : 2 ^ m * 2 ^ k * 2 ^ suc z ≡ 2 ^ 64 =
        ap (λ (p : ℕ). p * 2 ^ suc z) (sym (two_pow_add m k))
        ∙ sym (two_pow_add (m + k) (suc z))
        ∙ ap (λ (p : ℕ). 2 ^ p) (let e : m + k + suc z ≡ 64 = omega arith in e) in
      let below : 2 ^ (64 - m) ≡ 2 ^ k * 2 ^ suc z =
        ap (λ (p : ℕ). 2 ^ p) (let e : 64 - m ≡ k + suc z = omega arith in e)
        ∙ two_pow_add k (suc z) in
      let (_, shifted) =
        split_word 1 low (2 ^ m) (2 ^ k) (2 ^ suc z) s.buf
          (h.value ∙ ap (λ (p : ℕ). p * 2 ^ k) parts) l.rest_small (two_pow_pos k)
          (two_pow_pos (suc z)) whole in
      let twice : s.buf * 2 ^ suc z ≡ s.buf * 2 ^ z * 2 = rw (pow-suc 2 z) (omega arith) in
      let two_shifts : s.buf * 2 ^ z % 2 ^ 64 * 2 % 2 ^ 64 ≡ s.buf * 2 ^ suc z % 2 ^ 64 =
        omega arith in
      let width : s.nbits - (z + 1) ≡ m = omega arith in
      (
        lz ∙ sym same,
        rw (same, width)
            (record {
              high = low;
              room = omega arith;
              value = two_shifts ∙ shifted ∙ ap (λ (p : ℕ). low * p) (sym below);
              small = l.rest_small;
              stream = rest;
              bytes = h.bytes;
            }),
      )

  -- No one is in the buffer: its bits are zeros, and the code goes on in the bytes.
  pub empty-Holds :
      h.high ≡ 0
      → (s.nbits ≤ q)
        × Holds
            (record { buf = 0; nbits = 0; rest = s.rest })
            (replicate (q - s.nbits) 0 ++ 1 ∷ more)
  empty-Holds none =
      let stream : replicate s.nbits 0 ++ byte_bits s.rest ≡ replicate q 0 ++ 1 ∷ more =
        ap (λ (d : List ℕ). d ++ byte_bits s.rest) (sym (to_bits_zero s.nbits))
        ∙ ap (λ (v : ℕ). to_bits s.nbits v ++ byte_bits s.rest) (sym none)
        ∙ sym h.stream in
      let (le, rest) = unary_after s.nbits q (byte_bits s.rest) more stream in
      (
        le,
        record {
          high = 0;
          room = omega arith;
          value = omega arith;
          small = omega arith;
          stream = sym rest;
          bytes = h.bytes;
        },
      )
