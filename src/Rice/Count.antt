-- ===== src/Rice/Count.antt =====
-- zimage/rice.rs: the loop over the zeros of a unary code.
use rustfits.Prelude.{
  ℕ, zero, suc, ◌+◌, ◌-◌, ◌*◌, ◌%◌, ◌^◌, ◌≤◌, ◌<◌, ◌≡◌, refl, ap, ◌∙◌, inl, inr, false, ◌==◌, ltb,
  two_pow_pos, List, [], ◌∷◌, ◌++◌, length, length-append, replicate, ok, arith,
}
use native.Mathlib.Nat.{mul-pos}
use native.Mathlib.Decide.{dec_lt}
use rustfits.Rice.Buffer.{Buffer, refill, count_zeros, take_unary}
use rustfits.Rice.Filled.{Holds, refill-Holds}
use rustfits.Rice.Taken.{length-Holds}
use rustfits.Rice.Unary.{found-Holds, empty-Holds}

-- A refill of an empty buffer, where a bit is left, takes a byte at least.
record IsRefilled (s : Buffer) (bits : List ℕ) : Type 0 where
  holds : Holds (refill s) bits
  some : (refill s).nbits == 0 ≡ false
  less : length (refill s).rest < length s.rest

refill-IsRefilled :
    (s : Buffer) (bits : List ℕ) → s.nbits ≡ 0 → 0 < length bits → Holds s bits → IsRefilled s bits
refill-IsRefilled s bits empty some_left h =
    let (filled, ready, le) = refill-Holds s bits h in
    let before = length-Holds s bits h in
    let after = length-Holds (refill s) bits filled in
    let none_left : (e : (refill s).rest ≡ []) → length (refill s).rest ≡ 0 = λ e. ap length e in
    record {
      holds = filled;
      some = elim ready [
        | inl full ↦ ground arith
        | inr e ↦ let none = none_left e in ground arith
      ];
      less = elim ready [ inl full ↦ omega arith | inr e ↦ let none = none_left e in omega arith ];
    }

pub count_zeros-Holds :
    (fuel seen q : ℕ) (s : Buffer) (more : List ℕ)
    → length s.rest < fuel
    → seen + q ≤ 1024
    → Holds s (replicate q 0 ++ 1 ∷ more)
    → (t : Buffer) × (count_zeros fuel seen s ≡ ok (seen + q, t)) × Holds t more
unfolding count_zeros
count_zeros-Holds zero seen q s more enough short h = absurd (omega arith)
count_zeros-Holds (suc fuel) seen q s more enough short h = elim (dec_lt 0 h.high) [
  | yes pos ↦
      let value = h.value in
      let buf_pos = mul-pos pos (two_pow_pos (64 - s.nbits)) in
      let t : (s.buf == 0) ≡ false = ground arith in
      let (lz, rest) = found-Holds s q more h pos in
      (
        record {
          buf = s.buf * 2 ^ q % 2 ^ 64 * 2 % 2 ^ 64;
          nbits = s.nbits - (q + 1);
          rest = s.rest;
        },
        rw (t, lz) refl,
        rest,
      )
  | no none ↦
      let zero_high : h.high ≡ 0 = omega arith in
      let buf_is : s.buf ≡ 0 =
        h.value ∙ ap (λ (v : ℕ). v * 2 ^ (64 - s.nbits)) zero_high ∙ omega arith in
      let (le, left) = empty-Holds s q more h zero_high in
      let bits = replicate (q - s.nbits) 0 ++ 1 ∷ more in
      let empty : Buffer = record { buf = 0; nbits = 0; rest = s.rest } in
      let some_left : 0 < length bits =
        omega (arith, length-append (replicate (q - s.nbits) 0) (1 ∷ more)) in
      let r = refill-IsRefilled empty bits refl some_left left in
      let less = r.less in
      let cap_ok : ltb 1024 (seen + s.nbits) ≡ false = ground arith in
      let (t, ran, rest) =
        count_zeros-Holds fuel (seen + s.nbits) (q - s.nbits) (refill empty) more (omega arith)
          (omega arith) r.holds in
      let total : seen + s.nbits + (q - s.nbits) ≡ seen + q = omega arith in
      (t, rw (buf_is, cap_ok, r.some) (ran ∙ ap (λ (n : ℕ). ok (n, t)) total), rest)
]

-- A unary code of at most 1024 zeros.
pub take_unary-Holds :
    (q : ℕ) (s : Buffer) (more : List ℕ)
    → q ≤ 1024
    → Holds s (replicate q 0 ++ 1 ∷ more)
    → (t : Buffer) × (take_unary s ≡ ok (q, t)) × Holds t more
unfolding take_unary
take_unary-Holds q s more short h =
    let (t, ran, rest) =
      count_zeros-Holds (suc (suc (length s.rest))) 0 q s more (omega arith) (omega arith) h in
    let total : 0 + q ≡ q = omega arith in (t, ran ∙ ap (λ (n : ℕ). ok (n, t)) total, rest)
