-- ===== src/Plio/Size.antt =====
-- zimage/plio.rs, `encode_plio_i32`: the stream has at most three words for each pixel.
use rustfits.Prelude.{
  ℕ, zero, suc, ◌+◌, ◌-◌, ◌*◌, ◌≤◌, ◌≡◌, refl, bit_or, List, [], ◌∷◌, ◌++◌, length, ◌==◌,
  if◌then◌else◌, arith, length-append, Bool-cases, inl, inr,
}
use rustfits.Plio.{as_i16}
use rustfits.Plio.Encode.{
  EncodeState, change_last, run_words, set_words, consumed, first_words, later_words, emit,
  emit_run, encode_step, encode_loop, clamp, data_words,
}

length-change_last : (f : ℕ → ℕ) (ws : List ℕ) → length (change_last f ws) ≡ length ws
unfolding change_last
length-change_last f [] = refl
length-change_last f (w ∷ []) = refl
length-change_last f (w ∷ v ∷ ws) = omega (arith, length-change_last f (v ∷ ws))

length-run_words-le : (fuel opcode z : ℕ) → length (run_words fuel opcode z) ≤ z
unfolding run_words
length-run_words-le zero opcode z = omega arith
length-run_words-le (suc fuel) opcode z = ground (arith, length-run_words-le fuel opcode (z - 4095))

length-set_words-le : (pv hi : ℕ) → length (set_words pv hi) ≤ 2
unfolding set_words
length-set_words-le pv hi = ground arith

length-first_words-le : (pv hi np nz : ℕ) → length (first_words pv hi np nz) ≤ 2
unfolding first_words
length-first_words-le pv hi np nz =
    ground
      (arith, length-set_words-le pv hi, length-change_last (λ w. bit_or w 16384) (set_words pv hi))

length-later_words-le : (pv np nz : ℕ) → length (later_words pv np nz) ≤ nz + np
unfolding later_words
length-later_words-le pv np nz = ground (
  arith,
  length-run_words-le nz 0 nz,
  length-run_words-le np 16384 np,
  length-append (run_words nz 0 nz) (run_words np 16384 np),
  length-change_last (λ w. as_i16 (w + 20481)) (run_words nz 0 nz),
)

length-emit-le : (pv hi np nz : ℕ) → length (emit pv hi np nz) ≤ 2 + nz + np
unfolding emit
length-emit-le pv hi np nz = ground (
  arith,
  length-first_words-le pv hi np nz,
  length-later_words-le pv np nz,
  length-append (first_words pv hi np nz)
      (if consumed pv hi np nz then [] else later_words pv np nz),
)

record IsBounded (s : EncodeState) : Type 0 where
  emitted : length s.out ≤ 3 * s.iz
  ordered : s.iz ≤ s.x1
  current : s.x1 ≤ s.ip

emit_run_fields :
    (s : EncodeState) (x1 p : ℕ)
    → ((emit_run s x1 p).out ≡ s.out ++ emit s.pv s.hi (s.ip + 1 - x1) (x1 - s.iz))
      × ((emit_run s x1 p).iz ≡ s.ip + 1)
      × ((emit_run s x1 p).x1 ≡ s.ip + 1)
      × ((emit_run s x1 p).ip ≡ s.ip + 1)
unfolding emit_run
emit_run_fields s x1 p = (refl, refl, refl, refl)

emit_run-IsBounded :
    (s : EncodeState) (x1 p : ℕ)
    → IsBounded s
    → s.iz ≤ x1
    → x1 ≤ s.ip + 1
    → IsBounded (emit_run s x1 p)
emit_run-IsBounded s x1 p b h k =
    let (out, iz, at_x1, ip) = emit_run_fields s x1 p in
    let words = emit s.pv s.hi (s.ip + 1 - x1) (x1 - s.iz) in
    record {
      emitted = rw out (
          omega (
            arith,
            iz,
            length-append s.out words,
            length-emit-le s.pv s.hi (s.ip + 1 - x1) (x1 - s.iz),
          ));
      ordered = omega arith;
      current = omega arith;
    }

encode_step-IsBounded :
    (s : EncodeState) (p : ℕ)
    → IsBounded s
    → IsBounded (encode_step s p) × ((encode_step s p).ip ≡ s.ip + 1)
unfolding encode_step
encode_step-IsBounded s p b = elim (Bool-cases (clamp p == s.pv)) [
  | inl same ↦ rw same (
    record { emitted = b.emitted; ordered = b.ordered; current = omega (arith, b.current) },
    refl,
  )
  | inr other ↦ elim (Bool-cases (s.pv == 0)) [
    | inl zeros ↦
        rw (other, zeros)
          (
            record {
              emitted = b.emitted;
              ordered = omega (arith, b.ordered, b.current);
              current = omega arith;
            },
            refl,
          )
    | inr value ↦
        let next = emit_run-IsBounded s s.x1 (clamp p) b b.ordered (omega (arith, b.current)) in
        let (out, iz, at_x1, ip) = emit_run_fields s s.x1 (clamp p) in rw (other, value) (next, ip)
  ]
]

encode_loop-le :
    (ps : List ℕ) (s : EncodeState)
    → IsBounded s
    → length (encode_loop ps s).out ≤ 3 * (s.ip + 1 + length ps)
unfolding encode_loop
encode_loop-le [] s b =
    let x1 = if s.pv == 0 then s.ip + 1 else s.x1 in
    let ordered : s.iz ≤ x1 = ground (arith, b.ordered, b.current) in
    let current : x1 ≤ s.ip + 1 = ground (arith, b.current) in
    let last = emit_run-IsBounded s x1 s.pv b ordered current in
    let (out, iz, at_x1, ip) = emit_run_fields s x1 s.pv in omega (arith, last.emitted, iz)
encode_loop-le (p ∷ ps) s b =
    let (next, ip) = encode_step-IsBounded s p b in
    omega (arith, encode_loop-le ps (encode_step s p) next, ip)

pub length-data_words-le : (pixels : List ℕ) → length (data_words pixels) ≤ 3 * length pixels
unfolding data_words
length-data_words-le [] = omega arith
length-data_words-le (p ∷ ps) =
    let s : EncodeState = record { pv = clamp p; hi = 1; x1 = 0; iz = 0; ip = 0; out = [] } in
    omega (
      arith,
      encode_loop-le ps s
          (record { emitted = omega arith; ordered = omega arith; current = omega arith }),
    )
