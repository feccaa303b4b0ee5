-- ===== src/Plio/Emit.antt =====
-- zimage/plio.rs, `encode_plio_i32`: the words of one run, read back.
use rustfits.Prelude.{
  ℕ, ◌+◌, ◌-◌, ◌/◌, ◌%◌, ◌^◌, ◌≤◌, ◌<◌, ◌≡◌, ◌≢◌, ◌⊎◌, inl, inr, ap, ◌∙◌, bit_and, bit_or, true,
  false, ◌&&◌, List, [], ◌∷◌, ◌++◌, length, replicate, ◌==◌, ltb, arith, bit_and_mask,
  bit_or_low_high, length-append, length-replicate, append_assoc, append-nil, Bool-cases,
}
use rustfits.Plio.Decode.{decode_loop}
use rustfits.Plio.Encode.{change_last, run_words, set_words, sets, later_words, emit}
use rustfits.Plio.Step.{
  at, step_raise, step_lower, step_raise_pixel, step_lower_pixel, step_set_high,
}
use rustfits.Plio.Runs.{zeros_lem, solid_lem, gap_pixel_lem}

low_twelve : (pv : ℕ) → bit_and pv 4095 ≡ pv % 4096
low_twelve pv = bit_and_mask 12 pv

set_words_far :
    (pv hi : ℕ)
    → pv < 2 ^ 27
    → (hi + 4095 < pv) ⊎ (pv + 4095 < hi)
    → set_words pv hi ≡ (pv % 4096 + 4096) ∷ pv / 4096 ∷ []
unfolding set_words
set_words_far pv hi p (inl far) = ground (arith, low_twelve pv)
set_words_far pv hi p (inr far) = ground (arith, low_twelve pv)

set_words_up : (pv hi : ℕ) → hi ≤ pv → pv ≤ hi + 4095 → set_words pv hi ≡ (pv - hi + 8192) ∷ []
unfolding set_words
set_words_up pv hi p q = ground arith

set_words_down : (pv hi : ℕ) → pv < hi → hi ≤ pv + 4095 → set_words pv hi ≡ (hi - pv + 12288) ∷ []
unfolding set_words
set_words_down pv hi p q = ground arith

-- How a value stands to the last one.
Distance : ℕ → ℕ → Type 0
Distance pv hi =
    ((hi ≤ pv) × (pv ≤ hi + 4095))
    ⊎ ((pv < hi) × (hi ≤ pv + 4095))
    ⊎ ((hi + 4095 < pv) ⊎ (pv + 4095 < hi))

distance : (pv hi : ℕ) → Distance pv hi
unfolding Distance
distance pv hi = grind arith

module _ (n pv hi : ℕ) (done rest : List ℕ) (p : pv < 2 ^ 27) (h : hi < 2 ^ 27)
    (room : length done < n) where
  -- The words that change the high value.
  set_words_lem :
      decode_loop n (set_words pv hi ++ rest) (at n done hi) ≡ decode_loop n rest (at n done pv)
  unfolding Distance
  set_words_lem = elim (distance pv hi) [
    | inl (up, near) ↦ rw (set_words_up pv hi up near) (
        step_raise n (pv - hi) hi done rest (omega arith) room (omega arith)
        ∙ ap (λ (t : ℕ). decode_loop n rest (at n done t)) (omega arith))
    | inr (inl (down, near)) ↦ rw (set_words_down pv hi down near) (
        ap (λ (t : ℕ). decode_loop n ((hi - pv + 12288) ∷ rest) (at n done t)) (omega arith)
        ∙ step_lower n (hi - pv) pv done rest (omega arith) room (omega arith))
    | inr (inr far) ↦ rw (set_words_far pv hi p far) (step_set_high n pv hi done rest p room)
  ]

  -- The same with a single pixel, for a value that one word reaches.
  set_words_pixel :
      pv ≤ hi + 4095
      → hi ≤ pv + 4095
      → decode_loop n (change_last (λ w. bit_or w 16384) (set_words pv hi) ++ rest) (at n done hi)
        ≡ decode_loop n rest (at n (done ++ pv ∷ []) pv)
  unfolding Distance change_last
  set_words_pixel near near' = elim (distance pv hi) [
    | inl (up, _) ↦
        let word : bit_or (pv - hi + 8192) 16384 ≡ pv - hi + 24576 =
          omega (arith, bit_or_low_high 14 1 (pv - hi + 8192) (omega arith)) in
        rw (set_words_up pv hi up near, word)
          (step_raise_pixel n (pv - hi) hi done rest (omega arith) room (omega arith)
            ∙ ap (λ (t : ℕ). decode_loop n rest (at n (done ++ t ∷ []) t)) (omega arith))
    | inr (inl (down, _)) ↦
        let word : bit_or (hi - pv + 12288) 16384 ≡ hi - pv + 28672 =
          omega (arith, bit_or_low_high 14 1 (hi - pv + 12288) (omega arith)) in
        rw (set_words_down pv hi down near', word)
          (ap (λ (t : ℕ). decode_loop n ((hi - pv + 28672) ∷ rest) (at n done t)) (omega arith)
            ∙ step_lower_pixel n (hi - pv) pv done rest (omega arith) room (omega arith))
    | inr (inr (inl far)) ↦ absurd (omega arith)
    | inr (inr (inr far)) ↦ absurd (omega arith)
  ]

-- The steps behind the set words.
later_words_lem :
    (n pv np nz : ℕ) (done rest : List ℕ)
    → 0 < pv
    → 0 < np
    → (np ≡ 1 → 0 < nz → nz % 4095 ≢ 0)
    → length done + (nz + np) ≤ n
    → decode_loop n (later_words pv np nz ++ rest) (at n done pv)
      ≡ decode_loop n rest (at n (done ++ (replicate nz 0 ++ replicate np pv)) pv)
unfolding later_words
later_words_lem n pv np nz done rest pos some_pixel odd room =
    elim (Bool-cases (ltb 0 nz && (np == 1 && ltb 0 pv))) [
      | inl single ↦
          let one : np ≡ 1 = ground arith in
          let gap : 0 < nz = ground arith in
          rw (single, one)
            (gap_pixel_lem n pv nz nz done rest gap (omega arith) (odd one gap) (omega arith))
      | inr other ↦
          let zeros = replicate {A = ℕ} nz 0 in
          let done' = done ++ zeros in
          let len = length-append done zeros in
          let count = length-replicate {A = ℕ} nz 0 in
          rw (other, append_assoc)
            (zeros_lem n pv nz nz done (run_words np 16384 np ++ rest) (omega arith) (omega arith)
              ∙ solid_lem n pv np np done' rest (omega arith) (omega arith)
              ∙ ap (λ (t : List ℕ). decode_loop n rest (at n t pv))
                  (append_assoc done zeros (replicate np pv)))
    ]

-- One run that decodes to itself: a single pixel is within 4095 of the last value or has a gap in front,
-- and that gap is no multiple of 4095.
unfoldable pub IsLossless : ℕ → ℕ → ℕ → ℕ → Type 0
IsLossless pv hi np nz =
    (np ≡ 1 → nz ≡ 0 → (pv ≤ hi + 4095) × (hi ≤ pv + 4095)) × (np ≡ 1 → 0 < nz → nz % 4095 ≢ 0)

pub emit_lem :
    (n pv hi np nz : ℕ) (done rest : List ℕ)
    → 0 < pv
    → pv < 2 ^ 27
    → hi < 2 ^ 27
    → 0 < np
    → IsLossless pv hi np nz
    → length done + (nz + np) ≤ n
    → decode_loop n (emit pv hi np nz ++ rest) (at n done hi)
      ≡ decode_loop n rest (at n (done ++ (replicate nz 0 ++ replicate np pv)) pv)
unfolding emit IsLossless
emit_lem n pv hi np nz done rest pos p h some_pixel safe room = elim (Bool-cases (pv == hi)) [
  | inl same ↦
      let kept : sets pv hi ≡ false = ground arith in
      let e : hi ≡ pv = ground arith in
      rw (kept, e) (later_words_lem n pv np nz done rest pos some_pixel safe.1 room)
  | inr changed ↦
      let set : sets pv hi ≡ true = ground arith in
      elim (Bool-cases (np == 1 && nz == 0)) [
        | inl single ↦
            let one : np ≡ 1 = ground arith in
            let no_gap : nz ≡ 0 = ground arith in
            let near = safe.0 one no_gap in
            rw (set, single, append-nil, one, no_gap)
              (set_words_pixel n pv hi done rest p h (omega arith) near.0 near.1)
        | inr other ↦
            rw (set, other, append_assoc)
              (set_words_lem n pv hi done (later_words pv np nz ++ rest) p h (omega arith)
                ∙ later_words_lem n pv np nz done rest pos some_pixel safe.1 room)
      ]
]

-- The zeros at the end.
pub emit_zeros :
    (n hi nz : ℕ) (done rest : List ℕ)
    → length done + nz ≤ n
    → decode_loop n (emit 0 hi 0 nz ++ rest) (at n done hi)
      ≡ decode_loop n rest (at n (done ++ replicate nz 0) hi)
unfolding emit
emit_zeros n hi nz done rest room =
    let t : (ltb 0 nz && false) ≡ false = ground arith in
    rw (t, append-nil) (zeros_lem n hi nz nz done rest (omega arith) room)
