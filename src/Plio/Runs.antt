-- ===== src/Plio/Runs.antt =====
-- zimage/plio.rs, `encode_plio_i32`: the words of a gap and of a run of pixels, read back.
use rustfits.Prelude.{
  ℕ, zero, suc, ◌+◌, ◌-◌, ◌%◌, ◌≤◌, ◌<◌, ◌≡◌, ◌≢◌, inl, inr, refl, sym, ap, ◌∙◌, min, false, List,
  [], ◌∷◌, ◌++◌, length, replicate, ◌==◌, ltb, arith, length-append, length-replicate, append_assoc,
  append-nil, replicate-add, Bool-cases,
}
use rustfits.Plio.{as_i16}
use rustfits.Plio.Decode.{decode_loop}
use rustfits.Plio.Encode.{change_last, run_words}
use rustfits.Plio.Step.{at, step_zeros, step_solid, step_zeros_pixel}

run_words_step :
    (fuel opcode z : ℕ)
    → 0 < z
    → opcode ≤ 16384
    → run_words (suc fuel) opcode z ≡ (min z 4095 + opcode) ∷ run_words fuel opcode (z - 4095)
unfolding run_words
run_words_step fuel opcode z pos small =
    let t : (z == 0) ≡ false = ground arith in
    let e : as_i16 (min z 4095 + opcode) ≡ min z 4095 + opcode = omega arith in ground (arith, e)

run_words_none : (fuel opcode z : ℕ) → z ≡ 0 → run_words fuel opcode z ≡ []
unfolding run_words
run_words_none zero opcode z h = refl
run_words_none (suc fuel) opcode z h = rw h

-- A run of `z` pixels, as a run that fits in a word and the others.
split_run :
    (done : List ℕ) (z v : ℕ)
    → (done ++ replicate (min z 4095) v) ++ replicate (z - 4095) v ≡ done ++ replicate z v
split_run done z v =
    let e : min z 4095 + (z - 4095) ≡ z = omega arith in
    append_assoc done (replicate (min z 4095) v) (replicate (z - 4095) v)
    ∙ ap (λ (t : List ℕ). done ++ t)
        (sym (replicate-add (min z 4095) (z - 4095) v) ∙ ap (λ (k : ℕ). replicate k v) e)

-- The words of a run with opcode `opcode` write `z` pixels of value `v`, if each word does so.
module _ (n pv opcode v : ℕ) (small : opcode ≤ 16384)
    (step : (c : ℕ) (done rest : List ℕ)
      → 0 < c
      → c ≤ 4095
      → length done + c ≤ n
      → decode_loop n ((c + opcode) ∷ rest) (at n done pv)
        ≡ decode_loop n rest (at n (done ++ replicate c v) pv)) where
  run_words_lem :
      (fuel z : ℕ) (done rest : List ℕ)
      → z ≤ fuel
      → length done + z ≤ n
      → decode_loop n (run_words fuel opcode z ++ rest) (at n done pv)
        ≡ decode_loop n rest (at n (done ++ replicate z v) pv)
  run_words_lem fuel zero done rest h room = rw (run_words_none fuel opcode 0 refl, append-nil)
  run_words_lem zero (suc z) done rest h room = absurd (omega arith)
  run_words_lem (suc fuel) (suc z) done rest h room =
      let c = min (suc z) 4095 in
      let done' = done ++ replicate c v in
      let len = length-append done (replicate c v) in
      let count = length-replicate c v in
      rw (run_words_step fuel opcode (suc z) (omega arith) small) (
        step c done (run_words fuel opcode (suc z - 4095) ++ rest) (omega arith) (omega arith)
          (omega arith)
        ∙ run_words_lem fuel (suc z - 4095) done' rest (omega arith) (omega arith)
        ∙ ap (λ (t : List ℕ). decode_loop n rest (at n t pv)) (split_run done (suc z) v))

step_zeros' :
    (n pv c : ℕ) (done rest : List ℕ)
    → 0 < c
    → c ≤ 4095
    → length done + c ≤ n
    → decode_loop n ((c + 0) ∷ rest) (at n done pv)
      ≡ decode_loop n rest (at n (done ++ replicate c 0) pv)
step_zeros' n pv c done rest a b d =
    let e : c + 0 ≡ c = omega arith in rw e (step_zeros n c pv done rest a b d)

pub zeros_lem :
    (n pv fuel z : ℕ) (done rest : List ℕ)
    → z ≤ fuel
    → length done + z ≤ n
    → decode_loop n (run_words fuel 0 z ++ rest) (at n done pv)
      ≡ decode_loop n rest (at n (done ++ replicate z 0) pv)
zeros_lem n pv = run_words_lem n pv 0 0 (omega arith) (step_zeros' n pv)

pub solid_lem :
    (n pv fuel z : ℕ) (done rest : List ℕ)
    → z ≤ fuel
    → length done + z ≤ n
    → decode_loop n (run_words fuel 16384 z ++ rest) (at n done pv)
      ≡ decode_loop n rest (at n (done ++ replicate z pv) pv)
solid_lem n pv =
    run_words_lem n pv 16384 pv (omega arith)
      (λ c done rest a b d. step_solid n c pv done rest a b d)

change_last_cons :
    (f : ℕ → ℕ) (w : ℕ) (ws : List ℕ)
    → 0 < length ws
    → change_last f (w ∷ ws) ≡ w ∷ change_last f ws
unfolding change_last
change_last_cons f w [] h = absurd (omega arith)
change_last_cons f w (v ∷ ws) h = refl

pub run_words-pos : (fuel opcode z : ℕ) → 0 < z → z ≤ fuel → 0 < length (run_words fuel opcode z)
unfolding run_words
run_words-pos zero opcode z p h = absurd (omega arith)
run_words-pos (suc fuel) opcode z p h = ground arith

abbrev to_zeros_pixel : ℕ → ℕ
to_zeros_pixel w = as_i16 (w + 20481)

regroup_gap :
    (done : List ℕ) (z pv : ℕ)
    → (done ++ replicate (min z 4095) 0) ++ (replicate (z - 4095) 0 ++ pv ∷ [])
      ≡ done ++ (replicate z 0 ++ pv ∷ [])
regroup_gap done z pv =
    sym (append_assoc (done ++ replicate (min z 4095) 0) (replicate (z - 4095) 0) (pv ∷ []))
    ∙ ap (λ (t : List ℕ). t ++ pv ∷ []) (split_run done z 0)
    ∙ append_assoc done (replicate z 0) (pv ∷ [])

-- Opcode 5 in the last word of a gap.
pub gap_pixel_lem :
    (n pv fuel z : ℕ) (done rest : List ℕ)
    → 0 < z
    → z ≤ fuel
    → z % 4095 ≢ 0
    → length done + (z + 1) ≤ n
    → decode_loop n (change_last to_zeros_pixel (run_words fuel 0 z) ++ rest) (at n done pv)
      ≡ decode_loop n rest (at n (done ++ (replicate z 0 ++ pv ∷ [])) pv)
gap_pixel_lem n pv zero z done rest pos h odd room = absurd (omega arith)
gap_pixel_lem n pv (suc fuel) z done rest pos h odd room = elim (Bool-cases (ltb z 4095)) [
  | inl short ↦
      let low : z < 4095 = ground arith in
      let none_left = run_words_none fuel 0 (z - 4095) (omega arith) in
      let c : min z 4095 + 0 ≡ z = omega arith in
      let word : as_i16 (z + 20481) ≡ z + 20481 = omega arith in
      rw (run_words_step fuel 0 z pos (omega arith), none_left, c)
        (unfold change_last in rw word (step_zeros_pixel n z pv done rest (omega arith) room))
  | inr long ↦
      let high : 4095 ≤ z = ground arith in
      let more : 0 < z - 4095 = omega arith in
      let c = min z 4095 in
      let left = run_words fuel 0 (z - 4095) in
      let done' = done ++ replicate c 0 in
      let len = length-append done (replicate c 0) in
      let count = length-replicate {A = ℕ} c 0 in
      rw
        (
          run_words_step fuel 0 z pos (omega arith),
          change_last_cons to_zeros_pixel (c + 0) left
              (run_words-pos fuel 0 (z - 4095) more (omega arith)),
        )
        (step_zeros' n pv c done (change_last to_zeros_pixel left ++ rest) (omega arith)
            (omega arith) (omega arith)
          ∙ gap_pixel_lem n pv fuel (z - 4095) done' rest more (omega arith)
              (λ e. odd (omega arith)) (omega arith)
          ∙ ap (λ (t : List ℕ). decode_loop n rest (at n t pv)) (regroup_gap done z pv))
]
