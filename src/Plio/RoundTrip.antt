-- ===== src/Plio/RoundTrip.antt =====
-- zimage/plio.rs: `encode_plio_i32` and the decoder, over whole tiles.
use rustfits.Prelude.{
  ℕ, suc, ◌+◌, ◌<◌, ◌≡◌, ◌≢◌, inl, inr, refl, sym, ap, ◌∙◌, true, List, [], ◌∷◌, ◌++◌, length,
  replicate, All, ◌==◌, arith, append_assoc, append-nil, Bool-cases,
}
use mathlib.Core.Path.{subst}
use rustfits.Plio.Decode.{decode_loop}
use rustfits.Plio.Encode.{EncodeState, emit_run, clamp, data_words}
use rustfits.Plio.Lossless.{
  is_lossless, IsPixel, Reads, Emits, clamp_pixel, step_same, step_start, step_emit, InRun, InGap,
  replicate_snoc, after_run, emit_run_hi, InRun-after, InGap-after, RunIsSafe, IsLossless-of_safe,
}
use rustfits.Plio.Turns.{
  Emits-step, last_gap, Emits-emit, end_of_run, scan_zero, scan_other, scan_safe, longer_is_safe,
  longer_run, length_after_block, ap_safe,
}

zero_front :
    (n : ℕ) (done ps : List ℕ) (s : EncodeState) (p : ℕ)
    → p ≡ 0
    → Emits n done ps s (0 ∷ ps)
    → Emits n done ps s (p ∷ ps)
zero_front n done ps s p e h = subst (λ t. Emits n done ps s (t ∷ ps)) (sym e) h

mutual
  -- In a gap of `m` zeros, the rest of the tile is carried.
  gap_mode :
      (ps : List ℕ) (n : ℕ) (done : List ℕ) (s : EncodeState) (m : ℕ)
      → InGap s m
      → All IsPixel ps
      → is_lossless s.hi m ps ≡ true
      → length done + (m + length ps) ≡ n
      → Emits n done ps s (replicate m 0 ++ ps)
  gap_mode [] n done s m g small scan room = rw append-nil (last_gap n done s m g (omega arith))
  gap_mode (p ∷ ps) n done s m g (small, smalls) scan room = elim (Bool-cases (p == 0)) [
    | inl zeros ↦
        let e : p ≡ 0 = ground arith in
        let s' = record s { ip = s.ip + 1 } in
        let g' : InGap s' (m + 1) = record {
          value = g.value;
          start = g.start;
          count = omega (arith, g.count);
          high = g.high;
        } in
        Emits-step n done p ps s s' (replicate m 0 ++ p ∷ ps) (replicate (m + 1) 0 ++ ps)
          (step_same s p small (e ∙ sym g.value))
          (sym (replicate_snoc m 0 ps) ∙ ap (λ (t : ℕ). replicate m 0 ++ t ∷ ps) (sym e)) refl refl
          (gap_mode ps n done s' (m + 1) g' smalls (scan_zero s.hi m p ps scan e) (omega arith))
    | inr other ↦
        let pos : 0 < p = ground arith in
        let s' = record s { pv = p; x1 = s.ip + 1; ip = s.ip + 1 } in
        let r : InRun s' p m 1 = record {
          value = refl;
          start = g.count;
          count = refl;
          high = g.high;
        } in
        Emits-step n done p ps s s' (replicate m 0 ++ p ∷ ps)
          ((replicate m 0 ++ replicate 1 p) ++ ps)
          (step_start s p small (λ e. omega (arith, g.value)) g.value)
          (append_assoc (replicate m 0) (replicate 1 p) ps) refl refl
          (run_mode ps n done s' p m 1 r pos small (omega arith) (scan_safe s.hi m p ps scan) smalls
            (scan_other s.hi m p ps scan pos) (omega arith))
  ]

  -- In a run of `np` pixels `v` behind `nz` zeros.
  run_mode :
      (ps : List ℕ) (n : ℕ) (done : List ℕ) (s : EncodeState) (v nz np : ℕ)
      → InRun s v nz np
      → 0 < v
      → IsPixel v
      → 0 < np
      → RunIsSafe s.hi nz np v ps
      → All IsPixel ps
      → is_lossless v 0 ps ≡ true
      → length done + (nz + np + length ps) ≡ n
      → Emits n done ps s ((replicate nz 0 ++ replicate np v) ++ ps)
  run_mode [] n done s v nz np r pos small some_pixel safe smalls scan room = rw append-nil (
      end_of_run n done s v nz np r pos small some_pixel
        (IsLossless-of_safe s.hi nz np v [] pos safe refl) (omega arith))
  run_mode (p ∷ ps) n done s v nz np r pos small some_pixel safe (p_small, smalls) scan room =
      elim (Bool-cases (p == v)) [
        | inl same ↦
            let e : p ≡ v = ground arith in
            let s' = record s { ip = s.ip + 1 } in
            let r' : InRun s' v nz (np + 1) = record {
              value = r.value;
              start = r.start;
              count = omega (arith, r.count);
              high = r.high;
            } in
            let scan' = scan_other v 0 p ps scan (omega arith) in
            Emits-step n done p ps s s' ((replicate nz 0 ++ replicate np v) ++ p ∷ ps)
              ((replicate nz 0 ++ replicate (np + 1) v) ++ ps)
              (step_same s p p_small (e ∙ sym r.value)) (longer_run nz np v p ps e) refl refl
              (run_mode ps n done s' v nz (np + 1) r' pos small (omega arith)
                (longer_is_safe s.hi nz (np + 1) v ps (omega arith)) smalls
                (ap (λ (t : ℕ). is_lossless t 0 ps) (sym e) ∙ scan') (omega arith))
        | inr other ↦
            let d : p ≢ v = ground arith in
            let blk = replicate nz 0 ++ replicate np v in
            let done' = done ++ blk in
            let s' = emit_run s s.x1 p in
            let safe' = IsLossless-of_safe s.hi nz np v (p ∷ ps) pos safe other in
            let len = length_after_block done nz np v in
            let hi = emit_run_hi n done s v nz np p r pos small some_pixel safe' (omega arith) in
            Emits-emit n done p ps s s' (blk ++ p ∷ ps) (blk ++ p ∷ ps)
              (step_emit s p p_small (λ e. d (e ∙ r.value)) (λ e. omega (arith, r.value))) refl
              (after_run n done s v nz np p r pos small some_pixel safe' (omega arith) ps (p ∷ ps)
                (elim (Bool-cases (p == 0)) [
                  | inl zeros ↦
                      let e : p ≡ 0 = ground arith in
                      zero_front n done' ps s' p e (
                        gap_mode ps n done' s' 1 (InGap-after s p e (omega arith)) smalls
                          (ap (λ (t : ℕ). is_lossless t 1 ps) hi ∙ scan_zero v 0 p ps scan e)
                          (omega arith))
                  | inr value ↦
                      let p_pos : 0 < p = ground arith in
                      run_mode ps n done' s' p 0 1 (InRun-after s p (omega arith)) p_pos p_small
                        (omega arith) (ap_safe 0 1 p ps (sym hi) (scan_safe v 0 p ps scan)) smalls
                        (scan_other v 0 p ps scan p_pos) (omega arith)
                ]))
      ]

-- The words of a whole tile.
pub data_words-Reads :
    (pixels : List ℕ)
    → All IsPixel pixels
    → is_lossless 1 0 pixels ≡ true
    → Reads (length pixels) [] 1 (data_words pixels) pixels
unfolding Emits Reads data_words
data_words-Reads [] small scan = (1, unfold decode_loop in refl)
data_words-Reads (p ∷ ps) (small, smalls) scan = elim (Bool-cases (p == 0)) [
  | inl zeros ↦
      let e : p ≡ 0 = ground arith in
      let g : InGap start 1 = record {
        value = clamp_pixel p small ∙ e;
        start = refl;
        count = refl;
        high = omega arith;
      } in
      let (words, out, reads) = zero_front (suc (length ps)) [] ps start p e (
        gap_mode ps (suc (length ps)) [] start 1 g smalls (scan_zero 1 0 p ps scan e)
          (omega arith)) in
      rw out reads
  | inr other ↦
      let pos : 0 < p = ground arith in
      let r : InRun start p 0 1 = record {
        value = clamp_pixel p small;
        start = refl;
        count = refl;
        high = omega arith;
      } in
      let (words, out, reads) =
        run_mode ps (suc (length ps)) [] start p 0 1 r pos small (omega arith)
          (scan_safe 1 0 p ps scan) smalls (scan_other 1 0 p ps scan pos) (omega arith) in
      rw out reads
]
  where
    start : EncodeState
    start = record { pv = clamp p; hi = 1; x1 = 0; iz = 0; ip = 0; out = [] }
