-- ===== src/Plio/Step.antt =====
-- zimage/plio.rs, `decode_plio`: what each word does to an output that is written from the front.
use rustfits.Prelude.{
  ℕ, ◌+◌, ◌-◌, ◌*◌, ◌/◌, ◌%◌, ◌^◌, ◌≤◌, ◌<◌, ◌≡◌, refl, ap, ◌∙◌, min, bit_and, true, false, List,
  [], ◌∷◌, ◌++◌, length, replicate, ◌==◌, ltb, leb, ok, ◌>>=◌, arith, bit_and_mask, length-append,
  length-replicate,
}
use rustfits.Plio.Decode.{
  DecodeState, fill, write_run, decode_run, decode_pixel, decode_set_high, decode_word, decode_loop,
  wrap_add, wrap_sub,
}
use rustfits.Plio.Output.{run_output, zeros_pixel_output, length-zeros}

-- The first `length done` of `n` pixels are written, and the high value is `pv`.
abbrev pub at : ℕ → List ℕ → ℕ → DecodeState
at n done pv = record {
  x1 = length done + 1;
  pv = pv;
  op = length done;
  skipwd = false;
  output = done ++ replicate (n - length done) 0;
}

-- A state is determined by its fields.
at_of_fields :
    (n : ℕ) (done : List ℕ) (pv : ℕ) (s : DecodeState)
    → s.x1 ≡ length done + 1
    → s.pv ≡ pv
    → s.op ≡ length done
    → s.skipwd ≡ false
    → s.output ≡ done ++ replicate (n - length done) 0
    → s ≡ at n done pv
at_of_fields n done pv s a b c d e =
    λ i. record { x1 = a i; pv = b i; op = c i; skipwd = d i; output = e i }

pub decode_loop_step :
    (n raw : ℕ) (rest : List ℕ) (s : DecodeState)
    → s.x1 ≤ n
    → s.skipwd ≡ false
    → decode_loop n (raw ∷ rest) s ≡ (decode_word n raw rest s >>= decode_loop n rest)
unfolding decode_loop
decode_loop_step n raw rest s h e = ground arith

-- A run that fits in the tile.
decode_run_fits :
    (n opcode c : ℕ) (s : DecodeState)
    → 0 < s.x1
    → 0 < c
    → s.x1 + c ≤ n + 1
    → s.op + c ≤ n
    → decode_run n opcode c s
      ≡ ok (record s { x1 = s.x1 + c; op = s.op + c; output = write_run s opcode c true })
unfolding decode_run
decode_run_fits n opcode c s a b d e =
    let x2 = s.x1 + c - 1 in
    let e1 : min x2 n ≡ x2 = omega arith in
    let e2 : x2 + 1 - s.x1 ≡ c = omega arith in
    let e3 : x2 + 1 ≡ s.x1 + c = omega arith in
    let t1 : (c == 0) ≡ false = ground arith in
    let t2 : leb n (s.op + c - 1) ≡ false = ground arith in
    let t3 : (x2 == x2) ≡ true = ground arith in rw (e1, e2, t1, t2, t3, e3)

-- The state after it, if it writes `block` and no more.
decode_run-at :
    (n opcode c : ℕ) (done block : List ℕ) (pv : ℕ)
    → 0 < c
    → length done + c ≤ n
    → length block ≡ c
    → write_run (at n done pv) opcode c true
      ≡ (done ++ block) ++ replicate (n - length (done ++ block)) 0
    → decode_run n opcode c (at n done pv) ≡ ok (at n (done ++ block) pv)
decode_run-at n opcode c done block pv pos room count written =
    let s = at n done pv in
    let len = length-append done block in
    decode_run_fits n opcode c s (omega arith) pos (omega arith) room
    ∙ ap ok (
        at_of_fields n (done ++ block) pv
          (record s { x1 = s.x1 + c; op = s.op + c; output = write_run s opcode c true })
          (omega arith) refl (omega arith) refl written)

low_twelve : (raw : ℕ) → bit_and raw 0xfff ≡ raw % 4096
low_twelve raw = bit_and_mask 12 raw

-- Opcode 0: `c` zeros.
pub step_zeros :
    (n c pv : ℕ) (done rest : List ℕ)
    → 0 < c
    → c ≤ 4095
    → length done + c ≤ n
    → decode_loop n (c ∷ rest) (at n done pv) ≡ decode_loop n rest (at n (done ++ replicate c 0) pv)
step_zeros n c pv done rest pos small room =
    let opcode : c / 2 ^ 12 % 16 ≡ 0 = omega arith in
    let count : bit_and c 0xfff ≡ c = omega (arith, low_twelve c) in
    decode_loop_step n c rest (at n done pv) (omega arith) refl
    ∙ (unfold decode_word in
        rw (
          opcode,
          count,
          decode_run-at n 0 c done (replicate c 0) pv pos room (length-replicate c 0)
              (unfold write_run in run_output n done c 0 room),
        ))

-- Opcode 4: `c` pixels of the high value.
pub step_solid :
    (n c pv : ℕ) (done rest : List ℕ)
    → 0 < c
    → c ≤ 4095
    → length done + c ≤ n
    → decode_loop n ((c + 16384) ∷ rest) (at n done pv)
      ≡ decode_loop n rest (at n (done ++ replicate c pv) pv)
step_solid n c pv done rest pos small room =
    let opcode : (c + 16384) / 2 ^ 12 % 16 ≡ 4 = omega arith in
    let count : bit_and (c + 16384) 0xfff ≡ c = omega (arith, low_twelve (c + 16384)) in
    decode_loop_step n (c + 16384) rest (at n done pv) (omega arith) refl
    ∙ (unfold decode_word in
        rw (
          opcode,
          count,
          decode_run-at n 4 c done (replicate c pv) pv pos room (length-replicate c pv)
              (unfold write_run in run_output n done c pv room),
        ))

-- Opcodes 2 and 3: another high value.
pub step_raise :
    (n d pv : ℕ) (done rest : List ℕ)
    → d ≤ 4095
    → length done < n
    → pv + d < 2 ^ 32
    → decode_loop n ((d + 8192) ∷ rest) (at n done pv) ≡ decode_loop n rest (at n done (pv + d))
step_raise n d pv done rest small room fits =
    let opcode : (d + 8192) / 2 ^ 12 % 16 ≡ 2 = omega arith in
    let count : bit_and (d + 8192) 0xfff ≡ d = omega (arith, low_twelve (d + 8192)) in
    let sum : wrap_add pv d ≡ pv + d = omega arith in
    decode_loop_step n (d + 8192) rest (at n done pv) (omega arith) refl
    ∙ (unfold decode_word in rw (opcode, count, sum))

pub step_lower :
    (n d pv : ℕ) (done rest : List ℕ)
    → d ≤ 4095
    → length done < n
    → pv + d < 2 ^ 32
    → decode_loop n ((d + 12288) ∷ rest) (at n done (pv + d)) ≡ decode_loop n rest (at n done pv)
step_lower n d pv done rest small room fits =
    let opcode : (d + 12288) / 2 ^ 12 % 16 ≡ 3 = omega arith in
    let count : bit_and (d + 12288) 0xfff ≡ d = omega (arith, low_twelve (d + 12288)) in
    let sum : wrap_sub (pv + d) d ≡ pv = omega arith in
    decode_loop_step n (d + 12288) rest (at n done (pv + d)) (omega arith) refl
    ∙ (unfold decode_word in rw (opcode, count, sum))

decode_pixel-at :
    (n v : ℕ) (done : List ℕ)
    → length done < n
    → decode_pixel n (at n done v) ≡ ok (at n (done ++ v ∷ []) v)
unfolding decode_pixel
decode_pixel-at n v done room =
    let s = at n done v in
    let len = length-append done (v ∷ []) in
    let t1 : leb (length done + 1) n ≡ true = ground arith in
    let t2 : leb n (length done) ≡ false = ground arith in
    let written = fill s.output s.op 1 s.pv in
    rw (t1, t2)
      (ap ok (
        at_of_fields n (done ++ v ∷ []) v
          (record s { x1 = s.x1 + 1; op = s.op + 1; output = written }) (omega arith) refl
          (omega arith) refl (run_output n done 1 v (omega arith))))

-- Opcodes 6 and 7: another high value, and one pixel of it.
pub step_raise_pixel :
    (n d pv : ℕ) (done rest : List ℕ)
    → d ≤ 4095
    → length done < n
    → pv + d < 2 ^ 32
    → decode_loop n ((d + 24576) ∷ rest) (at n done pv)
      ≡ decode_loop n rest (at n (done ++ (pv + d) ∷ []) (pv + d))
step_raise_pixel n d pv done rest small room fits =
    let opcode : (d + 24576) / 2 ^ 12 % 16 ≡ 6 = omega arith in
    let count : bit_and (d + 24576) 0xfff ≡ d = omega (arith, low_twelve (d + 24576)) in
    let sum : wrap_add pv d ≡ pv + d = omega arith in
    decode_loop_step n (d + 24576) rest (at n done pv) (omega arith) refl
    ∙ (unfold decode_word in rw (opcode, count, sum, decode_pixel-at n (pv + d) done room))

pub step_lower_pixel :
    (n d pv : ℕ) (done rest : List ℕ)
    → d ≤ 4095
    → length done < n
    → pv + d < 2 ^ 32
    → decode_loop n ((d + 28672) ∷ rest) (at n done (pv + d))
      ≡ decode_loop n rest (at n (done ++ pv ∷ []) pv)
step_lower_pixel n d pv done rest small room fits =
    let opcode : (d + 28672) / 2 ^ 12 % 16 ≡ 7 = omega arith in
    let count : bit_and (d + 28672) 0xfff ≡ d = omega (arith, low_twelve (d + 28672)) in
    let sum : wrap_sub (pv + d) d ≡ pv = omega arith in
    decode_loop_step n (d + 28672) rest (at n done (pv + d)) (omega arith) refl
    ∙ (unfold decode_word in rw (opcode, count, sum, decode_pixel-at n pv done room))

decode_loop_skip :
    (n raw pv : ℕ) (done rest : List ℕ)
    → length done < n
    → decode_loop n (raw ∷ rest) (record (at n done pv) { skipwd = true })
      ≡ decode_loop n rest (at n done pv)
unfolding decode_loop
decode_loop_skip n raw pv done rest room =
    let t : leb (length done + 1) n ≡ true = ground arith in rw t

-- Opcode 1 and the word behind it: any high value below 2^27.
pub step_set_high :
    (n v pv : ℕ) (done rest : List ℕ)
    → v < 2 ^ 27
    → length done < n
    → decode_loop n ((v % 4096 + 4096) ∷ v / 4096 ∷ rest) (at n done pv)
      ≡ decode_loop n rest (at n done v)
step_set_high n v pv done rest small room =
    let raw = v % 4096 + 4096 in
    let opcode : raw / 2 ^ 12 % 16 ≡ 1 = omega arith in
    let count : bit_and raw 0xfff ≡ v % 4096 = omega (arith, low_twelve raw) in
    let positive : ltb (v / 4096) (2 ^ 15) ≡ true = ground arith in
    let joined : wrap_add (v / 4096 * 2 ^ 12 % 2 ^ 32) (v % 4096) ≡ v = omega arith in
    decode_loop_step n raw (v / 4096 ∷ rest) (at n done pv) (omega arith) refl
    ∙ (unfold decode_word decode_set_high in
        rw (opcode, count, positive, joined) (decode_loop_skip n (v / 4096) v done rest room))

-- Opcode 5: `c` zeros and a pixel of the high value.
pub step_zeros_pixel :
    (n c pv : ℕ) (done rest : List ℕ)
    → c + 1 ≤ 4095
    → length done + (c + 1) ≤ n
    → decode_loop n ((c + 20481) ∷ rest) (at n done pv)
      ≡ decode_loop n rest (at n (done ++ (replicate c 0 ++ pv ∷ [])) pv)
step_zeros_pixel n c pv done rest small room =
    let raw = c + 20481 in
    let block = replicate c 0 ++ pv ∷ [] in
    let opcode : raw / 2 ^ 12 % 16 ≡ 5 = omega arith in
    let count : bit_and raw 0xfff ≡ c + 1 = omega (arith, low_twelve raw) in
    let len = length-append (replicate {A = ℕ} c 0) (pv ∷ []) in
    decode_loop_step n raw rest (at n done pv) (omega arith) refl
    ∙ (unfold decode_word in
        rw (
          opcode,
          count,
          decode_run-at n 5 (c + 1) done block pv (omega arith) room (omega (arith, length-zeros c))
              (unfold write_run in zeros_pixel_output n c pv done room),
        ))
