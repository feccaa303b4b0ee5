-- ===== src/Plio/Turns.antt =====
-- zimage/plio.rs, `encode_plio_i32`: one turn of the loop over the pixels.
use rustfits.Prelude.{
  ℕ, ◌+◌, ◌-◌, ◌≤◌, ◌<◌, ◌≡◌, refl, sym, ap, ◌∙◌, true, false, List, [], ◌∷◌, ◌++◌, length,
  replicate, ◌==◌, if◌then◌else◌, ok, arith, length-append, length-replicate, append_assoc,
  append-nil, and_true,
}
use mathlib.Core.Path.{subst}
use rustfits.Plio.Decode.{decode_loop}
use rustfits.Plio.Encode.{EncodeState, emit, emit_run, encode_step, encode_loop}
use rustfits.Plio.Step.{at}
use rustfits.Plio.Emit.{IsLossless, emit_zeros}
use rustfits.Plio.Lossless.{
  pixel_is_safe, is_lossless, IsPixel, Reads, Emits, InRun, InGap, replicate_snoc, last_run,
  RunIsSafe,
}

-- An iteration in front of the others.
pub Emits-step :
    (n : ℕ) (done : List ℕ) (p : ℕ) (ps : List ℕ) (s s' : EncodeState) (tail tail' : List ℕ)
    → encode_step s p ≡ s'
    → tail' ≡ tail
    → s'.out ≡ s.out
    → s'.hi ≡ s.hi
    → Emits n done ps s' tail'
    → Emits n done (p ∷ ps) s tail
unfolding Emits Reads encode_loop
Emits-step n done p ps s s' tail tail' e t o h (words, out, (hi', read)) = (
  words,
  ap (λ (x : EncodeState). (encode_loop ps x).out) e ∙ out ∙ ap (λ (x : List ℕ). x ++ words) o,
  (
    hi',
    ap (λ (x : ℕ). decode_loop n words (at n done x)) (sym h)
        ∙ read
        ∙ ap (λ (x : List ℕ). ok (at n (done ++ x) hi')) t,
  ),
)

-- The zeros at the end of the tile.
pub last_gap :
    (n : ℕ) (done : List ℕ) (s : EncodeState) (m : ℕ)
    → InGap s m
    → length done + m ≡ n
    → Emits n done [] s (replicate m 0)
unfolding Emits Reads encode_loop emit_run
last_gap n done s m g room =
    let t : (s.pv == 0) ≡ true = let e = g.value in ground arith in
    let e1 : s.ip + 1 - (s.ip + 1) ≡ 0 = omega arith in
    let e2 : s.ip + 1 - s.iz ≡ m = omega (arith, g.count) in
    rw (t, g.value, e1, e2)
      (
        emit 0 s.hi 0 m,
        refl,
        (
          s.hi,
          ap (λ (x : List ℕ). decode_loop n x (at n done s.hi)) (sym (append-nil (emit 0 s.hi 0 m)))
              ∙ emit_zeros n s.hi m done [] (omega arith)
              ∙ (unfold decode_loop in refl),
        ),
      )

-- An iteration that emits.
pub Emits-emit :
    (n : ℕ) (done : List ℕ) (p : ℕ) (ps : List ℕ) (s s' : EncodeState) (tail tail' : List ℕ)
    → encode_step s p ≡ s'
    → tail' ≡ tail
    → ((words : List ℕ) × ((encode_loop ps s').out ≡ s.out ++ words)
        × Reads n done s.hi words tail')
    → Emits n done (p ∷ ps) s tail
unfolding Emits Reads encode_loop
Emits-emit n done p ps s s' tail tail' e t (words, out, (hi', read)) = (
  words,
  ap (λ (x : EncodeState). (encode_loop ps x).out) e ∙ out,
  (hi', read ∙ ap (λ (x : List ℕ). ok (at n (done ++ x) hi')) t),
)

-- The last run of the tile.
pub end_of_run :
    (n : ℕ) (done : List ℕ) (s : EncodeState) (v nz np : ℕ)
    → InRun s v nz np
    → 0 < v
    → IsPixel v
    → 0 < np
    → IsLossless v s.hi np nz
    → length done + (nz + np) ≤ n
    → Emits n done [] s (replicate nz 0 ++ replicate np v)
unfolding Emits encode_loop
end_of_run n done s v nz np r pos small some_pixel safe room =
    let t : (s.pv == 0) ≡ false = let e = r.value in ground arith in
    rw t (last_run n done s v nz np s.pv r pos small some_pixel safe room)

-- The scan one pixel on, at a pixel 0 and at another.
pub scan_zero :
    (hi z p : ℕ) (ps : List ℕ)
    → is_lossless hi z (p ∷ ps) ≡ true
    → p ≡ 0
    → is_lossless hi (z + 1) ps ≡ true
unfolding is_lossless
scan_zero hi z p ps h e =
    let t : (p == 0) ≡ true = ground arith in
    let parts =
      and_true (pixel_is_safe hi z p ps)
        (is_lossless (if p == 0 then hi else p) (if p == 0 then z + 1 else 0) ps) h in
    rw t at parts.1

pub scan_other :
    (hi z p : ℕ) (ps : List ℕ)
    → is_lossless hi z (p ∷ ps) ≡ true
    → 0 < p
    → is_lossless p 0 ps ≡ true
unfolding is_lossless
scan_other hi z p ps h e =
    let t : (p == 0) ≡ false = ground arith in
    let parts =
      and_true (pixel_is_safe hi z p ps)
        (is_lossless (if p == 0 then hi else p) (if p == 0 then z + 1 else 0) ps) h in
    rw t at parts.1

pub scan_safe :
    (hi z p : ℕ) (ps : List ℕ) → is_lossless hi z (p ∷ ps) ≡ true → RunIsSafe hi z 1 p ps
unfolding is_lossless RunIsSafe
scan_safe hi z p ps h one alone = (and_true _ _ h).0

pub longer_is_safe : (hi z np v : ℕ) (ps : List ℕ) → 1 < np → RunIsSafe hi z np v ps
unfolding RunIsSafe
longer_is_safe hi z np v ps h one alone = absurd (omega arith)

pub longer_run :
    (nz np v p : ℕ) (ps : List ℕ)
    → p ≡ v
    → (replicate nz 0 ++ replicate (np + 1) v) ++ ps ≡ (replicate nz 0 ++ replicate np v) ++ p ∷ ps
longer_run nz np v p ps e =
    append_assoc (replicate nz 0) (replicate (np + 1) v) ps
    ∙ ap (λ (t : List ℕ). replicate nz 0 ++ t) (sym (replicate_snoc np v ps))
    ∙ ap (λ (t : ℕ). replicate nz 0 ++ (replicate np v ++ t ∷ ps)) (sym e)
    ∙ sym (append_assoc (replicate nz 0) (replicate np v) (p ∷ ps))

pub length_after_block :
    (done : List ℕ) (nz np v : ℕ)
    → length (done ++ (replicate nz 0 ++ replicate np v)) ≡ length done + (nz + np)
length_after_block done nz np v = omega (
  arith,
  length-append done (replicate nz 0 ++ replicate np v),
  length-append (replicate nz 0) (replicate np v),
  length-replicate {A = ℕ} nz 0,
  length-replicate np v,
)

pub ap_safe :
    (z np p : ℕ) (ps : List ℕ) {hi hi' : ℕ}
    → hi ≡ hi'
    → RunIsSafe hi z np p ps
    → RunIsSafe hi' z np p ps
ap_safe z np p ps e h = subst (λ t. RunIsSafe t z np p ps) e h
