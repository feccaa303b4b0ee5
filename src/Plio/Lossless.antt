-- ===== src/Plio/Lossless.antt =====
-- zimage/plio.rs, `encode_plio_i32`: which images the words carry, and the loop over the pixels.
use rustfits.Prelude.{
  ℕ, zero, suc, ◌+◌, ◌-◌, ◌%◌, ◌^◌, ◌≤◌, ◌<◌, ◌≡◌, ◌≢◌, refl, sym, ap, ◌∙◌, Bool, true, false, not,
  ◌&&◌, ◌||◌, List, [], ◌∷◌, ◌++◌, length, replicate, ◌==◌, leb, if◌then◌else◌, ok, arith,
  append_assoc, append-nil,
}
use rustfits.Plio.Decode.{decode_loop}
use rustfits.Plio.Encode.{clamp, EncodeState, emit, emit_run, encode_step, encode_loop}
use rustfits.Plio.Step.{at}
use rustfits.Plio.Emit.{IsLossless, emit_lem}

abbrev pub starts_with : ℕ → List ℕ → Bool
starts_with v [] = false
starts_with v (p ∷ ps) = p == v

-- A pixel `v` behind `z` zeros, where `hi` is the last pixel that is not 0: it is 0 or not the only one
-- of its value, or it stands within 4095 of `hi`, or behind zeros whose count is no multiple of 4095.
abbrev pub pixel_is_safe : ℕ → ℕ → ℕ → List ℕ → Bool
pixel_is_safe hi z v ps =
    v == 0
    || (starts_with v ps
        || (if z == 0 then leb v (hi + 4095) && leb hi (v + 4095) else not (z % 4095 == 0)))

unfoldable pub is_lossless : ℕ → ℕ → List ℕ → Bool
is_lossless hi z [] = true
is_lossless hi z (v ∷ ps) =
    pixel_is_safe hi z v ps
    && is_lossless (if v == 0 then hi else v) (if v == 0 then z + 1 else 0) ps

abbrev pub IsPixel : ℕ → Type 0
IsPixel v = v < 2 ^ 27

-- `words` decodes to `tail` behind `done`.
unfoldable pub Reads : ℕ → List ℕ → ℕ → List ℕ → List ℕ → Type 0
Reads n done hi words tail =
    (hi' : ℕ) × (decode_loop n words (at n done hi) ≡ ok (at n (done ++ tail) hi'))

-- What the loop appends decodes to the pixels from `iz` on.
unfoldable pub Emits : ℕ → List ℕ → List ℕ → EncodeState → List ℕ → Type 0
Emits n done ps s tail =
    (words : List ℕ) × ((encode_loop ps s).out ≡ s.out ++ words) × Reads n done s.hi words tail

pub clamp_pixel : (v : ℕ) → IsPixel v → clamp v ≡ v
clamp_pixel v h = ground arith

pub step_same :
    (s : EncodeState) (p : ℕ) → IsPixel p → p ≡ s.pv → encode_step s p ≡ record s { ip = s.ip + 1 }
unfolding encode_step
step_same s p h e = let t : (clamp p == s.pv) ≡ true = ground arith in rw t

pub step_start :
    (s : EncodeState) (p : ℕ)
    → IsPixel p
    → p ≢ s.pv
    → s.pv ≡ 0
    → encode_step s p ≡ record s { pv = p; x1 = s.ip + 1; ip = s.ip + 1 }
unfolding encode_step
step_start s p h d e =
    let t : (clamp p == s.pv) ≡ false = ground arith in
    let u : (s.pv == 0) ≡ true = ground arith in rw (t, u, clamp_pixel p h)

pub step_emit :
    (s : EncodeState) (p : ℕ)
    → IsPixel p
    → p ≢ s.pv
    → s.pv ≢ 0
    → encode_step s p ≡ emit_run s s.x1 p
unfolding encode_step
step_emit s p h d e =
    let t : (clamp p == s.pv) ≡ false = ground arith in
    let u : (s.pv == 0) ≡ false = ground arith in rw (t, u, clamp_pixel p h)

-- The variables in front of the next pixel: `np` pixels `pv` behind `nz` zeros are not emitted yet.
pub record InRun (s : EncodeState) (v nz np : ℕ) : Type 0 where
  pub value : s.pv ≡ v
  pub start : s.x1 ≡ s.iz + nz
  pub count : s.ip + 1 ≡ s.x1 + np
  pub high : s.hi < 2 ^ 27

-- The same in a gap of `m` zeros.
pub record InGap (s : EncodeState) (m : ℕ) : Type 0 where
  pub value : s.pv ≡ 0
  pub start : s.x1 ≡ s.iz
  pub count : s.ip + 1 ≡ s.iz + m
  pub high : s.hi < 2 ^ 27

pub replicate_snoc : (m v : ℕ) (ps : List ℕ) → replicate m v ++ v ∷ ps ≡ replicate (m + 1) v ++ ps
replicate_snoc zero v ps = refl
replicate_snoc (suc m) v ps =
    let e : suc m + 1 ≡ suc (m + 1) = omega arith in rw e (ap (◌∷◌ v) (replicate_snoc m v ps))

-- A round that emits a run: what it appends, and how the rest follows.
module _ (n : ℕ) (done : List ℕ) (s : EncodeState) (v nz np p : ℕ) (r : InRun s v nz np)
    (pos : 0 < v) (small : v < 2 ^ 27) (some_pixel : 0 < np) (safe : IsLossless v s.hi np nz)
    (room : length done + (nz + np) ≤ n) where
  abbrev pub block : List ℕ
  block = replicate nz 0 ++ replicate np v

  emit_run_out : (emit_run s s.x1 p).out ≡ s.out ++ emit v s.hi np nz
  unfolding emit_run
  emit_run_out =
      let e1 : s.ip + 1 - s.x1 ≡ np = omega (arith, r.start, r.count) in
      let e2 : s.x1 - s.iz ≡ nz = omega (arith, r.start, r.count) in rw (e1, e2, r.value)

  pub emit_run_hi : (emit_run s s.x1 p).hi ≡ v
  unfolding emit_run
  emit_run_hi = let e = r.value in ground arith

  pub after_run :
      (ps tail : List ℕ)
      → Emits n (done ++ block) ps (emit_run s s.x1 p) tail
      → (words : List ℕ) × ((encode_loop ps (emit_run s s.x1 p)).out ≡ s.out ++ words)
        × Reads n done s.hi words (block ++ tail)
  unfolding Emits Reads
  after_run ps tail (words, out, (hi', read)) =
      let e = emit v s.hi np nz in
      (
        e ++ words,
        out ∙ ap (λ (t : List ℕ). t ++ words) emit_run_out ∙ append_assoc s.out e words,
        (
          hi',
          emit_lem n v s.hi np nz done words pos small r.high some_pixel safe room
              ∙ ap (λ (t : ℕ). decode_loop n words (at n (done ++ block) t)) (sym emit_run_hi)
              ∙ read
              ∙ ap (λ (t : List ℕ). ok (at n t hi')) (append_assoc done block tail),
        ),
      )

  pub last_run :
      (words : List ℕ) × ((emit_run s s.x1 p).out ≡ s.out ++ words) × Reads n done s.hi words block
  unfolding Reads decode_loop
  last_run =
      let e = emit v s.hi np nz in
      (
        e,
        emit_run_out,
        (
          v,
          ap (λ (t : List ℕ). decode_loop n t (at n done s.hi)) (sym (append-nil e))
              ∙ emit_lem n v s.hi np nz done [] pos small r.high some_pixel safe room,
        ),
      )

pub InRun-after :
    (s : EncodeState) (p : ℕ) → (emit_run s s.x1 p).hi < 2 ^ 27 → InRun (emit_run s s.x1 p) p 0 1
unfolding emit_run
InRun-after s p h = record { value = refl; start = omega arith; count = omega arith; high = h }

pub InGap-after :
    (s : EncodeState) (p : ℕ)
    → p ≡ 0
    → (emit_run s s.x1 p).hi < 2 ^ 27
    → InGap (emit_run s s.x1 p) 1
unfolding emit_run
InGap-after s p e h = record { value = e; start = omega arith; count = omega arith; high = h }

-- What the scan says of a run of `np` pixels `v` that may go on in `ps`.
unfoldable pub RunIsSafe : ℕ → ℕ → ℕ → ℕ → List ℕ → Type 0
RunIsSafe hi nz np v ps = np ≡ 1 → starts_with v ps ≡ false → pixel_is_safe hi nz v ps ≡ true

pub IsLossless-of_safe :
    (hi nz np v : ℕ) (ps : List ℕ)
    → 0 < v
    → RunIsSafe hi nz np v ps
    → starts_with v ps ≡ false
    → IsLossless v hi np nz
unfolding RunIsSafe IsLossless
IsLossless-of_safe hi nz np v ps pos safe alone = (
  λ one none. let e = safe one alone in ground arith,
  λ one some. let e = safe one alone in λ z. ground arith,
)
