-- ===== src/Plio/Output.antt =====
-- zimage/plio.rs, `decode_plio`: what a run writes on an output that is zero behind what is written.
use rustfits.Prelude.{
  ℕ, zero, suc, ◌+◌, ◌-◌, ◌≤◌, ◌≡◌, refl, sym, ap, ◌∙◌, List, [], ◌∷◌, ◌++◌, length, replicate,
  arith, length-append, length-replicate, append_assoc, replicate-add,
}
use rustfits.Plio.Decode.{fill}

pub fill_front :
    (m c v : ℕ) → c ≤ m → fill (replicate m 0) zero c v ≡ replicate c v ++ replicate (m - c) 0
unfolding fill
fill_front zero zero v h = refl
fill_front zero (suc c) v h = absurd (omega arith)
fill_front (suc m) zero v h = let e : suc m - 0 ≡ suc m = omega arith in rw e
fill_front (suc m) (suc c) v h =
    let e : suc m - suc c ≡ m - c = omega arith in
    rw e (ap (◌∷◌ v) (fill_front m c v (omega arith)))

-- A write at the end of what is written.
pub fill_at :
    (done : List ℕ) (m c v : ℕ)
    → c ≤ m
    → fill (done ++ replicate m 0) (length done) c v
      ≡ done ++ (replicate c v ++ replicate (m - c) 0)
unfolding fill
fill_at [] m c v h = fill_front m c v h
fill_at (x ∷ done) m c v h = ap (◌∷◌ x) (fill_at done m c v h)

-- After a run of `c` pixels of value `v`.
pub run_output :
    (n : ℕ) (done : List ℕ) (c v : ℕ)
    → length done + c ≤ n
    → fill (done ++ replicate (n - length done) 0) (length done) c v
      ≡ (done ++ replicate c v) ++ replicate (n - length (done ++ replicate c v)) 0
run_output n done c v h =
    let e : n - length (done ++ replicate c v) ≡ n - length done - c =
      omega (arith, length-append done (replicate c v), length-replicate c v) in
    fill_at done (n - length done) c v (omega arith) ∙ rw (e, append_assoc)

pub length-zeros : (c : ℕ) → length (replicate {A = ℕ} c 0) ≡ c
length-zeros c = length-replicate {A = ℕ} c 0

-- Zeros over zeros change nothing.
pub fill_zeros :
    (done : List ℕ) (m c : ℕ)
    → c ≤ m
    → fill (done ++ replicate m 0) (length done) c 0 ≡ done ++ replicate m 0
fill_zeros done m c h =
    let e : c + (m - c) ≡ m = omega arith in
    fill_at done m c 0 h
    ∙ ap (λ (t : List ℕ). done ++ t)
        (sym (replicate-add {A = ℕ} c (m - c) 0) ∙ ap (λ (k : ℕ). replicate {A = ℕ} k 0) e)

-- The first `c` of the zeros that are left, taken as written.
pub take_zeros :
    (done : List ℕ) (m c : ℕ)
    → c ≤ m
    → done ++ replicate {A = ℕ} m 0 ≡ (done ++ replicate c 0) ++ replicate (m - c) 0
take_zeros done m c h =
    let e : m ≡ c + (m - c) = omega arith in
    ap (λ (k : ℕ). done ++ replicate {A = ℕ} k 0) e
    ∙ ap (λ (t : List ℕ). done ++ t) (replicate-add {A = ℕ} c (m - c) 0)
    ∙ sym (append_assoc done (replicate c 0) (replicate (m - c) 0))

-- Zeros over zeros, and the pixel at their end.
pub zeros_pixel_output :
    (n c pv : ℕ) (done : List ℕ)
    → length done + (c + 1) ≤ n
    → fill
        (fill (done ++ replicate (n - length done) 0) (length done) (c + 1) 0)
        (length done + (c + 1) - 1)
        1
        pv
      ≡ (done ++ (replicate c 0 ++ pv ∷ []))
        ++ replicate (n - length (done ++ (replicate c 0 ++ pv ∷ []))) 0
zeros_pixel_output n c pv done room =
    let m = n - length done in
    let zeros = done ++ replicate {A = ℕ} c 0 in
    let block = replicate {A = ℕ} c 0 ++ pv ∷ [] in
    let end : length done + (c + 1) - 1 ≡ length zeros =
      omega (arith, length-append done (replicate c 0), length-zeros c) in
    let last : n - length (done ++ block) ≡ m - c - 1 = omega (
      arith,
      length-append done block,
      length-append (replicate {A = ℕ} c 0) (pv ∷ []),
      length-zeros c,
    ) in
    rw (fill_zeros done m (c + 1) (omega arith), take_zeros done m c (omega arith), end, last)
      (fill_at zeros (m - c) 1 pv (omega arith) ∙ simp append_assoc)
