-- ===== src/Remote/Runs.antt =====
-- remote_range.rs, `plan_block_fetches`: which blocks the runs hold.
use rustfits.Prelude.{
  ℕ, zero, suc, ◌+◌, ◌-◌, ◌≤◌, ◌<◌, ◌≡◌, refl, ap, ◌∙◌, ◌⊎◌, inl, inr, Bool, true, false, List, [],
  ◌∷◌, ◌++◌, append_assoc, All, length, get_or, arith,
}
use rustfits.Remote.Plan.{plan_loop, run_loop, plan_block_fetches}

abbrev Runs : Type 0
Runs = List (ℕ × ℕ)

abbrev pub InRuns : Runs → ℕ → Type 0
InRuns [] b = ⊥
InRuns (run ∷ runs) b = ((run.0 ≤ b) × (b < run.0 + run.1)) ⊎ InRuns runs b

abbrev pub range : ℕ → ℕ → List ℕ
range b zero = []
range b (suc n) = b ∷ range (suc b) n

-- The blocks of the runs, in order.
abbrev pub expand : Runs → List ℕ
expand [] = []
expand (run ∷ runs) = range run.0 run.1 ++ expand runs

-- The blocks that are not cached, in order.
abbrev pub missing : ℕ → List Bool → List ℕ
missing b [] = []
missing b (true ∷ have) = missing (suc b) have
missing b (false ∷ have) = b ∷ missing (suc b) have

-- No run is empty, and behind each is a block that no run holds: none could be one with the next.
abbrev pub IsCoalesced : ℕ → Runs → Type 0
IsCoalesced b [] = Unit
IsCoalesced b (run ∷ runs) = (b ≤ run.0) × (0 < run.1) × IsCoalesced (suc (run.0 + run.1)) runs

module _ (first : ℕ) where
  mutual
    unfolding plan_loop run_loop

    plan_loop-covers :
        (i k : ℕ) (have : List Bool)
        → get_or have k true ≡ false
        → InRuns (plan_loop first i have) (first + (i + k))
    plan_loop-covers i k [] h = absurd cc
    plan_loop-covers i zero (true ∷ have) h = absurd cc
    plan_loop-covers i zero (false ∷ have) h =
        run_loop-holds i (suc i) (i + 0) have (omega arith) (omega arith)
    plan_loop-covers i (suc k) (true ∷ have) h =
        let e : i + suc k ≡ suc i + k = omega arith in rw e (plan_loop-covers (suc i) k have h)
    plan_loop-covers i (suc k) (false ∷ have) h =
        let e : i + suc k ≡ suc i + k = omega arith in
        rw e (run_loop-covers i (suc i) k have (omega arith) h)

    run_loop-covers :
        (start i k : ℕ) (have : List Bool)
        → start ≤ i
        → get_or have k true ≡ false
        → InRuns (run_loop first start i have) (first + (i + k))
    run_loop-covers start i k [] le h = absurd cc
    run_loop-covers start i zero (true ∷ have) le h = absurd cc
    run_loop-covers start i zero (false ∷ have) le h =
        run_loop-holds start (suc i) (i + 0) have (omega arith) (omega arith)
    run_loop-covers start i (suc k) (true ∷ have) le h =
        let e : i + suc k ≡ suc i + k = omega arith in
        inr (rw e (plan_loop-covers (suc i) k have h))
    run_loop-covers start i (suc k) (false ∷ have) le h =
        let e : i + suc k ≡ suc i + k = omega arith in
        rw e (run_loop-covers start (suc i) k have (omega arith) h)

    -- The run at hand holds its blocks so far.
    run_loop-holds :
        (start i b : ℕ) (have : List Bool)
        → start ≤ b
        → b < i
        → InRuns (run_loop first start i have) (first + b)
    run_loop-holds start i b [] h h' = inl (omega arith, omega arith)
    run_loop-holds start i b (true ∷ have) h h' = inl (omega arith, omega arith)
    run_loop-holds start i b (false ∷ have) h h' =
        run_loop-holds start (suc i) b have h (omega arith)

-- The runs lie between `low` and `high`.
abbrev pub IsWithin : ℕ → ℕ → Runs → Type 0
IsWithin low high = All (λ run. (low ≤ run.0) × (run.0 + run.1 ≤ high))

IsWithin-lower :
    (low low' high : ℕ) (runs : Runs)
    → low ≤ low'
    → IsWithin low' high runs
    → IsWithin low high runs
IsWithin-lower low low' high [] h w = tt
IsWithin-lower low low' high (run ∷ runs) h ((a, b), w) =
    ((omega arith, b), IsWithin-lower low low' high runs h w)

module _ (first : ℕ) where
  mutual
    unfolding plan_loop run_loop

    plan_loop-IsWithin :
        (i high : ℕ) (have : List Bool)
        → first + i + length have ≤ high
        → IsWithin first high (plan_loop first i have)
    plan_loop-IsWithin i high [] h = tt
    plan_loop-IsWithin i high (true ∷ have) h = plan_loop-IsWithin (suc i) high have (omega arith)
    plan_loop-IsWithin i high (false ∷ have) h =
        run_loop-IsWithin i (suc i) high have (omega arith) (omega arith)

    run_loop-IsWithin :
        (start i high : ℕ) (have : List Bool)
        → start ≤ i
        → first + i + length have ≤ high
        → IsWithin first high (run_loop first start i have)
    run_loop-IsWithin start i high [] le h = ((omega arith, omega arith), tt)
    run_loop-IsWithin start i high (true ∷ have) le h =
        ((omega arith, omega arith), plan_loop-IsWithin (suc i) high have (omega arith))
    run_loop-IsWithin start i high (false ∷ have) le h =
        run_loop-IsWithin start (suc i) high have (omega arith) (omega arith)

  mutual
    unfolding plan_loop run_loop

    plan_loop-IsCoalesced :
        (i low : ℕ) (have : List Bool) → low ≤ first + i → IsCoalesced low (plan_loop first i have)
    plan_loop-IsCoalesced i low [] h = tt
    plan_loop-IsCoalesced i low (true ∷ have) h =
        plan_loop-IsCoalesced (suc i) low have (omega arith)
    plan_loop-IsCoalesced i low (false ∷ have) h =
        run_loop-IsCoalesced i (suc i) low have h (omega arith)

    run_loop-IsCoalesced :
        (start i low : ℕ) (have : List Bool)
        → low ≤ first + start
        → start < i
        → IsCoalesced low (run_loop first start i have)
    run_loop-IsCoalesced start i low [] h h' = (h, omega arith, tt)
    run_loop-IsCoalesced start i low (true ∷ have) h h' = (
      h,
      omega arith,
      plan_loop-IsCoalesced (suc i) (suc (first + start + (i - start))) have (omega arith),
    )
    run_loop-IsCoalesced start i low (false ∷ have) h h' =
        run_loop-IsCoalesced start (suc i) low have h (omega arith)

  range-append : (b n : ℕ) → range b (suc n) ≡ range b n ++ (b + n) ∷ []
  range-append b zero = let e : b + 0 ≡ b = omega arith in rw e refl
  range-append b (suc n) =
      let e : b + suc n ≡ suc b + n = omega arith in rw e (ap (◌∷◌ b) (range-append (suc b) n))

  mutual
    unfolding plan_loop run_loop

    expand-plan_loop :
        (i : ℕ) (have : List Bool) → expand (plan_loop first i have) ≡ missing (first + i) have
    expand-plan_loop i [] = refl
    expand-plan_loop i (true ∷ have) =
        let e : first + suc i ≡ suc (first + i) = omega arith in
        rw⁻¹ e (expand-plan_loop (suc i) have)
    expand-plan_loop i (false ∷ have) =
        let one : suc i - i ≡ 1 = omega arith in
        let e : first + suc i ≡ suc (first + i) = omega arith in
        expand-run_loop i (suc i) have (omega arith)
        ∙ ap (λ (n : ℕ). range (first + i) n ++ missing (first + suc i) have) one
        ∙ ap (λ (b : ℕ). (first + i) ∷ missing b have) e

    expand-run_loop :
        (start i : ℕ) (have : List Bool)
        → start ≤ i
        → expand (run_loop first start i have)
          ≡ range (first + start) (i - start) ++ missing (first + i) have
    expand-run_loop start i [] le = refl
    expand-run_loop start i (true ∷ have) le =
        let e : first + suc i ≡ suc (first + i) = omega arith in
        ap (λ (l : List ℕ). range (first + start) (i - start) ++ l) (expand-plan_loop (suc i) have)
        ∙ ap (λ (b : ℕ). range (first + start) (i - start) ++ missing b have) e
    expand-run_loop start i (false ∷ have) le =
        let n : suc i - start ≡ suc (i - start) = omega arith in
        let last : first + start + (i - start) ≡ first + i = omega arith in
        let e : first + suc i ≡ suc (first + i) = omega arith in
        expand-run_loop start (suc i) have (omega arith)
        ∙ ap (λ (k : ℕ). range (first + start) k ++ missing (first + suc i) have) n
        ∙ ap (λ (l : List ℕ). l ++ missing (first + suc i) have)
            (range-append (first + start) (i - start))
        ∙ append_assoc (range (first + start) (i - start)) _ _
        ∙ ap (λ (b : ℕ). range (first + start) (i - start) ++ b ∷ missing (first + suc i) have) last
        ∙ ap (λ (b : ℕ). range (first + start) (i - start) ++ (first + i) ∷ missing b have) e

-- `plan_block_fetches` plans the blocks that are not cached, each once and in order, and no others;
-- no run is empty, and no two runs could be one.
pub expand-plan_block_fetches :
    (first : ℕ) (have : List Bool)
    → (expand (plan_block_fetches first have) ≡ missing first have)
      × IsCoalesced first (plan_block_fetches first have)
unfolding plan_block_fetches
expand-plan_block_fetches first have =
    let e : first + 0 ≡ first = omega arith in
    (
      expand-plan_loop first 0 have ∙ ap (λ (b : ℕ). missing b have) e,
      plan_loop-IsCoalesced first 0 first have (omega arith),
    )

pub plan_block_fetches-covers :
    (first k : ℕ) (have : List Bool)
    → get_or have k true ≡ false
    → InRuns (plan_block_fetches first have) (first + k)
unfolding plan_block_fetches
plan_block_fetches-covers first k have h =
    let e : first + (0 + k) ≡ first + k = omega arith in rw⁻¹ e (plan_loop-covers first 0 k have h)

pub plan_block_fetches-IsWithin :
    (first : ℕ) (have : List Bool)
    → IsWithin first (first + length have) (plan_block_fetches first have)
unfolding plan_block_fetches
plan_block_fetches-IsWithin first have =
    plan_loop-IsWithin first 0 (first + length have) have (omega arith)
