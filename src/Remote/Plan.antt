-- ===== src/Remote/Plan.antt =====
-- remote_range.rs, `plan_block_fetches`: runs of blocks that are not cached.
use rustfits.Prelude.{ℕ, suc, ◌+◌, ◌-◌, Bool, true, false, List, [], ◌∷◌}

-- `i` is the index of the block at hand. In a run, `start` is the index of its first block.
unfoldable mutual
  pub plan_loop : ℕ → ℕ → List Bool → List (ℕ × ℕ)
  plan_loop first i [] = []
  plan_loop first i (true ∷ have) = plan_loop first (suc i) have
  plan_loop first i (false ∷ have) = run_loop first i (suc i) have

  pub run_loop : ℕ → ℕ → ℕ → List Bool → List (ℕ × ℕ)
  run_loop first start i [] = (first + start, i - start) ∷ []
  run_loop first start i (true ∷ have) = (first + start, i - start) ∷ plan_loop first (suc i) have
  run_loop first start i (false ∷ have) = run_loop first start (suc i) have

unfoldable pub plan_block_fetches : ℕ → List Bool → List (ℕ × ℕ)
plan_block_fetches first have = plan_loop first 0 have
