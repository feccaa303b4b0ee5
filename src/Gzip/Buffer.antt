-- ===== src/Gzip/Buffer.antt =====
-- Buffers that a loop writes by index.
use rustfits.Prelude.{ℕ, zero, suc, ◌<◌, ◌≡◌, refl, ap, List, [], ◌∷◌, length, get_or, arith}
use rustfits.Prelude.{◌≢◌}

-- `for i in 0..n`
abbrev pub for_range {ℓ} : {S : Type ℓ} → ℕ → (ℕ → S → S) → S → S
for_range zero body s = s
for_range (suc n) body s = body n (for_range n body s)

module _ {ℓ} {A : Type ℓ} where
  abbrev pub set : List A → ℕ → A → List A
  set [] i a = []
  set (x ∷ xs) zero a = a ∷ xs
  set (x ∷ xs) (suc i) a = x ∷ set xs i a

  pub length-set : (xs : List A) (i : ℕ) (a : A) → length (set xs i a) ≡ length xs
  length-set [] i a = refl
  length-set (x ∷ xs) zero a = refl
  length-set (x ∷ xs) (suc i) a = ap suc (length-set xs i a)

  pub get_or-set : (xs : List A) (i : ℕ) (a d : A) → i < length xs → get_or (set xs i a) i d ≡ a
  get_or-set [] i a d h = absurd (omega arith)
  get_or-set (x ∷ xs) zero a d h = refl
  get_or-set (x ∷ xs) (suc i) a d h = get_or-set xs i a d (omega arith)

  pub get_or-set_other :
      (xs : List A) (i k : ℕ) (a d : A) → k ≢ i → get_or (set xs i a) k d ≡ get_or xs k d
  get_or-set_other [] i k a d h = refl
  get_or-set_other (x ∷ xs) zero zero a d h = absurd (h refl)
  get_or-set_other (x ∷ xs) zero (suc k) a d h = refl
  get_or-set_other (x ∷ xs) (suc i) zero a d h = refl
  get_or-set_other (x ∷ xs) (suc i) (suc k) a d h = get_or-set_other xs i k a d (λ e. h (ap suc e))
