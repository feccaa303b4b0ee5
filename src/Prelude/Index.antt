-- ===== src/Prelude/Index.antt =====
-- Lists read by index, with a value for what is out of range.
use Prim.Native.Nat.{ℕ, zero, suc, ◌+◌, ◌-◌, ◌≤◌, ◌<◌}
use mathlib.Core.Path.{◌≡◌, refl}
use mathlib.Core.List.{List, [], ◌∷◌, ◌++◌}
use native.Mathlib.Omega.{arith}
use rustfits.Prelude.Lists.{length, get_or, take, drop, replicate}

module _ {ℓ} {A : Type ℓ} (d : A) where
  pub get_or-append_left :
      (xs ys : List A) (i : ℕ) → i < length xs → get_or (xs ++ ys) i d ≡ get_or xs i d
  get_or-append_left [] ys i h = absurd (omega arith)
  get_or-append_left (x ∷ xs) ys zero h = refl
  get_or-append_left (x ∷ xs) ys (suc i) h = get_or-append_left xs ys i (omega arith)

  pub get_or-append_right :
      (xs ys : List A) (i : ℕ) → length xs ≤ i → get_or (xs ++ ys) i d ≡ get_or ys (i - length xs) d
  get_or-append_right [] ys i h = let e : i - 0 ≡ i = omega arith in rw e
  get_or-append_right (x ∷ xs) ys zero h = absurd (omega arith)
  get_or-append_right (x ∷ xs) ys (suc i) h =
      let e : suc i - suc (length xs) ≡ i - length xs = omega arith in
      rw e (get_or-append_right xs ys i (omega arith))

  pub get_or-take : (n i : ℕ) (xs : List A) → i < n → get_or (take n xs) i d ≡ get_or xs i d
  get_or-take zero i xs h = absurd (omega arith)
  get_or-take (suc n) i [] h = refl
  get_or-take (suc n) zero (x ∷ xs) h = refl
  get_or-take (suc n) (suc i) (x ∷ xs) h = get_or-take n i xs (omega arith)

  pub get_or-drop : (n i : ℕ) (xs : List A) → get_or (drop n xs) i d ≡ get_or xs (n + i) d
  get_or-drop zero i xs = let e : 0 + i ≡ i = omega arith in rw e
  get_or-drop (suc n) i [] = refl
  get_or-drop (suc n) i (x ∷ xs) =
      let e : suc n + i ≡ suc (n + i) = omega arith in rw e (get_or-drop n i xs)

  pub get_or_beyond : (i : ℕ) (xs : List A) → length xs ≤ i → get_or xs i d ≡ d
  get_or_beyond i [] h = refl
  get_or_beyond zero (x ∷ xs) h = absurd (omega arith)
  get_or_beyond (suc i) (x ∷ xs) h = get_or_beyond i xs (omega arith)

  pub get_or-replicate : (n i : ℕ) → get_or (replicate n d) i d ≡ d
  get_or-replicate zero i = refl
  get_or-replicate (suc n) zero = refl
  get_or-replicate (suc n) (suc i) = get_or-replicate n i

  -- Lists of one length with the same entries.
  pub get_or_ext :
      (xs ys : List A)
      → length xs ≡ length ys
      → ((k : ℕ) → k < length xs → get_or xs k d ≡ get_or ys k d)
      → xs ≡ ys
  get_or_ext [] [] same h = refl
  get_or_ext [] (y ∷ ys) same h = absurd (omega arith)
  get_or_ext (x ∷ xs) [] same h = absurd (omega arith)
  get_or_ext (x ∷ xs) (y ∷ ys) same h =
      let first = h 0 (omega arith) in
      let rest = get_or_ext xs ys (omega arith) (λ k below. h (suc k) (omega arith)) in
      λ i. first i ∷ rest i
