-- ===== src/Remote/Blocks.antt =====
-- remote_range.rs: the blocks of a file.
use rustfits.Prelude.{
  ℕ, zero, suc, ◌+◌, ◌-◌, ◌*◌, ◌≤◌, ◌<◌, ◌≡◌, refl, ap, ◌∙◌, min, List, [], ◌∷◌, length, take, drop,
  length-take, length-drop, get_or-take, get_or-drop, arith,
}
use rustfits.Storage.Bytes.{byte_at}

module _ {ℓ} {A : Type ℓ} where
  pub take-take_short :
      (a m : ℕ) (l : List A) → a ≤ length (take m l) → take a (take m l) ≡ take a l
  take-take_short zero m l h = refl
  take-take_short (suc a) zero l h = absurd (omega arith)
  take-take_short (suc a) (suc m) [] h = refl
  take-take_short (suc a) (suc m) (x ∷ l) h = ap (◌∷◌ x) (take-take_short a m l (omega arith))

  pub take-min : (n : ℕ) (l : List A) → take (min n (length l)) l ≡ take n l
  take-min zero l = let e : min 0 (length l) ≡ 0 = omega arith in rw e refl
  take-min (suc n) [] = let e : min (suc n) 0 ≡ 0 = omega arith in rw e refl
  take-min (suc n) (x ∷ l) =
      let e : min (suc n) (suc (length l)) ≡ suc (min n (length l)) = omega arith in
      rw e (ap (◌∷◌ x) (take-min n l))

  pub drop-take : (a m : ℕ) (l : List A) → drop a (take m l) ≡ take (m - a) (drop a l)
  drop-take zero m l = let e : m - 0 ≡ m = omega arith in rw e refl
  drop-take (suc a) zero l = let e : 0 - suc a ≡ 0 = omega arith in rw e refl
  drop-take (suc a) (suc m) [] =
      let e : suc m - suc a ≡ m - a = omega arith in rw e (nothing (m - a))
    where
      nothing : (k : ℕ) → drop {A = A} (suc a) [] ≡ take k (drop {A = A} (suc a) [])
      nothing zero = refl
      nothing (suc k) = refl
  drop-take (suc a) (suc m) (x ∷ l) =
      let e : suc m - suc a ≡ m - a = omega arith in rw e (drop-take a m l)

  pub drop-drop : (a b : ℕ) (l : List A) → drop a (drop b l) ≡ drop (b + a) l
  drop-drop a zero l = let e : 0 + a ≡ a = omega arith in rw e refl
  drop-drop a (suc b) [] = let e : suc b + a ≡ suc (b + a) = omega arith in rw e (nothing a)
    where
      nothing : (k : ℕ) → drop {A = A} k [] ≡ []
      nothing zero = refl
      nothing (suc k) = refl
  drop-drop a (suc b) (x ∷ l) =
      let e : suc b + a ≡ suc (b + a) = omega arith in rw e (drop-drop a b l)

module _ (file : List ℕ) (block_bytes : ℕ) where
  abbrev pub block_of : ℕ → List ℕ
  block_of b = take block_bytes (drop (b * block_bytes) file)

  -- `n` blocks from block `b` on.
  abbrev pub blocks_from : ℕ → ℕ → List (List ℕ)
  blocks_from zero b = []
  blocks_from (suc n) b = block_of b ∷ blocks_from n (suc b)

  pub length-block_of :
      (b : ℕ) → length (block_of b) ≡ min block_bytes (length file - b * block_bytes)
  length-block_of b = omega (
    arith,
    length-take block_bytes (drop (b * block_bytes) file),
    length-drop (b * block_bytes) file,
  )

  pub byte_at-block_of :
      (b i : ℕ) → i < block_bytes → byte_at (block_of b) i ≡ byte_at file (b * block_bytes + i)
  byte_at-block_of b i h =
      get_or-take 0 block_bytes i (drop (b * block_bytes) file) h
      ∙ get_or-drop 0 (b * block_bytes) i file
