-- ===== src/Storage/Bytes.antt =====
-- The bytes of a file: cut or extended with zeros, and written at a position.
use rustfits.Prelude.{
  ℕ, ◌+◌, ◌-◌, ◌≤◌, ◌<◌, ◌≡◌, refl, sym, ap, ◌∙◌, List, [], ◌∷◌, ◌++◌, length, get_or, take, drop,
  replicate, length-append, length-take, length-drop, length-replicate, get_or-append_left,
  get_or-append_right, get_or-take, get_or-drop, get_or_beyond, get_or-replicate, arith,
}
use native.Mathlib.Decide.{dec_lt}

abbrev pub resize : ℕ → List ℕ → List ℕ
resize n xs = take n xs ++ replicate (n - length xs) 0

-- A write behind the end fills the gap with zeros; one of no bytes does nothing.
abbrev pub overwrite : List ℕ → ℕ → List ℕ → List ℕ
overwrite xs pos [] = xs
overwrite xs pos (c ∷ cs) = let buf = c ∷ cs in resize pos xs ++ (buf ++ drop (pos + length buf) xs)

-- The byte at an index; 0 behind the end.
abbrev pub byte_at : List ℕ → ℕ → ℕ
byte_at xs i = get_or xs i 0

pub length-resize : (n : ℕ) (xs : List ℕ) → length (resize n xs) ≡ n
length-resize n xs = omega (
  arith,
  length-append (take n xs) (replicate (n - length xs) 0),
  length-take n xs,
  length-replicate {A = ℕ} (n - length xs) 0,
)

pub length-overwrite :
    (xs : List ℕ) (pos : ℕ) (buf : List ℕ)
    → pos + length buf ≤ length xs
    → length (overwrite xs pos buf) ≡ length xs
length-overwrite xs pos [] h = refl
length-overwrite xs pos (c ∷ cs) h =
    let buf = c ∷ cs in
    omega (
      arith,
      length-append (resize pos xs) (buf ++ drop (pos + length buf) xs),
      length-append buf (drop (pos + length buf) xs),
      length-resize pos xs,
      length-drop (pos + length buf) xs,
    )

pub byte_at-resize : (n i : ℕ) (xs : List ℕ) → i < n → byte_at (resize n xs) i ≡ byte_at xs i
byte_at-resize n i xs h = elim (dec_lt i (length xs)) [
  | yes inside ↦
      get_or-append_left 0 (take n xs) (replicate (n - length xs) 0) i
        (omega (arith, length-take n xs))
      ∙ get_or-take 0 n i xs h
  | no outside ↦
      get_or-append_right 0 (take n xs) (replicate (n - length xs) 0) i
        (omega (arith, length-take n xs))
      ∙ get_or-replicate 0 (n - length xs) (i - length (take n xs))
      ∙ sym (get_or_beyond 0 i xs (omega arith))
]

pub byte_at-overwrite_before :
    (xs : List ℕ) (pos : ℕ) (buf : List ℕ) (i : ℕ)
    → i < pos
    → byte_at (overwrite xs pos buf) i ≡ byte_at xs i
byte_at-overwrite_before xs pos [] i h = refl
byte_at-overwrite_before xs pos (c ∷ cs) i h =
    let buf = c ∷ cs in
    get_or-append_left 0 (resize pos xs) (buf ++ drop (pos + length buf) xs) i
      (omega (arith, length-resize pos xs))
    ∙ byte_at-resize pos i xs h

pub byte_at-overwrite_in :
    (xs : List ℕ) (pos : ℕ) (buf : List ℕ) (i : ℕ)
    → i < length buf
    → byte_at (overwrite xs pos buf) (pos + i) ≡ byte_at buf i
byte_at-overwrite_in xs pos [] i h = absurd (omega arith)
byte_at-overwrite_in xs pos (c ∷ cs) i h =
    let buf = c ∷ cs in
    let len = length-resize pos xs in
    let e : pos + i - length (resize pos xs) ≡ i = omega arith in
    get_or-append_right 0 (resize pos xs) (buf ++ drop (pos + length buf) xs) (pos + i)
      (omega arith)
    ∙ ap (λ (k : ℕ). get_or (buf ++ drop (pos + length buf) xs) k 0) e
    ∙ get_or-append_left 0 buf (drop (pos + length buf) xs) i h

pub byte_at-overwrite_after :
    (xs : List ℕ) (pos : ℕ) (buf : List ℕ) (i : ℕ)
    → pos + length buf ≤ i
    → byte_at (overwrite xs pos buf) i ≡ byte_at xs i
byte_at-overwrite_after xs pos [] i h = refl
byte_at-overwrite_after xs pos (c ∷ cs) i h =
    let buf = c ∷ cs in
    let len = length-resize pos xs in
    let k = i - length (resize pos xs) in
    let e : pos + length buf + (k - length buf) ≡ i = omega arith in
    get_or-append_right 0 (resize pos xs) (buf ++ drop (pos + length buf) xs) i (omega arith)
    ∙ get_or-append_right 0 buf (drop (pos + length buf) xs) k (omega arith)
    ∙ get_or-drop 0 (pos + length buf) (k - length buf) xs
    ∙ ap (byte_at xs) e
