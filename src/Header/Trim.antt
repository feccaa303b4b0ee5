-- ===== src/Header/Trim.antt =====
-- header.rs: what trimming keeps of a text.
use rustfits.Prelude.{
  ℕ, zero, suc, ◌-◌, ◌≤◌, ◌≡◌, refl, ap, ◌∙◌, Bool, true, false, ◌&&◌, if◌then◌else◌, inl, inr,
  Bool-cases, List, [], ◌∷◌, ◌++◌, length, length-append, take_all, length-replicate, arith,
}
use rustfits.Header.Text.{is_space, is_empty, trim_start, trim_end, trim, ends_with, pop}
use rustfits.Header.Build.{spaces, pad_to_card}

pub is_empty-append : (xs ys : List ℕ) (c : ℕ) → is_empty (xs ++ c ∷ ys) ≡ false
is_empty-append [] ys c = refl
is_empty-append (x ∷ xs) ys c = refl

pub and_false : (a : Bool) → (a && false) ≡ false
and_false true = refl
and_false false = refl

-- A byte that is no space keeps what stands before it.
pub trim_end-append :
    (xs ys : List ℕ) (c : ℕ) → is_space c ≡ false → trim_end (xs ++ c ∷ ys) ≡ xs ++ c ∷ trim_end ys
unfolding trim_end
trim_end-append [] ys c h = rw h refl
trim_end-append (x ∷ xs) ys c h =
    rw (trim_end-append xs ys c h, is_empty-append xs (trim_end ys) c, and_false (is_space x)) refl

pub trim_end-spaces : (n : ℕ) → trim_end (spaces n) ≡ []
unfolding trim_end
trim_end-spaces zero = refl
trim_end-spaces (suc n) = rw (trim_end-spaces n) refl

pub trim_end-append-spaces : (xs : List ℕ) (n : ℕ) → trim_end (xs ++ spaces n) ≡ trim_end xs
unfolding trim_end
trim_end-append-spaces [] n = trim_end-spaces n
trim_end-append-spaces (x ∷ xs) n = rw (trim_end-append-spaces xs n) refl

-- One step, with the rest trimmed.
abbrev keep : ℕ → List ℕ → List ℕ
keep c rest = if is_space c && is_empty rest then [] else c ∷ rest

trim_end-keep :
    (c : ℕ) (rest : List ℕ) → trim_end rest ≡ rest → trim_end (keep c rest) ≡ keep c rest
unfolding trim_end
trim_end-keep c rest e = elim (Bool-cases (is_space c && is_empty rest)) [
  | inl t ↦ rw t refl
  | inr t ↦ rw (t, e, t) refl
]

pub trim_end_idem : (xs : List ℕ) → trim_end (trim_end xs) ≡ trim_end xs
unfolding trim_end
trim_end_idem [] = refl
trim_end_idem (x ∷ xs) = trim_end-keep x (trim_end xs) (trim_end_idem xs)

pub trim_end-append-trim_end : (xs ys : List ℕ) → trim_end (xs ++ trim_end ys) ≡ trim_end (xs ++ ys)
unfolding trim_end
trim_end-append-trim_end [] ys = trim_end_idem ys
trim_end-append-trim_end (x ∷ xs) ys = ap (keep x) (trim_end-append-trim_end xs ys)

pub trim-trim_end : (xs : List ℕ) → trim (trim_end xs) ≡ trim xs
trim-trim_end xs = ap trim_start (trim_end_idem xs)

trim_start-keep : (rest : List ℕ) → trim_start (keep 32 rest) ≡ trim_start rest
unfolding trim_start
trim_start-keep [] = refl
trim_start-keep (c ∷ rest) = refl

-- A space at the front does not count.
pub trim_space : (xs : List ℕ) → trim (32 ∷ xs) ≡ trim xs
unfolding trim_end
trim_space xs = trim_start-keep (trim_end xs)

pub ends_with_last : (c : ℕ) (s : List ℕ) → ends_with c (s ++ c ∷ []) ≡ true
unfolding ends_with
ends_with_last c [] = ground arith
ends_with_last c (d ∷ []) = ground arith
ends_with_last c (d ∷ e ∷ s) = ends_with_last c (e ∷ s)

pub pop_last : (c : ℕ) (s : List ℕ) → pop (s ++ c ∷ []) ≡ s
unfolding pop
pop_last c [] = refl
pop_last c (d ∷ []) = refl
pop_last c (d ∷ e ∷ s) = ap (λ (l : List ℕ). d ∷ l) (pop_last c (e ∷ s))

-- A card that is not cut, and its end.
pub pad_to_card_lem : (s : List ℕ) → length s ≤ 80 → pad_to_card s ≡ s ++ spaces (80 - length s)
unfolding pad_to_card
pad_to_card_lem s h =
    let n = length-append s (spaces (80 - length s)) in
    let m : length (spaces (80 - length s)) ≡ 80 - length s = length-replicate (80 - length s) 32 in
    take_all 80 (s ++ spaces (80 - length s)) (omega arith)

pub trim_end-pad_to_card : (s : List ℕ) → length s ≤ 80 → trim_end (pad_to_card s) ≡ trim_end s
trim_end-pad_to_card s h =
    ap trim_end (pad_to_card_lem s h) ∙ trim_end-append-spaces s (80 - length s)
