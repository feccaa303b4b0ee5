-- ===== src/Header/Quoted.antt =====
-- header.rs: a quoted string, written with its quotes doubled and read back.
use rustfits.Prelude.{
  ℕ, zero, suc, ◌-◌, ◌==◌, ◌≡◌, refl, sym, ap, ◌∙◌, true, false, inl, inr, Bool-cases, leb, List,
  [], ◌∷◌, ◌++◌, append_assoc, Option, length, length-append, take, arith,
}
use rustfits.Header.Text.{trim_start, trim_end, starts_with}
use rustfits.Header.Value.{
  quote, amp, split_loop, comment_of, split_value_comment, unescape, extract_fits_string, is_quoted,
}
use rustfits.Header.Build.{spaces, escape}
use rustfits.Header.Trim.{and_false, trim_end-append, trim_space, trim_end-spaces, ends_with_last}

-- The quotes of a text come in pairs, and no `/` in it ends the value.
pub IsPaired : List ℕ → Type 0
IsPaired body =
    (rest : List ℕ)
    → split_loop true (body ++ rest) ≡ (body ++ (split_loop true rest).0, (split_loop true rest).1)

pub escape-IsPaired : (v : List ℕ) → IsPaired (escape v)
unfolding IsPaired escape split_loop
escape-IsPaired [] rest = refl
escape-IsPaired (c ∷ v) rest = elim (Bool-cases (c == quote)) [
  | inl t ↦ rw (t, escape-IsPaired v rest) refl
  | inr t ↦ rw (t, t, escape-IsPaired v rest, and_false (c == 47)) refl
]

pub spaces-IsPaired : (n : ℕ) → IsPaired (spaces n)
unfolding IsPaired split_loop
spaces-IsPaired zero rest = refl
spaces-IsPaired (suc n) rest = rw (spaces-IsPaired n rest) refl

pub amp-IsPaired : IsPaired (amp ∷ [])
unfolding IsPaired split_loop
amp-IsPaired rest = refl

pub append-IsPaired : (xs ys : List ℕ) → IsPaired xs → IsPaired ys → IsPaired (xs ++ ys)
unfolding IsPaired
append-IsPaired xs ys p q rest =
    ap (split_loop true) (append_assoc xs ys rest)
    ∙ p (ys ++ rest)
    ∙ (λ i. (xs ++ (q rest i).0, (q rest i).1))
    ∙ ap (λ (l : List ℕ). (l, (split_loop true rest).1))
        (sym (append_assoc xs ys (split_loop true rest).0))

pub unescape-escape : (v t : List ℕ) → unescape false (escape v ++ t) ≡ v ++ unescape false t
unfolding unescape escape
unescape-escape [] t = refl
unescape-escape (c ∷ v) t = elim (Bool-cases (c == quote)) [
  | inl e ↦
      let is_quote : c ≡ quote = ground arith in
      rw is_quote (ap (λ (l : List ℕ). quote ∷ l) (unescape-escape v t))
  | inr e ↦ rw (e, e) (ap (λ (l : List ℕ). c ∷ l) (unescape-escape v t))
]

pub unescape-spaces : (n : ℕ) → unescape false (spaces n) ≡ spaces n
unfolding unescape
unescape-spaces zero = refl
unescape-spaces (suc n) = ap (λ (l : List ℕ). 32 ∷ l) (unescape-spaces n)

pub take-append : (xs ys : List ℕ) → take (length xs) (xs ++ ys) ≡ xs
take-append [] ys = refl
take-append (x ∷ xs) ys = ap (λ (l : List ℕ). x ∷ l) (take-append xs ys)

pub extract_fits_string_lem :
    (body : List ℕ)
    → extract_fits_string (quote ∷ (body ++ quote ∷ [])) ≡ trim_end (unescape false body)
unfolding extract_fits_string
extract_fits_string_lem body =
    let n = length-append body (quote ∷ []) in
    let count : suc (length (body ++ quote ∷ [])) - 2 ≡ length body = omega arith in
    rw (count, take-append body (quote ∷ [])) refl

pub is_quoted_lem : (body : List ℕ) → is_quoted (quote ∷ (body ++ quote ∷ [])) ≡ true
unfolding starts_with
is_quoted_lem body =
    let n = length-append body (quote ∷ []) in
    let long : leb 2 (suc (length (body ++ quote ∷ []))) ≡ true = ground arith in
    rw (ends_with_last quote (quote ∷ body), long) refl

-- The value of a card, the text behind its closing quote without a `/` of its own.
pub value_quoted :
    (body tail : List ℕ) (n : ℕ) (comment : Option (List ℕ))
    → IsPaired body
    → split_loop false tail ≡ (spaces n, comment)
    → split_value_comment (32 ∷ quote ∷ (body ++ quote ∷ tail))
      ≡ (quote ∷ (body ++ quote ∷ []), comment_of comment)
unfolding split_value_comment split_loop trim_start IsPaired
value_quoted body tail n comment p e =
    let ends : trim_end (32 ∷ quote ∷ (body ++ quote ∷ spaces n))
        ≡ 32 ∷ quote ∷ (body ++ quote ∷ []) =
      trim_end-append (32 ∷ quote ∷ body) (spaces n) quote refl
      ∙ ap (λ (l : List ℕ). 32 ∷ quote ∷ (body ++ quote ∷ l)) (trim_end-spaces n) in
    rw (p (quote ∷ tail), e, ends) refl

pub split_value_comment_space :
    (xs : List ℕ) → split_value_comment (32 ∷ xs) ≡ split_value_comment xs
unfolding split_value_comment split_loop
split_value_comment_space xs =
    ap (λ (l : List ℕ). (l, comment_of (split_loop false xs).1))
      (trim_space (split_loop false xs).0)
