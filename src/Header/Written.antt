-- ===== src/Header/Written.antt =====
-- header.rs: the keyword of a card that has been written.
use rustfits.Prelude.{
  ℕ, zero, suc, ◌-◌, ◌==◌, ◌≤◌, ◌≡◌, refl, sym, ap, ◌∙◌, Bool, true, false, ◌||◌, inl, inr,
  Bool-cases, and_true, leb, List, [], ◌∷◌, ◌++◌, append_assoc, some, length, take, drop, Outcome,
  ok, arith,
}
use rustfits.Header.Text.{codes, is_space, is_empty, trim_start, trim_end, trim, same, find}
use rustfits.Header.Value.{quote}
use rustfits.Header.Build.{
  spaces, left_8, escape, pad_to_card, card_string, take_part, first_card, chunk_loop,
  max_last_payload, HeaderError, build_string_value_cards,
}
use rustfits.Header.Trim.{is_empty-append, trim_end-append, trim_end-append-spaces}
use rustfits.Header.Quoted.{take-append}
use rustfits.Header.Single.{length-left_8}
use rustfits.Header.Keyword.{
  contains, key_field, normalize_keyword, is_skipped, is_key_char, all_key_chars,
}
use rustfits.Header.Edit.{value_part}
use rustfits.Header.Found.{same_refl, normalize-is_skipped}

-- A card with a keyword and `= `.
pub record IsCard (key card : List ℕ) : Type 0 where
  pub rest : List ℕ
  pub text : trim_end card ≡ left_8 key ++ 61 ∷ rest

take-behind :
    (xs ys : List ℕ) (c n : ℕ)
    → length xs ≤ n
    → take (suc n) (xs ++ c ∷ ys) ≡ xs ++ c ∷ take (n - length xs) ys
take-behind [] ys c n h = let e : n - 0 ≡ n = omega arith in rw e refl
take-behind (x ∷ xs) ys c zero h = absurd (omega arith)
take-behind (x ∷ xs) ys c (suc n) h =
    let e : suc n - suc (length xs) ≡ n - length xs = omega arith in
    rw e (ap (λ (l : List ℕ). x ∷ l) (take-behind xs ys c n (omega arith)))

pad_to_card-IsCard :
    (key rest : List ℕ) → length key ≤ 8 → IsCard key (pad_to_card (left_8 key ++ 61 ∷ rest))
unfolding pad_to_card
pad_to_card-IsCard key rest short =
    let n = 80 - length (left_8 key ++ 61 ∷ rest) in
    let k = length-left_8 key short in
    record {
      rest = trim_end (take (79 - length (left_8 key)) (rest ++ spaces n));
      text =
          ap (λ (l : List ℕ). trim_end (take 80 l))
            (append_assoc (left_8 key) (61 ∷ rest) (spaces n))
          ∙ ap trim_end (take-behind (left_8 key) (rest ++ spaces n) 61 79 (omega arith))
          ∙ trim_end-append (left_8 key) (take (79 - length (left_8 key)) (rest ++ spaces n)) 61
              refl;
    }

card_string-IsCard :
    (key value comment : List ℕ) → length key ≤ 8 → IsCard key (card_string key value comment)
unfolding card_string
card_string-IsCard key value comment short =
    let body = 32 ∷ quote ∷ (left_8 (escape value) ++ quote ∷ []) in
    let head = left_8 key ++ 61 ∷ body in
    elim (Bool-cases (is_empty comment)) [
      | inl e ↦ rw e (pad_to_card-IsCard key body short)
      | inr e ↦ elim (Bool-cases (leb (length head) 31)) [
        | inl t ↦
            let tail = spaces (31 - length head) ++ (codes "/ " ++ comment) in
            rw (e, t, append_assoc (left_8 key) (61 ∷ body) tail)
              (pad_to_card-IsCard key (body ++ tail) short)
        | inr t ↦
            rw (e, t, append_assoc (left_8 key) (61 ∷ body) (codes " / " ++ comment))
              (pad_to_card-IsCard key (body ++ (codes " / " ++ comment)) short)
      ]
    ]

-- The first card of a value has the keyword.
pub record IsWritten (key : List ℕ) (cards : List (List ℕ)) : Type 0 where
  pub first : List ℕ
  pub others : List (List ℕ)
  pub whole : cards ≡ first ∷ others
  pub card : IsCard key first

pub build_string_value_cards-IsWritten :
    (key value comment : List ℕ) (cards : List (List ℕ))
    → length key ≤ 8
    → build_string_value_cards key value comment ≡ ok cards
    → IsWritten key cards
unfolding build_string_value_cards
build_string_value_cards-IsWritten key value comment cards short e =
    let rest = escape value in
    let max_last = max_last_payload comment in
    let part = take (take_part max_last rest) rest in
    elim (Bool-cases (leb 65 (length comment))) [
      | inl t ↦ absurd (cc (t, e))
      | inr t ↦ elim (Bool-cases (leb (length rest) max_last)) [
        | inl one ↦ record {
          first = card_string key value comment;
          others = [];
          whole =
              let built : ◌≡◌ {A = Outcome HeaderError (List (List ℕ))}
                  (ok (card_string key value comment ∷ [])) (ok cards) =
                rw (t, one) at e in
              cc (built);
          card = card_string-IsCard key value comment short;
        }
        | inr more ↦ record {
          first = first_card key part;
          others = chunk_loop (length rest) max_last comment (drop (take_part max_last rest) rest);
          whole =
              let built : ◌≡◌ {A = Outcome HeaderError (List (List ℕ))}
                  (ok (
                    first_card key part
                    ∷ chunk_loop (length rest) max_last comment
                        (drop (take_part max_last rest) rest)))
                  (ok cards) =
                rw (t, more) at e in
              cc (built);
          card = pad_to_card-IsCard key (32 ∷ quote ∷ (part ++ codes "&'")) short;
        }
      ]
    ]

or_nothing : (a : Bool) → (a || false) ≡ true → a ≡ true
or_nothing true e = refl
or_nothing false e = e

or_neither : (a b : Bool) → (a || b) ≡ false → (a ≡ false) × (b ≡ false)
or_neither true b e = absurd (cc)
or_neither false b e = (refl, e)

key_char :
    (d : ℕ) (key : List ℕ)
    → all_key_chars false (d ∷ key) ≡ true
    → (is_key_char d ≡ true) × (all_key_chars false key ≡ true)
key_char d key valid =
    let (first, later) = and_true (is_key_char d || false) (all_key_chars false key) valid in
    (or_nothing (is_key_char d) first, later)

contains-key :
    (key : List ℕ) (c : ℕ)
    → is_key_char c ≡ false
    → all_key_chars false key ≡ true
    → contains c key ≡ false
contains-key [] c bad valid = refl
contains-key (d ∷ key) c bad valid =
    let (first, later) = key_char d key valid in
    elim (Bool-cases (d == c)) [
      | inl e ↦ let is_c : d ≡ c = ground arith in absurd (cc (is_c, first, bad))
      | inr e ↦ rw e (contains-key key c bad later)
    ]

find-append :
    (xs ys : List ℕ) (c : ℕ) → contains c xs ≡ false → find c (xs ++ c ∷ ys) ≡ some (length xs)
unfolding find
find-append [] ys c absent = ground arith
find-append (x ∷ xs) ys c absent =
    let (first, later) = or_neither (x == c) (contains c xs) absent in
    rw (first, find-append xs ys c later) refl

contains-append :
    (xs ys : List ℕ) (c : ℕ)
    → contains c xs ≡ false
    → contains c ys ≡ false
    → contains c (xs ++ ys) ≡ false
contains-append [] ys c e e' = e'
contains-append (x ∷ xs) ys c e e' =
    let (first, later) = or_neither (x == c) (contains c xs) e in
    rw first (contains-append xs ys c later e')

contains-spaces : (n : ℕ) → contains 61 (spaces n) ≡ false
contains-spaces zero = refl
contains-spaces (suc n) = contains-spaces n

key_char-space : (d : ℕ) → is_key_char d ≡ true → is_space d ≡ false
key_char-space d e = ground arith

trim_end_key : (key : List ℕ) → all_key_chars false key ≡ true → trim_end key ≡ key
unfolding trim_end
trim_end_key [] valid = refl
trim_end_key (d ∷ key) valid =
    let (first, later) = key_char d key valid in
    rw (key_char-space d first, trim_end_key key later) refl

trim_start_key : (key : List ℕ) → all_key_chars false key ≡ true → trim_start key ≡ key
unfolding trim_start
trim_start_key [] valid = refl
trim_start_key (d ∷ key) valid =
    let (first, later) = key_char d key valid in rw (key_char-space d first) refl

-- A keyword of at most 8 bytes that the user may set.
pub record IsUserKey (key : List ℕ) : Type 0 where
  pub short : length key ≤ 8
  pub valid : all_key_chars false key ≡ true
  pub ordinary : is_skipped (normalize_keyword key) ≡ false
  pub simple : same key (codes "HIERARCH") ≡ false

key_field_lem : (key rest : List ℕ) → IsUserKey key → key_field (left_8 key ++ 61 ∷ rest) ≡ key
key_field_lem key rest user =
    ap trim (
      ap (λ (n : ℕ). take n (left_8 key ++ 61 ∷ rest)) (sym (length-left_8 key user.short))
      ∙ take-append (left_8 key) (61 ∷ rest))
    ∙ ap trim_start (trim_end-append-spaces key (8 - length key) ∙ trim_end_key key user.valid)
    ∙ trim_start_key key user.valid

-- What find_card_for_key makes of the card.
pub value_part-IsCard :
    (key card : List ℕ)
    → IsUserKey key
    → IsCard key card
    → value_part (normalize_keyword key) (trim_end card) ≡ some (drop 9 (trim_end card))
unfolding value_part
value_part-IsCard key card user is_card =
    let field = key_field_lem key is_card.rest user in
    let text = is_card.text in
    let at : find 61 (left_8 key ++ 61 ∷ is_card.rest) ≡ some 8 =
      find-append (left_8 key) is_card.rest 61 (
        contains-append key (spaces (8 - length key)) 61 (contains-key key 61 refl user.valid)
          (contains-spaces (8 - length key)))
      ∙ ap some (length-left_8 key user.short) in
    let used : is_skipped key ≡ false = elim (Bool-cases (is_skipped key)) [
      | inr e ↦ e
      | inl e ↦ let skips = normalize-is_skipped key e in absurd (cc (skips, user.ordinary))
    ] in
    rw
      (
        text,
        field,
        used,
        user.simple,
        at,
        same_refl (normalize_keyword key),
        is_empty-append (left_8 key) is_card.rest 61,
      )
      refl
