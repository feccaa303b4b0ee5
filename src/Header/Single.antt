-- ===== src/Header/Single.antt =====
-- header.rs: a string value read back from a card of its own.
use rustfits.Prelude.{
  ℕ, zero, suc, ◌+◌, ◌-◌, ◌≤◌, ◌≡◌, refl, sym, ap, ◌∙◌, false, inl, inr, Bool-cases, leb, List, [],
  ◌∷◌, ◌++◌, append_assoc, Option, none, some, length, length-append, length-replicate, drop, arith,
}
use rustfits.Header.Text.{codes, trim_start, trim_end, trim}
use rustfits.Header.Value.{
  quote, split_loop, comment_of, unescape, continue_loop, Value, text, parse_value_with_continue,
}
use rustfits.Header.Build.{spaces, left_8, escape, pad_to_card, card_string, max_last_payload}
use rustfits.Header.Trim.{
  trim_end-append, trim_end_idem, trim_end-append-spaces, trim-trim_end, trim_space,
  trim_end-pad_to_card,
}
use rustfits.Header.Quoted.{
  IsPaired, escape-IsPaired, spaces-IsPaired, append-IsPaired, unescape-escape, unescape-spaces,
  extract_fits_string_lem, is_quoted_lem, value_quoted,
}
use rustfits.Header.Chain.{closed, IsEnd, continue_loop_end}

drop-append : (xs ys : List ℕ) (c : ℕ) → drop (suc (length xs)) (xs ++ c ∷ ys) ≡ ys
drop-append [] ys c = refl
drop-append (x ∷ xs) ys c = drop-append xs ys c

pub length-left_8 : (key : List ℕ) → length key ≤ 8 → length (left_8 key) ≡ 8
length-left_8 key short =
    let n = length-append key (spaces (8 - length key)) in
    let m : length (spaces (8 - length key)) ≡ 8 - length key =
      length-replicate (8 - length key) 32 in
    omega arith

pub closed_value :
    (key body tail : List ℕ)
    → trim_end (left_8 key ++ (codes "= '" ++ (body ++ quote ∷ tail)))
      ≡ left_8 key ++ (codes "= '" ++ (body ++ quote ∷ trim_end tail))
closed_value key body tail =
    ap trim_end (sym (append_assoc (left_8 key) (codes "= '") (body ++ quote ∷ tail)))
    ∙ closed (left_8 key ++ codes "= '") body tail
    ∙ append_assoc (left_8 key) (codes "= '") (body ++ quote ∷ trim_end tail)

-- The value of a card whose text is known.
pub parse_card :
    (key card body tail : List ℕ) (after : List (List ℕ)) (n : ℕ) (more : Option (List ℕ))
    → length key ≤ 8
    → trim_end card ≡ left_8 key ++ (codes "= '" ++ (body ++ quote ∷ tail))
    → IsPaired body
    → split_loop false tail ≡ (spaces n, more)
    → parse_value_with_continue after (drop 9 (trim_end card)) ≡ (
      text (continue_loop after (trim_end (unescape false body)) (comment_of more)).0,
      (continue_loop after (trim_end (unescape false body)) (comment_of more)).1,
    )
unfolding parse_value_with_continue
parse_card key card body tail after n more short is_card paired ends =
    let part : drop 9 (trim_end card) ≡ 32 ∷ quote ∷ (body ++ quote ∷ tail) =
      ap (drop 9) is_card
      ∙ ap (λ (k : ℕ). drop (suc k) (left_8 key ++ (codes "= '" ++ (body ++ quote ∷ tail))))
          (sym (length-left_8 key short))
      ∙ drop-append (left_8 key) (32 ∷ quote ∷ (body ++ quote ∷ tail)) 61 in
    rw
      (
        part,
        value_quoted body tail n more paired ends,
        is_quoted_lem body,
        extract_fits_string_lem body,
      )
      refl

-- A card reads back as the value, up to spaces at its end, and the comment.
pub record IsReadBack (value comment : List ℕ) (r : Value × List ℕ) : Type 0 where
  pub got : List ℕ
  pub read : r ≡ (text got, trim comment)
  pub same : trim_end got ≡ trim_end value

split_loop_slash : (n : ℕ) (y : List ℕ) → split_loop false (spaces n ++ 47 ∷ y) ≡ (spaces n, some y)
unfolding split_loop
split_loop_slash zero y = refl
split_loop_slash (suc n) y = rw (split_loop_slash n y) refl

head_assoc :
    (k e tail : List ℕ)
    → (k ++ (codes "= '" ++ (e ++ quote ∷ []))) ++ tail ≡ k ++ (codes "= '" ++ (e ++ quote ∷ tail))
head_assoc k e tail =
    append_assoc k (codes "= '" ++ (e ++ quote ∷ [])) tail
    ∙ ap (λ (l : List ℕ). k ++ (codes "= '" ++ l)) (append_assoc e (quote ∷ []) tail)

unescape_padded : (v : List ℕ) → trim_end (unescape false (left_8 (escape v))) ≡ trim_end v
unescape_padded v =
    let n = 8 - length (escape v) in
    ap trim_end (unescape-escape v (spaces n) ∙ ap (λ (l : List ℕ). v ++ l) (unescape-spaces n))
    ∙ trim_end-append-spaces v n

module _ (key v : List ℕ) (after : List (List ℕ)) (short : length key ≤ 8) (end : IsEnd after) where
  abbrev body : List ℕ
  body = left_8 (escape v)

  body-IsPaired : IsPaired body
  body-IsPaired =
      append-IsPaired (escape v) (spaces (8 - length (escape v))) (escape-IsPaired v)
        (spaces-IsPaired (8 - length (escape v)))

  -- A card on its own, which is not cut.
  single-IsReadBack :
      (card tail comment : List ℕ) (n : ℕ) (more : Option (List ℕ))
      → trim_end card ≡ left_8 key ++ (codes "= '" ++ (body ++ quote ∷ tail))
      → split_loop false tail ≡ (spaces n, more)
      → comment_of more ≡ trim comment
      → IsReadBack v comment (parse_value_with_continue after (drop 9 (trim_end card)))
  single-IsReadBack card tail comment n more is_card ends is_comment =
      let value = unescape_padded v in
      record {
        got = trim_end v;
        read =
            parse_card key card body tail after n more short is_card body-IsPaired ends
            ∙ ap (λ (w : List ℕ × List ℕ). (text w.0, w.1))
                ((λ i. continue_loop after (value i) (is_comment i))
                  ∙ continue_loop_end after (trim_end v) (trim comment) end);
        same = trim_end_idem v;
      }

  -- The text of the card, before it is padded.
  abbrev card_text : List ℕ → List ℕ
  card_text tail = left_8 key ++ (codes "= '" ++ (body ++ quote ∷ tail))

  length-card_text : (tail : List ℕ) → length (card_text tail) ≡ 12 + length body + length tail
  length-card_text tail =
      let a = length-append (left_8 key) (codes "= '" ++ (body ++ quote ∷ tail)) in
      let b = length-append body (quote ∷ tail) in let c = length-left_8 key short in omega arith

  trim_end-card_text :
      (tail : List ℕ)
      → length (card_text tail) ≤ 80
      → trim_end (pad_to_card (card_text tail)) ≡ card_text (trim_end tail)
  trim_end-card_text tail fits =
      trim_end-pad_to_card (card_text tail) fits ∙ closed_value key body tail

  commented-IsReadBack :
      (n : ℕ) (comment : List ℕ)
      → length (card_text (spaces n ++ (codes "/ " ++ comment))) ≤ 80
      → IsReadBack v comment (
          parse_value_with_continue after
            (drop 9 (trim_end (pad_to_card (card_text (spaces n ++ (codes "/ " ++ comment)))))))
  commented-IsReadBack n comment fits =
      let tail = spaces n ++ (codes "/ " ++ comment) in
      let slash = trim_end-append (spaces n) (32 ∷ comment) 47 refl in
      single-IsReadBack (pad_to_card (card_text tail)) (spaces n ++ 47 ∷ trim_end (32 ∷ comment))
        comment n (some (trim_end (32 ∷ comment)))
        (trim_end-card_text tail fits ∙ ap card_text slash)
        (split_loop_slash n (trim_end (32 ∷ comment)))
        (trim-trim_end (32 ∷ comment) ∙ trim_space comment)

  -- The value stands on one card.
  pub card_string-IsReadBack :
      (comment : List ℕ)
      → length (escape v) ≤ max_last_payload comment
      → length comment ≤ 47
      → IsReadBack v comment
          (parse_value_with_continue after (drop 9 (trim_end (card_string key v comment))))
  unfolding card_string split_loop trim_end trim_start
  card_string-IsReadBack [] fits few =
      let n = length-card_text [] in
      let b = length-append (escape v) (spaces (8 - length (escape v))) in
      let p : length (spaces (8 - length (escape v))) ≡ 8 - length (escape v) =
        length-replicate (8 - length (escape v)) 32 in
      single-IsReadBack (pad_to_card (card_text [])) [] [] 0 none
        (trim_end-card_text [] (omega arith)) refl refl
  card_string-IsReadBack (c ∷ cs) fits few =
      let comment : List ℕ = c ∷ cs in
      let gap = 31 - length (card_text []) in
      let n = length-card_text [] in
      let b = length-append (escape v) (spaces (8 - length (escape v))) in
      let p : length (spaces (8 - length (escape v))) ≡ 8 - length (escape v) =
        length-replicate (8 - length (escape v)) 32 in
      let far = length-card_text (spaces gap ++ (codes "/ " ++ comment)) in
      let m = length-append (spaces gap) (codes "/ " ++ comment) in
      let g : length (spaces gap) ≡ gap = length-replicate gap 32 in
      let near = length-card_text (spaces 1 ++ (codes "/ " ++ comment)) in
      elim (Bool-cases (leb (length (card_text [])) 31)) [
        | inl t ↦
            rw (t, head_assoc (left_8 key) body (spaces gap ++ (codes "/ " ++ comment)))
              (commented-IsReadBack gap comment (ground arith))
        | inr t ↦
            rw (t, head_assoc (left_8 key) body (codes " / " ++ comment))
              (commented-IsReadBack 1 comment (omega arith))
      ]
