-- ===== src/Header/Chain.antt =====
-- header.rs: the CONTINUE cards of a string, read back.
use rustfits.Prelude.{
  ℕ, zero, suc, ◌<◌, ◌≤◌, ◌≡◌, refl, sym, ap, ◌∙◌, false, if◌then◌else◌, inl, inr, Bool-cases, leb,
  List, [], ◌∷◌, ◌++◌, map, append-nil, append_assoc, Option, none, some, length, length-append,
  take, drop, length-take, length-drop, arith,
}
use rustfits.Header.Text.{codes, trim_start, trim_end, trim, starts_with, ends_with}
use rustfits.Header.Value.{
  quote, amp, split_loop, comment_of, split_value_comment, unescape, join_comment, continue_loop,
}
use rustfits.Header.Build.{
  spaces, escape, take_part, middle_card, last_card, chunk_loop, max_last_payload,
}
use rustfits.Header.Trim.{
  and_false, trim_end-append, trim_end_idem, trim_end-append-trim_end, trim-trim_end, trim_space,
  ends_with_last, pop_last, trim_end-pad_to_card,
}
use rustfits.Header.Quoted.{
  IsPaired, escape-IsPaired, amp-IsPaired, append-IsPaired, unescape-escape,
  extract_fits_string_lem, is_quoted_lem, value_quoted, split_value_comment_space,
}
use rustfits.Header.Parts.{take_part-IsCut}

-- A CONTINUE card behind a text that ends with `&`.
pub continue_loop_card :
    (card body tail acc comment : List ℕ) (cards : List (List ℕ)) (n : ℕ) (more : Option (List ℕ))
    → trim_end card ≡ codes "CONTINUE  '" ++ (body ++ quote ∷ tail)
    → IsPaired body
    → split_loop false tail ≡ (spaces n, more)
    → continue_loop (card ∷ cards) (acc ++ amp ∷ []) comment
      ≡ continue_loop cards
          (acc ++ trim_end (unescape false body))
          (join_comment comment (comment_of more))
unfolding continue_loop starts_with
continue_loop_card card body tail acc comment cards n more is_card paired ends =
    let value : split_value_comment (32 ∷ 32 ∷ quote ∷ (body ++ quote ∷ tail))
        ≡ (quote ∷ (body ++ quote ∷ []), comment_of more) =
      split_value_comment_space (32 ∷ quote ∷ (body ++ quote ∷ tail))
      ∙ value_quoted body tail n more paired ends in
    rw
      (
        is_card,
        value,
        ends_with_last amp acc,
        is_quoted_lem body,
        pop_last amp acc,
        extract_fits_string_lem body,
      )
      refl

pub closed :
    (head body ys : List ℕ)
    → trim_end (head ++ (body ++ quote ∷ ys)) ≡ head ++ (body ++ quote ∷ trim_end ys)
closed head body ys =
    ap trim_end (sym (append_assoc head body (quote ∷ ys)))
    ∙ trim_end-append (head ++ body) ys quote refl
    ∙ append_assoc head body (quote ∷ trim_end ys)

pub unescape-amp : (v : List ℕ) → trim_end (unescape false (escape v ++ amp ∷ [])) ≡ v ++ amp ∷ []
unfolding unescape trim_end
unescape-amp v = ap trim_end (unescape-escape v (amp ∷ [])) ∙ trim_end-append v [] amp refl

-- A card in the middle.
pub continue_loop-middle_card :
    (v acc comment : List ℕ) (cards : List (List ℕ))
    → length (escape v) ≤ 67
    → continue_loop (trim_end (middle_card (escape v)) ∷ cards) (acc ++ amp ∷ []) comment
      ≡ continue_loop cards ((acc ++ v) ++ amp ∷ []) comment
unfolding split_loop trim_end
continue_loop-middle_card v acc comment cards short =
    let body = escape v ++ amp ∷ [] in
    let head = codes "CONTINUE  '" in
    let end : escape v ++ (amp ∷ quote ∷ []) ≡ body ++ quote ∷ [] =
      sym (append_assoc (escape v) (amp ∷ []) (quote ∷ [])) in
    let n = length-append (escape v) (amp ∷ quote ∷ []) in
    let card : trim_end (trim_end (middle_card (escape v))) ≡ head ++ (body ++ quote ∷ []) =
      trim_end_idem (middle_card (escape v))
      ∙ trim_end-pad_to_card (head ++ (escape v ++ amp ∷ quote ∷ [])) (omega arith)
      ∙ ap (λ (l : List ℕ). trim_end (head ++ l)) end
      ∙ closed head body [] in
    continue_loop_card (trim_end (middle_card (escape v))) body [] acc comment cards 0 none card
      (append-IsPaired (escape v) (amp ∷ []) (escape-IsPaired v) amp-IsPaired) refl
    ∙ ap (λ (l : List ℕ). continue_loop cards (acc ++ l) comment) (unescape-amp v)
    ∙ ap (λ (l : List ℕ). continue_loop cards l comment) (sym (append_assoc acc v (amp ∷ [])))

join_empty : (c : List ℕ) → join_comment [] c ≡ c
join_empty [] = refl
join_empty (x ∷ c) = refl

unescape_all : (v : List ℕ) → unescape false (escape v) ≡ v
unfolding unescape
unescape_all v =
    ap (unescape false) (sym (append-nil (escape v))) ∙ unescape-escape v [] ∙ append-nil v

-- The last card, with the comment.
pub continue_loop-last_card :
    (v acc comment : List ℕ) (cards : List (List ℕ))
    → length (escape v) ≤ max_last_payload comment
    → length comment ≤ 64
    → continue_loop (trim_end (last_card (escape v) comment) ∷ cards) (acc ++ amp ∷ []) []
      ≡ continue_loop cards (acc ++ trim_end v) (trim comment)
unfolding split_loop trim_end trim_start
continue_loop-last_card v acc [] cards short few =
    let head = codes "CONTINUE  '" in
    let n = length-append (escape v) (quote ∷ []) in
    let card : trim_end (trim_end (last_card (escape v) [])) ≡ head ++ (escape v ++ quote ∷ []) =
      trim_end_idem (last_card (escape v) [])
      ∙ trim_end-pad_to_card (head ++ (escape v ++ quote ∷ [])) (omega arith)
      ∙ closed head (escape v) [] in
    continue_loop_card (trim_end (last_card (escape v) [])) (escape v) [] acc [] cards 0 none card
      (escape-IsPaired v) refl
    ∙ ap (λ (l : List ℕ). continue_loop cards (acc ++ trim_end l) []) (unescape_all v)
continue_loop-last_card v acc (c ∷ cs) cards short few =
    let comment : List ℕ = c ∷ cs in
    let head = codes "CONTINUE  '" in
    let slash = trim_end-append (32 ∷ []) (32 ∷ comment) 47 refl in
    let n = length-append (escape v) (codes "' / " ++ comment) in
    let card : trim_end (trim_end (last_card (escape v) comment))
        ≡ head ++ (escape v ++ quote ∷ 32 ∷ 47 ∷ trim_end (32 ∷ comment)) =
      trim_end_idem (last_card (escape v) comment)
      ∙ trim_end-pad_to_card (head ++ (escape v ++ (codes "' / " ++ comment))) (omega arith)
      ∙ closed head (escape v) (32 ∷ 47 ∷ 32 ∷ comment)
      ∙ ap (λ (l : List ℕ). head ++ (escape v ++ quote ∷ l)) slash in
    continue_loop_card (trim_end (last_card (escape v) comment)) (escape v)
      (32 ∷ 47 ∷ trim_end (32 ∷ comment)) acc [] cards 1 (some (trim_end (32 ∷ comment))) card
      (escape-IsPaired v) refl
    ∙ (λ i.
        continue_loop cards (acc ++ trim_end (unescape_all v i))
          (join_empty (trim (trim_end (32 ∷ comment))) i))
    ∙ ap (λ (l : List ℕ). continue_loop cards (acc ++ trim_end v) l)
        (trim-trim_end (32 ∷ comment) ∙ trim_space comment)

-- No CONTINUE card comes next.
abbrev pub IsEnd : List (List ℕ) → Type 0
IsEnd [] = Unit
IsEnd (card ∷ cards) = starts_with (codes "CONTINUE") (trim_end card) ≡ false

-- The loop stops where no CONTINUE card comes next.
pub continue_loop_end :
    (cards : List (List ℕ)) (s comment : List ℕ)
    → IsEnd cards
    → continue_loop cards s comment ≡ (s, comment)
unfolding continue_loop
continue_loop_end [] s comment e = refl
continue_loop_end (card ∷ cards) s comment e = rw (e, and_false (ends_with amp s)) refl

chunk_step :
    (fuel max_last : ℕ) (comment rest : List ℕ)
    → 0 < length rest
    → chunk_loop (suc fuel) max_last comment rest ≡ (
        if leb (length rest) max_last
        then last_card rest comment ∷ []
        else middle_card (take (take_part max_last rest) rest)
          ∷ chunk_loop fuel max_last comment (drop (take_part max_last rest) rest))
unfolding chunk_loop
chunk_step fuel max_last comment [] nonempty = absurd (omega arith)
chunk_step fuel max_last comment (c ∷ s) nonempty = refl

-- The cards behind the first give back the rest of the value, up to spaces at its end.
pub record IsRest (v acc comment : List ℕ) (cards after : List (List ℕ)) : Type 0 where
  pub read : List ℕ
  pub loop :
      continue_loop (map trim_end cards ++ after) (acc ++ amp ∷ []) [] ≡ (acc ++ read, trim comment)
  pub value : trim_end read ≡ trim_end v

pub payload_lem : (comment : List ℕ) → length comment ≤ 63 → 1 < max_last_payload comment
payload_lem [] few = omega arith
payload_lem (c ∷ cs) few = omega arith

module _ (comment : List ℕ) (few : length comment ≤ 63) (after : List (List ℕ))
    (end : IsEnd after) where
  pub chunk_loop-IsRest :
      (fuel : ℕ) (v acc : List ℕ)
      → length (escape v) ≤ fuel
      → 0 < length (escape v)
      → IsRest v acc comment (chunk_loop fuel (max_last_payload comment) comment (escape v)) after
  chunk_loop-IsRest zero v acc enough nonempty = absurd (omega arith)
  chunk_loop-IsRest (suc fuel) v acc enough nonempty =
      elim (Bool-cases (leb (length (escape v)) (max_last_payload comment))) [
        | inl t ↦
            let step = chunk_step fuel (max_last_payload comment) comment (escape v) nonempty in
            rw (step, t)
              (record {
                read = trim_end v;
                loop =
                    continue_loop-last_card v acc comment after (ground arith) (omega arith)
                    ∙ continue_loop_end after (acc ++ trim_end v) (trim comment) end;
                value = trim_end_idem v;
              })
        | inr t ↦
            let rest = escape v in
            let max_last = max_last_payload comment in
            let step = chunk_step fuel max_last comment rest nonempty in
            let (cut, pos, less, cap) =
              take_part-IsCut v max_last (payload_lem comment few) (ground arith) in
            let n = take_part max_last rest in
            let len_left = ap length cut.taken in
            let len_right = ap length cut.dropped in
            let len_take = length-take n rest in
            let len_drop = length-drop n rest in
            let ih =
              chunk_loop-IsRest fuel cut.right (acc ++ cut.left) (omega arith) (omega arith) in
            rw (step, t, cut.taken, cut.dropped)
              (record {
                read = cut.left ++ ih.read;
                loop =
                    continue_loop-middle_card cut.left acc []
                      (map trim_end (chunk_loop fuel max_last comment (escape cut.right)) ++ after)
                      (omega arith)
                    ∙ ih.loop
                    ∙ ap (λ (l : List ℕ). (l, trim comment)) (append_assoc acc cut.left ih.read);
                value =
                    sym (trim_end-append-trim_end cut.left ih.read)
                    ∙ ap (λ (l : List ℕ). trim_end (cut.left ++ l)) ih.value
                    ∙ trim_end-append-trim_end cut.left cut.right
                    ∙ ap trim_end (sym cut.whole);
              })
      ]
