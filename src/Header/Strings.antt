-- ===== src/Header/Strings.antt =====
-- header.rs: a string value read back from the cards that it is written in.
use rustfits.Prelude.{
  ◌⊎◌, ℕ, ◌-◌, ◌<◌, ◌≤◌, ◌≡◌, refl, sym, ap, ◌∙◌, false, inl, inr, Bool-cases, leb, List, [], ◌∷◌,
  ◌++◌, map, append_assoc, none, length, length-append, take, drop, length-take, length-drop, ok,
  arith,
}
use rustfits.Header.Text.{codes, trim_start, trim_end}
use rustfits.Header.Value.{
  quote, amp, split_loop, unescape, continue_loop, Value, text, undefined,
  parse_value_with_continue,
}
use rustfits.Header.Build.{
  left_8, escape, pad_to_card, card_string, back_off, take_part, first_card, chunk_loop,
  max_last_payload, build_string_value_cards,
}
use rustfits.Header.Trim.{trim_end-append-trim_end, trim_end-pad_to_card}
use rustfits.Header.Quoted.{escape-IsPaired, amp-IsPaired, append-IsPaired}
use rustfits.Header.Parts.{take_part-IsCut}
use rustfits.Header.Chain.{unescape-amp, IsEnd, continue_loop_end, payload_lem, chunk_loop-IsRest}
use rustfits.Header.Single.{
  length-left_8, closed_value, parse_card, IsReadBack, card_string-IsReadBack,
}

module _ (key v : List ℕ) (after : List (List ℕ)) (short : length key ≤ 8) (end : IsEnd after) where
  -- The value is cut into parts.
  chunked-IsReadBack :
      (comment : List ℕ)
      → max_last_payload comment < length (escape v)
      → length comment ≤ 63
      → IsReadBack v comment (
          parse_value_with_continue
            (map trim_end (
                chunk_loop
                  (length (escape v))
                  (max_last_payload comment)
                  comment
                  (drop (take_part (max_last_payload comment) (escape v)) (escape v)))
              ++ after)
            (drop 9 (
              trim_end (
                first_card key
                  (take (take_part (max_last_payload comment) (escape v)) (escape v))))))
  unfolding split_loop trim_end trim_start
  chunked-IsReadBack comment long few =
      let rest = escape v in
      let max_last = max_last_payload comment in
      let n = take_part max_last rest in
      let (cut, pos, less, cap) = take_part-IsCut v max_last (payload_lem comment few) long in
      let len_left = ap length cut.taken in
      let len_right = ap length cut.dropped in
      let len_take = length-take n rest in
      let len_drop = length-drop n rest in
      let cards = chunk_loop (length rest) max_last comment (escape cut.right) in
      let got =
        chunk_loop-IsRest comment few after end (length rest) cut.right cut.left (omega arith)
          (omega arith) in
      let part = escape cut.left ++ amp ∷ [] in
      let together : left_8 key ++ (codes "= '" ++ (escape cut.left ++ codes "&'"))
          ≡ left_8 key ++ (codes "= '" ++ (part ++ quote ∷ [])) =
        ap (λ (l : List ℕ). left_8 key ++ (codes "= '" ++ l))
          (sym (append_assoc (escape cut.left) (amp ∷ []) (quote ∷ []))) in
      let a = length-append (left_8 key) (codes "= '" ++ (part ++ quote ∷ [])) in
      let b = length-append part (quote ∷ []) in
      let c = length-append (escape cut.left) (amp ∷ []) in
      let k = length-left_8 key short in
      let card : trim_end (first_card key (escape cut.left))
          ≡ left_8 key ++ (codes "= '" ++ (part ++ quote ∷ [])) =
        ap (λ (l : List ℕ). trim_end (pad_to_card l)) together
        ∙ trim_end-pad_to_card (left_8 key ++ (codes "= '" ++ (part ++ quote ∷ []))) (omega arith)
        ∙ closed_value key part [] in
      rw (cut.taken, cut.dropped)
        (record {
          got = cut.left ++ got.read;
          read =
              parse_card key (first_card key (escape cut.left)) part []
                (map trim_end cards ++ after) 0 none short card
                (append-IsPaired (escape cut.left) (amp ∷ []) (escape-IsPaired cut.left)
                  amp-IsPaired)
                refl
              ∙ ap (λ (w : List ℕ × List ℕ). (text w.0, w.1))
                  (ap (λ (l : List ℕ). continue_loop (map trim_end cards ++ after) l [])
                      (unescape-amp cut.left)
                    ∙ got.loop);
          same =
              sym (trim_end-append-trim_end cut.left got.read)
              ∙ ap (λ (l : List ℕ). trim_end (cut.left ++ l)) got.value
              ∙ trim_end-append-trim_end cut.left cut.right
              ∙ ap trim_end (sym cut.whole);
        })

-- The value of the first of the cards, as find_card_for_key finds it behind a keyword, with the rest
-- of the cards behind it.
abbrev pub read_first : List (List ℕ) → Value × List ℕ
read_first [] = (undefined, [])
read_first (card ∷ cards) = parse_value_with_continue cards (drop 9 card)

-- Where a comment is written whole: on any string up to 47 bytes, and up to 63 on one that is too long
-- for a card with the comment, whose last card has the room.
abbrev pub HasRoom : List ℕ → List ℕ → Type 0
HasRoom value comment =
    (length comment ≤ 47)
    ⊎ ((length comment ≤ 63) × (max_last_payload comment < length (escape value)))

short_of_64 : (value comment : List ℕ) → HasRoom value comment → length comment ≤ 63
short_of_64 value comment (inl few) = omega arith
short_of_64 value comment (inr (few, long)) = few

on_one_card :
    (value comment : List ℕ)
    → HasRoom value comment
    → length (escape value) ≤ max_last_payload comment
    → length comment ≤ 47
on_one_card value comment (inl few) one = few
on_one_card value comment (inr (few, long)) one = absurd (omega arith)

-- A string of any length that is written for a keyword of at most 8 bytes, with a comment of at most
-- 47, or of at most 63 where the string takes CONTINUE cards, is read back up to spaces at its end, over
-- all those cards, and so is its comment, whatever cards follow, the first of which is no CONTINUE card.
-- The cards are trimmed, as the header keeps them.
pub parse_value_with_continue-build_string_value_cards :
    (key value comment : List ℕ) (after : List (List ℕ))
    → length key ≤ 8
    → HasRoom value comment
    → IsEnd after
    → (cards : List (List ℕ)) × (build_string_value_cards key value comment ≡ ok cards)
      × IsReadBack value comment (read_first (map trim_end cards ++ after))
unfolding build_string_value_cards
parse_value_with_continue-build_string_value_cards key value comment after short few end =
    let room_in_all : length comment ≤ 63 = short_of_64 value comment few in
    let t : leb 65 (length comment) ≡ false = ground arith in
    let rest = escape value in
    let max_last = max_last_payload comment in
    elim (Bool-cases (leb (length rest) max_last)) [
      | inl one ↦ (
        card_string key value comment ∷ [],
        rw (t, one) refl,
        card_string-IsReadBack key value after short end comment (ground arith)
            (on_one_card value comment few (ground arith)),
      )
      | inr more ↦ (
        first_card key (take (take_part max_last rest) rest)
            ∷ chunk_loop (length rest) max_last comment (drop (take_part max_last rest) rest),
        rw (t, more) refl,
        chunked-IsReadBack key value after short end comment (ground arith) room_in_all,
      )
    ]

-- A comment of 64 bytes, the longest that is accepted, leaves 1 byte for the last card. The string of
-- one quote, which is written with 2, then stands on one card that promises another, and there is
-- none: it is read back with the `&`, and the comment is lost.
pub build_string_value_cards-dangling :
    (key comment : List ℕ) (after : List (List ℕ))
    → length key ≤ 8
    → length comment ≡ 64
    → IsEnd after
    → (cards : List (List ℕ)) × (build_string_value_cards key (quote ∷ []) comment ≡ ok cards)
      × (read_first (map trim_end cards ++ after) ≡ (text (quote ∷ amp ∷ []), []))
unfolding build_string_value_cards escape take_part back_off chunk_loop unescape trim_end trim_start
    split_loop
build_string_value_cards-dangling key [] after short full end = absurd (omega arith)
build_string_value_cards-dangling key (c ∷ cs) after short full end =
    let part = escape (quote ∷ []) ++ amp ∷ [] in
    let payload : 65 - length (c ∷ cs) ≡ 1 = omega arith in
    let t : leb 65 (length (c ∷ cs)) ≡ false = ground arith in
    let a = length-append (left_8 key) (codes "= '" ++ (part ++ quote ∷ [])) in
    let k = length-left_8 key short in
    let card : trim_end (first_card key (quote ∷ quote ∷ []))
        ≡ left_8 key ++ (codes "= '" ++ (part ++ quote ∷ [])) =
      trim_end-pad_to_card (left_8 key ++ (codes "= '" ++ (part ++ quote ∷ []))) (omega arith)
      ∙ closed_value key part [] in
    (
      first_card key (quote ∷ quote ∷ []) ∷ [],
      rw full refl,
      parse_card key (first_card key (quote ∷ quote ∷ [])) part [] after 0 none short card
            (append-IsPaired (escape (quote ∷ [])) (amp ∷ []) (escape-IsPaired (quote ∷ []))
              amp-IsPaired)
            refl
          ∙ ap (λ (w : List ℕ × List ℕ). (text w.0, w.1))
              (continue_loop_end after (quote ∷ amp ∷ []) [] end),
    )
