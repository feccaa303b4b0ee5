-- ===== src/Header/Edit.antt =====
-- header.rs: the cards of a header looked up, replaced and removed.
use mathlib.Core.Option
use rustfits.Prelude.{
  ℕ, zero, suc, ◌+◌, if◌then◌else◌, Bool, true, false, not, ◌&&◌, ◌||◌, List, [], ◌∷◌, ◌++◌, Option,
  none, some, length, take, drop, map, get_or,
}
use rustfits.Header.Text.{codes, is_empty, trim_end, same, starts_with, ends_with, find}
use rustfits.Header.Value.{
  split_value_comment, inner, is_quoted, amp, Value, parse_value_with_continue,
}
use rustfits.Header.Keyword.{
  key_field, long_key, keyword_of, normalize_keyword, storage_keyword, is_skipped, is_protected_key,
}

-- `Iterator::position`
abbrev pub position : (List ℕ → Bool) → List (List ℕ) → Option ℕ
position test [] = none
position test (c ∷ cs) = if test c then some 0 else Option.map suc (position test cs)

abbrev pub named_part : Bool → List ℕ → Option ℕ → Option (List ℕ)
named_part matches card none = none
named_part matches card (some eq_pos) = if matches then some (drop (suc eq_pos) card) else none

abbrev pub hierarch_part : List ℕ → List ℕ → Option ℕ → Option (List ℕ)
hierarch_part key card none = none
hierarch_part key card (some eq_pos) =
    named_part (same (normalize_keyword (long_key eq_pos card)) key) card (some eq_pos)

-- One card of the loop of `find_card_for_key`, trimmed: the value part where the card has the key.
unfoldable pub value_part : List ℕ → List ℕ → Option (List ℕ)
value_part key card =
    if is_empty card || is_skipped (key_field card)
    then none
    else if same (key_field card) (codes "HIERARCH")
    then hierarch_part key card (find 61 card)
    else named_part (same (normalize_keyword (key_field card)) key) card (find 61 card)

abbrev pub found : ℕ → Option (List ℕ) → Option (ℕ × List ℕ) → Option (ℕ × List ℕ)
found i (some part) later = some (i, part)
found i none later = later

unfoldable pub find_card_for_key : ℕ → List (List ℕ) → List ℕ → Option (ℕ × List ℕ)
find_card_for_key i [] key = none
find_card_for_key i (card ∷ cards) key =
    found i (value_part key (trim_end card)) (find_card_for_key (suc i) cards key)

abbrev pub value_at : List (List ℕ) → Option (ℕ × List ℕ) → Option (Value × List ℕ)
value_at cards none = none
value_at cards (some (i, part)) = some (parse_value_with_continue (drop (suc i) cards) part)

-- The value and the comment of a key, as `header[key]` and `comment_of` read them.
unfoldable pub lookup_value : List (List ℕ) → List ℕ → Option (Value × List ℕ)
lookup_value cards key = value_at cards (find_card_for_key 0 cards key)

abbrev pub drop_to : Option ℕ → List ℕ → Option (List ℕ)
drop_to none card = none
drop_to (some eq_pos) card = some (drop (suc eq_pos) card)

abbrev pub ends_in_amp : Option (List ℕ) → Bool
ends_in_amp none = false
ends_in_amp (some part) =
    let raw = (split_value_comment part).0 in is_quoted raw && ends_with amp (inner raw)

unfoldable pub card_value_ends_with_amp : List ℕ → Bool
card_value_ends_with_amp card =
    let trimmed = trim_end card in
    ends_in_amp (
      if starts_with (codes "CONTINUE") trimmed
      then some (drop 8 trimmed)
      else drop_to (find 61 trimmed) trimmed)

abbrev pub is_continue : List ℕ → Bool
is_continue card = starts_with (codes "CONTINUE") (trim_end card)

-- How many CONTINUE cards go on with the value of a card.
unfoldable pub chain_more : List ℕ → List (List ℕ) → ℕ
chain_more last [] = 0
chain_more last (next ∷ cards) =
    let more = suc (chain_more next cards) in
    if card_value_ends_with_amp last && is_continue next then more else 0

unfoldable pub find_chain_end : List (List ℕ) → ℕ → ℕ
find_chain_end cards start = suc start + chain_more (get_or cards start []) (drop (suc start) cards)

abbrev pub has_keyword : List ℕ → Option (List ℕ) → Bool
has_keyword key none = false
has_keyword key (some k) = not (is_skipped k) && same (normalize_keyword k) key

abbrev pub names_key : List ℕ → List ℕ → Bool
names_key key card = has_keyword key (keyword_of card)

abbrev pub is_end_card : List ℕ → Bool
is_end_card card = same (trim_end card) (codes "END")

abbrev pub spelling : Bool → List ℕ → Option (List ℕ) → Option (List ℕ)
spelling matches k later = if matches then some (storage_keyword k) else later

-- The search ends at a card without a keyword, an empty one.
unfoldable pub existing_storage_keyword : List (List ℕ) → List ℕ → Option (List ℕ)
existing_storage_keyword [] key = none
existing_storage_keyword (card ∷ cards) key =
    let later = existing_storage_keyword cards key in
    elim (keyword_of card) [
      | none ↦ none
      | some k ↦ spelling (not (is_skipped k) && same (normalize_keyword k) key) k later
    ]

-- `cards.splice(start..end, new)`
abbrev pub splice : ℕ → ℕ → List (List ℕ) → List (List ℕ) → List (List ℕ)
splice start end new cards = take start cards ++ (new ++ drop end cards)

abbrev pub splice_at : Option ℕ → List (List ℕ) → List (List ℕ) → List (List ℕ)
splice_at (some start) new cards = splice start (find_chain_end cards start) new cards
splice_at none new cards =
    let end_pos = Option.get_or (position is_end_card cards) (length cards) in
    splice end_pos end_pos new cards

unfoldable pub set_card_for_key : List (List ℕ) → List ℕ → List (List ℕ) → List (List ℕ)
set_card_for_key cards key new_cards =
    splice_at (position (names_key key) cards) (map trim_end new_cards) cards

abbrev pub delete_at : Option ℕ → List (List ℕ) → List (List ℕ) × Bool
delete_at none cards = (cards, false)
delete_at (some i) cards = (take i cards ++ drop (find_chain_end cards i) cards, true)

unfoldable pub delete_card_for_key : List (List ℕ) → List ℕ → List (List ℕ) × Bool
delete_card_for_key cards key = delete_at (position (names_key key) cards) cards

abbrev pub is_protected_card : List ℕ → Option (List ℕ) → Bool
is_protected_card card none = false
is_protected_card card (some k) = is_protected_key k

-- A turn takes at least one card, so as many as there are cards are enough.
unfoldable pub filter_loop : ℕ → List (List ℕ) → List (List ℕ)
filter_loop zero cards = []
filter_loop (suc fuel) [] = []
filter_loop (suc fuel) (card ∷ cards) =
    let past = filter_loop fuel (drop (chain_more card cards) cards) in
    let kept = filter_loop fuel cards in
    if is_protected_card card (keyword_of card) then past else card ∷ kept

unfoldable pub filter_protected_cards : List (List ℕ) → List (List ℕ)
filter_protected_cards cards = filter_loop (length cards) cards
